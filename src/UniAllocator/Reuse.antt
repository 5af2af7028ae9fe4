-- ===== src/UniAllocator/Reuse.antt =====
-- `Alloc` from the small bin of exactly the size it needs.
use unimem.Base.{
  ℕ, suc, ◌+◌, ◌%◌, ◌≤◌, ◌<◌, ◌^◌, ◌≡◌, ◌≢◌, refl, ◌∙◌, arith, true, false, ◌==◌, leb, bit_and,
  bit_or, List, [], ◌∷◌, some,
}
use unimem.Word.{shr, add32, not32}
use unimem.Word.Bits.{bit}
use unimem.Word.Masks.{low_one, low_two}
use unimem.Machine.{Ptr, null, State, ok}
use unimem.Machine.Returns.{write, load-ok, store-ok}
use unimem.Chunk.{head_at, fd_at, pinuse_bit, chunk2mem, request2size}
use unimem.Chunk.Sizes.{pad_request-div}
use unimem.Chunk.Head.{IsSize, inuse_word}
use unimem.MallocState.Bitmap.Marks.{has}
use unimem.MallocState.Bitmap.Next.{bit-shr}
use unimem.MallocState.Top.{smallbin_at, set_inuse_and_pinuse}
use unimem.MallocState.SmallBins.{max_small_request, small_index, small_index2size}
use unimem.MallocState.SmallBins.Ring.{IsBin}
use unimem.MallocState.SmallBins.Insert.{smallbin_at-pos}
use unimem.MallocState.SmallBins.Unlink.{removed, unlink_first-runs}
use unimem.MallocState.SmallBins.Table.{IsTable, set_bin}
use unimem.MallocState.SmallBins.Cut.{removed-IsTable}
use unimem.MallocState.SmallBins.Frame.{
  IsSpared, IsSpared-tail, IsSpared-removed, IsTable-write, removed-spared,
}
use unimem.UniAllocator.{chunk_size_for, take_exact, from_bins_small, from_bins, alloc}
use unimem.UniAllocator.Bump.{chunk_size_for-request2size}

-- The chunk for a small request is small, and so is its bin.
pub chunk_size_for_small : (bytes : ℕ) → bytes ≤ max_small_request → chunk_size_for bytes ≤ 240
unfolding request2size
chunk_size_for_small bytes h =
    rw (chunk_size_for-request2size bytes (omega arith)) (ground (arith, pad_request-div bytes))

-- A marked bin is the lowest of the bits from it on.
marked_shr : (map i : ℕ) → has map i ≡ true → shr map i % 2 ≡ 1
marked_shr map i marked = omega (arith, bit-shr map i 0, one map i marked)
  where
    one : (map i : ℕ) → has map i ≡ true → bit map (i + 0) ≡ 1
    one map i marked = let same : i + 0 ≡ i = omega arith in rw same (ground (arith, marked))

module _ (map i : ℕ) (small : map < 2 ^ 32) (low : i < 32) (marked : has map i ≡ true) where
  fits : (bit_and (shr map i) 0x3 == 0) ≡ false
  fits = ground (arith, low_two (shr map i), marked_shr map i marked)

  same_bin : add32 i (bit_and (not32 (shr map i)) 1) ≡ i
  unfolding add32
  same_bin = omega (arith, low_one (not32 (shr map i)), marked_shr map i marked)

-- The state after the first chunk `p` of the bin for the size `n` has been handed out, with the
-- header `h` behind it before.
abbrev pub reused : State → ℕ → ℕ → ℕ → List Ptr → State
reused s p n h ys =
    write (write (removed s (small_index n) [] ys) (p + head_at) (n + 3)) (p + n + head_at)
      (bit_or h pinuse_bit)

-- The first chunk `p` of the bin for the size `n`; neither the header of `p` nor the one behind
-- it is a link of the table.
pub record IsReusable (s : State) (bins : ℕ → List Ptr) (p n h : ℕ) (ys : List Ptr) : Type 0 where
  pub held : bins (small_index n) ≡ p ∷ ys
  pub next_head : s.mem (p + n + head_at) ≡ h
  pub size : IsSize n
  pub low : 32 ≤ n
  pub high : n < 256
  pub spared : IsSpared s bins (p + head_at)
  pub next_spared : IsSpared s bins (p + n + head_at)

module _ (s : State) (bins : ℕ → List Ptr) (p n h : ℕ) (ys : List Ptr) (table : IsTable s bins)
    (reusable : IsReusable s bins p n h ys) where
  index : small_index n < 32
  index = omega (arith, reusable.high)

  bin : IsBin s (small_index n) (p ∷ ys)
  bin = rw reusable.held at (table.each (small_index n) index)

  p_ne_null : p ≢ null
  p_ne_null = bin.valid.0.0

  removed_next : (removed s (small_index n) [] ys).mem (p + n + head_at) ≡ h
  removed_next =
      let spared = reusable.next_spared (small_index n) index in
      let (own, others) = rw reusable.held at spared.1 in
      removed-spared s (small_index n) (p + n + head_at) ys spared.0 others ∙ reusable.next_head

  pub set_inuse-reused :
      set_inuse_and_pinuse p n (removed s (small_index n) [] ys) ≡ ok tt (reused s p n h ys)
  unfolding set_inuse_and_pinuse
  set_inuse-reused =
      let s1 = removed s (small_index n) [] ys in
      let s2 = write s1 (p + head_at) (n + 3) in
      let next : p + n ≢ null = λ e. p_ne_null (omega arith) in
      let behind : s2.mem (p + n + head_at) ≡ h = ground (arith, reusable.low, removed_next) in
      rw
        (
          inuse_word n reusable.size,
          store-ok p head_at (n + 3) s1 p_ne_null,
          load-ok (p + n) head_at s2 next,
          behind,
          store-ok (p + n) head_at (bit_or h pinuse_bit) s2 next,
        )
        refl

  take_exact-reused :
      take_exact (small_index n) (shr s.smallmap (small_index n)) s
      ≡ ok (chunk2mem p) (reused s p n h ys)
  unfolding take_exact
  take_exact-reused =
      let i = small_index n in
      let marked : has s.smallmap i ≡ true = bin.marked in
      let b = smallbin_at i s in
      let b_ne : b ≢ null = omega (arith, smallbin_at-pos i s) in
      let size : small_index2size i ≡ n = omega (arith, reusable.size, reusable.high) in
      rw
        (
          same_bin s.smallmap i bin.map index marked,
          load-ok b fd_at s b_ne,
          bin.links.0,
          unlink_first-runs s p i ys bin,
          size,
          set_inuse-reused,
        )
        refl

  from_bins_small-reused : from_bins_small n s ≡ ok (some (chunk2mem p)) (reused s p n h ys)
  unfolding from_bins_small
  from_bins_small-reused =
      rw (fits s.smallmap (small_index n) bin.map index bin.marked, take_exact-reused) refl

  IsSpared-after :
      (a : ℕ)
      → IsSpared s bins a
      → IsSpared (removed s (small_index n) [] ys) (set_bin bins (small_index n) ys) a
  IsSpared-after a spared =
      IsSpared-removed s (set_bin bins (small_index n) ys) (small_index n) a ys
        (IsSpared-tail s bins a (small_index n) p ys reusable.held index spared)

  pub reused-IsTable : IsTable (reused s p n h ys) (set_bin bins (small_index n) ys)
  unfolding smallbin_at
  reused-IsTable =
      let s1 = removed s (small_index n) [] ys in
      let bins1 = set_bin bins (small_index n) ys in
      let t1 = removed-IsTable s bins table (small_index n) index p [] ys reusable.held in
      let t2 =
        IsTable-write s1 bins1 (p + head_at) (n + 3) t1
          (IsSpared-after (p + head_at) reusable.spared) in
      IsTable-write (write s1 (p + head_at) (n + 3)) bins1 (p + n + head_at) (bit_or h pinuse_bit)
        t2 (IsSpared-after (p + n + head_at) reusable.next_spared)

-- For a request of at most `MAX_SMALL_REQUEST` bytes, where the small bins hold a table of lists
-- and the bin of the chunk size for it begins with `p`: if no link of the table stands in the
-- header of `p` or in the one behind it, `Alloc` returns the block of `p`, with no recursion, and
-- takes `p` out of its list; the other bins hold what they held. The header of `p` is that of a
-- used chunk of exactly that size, and PINUSE is set in the one behind.
pub alloc-IsTable :
    (underlying : ℕ → ℕ → Ptr) (fuel bytes : ℕ) (s : State) (bins : ℕ → List Ptr) (p h : ℕ)
    (ys : List Ptr)
    → bytes ≤ max_small_request
    → IsTable s bins
    → IsReusable s bins p (chunk_size_for bytes) h ys
    → (s' : State) × (alloc underlying (suc fuel) bytes s ≡ ok (chunk2mem p) s')
      × IsTable s' (set_bin bins (small_index (chunk_size_for bytes)) ys)
      × (s'.mem (p + head_at) ≡ chunk_size_for bytes + 3)
      × (s'.mem (p + chunk_size_for bytes + head_at) ≡ bit_or h pinuse_bit)
unfolding alloc from_bins
alloc-IsTable underlying fuel bytes s bins p h ys small table reusable =
    let n = chunk_size_for bytes in
    let path : leb bytes max_small_request ≡ true = ground arith in
    (
      reused s p n h ys,
      rw (path, from_bins_small-reused s bins p n h ys table reusable) refl,
      reused-IsTable s bins p n h ys table reusable,
      ground (arith, reusable.low),
      ground arith,
    )
