-- ===== src/UniAllocator/Binned.antt =====
-- A small chunk between two used chunks, freed into its bin.
use unimem.Base.{
  ℕ, ◌+◌, ◌-◌, ◌≤◌, ◌<◌, ◌≡◌, ◌≢◌, ◌∙◌, arith, true, false, ◌==◌, leb, ltb, List, ◌∷◌, some,
}
use unimem.Machine.{Ptr, null, State, ok, store}
use unimem.Machine.Returns.{write, load-ok}
use unimem.Chunk.{
  head_at, prev_foot_at, chunk2mem, head_is_inuse, is_inuse, chunksize, pinuse, cinuse,
  clear_pinuse, set_foot, set_size_and_pinuse_of_free_chunk, set_free_with_pinuse,
}
use unimem.Chunk.Head.{
  IsSize, free_word, size_of-word, pinuse-word, cinuse-word, inuse_bits-word, clear_pinuse-word,
}
use unimem.MallocState.Top.{ok_address, smallbin_at}
use unimem.MallocState.SmallBins.{is_small, small_index}
use unimem.MallocState.SmallBins.Insert.{inserted, insert-runs}
use unimem.MallocState.SmallBins.Table.{IsTable, IsFresh, set_bin, inserted-IsTable}
use unimem.MallocState.SmallBins.Frame.{IsSpared, IsTable-write, inserted-spared}
use unimem.UniAllocator.{merge_back, bin_chunk, merge_forward, free}

-- `p` is a used chunk of size `n` behind a used chunk, and the chunk behind it, which is used
-- too, has the size `k`. None of the words that its state is kept in is a link of the table.
pub record IsBetween (s : State) (bins : ℕ → List Ptr) (p n k : ℕ) : Type 0 where
  pub fresh : IsFresh s bins p
  pub head : s.mem (p + head_at) ≡ n + 3
  pub next_head : s.mem (p + n + head_at) ≡ k + 3
  pub size : IsSize n
  pub next_size : IsSize k
  pub low : 32 ≤ n
  pub high : n < 256
  pub spared : IsSpared s bins (p + head_at)
  pub next_spared : IsSpared s bins (p + n + head_at)
  pub foot_spared : IsSpared s bins (p + n + prev_foot_at)

-- The header words and the footer of the chunk once it is free.
abbrev pub marked_free : State → ℕ → ℕ → ℕ → State
marked_free s p n k =
    write (write (write s (p + n + head_at) (k + 2)) (p + head_at) (n + 1)) (p + n + prev_foot_at) n

-- The state after the chunk has been freed.
abbrev pub binned : State → (ℕ → List Ptr) → ℕ → ℕ → ℕ → State
binned s bins p n k = inserted (marked_free s p n k) p (small_index n) (bins (small_index n))

module _ (s : State) (bins : ℕ → List Ptr) (p n k : ℕ) (between : IsBetween s bins p n k) where
  used : is_inuse p s ≡ ok true s
  unfolding is_inuse head_is_inuse
  used = rw (
    load-ok p head_at s between.fresh.ne_null,
    between.head,
    inuse_bits-word n 3 between.size (omega arith),
  )

  its_size : chunksize p s ≡ ok n s
  unfolding chunksize
  its_size = rw (
    load-ok p head_at s between.fresh.ne_null,
    between.head,
    size_of-word n 3 between.size (omega arith),
  )

  merge_back-between : merge_back p (p + n) n s ≡ ok (some (p, n)) s
  unfolding merge_back pinuse
  merge_back-between = rw (
    load-ok p head_at s between.fresh.ne_null,
    between.head,
    pinuse-word n 3 between.size (omega arith),
  )

  next_ne_null : p + n ≢ null
  next_ne_null e = between.fresh.ne_null (omega arith)

  next_used : (pinuse (p + n) s ≡ ok 1 s) × (cinuse (p + n) s ≡ ok 2 s)
  unfolding pinuse cinuse
  next_used =
      let load = load-ok (p + n) head_at s next_ne_null in
      (
        rw (load, between.next_head, pinuse-word k 3 between.next_size (omega arith)),
        rw (load, between.next_head, cinuse-word k 3 between.next_size (omega arith)),
      )

  set_free-between : set_free_with_pinuse p n (p + n) s ≡ ok tt (marked_free s p n k)
  unfolding set_free_with_pinuse clear_pinuse set_size_and_pinuse_of_free_chunk set_foot store
  set_free-between =
      let present : (p == null) ≡ false = ground (arith, between.fresh.ne_null) in
      let next_present : (p + n == null) ≡ false = ground (arith, next_ne_null) in
      rw (
        load-ok (p + n) head_at s next_ne_null,
        between.next_head,
        next_present,
        clear_pinuse-word k 3 between.next_size (omega arith),
        present,
        free_word n between.size,
        next_present,
      )

  marked_free-IsTable : IsTable s bins → IsTable (marked_free s p n k) bins
  unfolding smallbin_at
  marked_free-IsTable table =
      let s1 = write s (p + n + head_at) (k + 2) in
      let s2 = write s1 (p + head_at) (n + 1) in
      let t1 = IsTable-write s bins (p + n + head_at) (k + 2) table between.next_spared in
      let t2 = IsTable-write s1 bins (p + head_at) (n + 1) t1 between.spared in
      IsTable-write s2 bins (p + n + prev_foot_at) n t2 between.foot_spared

  marked_free-IsFresh : IsFresh (marked_free s p n k) bins p
  marked_free-IsFresh = record {
    ne_null = between.fresh.ne_null;
    address = between.fresh.address;
    outside = between.fresh.outside;
    apart = between.fresh.apart;
  }

  low_index : small_index n < 32
  low_index = omega (arith, between.high)

  module _ (table : IsTable s bins) where
    bin_chunk-between : bin_chunk p n (marked_free s p n k) ≡ ok tt (binned s bins p n k)
    unfolding bin_chunk
    bin_chunk-between =
        let small : is_small n ≡ true = ground (arith, between.high) in
        let bin = (marked_free-IsTable table).each (small_index n) low_index in
        rw small (
          insert-runs (marked_free s p n k) p n (bins (small_index n)) bin between.fresh.ne_null
            between.low)

    merge_forward-between :
        (q : Ptr) → q ≡ p + n → merge_forward p q n s ≡ ok tt (binned s bins p n k)
    unfolding merge_forward
    merge_forward-between q e =
        let above : ltb p (p + n) ≡ true = ground (arith, between.low) in
        rw e (rw (above, next_used.0, next_used.1, set_free-between) bin_chunk-between)

    pub free-binned : free (chunk2mem p) s ≡ ok tt (binned s bins p n k)
    unfolding free ok_address
    free-binned =
        let back : p + 32 - 32 ≡ p = omega arith in
        let given : (p + 32 == 0) ≡ false = ground arith in
        let valid : leb s.least_addr p ≡ true = ground (arith, between.fresh.address) in
        let next : p + 32 - 32 + n ≡ p + n = omega arith in
        rw (given, back, valid, used, its_size, merge_back-between)
          (merge_forward-between (p + 32 - 32 + n) next)

    pub binned-IsTable :
        IsTable (binned s bins p n k) (set_bin bins (small_index n) (p ∷ bins (small_index n)))
    binned-IsTable =
        inserted-IsTable (marked_free s p n k) bins (marked_free-IsTable table) (small_index n)
          low_index p marked_free-IsFresh

-- A free chunk `p` of size `n` behind a used chunk, with the header `h` behind it.
pub record IsFreed (s : State) (p n h : ℕ) : Type 0 where
  pub head : s.mem (p + head_at) ≡ n + 1
  pub foot : s.mem (p + n + prev_foot_at) ≡ n
  pub next_head : s.mem (p + n + head_at) ≡ h

pub binned-IsFreed :
    (s : State) (bins : ℕ → List Ptr) (p n k : ℕ)
    → IsBetween s bins p n k
    → IsFreed (binned s bins p n k) p n (k + 2)
unfolding smallbin_at
binned-IsFreed s bins p n k between =
    let i = small_index n in
    let s' = marked_free s p n k in
    let xs = bins i in
    let low : i < 32 = omega (arith, between.high) in
    let head =
      inserted-spared s' p i (p + head_at) xs (omega arith, omega arith) (between.spared i low).0
        (between.spared i low).1 in
    let foot =
      inserted-spared s' p i (p + n + prev_foot_at) xs
        (omega (arith, between.low), omega (arith, between.low)) (between.foot_spared i low).0
        (between.foot_spared i low).1 in
    let next =
      inserted-spared s' p i (p + n + head_at) xs
        (omega (arith, between.low), omega (arith, between.low)) (between.next_spared i low).0
        (between.next_spared i low).1 in
    record {
      head = head ∙ ground (arith, between.low);
      foot = foot ∙ ground (arith, between.low);
      next_head = next ∙ ground (arith, between.low);
    }

-- `Free` of a used chunk of a size `n` from 32 to below 256, between two used chunks, where the
-- small bins hold a table of lists, the chunk is in none of them and no link of the table stands
-- in the header or the footer of the chunk or in the header behind it: it returns, and puts the
-- chunk in front of the list of its bin; the other bins hold what they held. The chunk then has
-- the header and the footer of a free one, and the flag PINUSE of the chunk behind is cleared.
pub free-IsTable :
    (s : State) (bins : ℕ → List Ptr) (p n k : ℕ)
    → IsTable s bins
    → IsBetween s bins p n k
    → (s' : State) × (free (chunk2mem p) s ≡ ok tt s')
      × IsTable s' (set_bin bins (small_index n) (p ∷ bins (small_index n)))
      × IsFreed s' p n (k + 2)
free-IsTable s bins p n k table between = (
  binned s bins p n k,
  free-binned s bins p n k between table,
  binned-IsTable s bins p n k between table,
  binned-IsFreed s bins p n k between,
)
