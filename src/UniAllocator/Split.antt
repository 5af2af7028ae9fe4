-- ===== src/UniAllocator/Split.antt =====
-- `Alloc` from the next nonempty small bin, where the chunk is split: its remainder becomes the
-- designated victim.
use unimem.Base.{
  ℕ, suc, ◌+◌, ◌-◌, ◌*◌, ◌≤◌, ◌<◌, ◌≡◌, ◌≢◌, refl, sym, ◌∙◌, arith, inl, inr, true, false,
  Bool-cases, ◌==◌, leb, ltb, List, [], ◌∷◌,
}
use unimem.Word.{shr, sub64}
use unimem.Machine.{Ptr, null, State, ok}
use unimem.Machine.Returns.{write, store-ok}
use unimem.Chunk.{
  head_at, prev_foot_at, min_chunk_size, chunk2mem, set_foot, set_size_and_pinuse_of_free_chunk,
}
use unimem.Chunk.Head.{IsSize, free_word, inuse_word}
use unimem.MallocState.Top.{smallbin_at}
use unimem.MallocState.Top
use unimem.MallocState.SmallBins.{max_small_request, small_index, small_index2size, replace_dv}
use unimem.MallocState.SmallBins.Ring.{AllApart}
use unimem.MallocState.SmallBins.Unlink.{removed, unlink_first-runs}
use unimem.MallocState.SmallBins.Table.{IsTable, set_bin}
use unimem.MallocState.SmallBins.Cut.{removed-IsTable}
use unimem.MallocState.SmallBins.Frame.{
  NoLink, IsSpared, IsSpared-tail, IsSpared-removed, IsTable-write,
}
use unimem.MallocState.SmallBins.Victim.{IsVictim, with_victim, replace_dv-IsTable}
use unimem.UniAllocator.{chunk_size_for, take_next_bin, from_bins, alloc}
use unimem.UniAllocator.Bump.{chunk_size_for_bounds}
use unimem.UniAllocator.Reuse.{chunk_size_for_small}
use unimem.UniAllocator.NextBin.{IsNextBin, found, bin, first, rest, from_bins_small-next}

-- The state with the chunk `p` of the bin `i` cut into a used chunk of size `n` and a free one
-- of size `r`.
abbrev pub cut : State → ℕ → Ptr → List Ptr → ℕ → ℕ → State
cut s i p ys n r =
    write (write (write (removed s i [] ys) (p + head_at) (n + 3)) (p + n + head_at) (r + 1))
      (p + n + r + prev_foot_at) r

-- None of the words in which the two chunks keep their state is a link.
pub record IsCuttable (s : State) (bins : ℕ → List Ptr) (p n r : ℕ) : Type 0 where
  pub head : IsSpared s bins (p + head_at)
  pub rest_head : IsSpared s bins (p + n + head_at)
  pub rest_foot : IsSpared s bins (p + n + r + prev_foot_at)

AllApart-set_bin :
    (bins : ℕ → List Ptr) (i j : ℕ) (q p : Ptr) (ys : List Ptr)
    → bins i ≡ p ∷ ys
    → AllApart q (bins i)
    → AllApart q (bins j)
    → AllApart q (set_bin bins i ys j)
AllApart-set_bin bins i j q p ys held here there = elim (Bool-cases (j == i)) [
  | inl e ↦ rw e (rw held at here).1
  | inr e ↦ rw e there
]

-- The designated victim stays in no bin.
IsVictim-cut :
    (s : State) (bins : ℕ → List Ptr) (i p n r : ℕ) (ys : List Ptr)
    → bins i ≡ p ∷ ys
    → i < 32
    → IsVictim s bins
    → IsVictim (cut s i p ys n r) (set_bin bins i ys)
IsVictim-cut s bins i p n r [] held low (inl absent) = inl absent
IsVictim-cut s bins i p n r (y ∷ ys) held low (inl absent) = inl absent
IsVictim-cut s bins i p n r [] held low (inr (large, small, fresh)) = inr (
  large,
  small,
  record {
    ne_null = fresh.ne_null;
    address = fresh.address;
    outside = fresh.outside;
    apart = λ j below.
        AllApart-set_bin bins i j s.dv p [] held (fresh.apart i low) (fresh.apart j below);
  },
)
IsVictim-cut s bins i p n r (y ∷ ys) held low (inr (large, small, fresh)) = inr (
  large,
  small,
  record {
    ne_null = fresh.ne_null;
    address = fresh.address;
    outside = fresh.outside;
    apart = λ j below.
        AllApart-set_bin bins i j s.dv p (y ∷ ys) held (fresh.apart i low) (fresh.apart j below);
  },
)

module _ (s : State) (bins : ℕ → List Ptr) (nb i : ℕ) (p : Ptr) (ys : List Ptr)
    (table : IsTable s bins) (next : IsNextBin bins nb i p ys) (r : ℕ)
    (cuttable : IsCuttable s bins p nb r) where
  IsSpared-gone : (a : ℕ) → IsSpared s bins a → IsSpared (removed s i [] ys) (set_bin bins i ys) a
  IsSpared-gone a spared =
      IsSpared-removed s (set_bin bins i ys) i a ys
        (IsSpared-tail s bins a i p ys next.held next.below spared)

  cut-IsTable : IsTable (cut s i p ys nb r) (set_bin bins i ys)
  unfolding smallbin_at
  cut-IsTable =
      let bins1 = set_bin bins i ys in
      let s1 = removed s i [] ys in
      let s2 = write s1 (p + head_at) (nb + 3) in
      let s3 = write s2 (p + nb + head_at) (r + 1) in
      let t1 = removed-IsTable s bins table i next.below p [] ys next.held in
      let t2 =
        IsTable-write s1 bins1 (p + head_at) (nb + 3) t1
          (IsSpared-gone (p + head_at) cuttable.head) in
      let t3 =
        IsTable-write s2 bins1 (p + nb + head_at) (r + 1) t2
          (IsSpared-gone (p + nb + head_at) cuttable.rest_head) in
      IsTable-write s3 bins1 (p + nb + r + prev_foot_at) r t3
        (IsSpared-gone (p + nb + r + prev_foot_at) cuttable.rest_foot)

  take_next_bin-cut :
      (s' : State)
      → IsSize nb
      → nb < 256
      → r ≡ i * 8 - nb
      → 32 ≤ r
      → replace_dv (p + nb) r (cut s i p ys nb r) ≡ ok tt s'
      → take_next_bin nb (small_index nb) (shr s.smallmap (small_index nb)) s ≡ ok (chunk2mem p) s'
  unfolding take_next_bin Top.set_size_and_pinuse_of_inuse_chunk set_size_and_pinuse_of_free_chunk
      set_foot
  take_next_bin-cut s' words small remainder large replaced =
      let in_bin = bin s bins nb i p ys table next in
      let nn : p ≢ null = in_bin.valid.0.0 in
      let nn_rest : p + nb ≢ null = λ e. nn (omega arith) in
      let nn_foot : p + nb + r ≢ null = λ e. nn (omega arith) in
      let size : sub64 (small_index2size i) nb ≡ r =
        rest s bins nb i p ys table next words.0 small ∙ sym remainder in
      let split : ltb r min_chunk_size ≡ false = ground arith in
      let s1 = removed s i [] ys in
      let s2 = write s1 (p + head_at) (nb + 3) in
      let s3 = write s2 (p + nb + head_at) (r + 1) in
      rw
        (
          found s bins nb i p ys table next,
          first s bins nb i p ys table next,
          unlink_first-runs s p i ys in_bin,
          size,
          split,
          inuse_word nb words,
          store-ok p head_at (nb + 3) s1 nn,
          free_word r (omega (arith, remainder, words, next.below)),
          store-ok (p + nb) head_at (r + 1) s2 nn_rest,
          store-ok (p + nb + r) prev_foot_at r s3 nn_foot,
          replaced,
        )
        refl

-- The used chunk `p` of size `n`, and behind it the designated victim, the free chunk of size `r`.
pub record IsSplit (s : State) (p n r : ℕ) : Type 0 where
  pub dv : s.dv ≡ p + n
  pub dvsize : s.dvsize ≡ r
  pub head : s.mem (p + head_at) ≡ n + 3
  pub rest_head : s.mem (p + n + head_at) ≡ r + 1
  pub rest_foot : s.mem (p + n + r + prev_foot_at) ≡ r

-- None of the words in which the two chunks keep their state is a link of the old victim.
pub record IsClear (v p n r : ℕ) : Type 0 where
  pub head : NoLink (p + head_at) v
  pub rest_head : NoLink (p + n + head_at) v
  pub rest_foot : NoLink (p + n + r + prev_foot_at) v

IsSpared-cut :
    (s : State) (bins : ℕ → List Ptr) (i p n r : ℕ) (ys : List Ptr) (a : ℕ)
    → IsSpared (removed s i [] ys) bins a
    → IsSpared (cut s i p ys n r) bins a
unfolding smallbin_at
IsSpared-cut s bins i p n r ys a spared = spared

removed-dv : (s : State) (i : ℕ) (ys : List Ptr) → (removed s i [] ys).dv ≡ s.dv
removed-dv s i [] = refl
removed-dv s i (y ∷ ys) = refl

IsTable-old_victim :
    (s s' : State) (bins : ℕ → List Ptr) (i : ℕ) (ys : List Ptr)
    → IsTable s' (with_victim (removed s i [] ys) bins)
    → IsTable s' (with_victim s bins)
IsTable-old_victim s s' bins i [] table = table
IsTable-old_victim s s' bins i (y ∷ ys) table = table

-- For a request of at most `MAX_SMALL_REQUEST` bytes that the designated victim cannot serve,
-- where the small bins hold a table of lists, the bins of its chunk size and of the next one are
-- empty, and the first one behind them that is not empty, the bin `i`, begins with `p`: if what
-- is left of that chunk is large enough for a chunk, `Alloc` returns the block of `p`, with no
-- recursion. `p` is cut into a used chunk of the size asked for and the new designated victim,
-- with their headers and its footer; `p` is gone from its bin, the old victim, if any, is in its
-- own, and the other bins hold what they held. The conditions are that the victim is in no bin,
-- and that no link of the table or of the victim stands in the words that are written.
pub alloc-IsSplit :
    (underlying : ℕ → ℕ → Ptr) (fuel bytes : ℕ) (s : State) (bins : ℕ → List Ptr) (i p : ℕ)
    (ys : List Ptr)
    → bytes ≤ max_small_request
    → IsTable s bins
    → IsVictim s bins
    → s.dvsize < chunk_size_for bytes
    → IsNextBin bins (chunk_size_for bytes) i p ys
    → 32 ≤ i * 8 - chunk_size_for bytes
    → IsCuttable s bins p (chunk_size_for bytes) (i * 8 - chunk_size_for bytes)
    → IsClear s.dv p (chunk_size_for bytes) (i * 8 - chunk_size_for bytes)
    → (s' : State) × (alloc underlying (suc fuel) bytes s ≡ ok (chunk2mem p) s')
      × IsTable s' (with_victim s (set_bin bins i ys))
      × IsSplit s' p (chunk_size_for bytes) (i * 8 - chunk_size_for bytes)
unfolding alloc from_bins
alloc-IsSplit underlying fuel bytes s bins i p ys small table victim short next large cuttable
      clear =
    let n = chunk_size_for bytes in
    let r = i * 8 - n in
    let bounds = chunk_size_for_bounds bytes (omega arith) in
    let limit = chunk_size_for_small bytes small in
    let path : leb bytes max_small_request ≡ true = ground arith in
    let s1 = cut s i p ys n r in
    let bins1 = set_bin bins i ys in
    let t1 = cut-IsTable s bins n i p ys table next r cuttable in
    let v1 = IsVictim-cut s bins i p n r ys next.held next.below victim in
    let (s', runs, t2, dv, dvsize, same) = replace_dv-IsTable s1 bins1 (p + n) r t1 v1 in
    let taken =
      take_next_bin-cut s bins n i p ys table next r cuttable s' (omega (arith, bounds))
        (omega (arith, limit)) refl large runs in
    let gone = IsSpared-gone s bins n i p ys table next r cuttable in
    let keeps = λ (a : ℕ) (spared : IsSpared s bins a) (own : NoLink a s.dv).
      same a (IsSpared-cut s bins1 i p n r ys a (gone a spared)) (rw (removed-dv s i ys) own) in
    (
      s',
      rw (path, from_bins_small-next s bins n i p ys table next (chunk2mem p) s' short taken) refl,
      IsTable-old_victim s s' bins1 i ys t2,
      record {
        dv = dv;
        dvsize = dvsize;
        head = keeps (p + head_at) cuttable.head clear.head ∙ ground (arith, bounds);
        rest_head =
            keeps (p + n + head_at) cuttable.rest_head clear.rest_head ∙ ground (arith, bounds);
        rest_foot =
            keeps (p + n + r + prev_foot_at) cuttable.rest_foot clear.rest_foot ∙ ground arith;
      },
    )
