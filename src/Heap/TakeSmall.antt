-- ===== src/Heap/TakeSmall.antt =====
-- `take_exact` and `take_next_bin` on the heap.
use unimem.Base.{
  ℕ, ◌+◌, ◌-◌, ◌*◌, ◌/◌, ◌%◌, ◌≤◌, ◌<◌, ◌^◌, ◌≡◌, ◌≢◌, refl, ap, arith, inl, inr, Bool-cases, ltb,
  bit_and, List, [], ◌∷◌,
}
use unimem.Word.{add32, not32, shl32, sub64}
use unimem.Machine.{Ptr, null, State, ok, load, pure, ◌>>◌}
use unimem.Machine.Returns.{load-ok}
use unimem.Chunk.{fd_at, chunk2mem, set_size_and_pinuse_of_free_chunk}
use unimem.MallocState.Bitmap.{idx2bit, least_bit, left_bits, compute_bit2idx}
use unimem.MallocState.Top.{smallbin_at}
use unimem.MallocState.Top
use unimem.MallocState.SmallBins.{small_index2size, unlink_first_small_chunk, replace_dv}
use unimem.MallocState.SmallBins.Ring.{IsBin}
use unimem.MallocState.SmallBins.Insert.{smallbin_at-pos}
use unimem.MallocState.SmallBins.Unlink.{removed, unlink_first-runs}
use unimem.UniAllocator.{take_exact, take_next_bin}
use unimem.Heap.{Blocks, IsTiling, Stock, IsFree, IsStock, IsHeap}
use unimem.Heap.UnlinkSmall.{without_small, removed-IsTiling, removed-IsStock, removed-SameFields}
use unimem.Heap.Carve.{carved, IsCut}
use unimem.Heap.Keep.{Split, replace_dv-Keeps}
use unimem.Heap.Allocated.{
  Allocates, own-IsGrown, Keeps, whole-Allocates, split_block-Allocates, front_first,
}

-- The first chunk `p` of the small bin `i`.
module _ (s : State) (b : Blocks) (k : Stock) (i p : ℕ) (ys : List Ptr) (heap : IsHeap s b k)
    (low : i < 32) (held : k.bins i ≡ p ∷ ys) where
  bin : IsBin s i (p ∷ ys)
  bin = rw held at (heap.1.table.each i low)

  member : IsFree b 0 0 p × (b.size p < 256) × (b.size p / 8 ≡ i) × (p ≢ s.dv)
  member = heap.1.small i p low (rw held (inl refl))

  pub size_eq : b.size p ≡ i * 8
  size_eq = omega (arith, member.2, (heap.0.each p member.0.0).words)

  index_size : small_index2size i ≡ b.size p
  index_size = omega (arith, size_eq, low)

  first : load (smallbin_at i s) fd_at s ≡ ok p s
  first =
      let b_ne : smallbin_at i s ≢ null = omega (arith, smallbin_at-pos i s) in
      rw (load-ok (smallbin_at i s) fd_at s b_ne, bin.links.0) refl

  abbrev unlinked_first : State
  unlinked_first = removed s i [] ys

  abbrev left : Stock
  left = without_small s b k 0 0 p (p + b.size p) p i [] ys heap.0 heap.1 low held

  unlinked_first-IsTiling : IsTiling unlinked_first b
  unlinked_first-IsTiling =
      removed-IsTiling s b k 0 0 p (p + b.size p) p i [] ys heap.0 heap.1 low held

  unlinked_first-IsStock : IsStock unlinked_first b left p (p + b.size p)
  unlinked_first-IsStock =
      removed-IsStock s b k 0 0 p (p + b.size p) p i [] ys heap.0 heap.1 low held
        (own-IsGrown s b p heap.0 member.0.0)

  unlinked_runs : unlink_first_small_chunk (smallbin_at i s) p i s ≡ ok tt unlinked_first
  unlinked_runs = unlink_first-runs s p i ys bin

  -- `take_exact` with the index of this bin.
  pub take_exact-Allocates :
      (nb idx bits : ℕ)
      → add32 idx (bit_and (not32 bits) 1) ≡ i
      → nb ≤ b.size p
      → Allocates b nb (take_exact idx bits s)
  unfolding take_exact
  take_exact-Allocates nb idx bits e enough =
      rw (e, first, unlinked_runs, index_size)
        (whole-Allocates unlinked_first b left p unlinked_first-IsTiling member.0.0 member.0.1 nb
          enough unlinked_first-IsStock)

  module _ (nb r : ℕ) (cut : IsCut b p nb r) (small : s.dvsize < 256) where
    abbrev tagged : State
    tagged =
        front_first unlinked_first b left p unlinked_first-IsTiling member.0.0 member.0.1 nb r cut

    rest-Keeps :
        Split tagged (carved b p nb r) left p (p + b.size p) (p + nb) r
        → Keeps (carved b p nb r) (replace_dv (p + nb) r tagged)
    rest-Keeps split =
        let fields = ap (λ z. z.dvsize) (removed-SameFields s i [] ys) in
        replace_dv-Keeps tagged (carved b p nb r) left p (p + b.size p) (p + nb) r split
          (omega (arith, fields, small))

    split-first : Allocates b nb (
        ((do
          Top.set_size_and_pinuse_of_inuse_chunk p nb
          set_size_and_pinuse_of_free_chunk (p + nb) r
          replace_dv (p + nb) r)
            >> pure (chunk2mem p))
          unlinked_first)
    split-first =
        split_block-Allocates unlinked_first b left p unlinked_first-IsTiling member.0.0 member.0.1
          nb r cut replace_dv unlinked_first-IsStock rest-Keeps

  -- `take_next_bin`, where the search ends at this bin.
  pub take_next_bin-Allocates :
      (nb idx bits : ℕ)
      → compute_bit2idx (least_bit (bit_and (shl32 bits idx) (left_bits (idx2bit idx)))) s ≡ ok i s
      → 32 ≤ nb
      → nb % 8 ≡ 0
      → nb ≤ b.size p
      → s.dvsize < 256
      → Allocates b nb (take_next_bin nb idx bits s)
  unfolding take_next_bin sub64
  take_next_bin-Allocates nb idx bits found least words enough small =
      let r = b.size p - nb in
      let rest : (b.size p + 2 ^ 64 - nb) % 2 ^ 64 ≡ r = omega (arith, size_eq, enough, low) in
      rw (found, first, unlinked_runs, index_size, rest)
        (elim (Bool-cases (ltb r 32)) [
          | inl less ↦ rw less (
              whole-Allocates unlinked_first b left p unlinked_first-IsTiling member.0.0 member.0.1
                nb enough unlinked_first-IsStock)
          | inr more ↦
              let cut : IsCut b p nb r = record {
                pos = member.0.0;
                free = member.0.1;
                sum = omega (arith, enough);
                front = least;
                rest = ground (arith, more);
                words = words;
              } in
              rw more (split-first nb r cut small)
        ])
