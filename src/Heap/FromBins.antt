-- ===== src/Heap/FromBins.antt =====
-- `from_bins` on the heap: a chunk of the bins or of the trees, an exception, or nothing.
use native.Mathlib.Nat.{div-le_self}
use unimem.Base.{
  ℕ, ◌+◌, ◌*◌, ◌/◌, ◌%◌, ◌≤◌, ◌<◌, ◌^◌, ◌≡◌, ◌≢◌, refl, sym, ◌∙◌, arith, ◌⊎◌, inl, inr, true, false,
  Bool-cases, ◌==◌, leb, ltb, if◌then◌else◌, List, ◌∷◌, bit_and, Option, some, none,
}
use unimem.Word.{shr, add32, not32}
use unimem.Word.Bits.{bit, bit-of_lt}
use unimem.Word.Masks.{low_one, low_two}
use unimem.Machine.{Ptr, null, State, Cmd, ok, corrupted, pure, ◌>>=◌}
use unimem.Chunk.{chunk2mem, max_request}
use unimem.MallocState.Bitmap.Marks.{has}
use unimem.MallocState.Bitmap.Next.{bit-shr, compute_bit2idx-IsNext_small}
use unimem.MallocState.SmallBins.{max_small_request, small_index}
use unimem.MallocState.TreeAlloc.{tmalloc_small, tmalloc_large}
use unimem.UniAllocator.{
  chunk_size_for, take_exact, take_next_bin, from_bins_small, from_bins_large, from_bins,
}
use unimem.UniAllocator.Bump.{chunk_size_for_bounds}
use unimem.UniAllocator.Reuse.{chunk_size_for_small}
use unimem.Heap.{Blocks, Stock, IsHeap}
use unimem.Heap.Allocated.{IsAllocated, Allocates}
use unimem.Heap.Counted.{counted}
use unimem.Heap.Root.{cons_of}
use unimem.Heap.TakeSmall.{take_exact-Allocates, take_next_bin-Allocates, size_eq}
use unimem.Heap.TakeTree.{tmalloc_small-Allocates}
use unimem.Heap.TakeLarge.{tmalloc_large-MayAllocate}

-- What the bins offer: a chunk, an exception, or nothing and the state is the same, however often
-- the underlying allocator has been called.
abbrev pub Offers : Blocks → ℕ → State → Cmd (Option Ptr) → Type 0
Offers b n s m =
    ((s' : State) × (b' : Blocks) × (k' : Stock) × (p : Ptr) × (z : ℕ) × (m s
        ≡ ok (some (chunk2mem p)) s')
      × IsHeap s' b' k'
      × IsAllocated b b' p z
      × (n ≤ z))
    ⊎ ((s' : State) × (m s ≡ corrupted s'))
    ⊎ ((c : ℕ) → m (counted s c) ≡ ok none (counted s c))

offer :
    (b : Blocks) (n : ℕ) (s : State) (m : Cmd Ptr)
    → Allocates b n (m s)
    → Offers b n s (m >>= (λ p. pure (some p)))
offer b n s m (inl (s', b', k', p, z, runs, heap, allocated, enough)) =
    inl (s', b', k', p, z, rw runs refl, heap, allocated, enough)
offer b n s m (inr (s', runs)) = inr (inl (s', rw runs refl))

offer_or_null :
    (b : Blocks) (n : ℕ) (s : State) (m : Cmd Ptr)
    → Allocates b n (m s) ⊎ ((c : ℕ) → m (counted s c) ≡ ok null (counted s c))
    → Offers b n s (m >>= (λ p. pure (if p == null then none else some p)))
offer_or_null b n s m (inl (inl (s', b', k', p, z, runs, heap, allocated, enough))) =
    let present : (chunk2mem p == null) ≡ false = ground arith in
    inl (s', b', k', p, z, rw (runs, present) refl, heap, allocated, enough)
offer_or_null b n s m (inl (inr (s', runs))) = inr (inl (s', rw runs refl))
offer_or_null b n s m (inr runs) = inr (inr (λ c. rw (runs c) refl))

module _ (s : State) (b : Blocks) (k : Stock) (nb : ℕ) (heap : IsHeap s b k) (least : 32 ≤ nb)
    (words : nb % 8 ≡ 0) where
  module _ (small : nb < 256) where
    abbrev idx : ℕ
    idx = small_index nb

    abbrev bits : ℕ
    bits = shr s.smallmap idx

    map_small : s.smallmap < 2 ^ 32
    map_small = (heap.1.table.each 0 (omega arith)).map

    marked_bin :
        (i : ℕ)
        → i < 32
        → has s.smallmap i ≡ true
        → (p : Ptr) × (ys : List Ptr) × (k.bins i ≡ p ∷ ys)
    marked_bin i low marked = cons_of (k.bins i) (sym (heap.1.table.each i low).marked ∙ marked)

    marked_at : (i : ℕ) → i ≡ idx + 0 → bit s.smallmap (idx + 0) ≡ 1 → has s.smallmap i ≡ true
    marked_at i is one = rw is (ground (arith, one))

    -- The bin that `take_exact` looks at.
    exact_bin :
        bit_and bits 0x3 ≢ 0
        → (i : ℕ) × (i < 32)
          × (has s.smallmap i ≡ true)
          × (add32 idx (bit_and (not32 bits) 1) ≡ i)
          × (nb ≤ i * 8)
    unfolding add32
    exact_bin some_bit =
        let first : bits % 2 ≡ bit s.smallmap (idx + 0) = bit-shr s.smallmap idx 0 in
        let second : bits / 2 % 2 ≡ bit s.smallmap (idx + 1) = bit-shr s.smallmap idx 1 in
        let short : bits < 2 ^ 32 = omega (arith, div-le_self s.smallmap (2 ^ idx), map_small) in
        elim (Bool-cases (bits % 2 == 1)) [
          | inl e ↦ (
            idx,
            omega (arith, small),
            marked_at idx (omega (arith)) (ground (arith, e, first)),
            ground (arith, low_one (not32 bits), e, short, small),
            omega (arith, words),
          )
          | inr e ↦
              let one : bit s.smallmap (idx + 1) ≡ 1 =
                ground (arith, some_bit, low_two bits, e, second) in
              let low : idx + 1 < 32 = elim (Bool-cases (ltb (idx + 1) 32)) [
                | inl h ↦ ground (arith, h)
                | inr h ↦ absurd (
                    omega
                      (arith, one, bit-of_lt 32 s.smallmap (idx + 1) map_small (ground (arith, h))))
              ] in
              (
                idx + 1,
                low,
                ground (arith, one),
                ground (arith, low_one (not32 bits), e, short, small),
                omega (arith, words),
              )
        ]

    from_bins_small-Offers : Offers b nb s (from_bins_small nb)
    unfolding from_bins_small
    from_bins_small-Offers = elim (Bool-cases (bit_and bits 0x3 == 0)) [
      | inr e ↦
          let (i, low, marked, is, enough) = exact_bin (ground (arith, e)) in
          let (p, ys, held) = marked_bin i low marked in
          rw e (
            offer b nb s (take_exact idx bits) (
              take_exact-Allocates s b k i p ys heap low held nb idx bits is
                (omega (arith, enough, size_eq s b k i p ys heap low held))))
      | inl e ↦ elim (Bool-cases (ltb s.dvsize nb)) [
        | inr e1 ↦ rw (e, e1) (inr (inr (λ c. refl)))
        | inl e1 ↦
            let victim : s.dvsize < 256 = ground (arith, e1, small) in
            elim (Bool-cases (bits == 0)) [
              | inr e2 ↦
                  let (i, runs, low, next) =
                    compute_bit2idx-IsNext_small s.smallmap idx s map_small (omega arith)
                      (ground (arith, e)) (ground (arith, e2)) in
                  let (p, ys, held) = marked_bin i low next.marked in
                  rw (e, e1, e2)
                    (offer b nb s (take_next_bin nb idx bits) (
                      take_next_bin-Allocates s b k i p ys heap low held nb idx bits runs least
                        words (omega (arith, next.behind, size_eq s b k i p ys heap low held))
                        victim))
              | inl e2 ↦ elim (Bool-cases (s.treemap == 0)) [
                | inl e3 ↦ rw (e, e1, e2, e3) (inr (inr (λ c. refl)))
                | inr e3 ↦
                    rw (e, e1, e2, e3)
                      (offer_or_null b nb s (tmalloc_small nb) (
                        inl (
                          tmalloc_small-Allocates s b k nb heap least words (ground (arith, e3))
                            small victim)))
              ]
            ]
      ]
    ]

  from_bins_large-Offers : nb < 2 ^ 64 → Offers b nb s (from_bins_large nb)
  unfolding from_bins_large
  from_bins_large-Offers most = elim (Bool-cases (s.treemap == 0)) [
    | inl e ↦ rw e (inr (inr (λ c. refl)))
    | inr e ↦ rw e (
        offer_or_null b nb s (tmalloc_large nb)
          (tmalloc_large-MayAllocate s b k nb heap least words most))
  ]

-- Every request.
pub from_bins-Offers :
    (s : State) (b : Blocks) (k : Stock) (bytes : ℕ)
    → IsHeap s b k
    → Offers b (chunk_size_for bytes) s (from_bins bytes)
unfolding from_bins
from_bins-Offers s b k bytes heap = elim (Bool-cases (leb bytes max_small_request)) [
  | inl e ↦
      let less : bytes ≤ max_small_request = ground (arith, e) in
      let bounds = chunk_size_for_bounds bytes (omega (arith, less)) in
      rw e (
        from_bins_small-Offers s b k (chunk_size_for bytes) heap bounds.1 (omega (arith, bounds.0))
          (omega (arith, chunk_size_for_small bytes less)))
  | inr e ↦ elim (Bool-cases (leb max_request bytes)) [
    | inl e' ↦ rw (e, e') (inr (inr (λ c. refl)))
    | inr e' ↦
        let bounds = chunk_size_for_bounds bytes (ground (arith, e')) in
        rw (e, e')
          (from_bins_large-Offers s b k (chunk_size_for bytes) heap bounds.1
            (omega (arith, bounds.0)) bounds.3)
  ]
]
