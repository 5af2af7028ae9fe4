-- ===== src/Heap/Alloc.antt =====
-- `Alloc` on the heap.
use unimem.Base.{
  ℕ, zero, suc, ◌+◌, ◌∙◌, none, ◌%◌, ◌≤◌, ◌<◌, ◌^◌, ◌≡◌, refl, arith, ◌⊎◌, inl, inr, Bool-cases,
  leb, ltb,
}
use unimem.Machine.{Ptr, State, ok, out_of_fuel}
use unimem.Chunk.{max_request}
use unimem.UniAllocator.{from_bins, chunk_size_for, take_dv, take_top, alloc}
use unimem.UniAllocator.Bump.{chunk_size_for_bounds}
use unimem.UniAllocator.Stuck.{asked, init_or_expand-asked, huge_size, alloc-again}
use unimem.Heap.Counted.{counted, counted-IsHeap}
use unimem.Heap.{Blocks, Stock, IsHeap}
use unimem.Heap.Heads.{top_ne_null}
use unimem.Heap.Allocated.{Allocates}
use unimem.Heap.TakeDv.{take_dv-Allocates}
use unimem.Heap.TakeTop.{take_top-Allocates}
use unimem.Heap.FromBins.{from_bins-Offers}

module _ (underlying : ℕ → ℕ → Ptr) where
  -- Neither the designated victim nor the top chunk is large enough.
  abbrev pub IsShort : State → ℕ → Type 0
  IsShort s nb = (s.dvsize < nb) × (s.topsize ≤ nb)

  module _ (s : State) (b : Blocks) (k : Stock) (bytes : ℕ) (heap : IsHeap s b k) where
    abbrev nb : ℕ
    nb = chunk_size_for bytes

    -- What a chunk of the block can serve is below `MAX_REQUEST`.
    size_bounds : nb < 2 ^ 40 → (32 ≤ nb) × (nb % 8 ≡ 0)
    size_bounds small = elim (Bool-cases (leb max_request bytes)) [
      | inl e ↦ absurd (omega (arith, small, huge_size underlying bytes (ground (arith, e))))
      | inr e ↦
          let bounds = chunk_size_for_bounds bytes (ground (arith, e)) in
          (bounds.1, omega (arith, bounds.0))
    ]

    dv-Allocates : nb ≤ s.dvsize → Allocates b nb (take_dv nb s)
    dv-Allocates enough = elim heap.1.victim [
      | inl absent ↦
          let bounds = size_bounds (omega (arith, absent.1, enough)) in
          absurd (omega (arith, absent.1, enough, bounds.0))
      | inr present ↦
          let chunk = heap.0.each s.dv present.1.0 in
          let bounds =
            size_bounds (
              omega (arith, present.2, enough, chunk.low, chunk.high, heap.0.limit, heap.0.room)) in
          take_dv-Allocates s b k nb heap bounds.0 bounds.1 present.1 present.2 enough
    ]

    top-Allocates : nb < s.topsize → Allocates b nb (take_top nb s)
    top-Allocates fits =
        let bounds = size_bounds (omega (arith, fits, heap.0.limit, heap.0.below)) in
        take_top-Allocates s b nb heap.0 bounds.0 bounds.1 fits k heap.1

    -- One call, where `again` is what its own call returns.
    alloc-step :
        (fuel : ℕ)
        → (Allocates b nb (alloc underlying fuel bytes (asked s)))
          ⊎ (alloc underlying fuel bytes (asked s) ≡ out_of_fuel)
        → Allocates b nb (alloc underlying (suc fuel) bytes s)
          ⊎ (IsShort s nb × (alloc underlying (suc fuel) bytes s ≡ out_of_fuel))
    unfolding alloc
    alloc-step fuel again = elim (from_bins-Offers s b k bytes heap) [
      | inl (s', b', k', p, z, runs, heap', allocated, enough) ↦
          rw runs (inl (inl (s', b', k', p, z, refl, heap', allocated, enough)))
      | inr (inl (s', runs)) ↦ rw runs (inl (inr (s', refl)))
      | inr (inr runs) ↦ elim (Bool-cases (leb nb s.dvsize)) [
        | inl e ↦ rw (runs s.calls, e) (inl (dv-Allocates (ground (arith, e))))
        | inr e ↦ elim (Bool-cases (ltb nb s.topsize)) [
          | inl e' ↦ rw (runs s.calls, e, e') (inl (top-Allocates (ground (arith, e'))))
          | inr e' ↦
              let short : IsShort s nb = (ground (arith, e), ground (arith, e')) in
              let now : from_bins bytes s ≡ ok none s = runs s.calls in
              let asks = init_or_expand-asked underlying s (top_ne_null s b heap.0) in
              elim again [
                | inl served ↦ rw (now, e, e', asks) (inl served)
                | inr stuck ↦ rw (now, e, e', asks, stuck) (inr (short, refl))
              ]
        ]
      ]
    ]

    -- The bins have nothing, and neither have the designated victim and the top chunk.
    stuck :
        ((c : ℕ) → from_bins bytes (counted s c) ≡ ok none (counted s c))
        → IsShort s nb
        → (fuel c : ℕ) → alloc underlying fuel bytes (counted s c) ≡ out_of_fuel
    stuck runs short zero c = unfold alloc in refl
    stuck runs short (suc fuel) c =
        let heap_c = counted-IsHeap s b k c heap in
        alloc-again underlying fuel bytes (counted s c) (runs c)
          (top_ne_null (counted s c) b heap_c.0) short.0 short.1
        ∙ stuck runs short fuel (c + 1)

    -- The run ends without calling itself, and so at every depth, or at no depth.
    alloc-depth :
        ((fuel : ℕ) → alloc underlying (suc fuel) bytes s ≡ alloc underlying 1 bytes s)
        ⊎ (IsShort s nb × ((fuel : ℕ) → alloc underlying fuel bytes s ≡ out_of_fuel))
    unfolding alloc
    alloc-depth = elim (from_bins-Offers s b k bytes heap) [
      | inl (s', b', k', p, z, runs, heap', allocated, large) ↦ inl (λ fuel. rw runs refl)
      | inr (inl (s', runs)) ↦ inl (λ fuel. rw runs refl)
      | inr (inr runs) ↦
          let now : from_bins bytes s ≡ ok none s = runs s.calls in
          elim (Bool-cases (leb nb s.dvsize)) [
            | inl e ↦ inl (λ fuel. rw (now, e) refl)
            | inr e ↦ elim (Bool-cases (ltb nb s.topsize)) [
              | inl e' ↦ inl (λ fuel. rw (now, e, e') refl)
              | inr e' ↦
                  let short : IsShort s nb = (ground (arith, e), ground (arith, e')) in
                  inr (short, λ fuel. stuck runs short fuel s.calls)
            ]
          ]
    ]

  pub alloc-cases :
      (fuel bytes : ℕ) (s : State) (b : Blocks) (k : Stock)
      → IsHeap s b k
      → Allocates b (chunk_size_for bytes) (alloc underlying fuel bytes s)
        ⊎ (alloc underlying fuel bytes s ≡ out_of_fuel)
  alloc-cases zero bytes s b k heap = inr (unfold alloc in refl)
  alloc-cases (suc fuel) bytes s b k heap =
      elim (alloc-step s b k bytes heap fuel
        (alloc-cases fuel bytes (asked s) b k (counted-IsHeap s b k (s.calls + 1) heap))) [
          | inl served ↦ inl served
          | inr stuck ↦ inr stuck.1
        ]

  -- For every request of a heap, at any depth of the recursion: `Alloc` returns a block whose
  -- chunk was not used before, is at least as large as the chunk size for the request, and does
  -- not overlap another one, and leaves a heap in which the other used chunks are what they were;
  -- or it throws `MemoryCorruptedException`; or neither the designated victim nor the top chunk
  -- is large enough, and the run does not end within that depth.
  pub alloc-IsHeap :
      (fuel bytes : ℕ) (s : State) (b : Blocks) (k : Stock)
      → IsHeap s b k
      → Allocates b (chunk_size_for bytes) (alloc underlying (suc fuel) bytes s)
        ⊎ (IsShort s (chunk_size_for bytes) × (alloc underlying (suc fuel) bytes s ≡ out_of_fuel))
  alloc-IsHeap fuel bytes s b k heap =
      alloc-step s b k bytes heap fuel
        (alloc-cases fuel bytes (asked s) b k (counted-IsHeap s b k (s.calls + 1) heap))

  at_no_depth :
      (bytes : ℕ) (s : State)
      → alloc underlying 1 bytes s ≡ out_of_fuel
      → ((fuel : ℕ) → alloc underlying (suc fuel) bytes s ≡ alloc underlying 1 bytes s)
      → (fuel : ℕ) → alloc underlying fuel bytes s ≡ out_of_fuel
  at_no_depth bytes s once same zero = unfold alloc in refl
  at_no_depth bytes s once same (suc fuel) = same fuel ∙ once

  -- For every request of a heap, one of two things holds. Either the run in which `Alloc` does not
  -- call itself ends, with a block of a chunk that was not used before, in a heap with the other
  -- used chunks as they were, or with the exception `MemoryCorruptedException`, and the run is the
  -- same at any depth of the recursion from one on; or neither the designated victim nor the top
  -- chunk is large enough, and the run ends at no depth.
  pub alloc-ends :
      (bytes : ℕ) (s : State) (b : Blocks) (k : Stock)
      → IsHeap s b k
      → (Allocates b (chunk_size_for bytes) (alloc underlying 1 bytes s)
          × ((fuel : ℕ) → alloc underlying (suc fuel) bytes s ≡ alloc underlying 1 bytes s))
        ⊎ (IsShort s (chunk_size_for bytes)
            × ((fuel : ℕ) → alloc underlying fuel bytes s ≡ out_of_fuel))
  alloc-ends bytes s b k heap = elim (alloc-depth s b k bytes heap) [
    | inr never ↦ inr never
    | inl same ↦ elim (alloc-IsHeap 0 bytes s b k heap) [
      | inl served ↦ inl (served, same)
      | inr failed ↦ inr (failed.0, at_no_depth bytes s failed.1 same)
    ]
  ]
