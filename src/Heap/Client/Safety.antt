-- ===== src/Heap/Client/Safety.antt =====
-- What a client of the allocator can rely on in every state that it can reach.
use unimem.Base.{
  ℕ, zero, suc, ◌+◌, ◌≤◌, ◌<◌, ◌≡◌, refl, sym, ◌∙◌, arith, ◌⊎◌, inl, inr, Bool-cases, leb, List, [],
  ◌∷◌, ◌++◌,
}
use unimem.Machine.{Ptr, State, Run, ok, corrupted, out_of_fuel}
use unimem.Machine.Returns.{write}
use unimem.Chunk.{chunk2mem, max_request}
use unimem.UniAllocator.{chunk_size_for, alloc, free}
use unimem.UniAllocator.Bump.{chunk_size_for_bounds}
use unimem.UniAllocator.Stuck.{huge_size}
use unimem.UniAllocator.Init.{started}
use unimem.Heap.{Blocks, Stock, IsHeap}
use unimem.Heap.Allocated.{Allocates}
use unimem.Heap.Alloc.{alloc-cases}
use unimem.Heap.Free.{free-IsHeap}
use unimem.Heap.Start.{IsNew, no_blocks, no_stock, started-IsHeap, alloc-first}
use unimem.Heap.Write.{write-IsHeap}
use unimem.Machine.Outcomes.{ok-same, ok-tt, ok_not-corrupted, ok_not-fuel}
use unimem.Heap.Client.Apart.{Disjoint, AllHeld-Disjoint}
use unimem.Heap.Client.{
  Held, ClientReach, begun, allocated, wrote, freed, AllHeld, Distinct, AllHeld-middle,
  Distinct-middle, AllHeld-drop, AllHeld-IsAllocated, AllHeld-IsReleased,
}

-- The blocks stand in used chunks of a heap, and are not held twice.
pub record IsHolding (t : State) (held : List Held) : Type 0 where
  pub blocks : Blocks
  pub stock : Stock
  pub heap : IsHeap t blocks stock
  pub all : AllHeld blocks held
  pub distinct : Distinct held

alloc-IsHolding :
    (t t' : State) (held : List Held) (bytes : ℕ) (m : Ptr) (run : Run Ptr)
    → (holding : IsHolding t held) → run ≡ ok m t'
    → Allocates holding.blocks (chunk_size_for bytes) run ⊎ (run ≡ out_of_fuel)
    → IsHolding t' (record { mem = m; bytes = bytes } ∷ held)
alloc-IsHolding t t' held bytes m run holding runs
      (inl (inl (s', b', k', p, z, is, heap, allocation, enough))) =
    let same = ok-same (chunk2mem p) m s' t' (sym is ∙ runs) in
    let (all, other) = AllHeld-IsAllocated holding.blocks b' p z held allocation holding.all in
    record {
      blocks = b';
      stock = k';
      heap = rw same.1 at heap;
      all = ((p, z, sym same.0, allocation.new, enough), all);
      distinct = (rw same.0 at other, holding.distinct);
    }
alloc-IsHolding t t' held bytes m run holding runs (inl (inr (s', is))) =
    absurd (ok_not-corrupted Ptr m t' s' (sym is ∙ runs))
alloc-IsHolding t t' held bytes m run holding runs (inr is) =
    absurd (ok_not-fuel m t' (sym is ∙ runs))

free-IsHolding :
    (t t' : State) (xs ys : List Held) (h : Held)
    → IsHolding t (xs ++ h ∷ ys)
    → free h.mem t ≡ ok tt t'
    → IsHolding t' (xs ++ ys)
free-IsHolding t t' xs ys h holding runs =
    let (p, z, is, live, enough) = AllHeld-middle holding.blocks xs ys h holding.all in
    let (other, distinct) = Distinct-middle xs ys h holding.distinct in
    let runs' : free (chunk2mem p) t ≡ ok tt t' = rw is at runs in
    elim (free-IsHeap t holding.blocks holding.stock p z holding.heap live) [
      | inl (s', b', k', does, heap, release) ↦
          let same = ok-tt s' t' (sym does ∙ runs') in
          record {
            blocks = b';
            stock = k';
            heap = rw same at heap;
            all =
                AllHeld-IsReleased holding.blocks b' p (xs ++ ys) release (rw is at other)
                  (AllHeld-drop holding.blocks xs ys h holding.all);
            distinct = distinct;
          }
      | inr (s', does) ↦ absurd (ok_not-corrupted Unit tt t' s' (sym does ∙ runs'))
    ]

wrote-IsHolding :
    (t : State) (xs ys : List Held) (h : Held) (a v : ℕ)
    → IsHolding t (xs ++ h ∷ ys)
    → h.mem ≤ a
    → a + 8 + 32 ≤ h.mem + chunk_size_for h.bytes
    → IsHolding (write t a v) (xs ++ h ∷ ys)
wrote-IsHolding t xs ys h a v holding from to =
    let (p, z, is, live, enough) = AllHeld-middle holding.blocks xs ys h holding.all in
    record {
      blocks = holding.blocks;
      stock = holding.stock;
      heap =
          write-IsHeap t holding.blocks holding.stock p z a v holding.heap live
            (omega (arith, is, from)) (omega (arith, is, to, enough));
      all = holding.all;
      distinct = holding.distinct;
    }

module _ (underlying : ℕ → ℕ → Ptr) (s : State) (tbase tsize : ℕ)
    (is_new : IsNew underlying s tbase tsize) where
  -- Nothing has been asked for yet, or the blocks stand in a heap.
  abbrev Holds : State → List Held → Type 0
  Holds t held = ((t ≡ s) × (held ≡ [])) ⊎ IsHolding t held

  started-IsHolding : IsHolding (started s tbase tsize) []
  started-IsHolding = record {
    blocks = no_blocks tbase;
    stock = no_stock;
    heap = started-IsHeap underlying s tbase tsize is_new;
    all = tt;
    distinct = tt;
  }

  size_pos : (bytes : ℕ) → 0 < chunk_size_for bytes
  size_pos bytes = elim (Bool-cases (leb max_request bytes)) [
    | inl e ↦ omega (arith, huge_size underlying bytes (ground (arith, e)))
    | inr e ↦ omega (arith, chunk_size_for_bounds bytes (ground (arith, e)))
  ]

  IsHolding-alloc :
      (t t' : State) (held : List Held) (fuel bytes : ℕ) (m : Ptr)
      → IsHolding t held
      → alloc underlying fuel bytes t ≡ ok m t'
      → IsHolding t' (record { mem = m; bytes = bytes } ∷ held)
  IsHolding-alloc t t' held fuel bytes m holding runs =
      alloc-IsHolding t t' held bytes m (alloc underlying fuel bytes t) holding runs
        (alloc-cases underlying fuel bytes t holding.blocks holding.stock holding.heap)

  alloc-zero : (bytes : ℕ) → alloc underlying 0 bytes s ≡ out_of_fuel
  unfolding alloc
  alloc-zero bytes = refl

  new-alloc :
      (t' : State) (fuel bytes : ℕ) (m : Ptr)
      → alloc underlying fuel bytes s ≡ ok m t'
      → IsHolding t' (record { mem = m; bytes = bytes } ∷ [])
  new-alloc t' zero bytes m runs = absurd (ok_not-fuel m t' (sym (alloc-zero bytes) ∙ runs))
  new-alloc t' (suc fuel) bytes m runs =
      IsHolding-alloc (started s tbase tsize) t' [] fuel bytes m started-IsHolding
        (sym (alloc-first underlying s tbase tsize is_new fuel bytes (size_pos bytes)) ∙ runs)

  not_nil : (xs ys : List Held) (h : Held) → ¬ (xs ++ h ∷ ys ≡ [])
  not_nil [] ys h e = cc
  not_nil (x ∷ xs) ys h e = cc

  ClientReach-Holds :
      (t : State) (held : List Held) → ClientReach underlying s t held → Holds t held
  ClientReach-Holds t held begun = inl (refl, refl)
  ClientReach-Holds t' held' (allocated t t'' held fuel bytes m reach runs) =
      elim (ClientReach-Holds t held reach) [
        | inl (is, none_held) ↦ inr (rw none_held (new-alloc t' fuel bytes m (rw is at runs)))
        | inr holding ↦ inr (IsHolding-alloc t t' held fuel bytes m holding runs)
      ]
  ClientReach-Holds t' held' (wrote t xs ys h a v reach from to) =
      elim (ClientReach-Holds t (xs ++ h ∷ ys) reach) [
        | inl (is, none_held) ↦ absurd (not_nil xs ys h none_held)
        | inr holding ↦ inr (wrote-IsHolding t xs ys h a v holding from to)
      ]
  ClientReach-Holds t' held' (freed t t'' xs ys h reach runs) =
      elim (ClientReach-Holds t (xs ++ h ∷ ys) reach) [
        | inl (is, none_held) ↦ absurd (not_nil xs ys h none_held)
        | inr holding ↦ inr (free-IsHolding t t' xs ys h holding runs)
      ]

  -- For an allocator whose top, least address, bitmaps, designated victim, sizes of that and of the
  -- top chunk, and roots of the trees are zero; with a first grant that is not null, is aligned to
  -- 16 bytes, has a size from 64 to 2 ^ 40 bytes that is a multiple of 8, and does not overlap the
  -- `MallocState`, nor does the word behind it; and for a client that frees only blocks that it
  -- holds, each once, and writes only into the part of a block that lies in its chunk: in every state that it reaches by runs that return, no two blocks that it holds
  -- overlap, each taken with the chunk size for its request.
  pub ClientReach-Disjoint :
      (t : State) (held : List Held) → ClientReach underlying s t held → Disjoint held
  ClientReach-Disjoint t held reach = elim (ClientReach-Holds t held reach) [
    | inl (is, none_held) ↦ rw none_held tt
    | inr holding ↦
        AllHeld-Disjoint t holding.blocks held holding.heap.0 holding.all holding.distinct
  ]

  -- For an allocator whose top, least address, bitmaps, designated victim, sizes of that and of the
  -- top chunk, and roots of the trees are zero; with a first grant that is not null, is aligned to
  -- 16 bytes, has a size from 64 to 2 ^ 40 bytes that is a multiple of 8, and does not overlap the
  -- `MallocState`, nor does the word behind it; and for a client that frees only blocks that it
  -- holds, each once, and writes only into the part of a block that lies in its chunk: in every state that it reaches by runs that return, `Free` of a block that it holds
  -- ends: it returns, or throws `MemoryCorruptedException`.
  pub ClientReach-free_ends :
      (t : State) (xs ys : List Held) (h : Held)
      → ClientReach underlying s t (xs ++ h ∷ ys)
      → ((t' : State) × (free h.mem t ≡ ok tt t')) ⊎ ((t' : State) × (free h.mem t ≡ corrupted t'))
  ClientReach-free_ends t xs ys h reach = elim (ClientReach-Holds t (xs ++ h ∷ ys) reach) [
    | inl (is, none_held) ↦ absurd (not_nil xs ys h none_held)
    | inr holding ↦
        let (p, z, is, live, enough) = AllHeld-middle holding.blocks xs ys h holding.all in
        rw is (elim (free-IsHeap t holding.blocks holding.stock p z holding.heap live) [
          | inl (s', b', k', does, heap, release) ↦ inl (s', does)
          | inr thrown ↦ inr thrown
        ])
  ]
