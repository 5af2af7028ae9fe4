-- ===== src/Heap/Client.antt =====
-- A client of the allocator: in every state that it can reach, the blocks that it holds do not
-- overlap.
pub mod Apart
pub mod Safety
use unimem.Base.{
  ℕ, zero, suc, ◌+◌, ◌-◌, ◌*◌, ◌/◌, ◌%◌, ◌≤◌, ◌<◌, ◌^◌, ◌≡◌, ◌≢◌, refl, sym, ap, ◌∙◌, arith, ◌⊎◌,
  inl, inr, List, [], ◌∷◌, ◌++◌,
}
use unimem.Machine.{Ptr, null, State, ok, corrupted, out_of_fuel}
use unimem.Machine.Returns.{write}
use unimem.Chunk.{head_at, prev_foot_at, chunk2mem}
use unimem.UniAllocator.{chunk_size_for, alloc, free}
use unimem.UniAllocator.Init.{started}
use unimem.Heap.{Blocks, IsTiling, IsChunk, Stock, IsFree, IsStock, IsHeap, IsTiling-frame}
use unimem.Heap.Keeping.{IsOff, IsStock-write}
use unimem.Heap.Released.{IsLive, IsReleased}
use unimem.Heap.Allocated.{IsAllocated, Allocates}
use unimem.Heap.Alloc.{alloc-IsHeap}
use unimem.Heap.Free.{free-IsHeap}
use unimem.Heap.Start.{IsNew, no_blocks, no_stock, started-IsHeap, alloc-first}

-- A block that the client holds, and the number of bytes that it asked for.
pub record Held : Type 0 where
  pub mem : Ptr
  pub bytes : ℕ

-- The states that a client reaches from `s` and the blocks that it holds then. It asks for blocks,
-- writes words of a block that lie in its chunk, and frees a block that it holds, once.
pub data ClientReach (underlying : ℕ → ℕ → Ptr) (s : State) : State → List Held → Type 0 where
  begun : ClientReach underlying s s []
  allocated :
      (t t' : State) (held : List Held) (fuel bytes : ℕ) (m : Ptr)
      → ClientReach underlying s t held
      → alloc underlying fuel bytes t ≡ ok m t'
      → ClientReach underlying s t' (record { mem = m; bytes = bytes } ∷ held)
  wrote :
      (t : State) (xs ys : List Held) (h : Held) (a v : ℕ)
      → ClientReach underlying s t (xs ++ h ∷ ys)
      → h.mem ≤ a
      → a + 8 + 32 ≤ h.mem + chunk_size_for h.bytes
      → ClientReach underlying s (write t a v) (xs ++ h ∷ ys)
  freed :
      (t t' : State) (xs ys : List Held) (h : Held)
      → ClientReach underlying s t (xs ++ h ∷ ys)
      → free h.mem t ≡ ok tt t'
      → ClientReach underlying s t' (xs ++ ys)

-- The block stands in a used chunk that is large enough.
abbrev pub IsHeld : Blocks → Held → Type 0
IsHeld b h =
    (p : Ptr) × (z : ℕ) × (h.mem ≡ chunk2mem p) × IsLive b p z × (chunk_size_for h.bytes ≤ z)

abbrev pub AllHeld : Blocks → List Held → Type 0
AllHeld b [] = Unit
AllHeld b (h ∷ hs) = IsHeld b h × AllHeld b hs

abbrev pub AllOther : Ptr → List Held → Type 0
AllOther m [] = Unit
AllOther m (h ∷ hs) = (m ≢ h.mem) × AllOther m hs

abbrev pub Distinct : List Held → Type 0
Distinct [] = Unit
Distinct (h ∷ hs) = AllOther h.mem hs × Distinct hs

pub AllHeld-middle :
    (b : Blocks) (xs ys : List Held) (h : Held) → AllHeld b (xs ++ h ∷ ys) → IsHeld b h
AllHeld-middle b [] ys h all = all.0
AllHeld-middle b (x ∷ xs) ys h all = AllHeld-middle b xs ys h all.1

AllOther-middle :
    (m : Ptr) (xs ys : List Held) (h : Held)
    → AllOther m (xs ++ h ∷ ys)
    → (m ≢ h.mem) × AllOther m (xs ++ ys)
AllOther-middle m [] ys h all = all
AllOther-middle m (x ∷ xs) ys h all =
    let rest = AllOther-middle m xs ys h all.1 in (rest.0, (all.0, rest.1))

pub Distinct-middle :
    (xs ys : List Held) (h : Held)
    → Distinct (xs ++ h ∷ ys)
    → AllOther h.mem (xs ++ ys) × Distinct (xs ++ ys)
Distinct-middle [] ys h d = d
Distinct-middle (x ∷ xs) ys h d =
    let rest = Distinct-middle xs ys h d.1 in
    let first = AllOther-middle x.mem xs ys h d.0 in
    (((λ e. first.0 (sym e)), rest.0), (first.1, rest.1))

pub AllHeld-drop :
    (b : Blocks) (xs ys : List Held) (h : Held) → AllHeld b (xs ++ h ∷ ys) → AllHeld b (xs ++ ys)
AllHeld-drop b [] ys h all = all.1
AllHeld-drop b (x ∷ xs) ys h all = (all.0, AllHeld-drop b xs ys h all.1)

-- An allocation moves no block, and gives another one.
pub AllHeld-IsAllocated :
    (b b' : Blocks) (p z : ℕ) (hs : List Held)
    → IsAllocated b b' p z
    → AllHeld b hs
    → AllHeld b' hs × AllOther (chunk2mem p) hs
AllHeld-IsAllocated b b' p z [] allocation all = (tt, tt)
AllHeld-IsAllocated b b' p z (h ∷ hs) allocation all =
    let (q, n, is, live, enough) = all.0 in
    let ne : q ≢ p = λ e. allocation.fresh n (rw (← e) live) in
    let rest = AllHeld-IsAllocated b b' p z hs allocation all.1 in
    (
      ((q, n, is, allocation.still q n ne live, enough), rest.0),
      ((λ e. ne (omega (arith, e, is))), rest.1),
    )

-- A release moves no other block.
pub AllHeld-IsReleased :
    (b b' : Blocks) (p : Ptr) (hs : List Held)
    → IsReleased b b' p
    → AllOther (chunk2mem p) hs
    → AllHeld b hs
    → AllHeld b' hs
AllHeld-IsReleased b b' p [] release other all = tt
AllHeld-IsReleased b b' p (h ∷ hs) release other all =
    let (q, n, is, live, enough) = all.0 in
    (
      (q, n, is, release.still q n live (λ e. other.0 (omega (arith, e, is))), enough),
      AllHeld-IsReleased b b' p hs release other.1 all.1,
    )
