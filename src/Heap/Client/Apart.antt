-- ===== src/Heap/Client/Apart.antt =====
-- The blocks that stand in different used chunks of a heap do not overlap.
use unimem.Base.{◌+◌, ◌≤◌, ◌≢◌, arith, ◌⊎◌, List, [], ◌∷◌}
use unimem.Machine.{State}
use unimem.UniAllocator.{chunk_size_for}
use unimem.Heap.{Blocks, IsTiling}
use unimem.Heap.Client.{Held, IsHeld, AllHeld, AllOther, Distinct}

-- Two blocks whose chunks do not overlap.
abbrev pub Apart : Held → Held → Type 0
Apart h h' = (h.mem + chunk_size_for h.bytes ≤ h'.mem) ⊎ (h'.mem + chunk_size_for h'.bytes ≤ h.mem)

abbrev pub AllApart : Held → List Held → Type 0
AllApart h [] = Unit
AllApart h (x ∷ xs) = Apart h x × AllApart h xs

abbrev pub Disjoint : List Held → Type 0
Disjoint [] = Unit
Disjoint (h ∷ hs) = AllApart h hs × Disjoint hs

IsHeld-Apart :
    (t : State) (b : Blocks) (h h' : Held)
    → IsTiling t b
    → IsHeld b h
    → IsHeld b h'
    → h.mem ≢ h'.mem
    → Apart h h'
IsHeld-Apart t b h h' tiling (p, z, is, live, enough) (p', z', is', live', enough') ne = omega (
  arith,
  tiling.apart p p' (omega (arith, live)) (omega (arith, live')),
  is,
  is',
  live,
  live',
  enough,
  enough',
  ne,
)

AllHeld-AllApart :
    (t : State) (b : Blocks) (h : Held) (hs : List Held)
    → IsTiling t b
    → IsHeld b h
    → AllHeld b hs
    → AllOther h.mem hs
    → AllApart h hs
AllHeld-AllApart t b h [] tiling one all other = tt
AllHeld-AllApart t b h (x ∷ xs) tiling one all other = (
  IsHeld-Apart t b h x tiling one all.0 other.0,
  AllHeld-AllApart t b h xs tiling one all.1 other.1,
)

pub AllHeld-Disjoint :
    (t : State) (b : Blocks) (hs : List Held)
    → IsTiling t b
    → AllHeld b hs
    → Distinct hs
    → Disjoint hs
AllHeld-Disjoint t b [] tiling all distinct = tt
AllHeld-Disjoint t b (h ∷ hs) tiling all distinct = (
  AllHeld-AllApart t b h hs tiling all.0 all.1 distinct.0,
  AllHeld-Disjoint t b hs tiling all.1 distinct.1,
)
