-- ===== src/MallocState/TreeBins/Forest.antt =====
-- All trees at once, as functions from the index to the size and to the list of the chunks.
use unimem.Base.{
  ℕ, ◌+◌, ◌*◌, ◌≤◌, ◌<◌, ◌^◌, ◌≡◌, ◌≢◌, ap, arith, inl, inr, false, Bool-cases, List, [], ◌∷◌, ◌==◌,
  if◌then◌else◌,
}
use unimem.Machine.{Ptr, null, State}
use unimem.MallocState.Bitmap.Marks.{has}
use unimem.MallocState.Top.{treebin_at}
use unimem.MallocState.TreeBins.Leaf.{OutsideTrees}
use unimem.MallocState.TreeBins.Nodes.{
  AllTreeApart, AllOutsideTrees, IsTree, IsTree-frame, AllClear, SameBut, TreeCross,
  SameChunks-cross,
}

-- The 32 trees: the tree `i` holds the chunks `trees i`, all of the size `sizes i`.
pub record IsForest (s : State) (sizes : ℕ → ℕ) (trees : ℕ → List Ptr) : Type 0 where
  pub each : (i : ℕ) → i < 32 → IsTree s i (sizes i) (trees i)
  pub cross : (i j : ℕ) → i < 32 → j < 32 → i ≢ j → TreeCross (trees i) (trees j)

-- A chunk that can be put into one of the trees.
pub record IsFreshTree (s : State) (trees : ℕ → List Ptr) (p : Ptr) : Type 0 where
  pub ne_null : p ≢ null
  pub address : s.least_addr ≤ p
  pub outside : OutsideTrees s.gm p
  pub apart : (i : ℕ) → i < 32 → AllTreeApart p (trees i)

abbrev pub set_tree : (ℕ → List Ptr) → ℕ → List Ptr → ℕ → List Ptr
set_tree trees i ts j = if j == i then ts else trees j

abbrev pub set_size : (ℕ → ℕ) → ℕ → ℕ → ℕ → ℕ
set_size sizes i n j = if j == i then n else sizes j

-- Nothing but the memory and the map of the trees differs.
abbrev pub SameRest : State → State → Type 0
SameRest s s' = s' ≡ record s { mem = s'.mem; treemap = s'.treemap }

AllClear-outside :
    (gm i : ℕ) (xs : List Ptr) → i < 32 → AllOutsideTrees gm xs → AllClear (gm + 600 + 8 * i) xs
AllClear-outside gm i [] low out = tt
AllClear-outside gm i (x ∷ xs) low out = (omega arith, AllClear-outside gm i xs low out.1)

-- The other trees stay as they are where a step changes only the slot of the tree `i` and chunks
-- that are apart from them.
pub IsTree-other :
    (s s' : State) (i j n : ℕ) (ts ds : List Ptr)
    → SameRest s s'
    → s'.treemap < 2 ^ 32
    → has s'.treemap j ≡ has s.treemap j
    → SameBut s.mem s'.mem (treebin_at i s) ds
    → AllOutsideTrees s.gm ds
    → TreeCross ts ds
    → i < 32
    → i ≢ j
    → IsTree s j n ts
    → IsTree s' j n ts
unfolding treebin_at
IsTree-other s s' i j n ts ds rest map marked same out cross low ne tree =
    IsTree-frame s s' j n ts (ap (λ z. z.gm) rest) (ap (λ z. z.least_addr) rest) map marked
      (same (treebin_at j s) (omega arith) (AllClear-outside s.gm j ds tree.low out))
      (SameChunks-cross s.mem s'.mem s.gm i ts ds low same tree.outside cross) tree

-- A step that changes the tree `i` to `ts` and no other leaves a forest.
pub set_tree-IsForest :
    (s s' : State) (sizes : ℕ → ℕ) (trees : ℕ → List Ptr) (i n : ℕ) (ts ds : List Ptr)
    → IsForest s sizes trees
    → i < 32
    → SameRest s s'
    → ((j : ℕ) → i ≢ j → has s'.treemap j ≡ has s.treemap j)
    → SameBut s.mem s'.mem (treebin_at i s) ds
    → AllOutsideTrees s.gm ds
    → ((j : ℕ) → j < 32 → i ≢ j → TreeCross (trees j) ds)
    → ((j : ℕ) → j < 32 → i ≢ j → TreeCross (trees j) ts × TreeCross ts (trees j))
    → IsTree s' i n ts
    → IsForest s' (set_size sizes i n) (set_tree trees i ts)
set_tree-IsForest s s' sizes trees i n ts ds forest low rest marks same out far cross tree =
    record {
      each = λ j below. elim (Bool-cases (j == i)) [
        | inl e ↦ let q : j ≡ i = ground arith in rw e (rw q tree)
        | inr e ↦
            let ne : i ≢ j = ground arith in
            rw e (
              IsTree-other s s' i j (sizes j) (trees j) ds rest tree.map (marks j ne) same out
                (far j below ne) low ne (forest.each j below))
      ];
      cross = λ j k p q ne. elim (Bool-cases (j == i)) [
        | inl e ↦
            let other : (k == i) ≡ false = ground arith in
            rw (e, other) (cross k q (ground arith)).1
        | inr e ↦ elim (Bool-cases (k == i)) [
          | inl e' ↦ rw (e, e') (cross j p (ground arith)).0
          | inr e' ↦ rw (e, e') (forest.cross j k p q ne)
        ]
      ];
    }
