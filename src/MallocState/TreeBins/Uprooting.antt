-- ===== src/MallocState/TreeBins/Uprooting.antt =====
-- `unlink_large_chunk` on the trees as lists.
use unimem.Base.{ℕ, ◌<◌, ◌≡◌, ◌≢◌, refl, ap, arith, List, [], ◌∷◌, ◌++◌}
use unimem.Machine.{Ptr, State, ok}
use unimem.MallocState.Bitmap.Marks.{has-without_bit}
use unimem.MallocState.Top.{treebin_at}
use unimem.MallocState.SmallBins.Unlink.{last_or}
use unimem.MallocState.TreeBins.{unlink_large_chunk}
use unimem.MallocState.TreeBins.Alone.{cleared, unlink_large_chunk-alone}
use unimem.MallocState.TreeBins.Nodes.{AllTreeApart, IsTree, SameBut, TreeCross}
use unimem.MallocState.TreeBins.Members.{TreeCross-drop}
use unimem.MallocState.TreeBins.Drop.{dropped, dropped-runs, dropped-IsTree, dropped-SameBut}
use unimem.MallocState.TreeBins.Promote.{promoted, promoted-runs, promoted-IsTree, promoted-SameBut}
use unimem.MallocState.TreeBins.Lone.{IsTree-IsAlone, cleared-IsTree, cleared-SameBut}
use unimem.MallocState.TreeBins.Forest.{IsForest, set_tree, set_size, SameRest, set_tree-IsForest}
use unimem.MallocState.TreeBins.Planting.{Becomes}

abbrev pub butlast : Ptr → List Ptr → List Ptr
butlast y [] = []
butlast y (z ∷ zs) = y ∷ butlast z zs

-- The tree `xs ++ p ∷ ys` without `p`: the node stays the node, or the last chunk becomes it.
abbrev pub uproot : List Ptr → List Ptr → List Ptr
uproot [] [] = []
uproot [] (y ∷ ys) = last_or y ys ∷ butlast y ys
uproot (x ∷ xs) ys = x ∷ xs ++ ys

-- The state after `p` has left the tree `i` of the chunks `xs ++ p ∷ ys`.
abbrev pub uprooted : State → ℕ → Ptr → List Ptr → List Ptr → State
uprooted s i p [] [] = cleared s i
uprooted s i p [] (y ∷ ys) = promoted s i p (last_or y ys) (butlast y ys)
uprooted s i p (x ∷ xs) ys = dropped s x xs ys

butlast-last_or : (y : Ptr) (ys : List Ptr) → butlast y ys ++ last_or y ys ∷ [] ≡ y ∷ ys
butlast-last_or y [] = refl
butlast-last_or y (z ∷ zs) = ap (λ l. y ∷ l) (butlast-last_or z zs)

TreeCross-rotate :
    (y : Ptr) (ys zs : List Ptr)
    → TreeCross (y ∷ ys) zs
    → TreeCross (last_or y ys ∷ butlast y ys) zs
TreeCross-rotate y [] zs c = c
TreeCross-rotate y (x ∷ xs) zs c =
    let rest = TreeCross-rotate x xs zs c.1 in (rest.0, (c.0, rest.1))

TreeCross-uproot :
    (p : Ptr) (xs ys zs : List Ptr) → TreeCross (xs ++ p ∷ ys) zs → TreeCross (uproot xs ys) zs
TreeCross-uproot p [] [] zs c = tt
TreeCross-uproot p [] (y ∷ ys) zs c = TreeCross-rotate y ys zs c.1
TreeCross-uproot p (x ∷ xs) ys zs c = TreeCross-drop p (x ∷ xs) ys zs c

TreeCross-uncons :
    (y : Ptr) (xs ys : List Ptr) → TreeCross xs (y ∷ ys) → AllTreeApart y xs × TreeCross xs ys
TreeCross-uncons y [] ys c = (tt, tt)
TreeCross-uncons y (x ∷ xs) ys c =
    let rest = TreeCross-uncons y xs ys c.1 in ((ground (arith, c.0.0), rest.0), (c.0.1, rest.1))

pub TreeCross-sym : (xs ys : List Ptr) → TreeCross xs ys → TreeCross ys xs
TreeCross-sym xs [] c = tt
TreeCross-sym xs (y ∷ ys) c =
    let parts = TreeCross-uncons y xs ys c in (parts.0, TreeCross-sym xs ys parts.1)

module _ (s : State) (i n : ℕ) (p : Ptr) where
  rotate-IsTree :
      (y : Ptr) (ys : List Ptr)
      → IsTree s i n (p ∷ y ∷ ys)
      → IsTree s i n (p ∷ butlast y ys ++ last_or y ys ∷ [])
  rotate-IsTree y ys tree = rw (butlast-last_or y ys) tree

  uprooted-Becomes :
      (xs ys : List Ptr)
      → IsTree s i n (xs ++ p ∷ ys)
      → Becomes s (uprooted s i p xs ys) i n (uproot xs ys) (xs ++ p ∷ ys)
  uprooted-Becomes [] [] tree = record {
    tree = cleared-IsTree s i n p tree;
    same = cleared-SameBut s i p;
    rest = refl;
    marks = λ j ne. ground (arith, has-without_bit s.treemap i j tree.map tree.low);
  }
  uprooted-Becomes [] (y ∷ ys) tree =
      let ring = rotate-IsTree y ys tree in
      record {
        tree = promoted-IsTree s i n p (last_or y ys) (butlast y ys) ring;
        same =
            rw (butlast-last_or y ys) at
              (promoted-SameBut s i n p (last_or y ys) (butlast y ys) ring);
        rest = refl;
        marks = λ j ne. refl;
      }
  uprooted-Becomes (x ∷ xs) ys tree = record {
    tree = dropped-IsTree s i n x p xs ys tree;
    same = dropped-SameBut s i n x p xs ys tree;
    rest = refl;
    marks = λ j ne. refl;
  }

  uprooted-runs :
      (xs ys : List Ptr)
      → IsTree s i n (xs ++ p ∷ ys)
      → unlink_large_chunk p s ≡ ok tt (uprooted s i p xs ys)
  uprooted-runs [] [] tree =
      unlink_large_chunk-alone s i p n (IsTree-IsAlone s i n p tree) tree.outside.0
  uprooted-runs [] (y ∷ ys) tree =
      promoted-runs s i n p (last_or y ys) (butlast y ys) (rotate-IsTree y ys tree)
  uprooted-runs (x ∷ xs) ys tree = dropped-runs s i n x p xs ys tree

-- Where the trees hold a forest of lists, unlinking a chunk of the tree `i`, wherever it stands
-- in it, returns, and takes it out of that tree: a chunk behind the node leaves the others in
-- their order, and the place of the node is taken by the last chunk, if there is one. The other
-- trees hold what they held, and of the memory only words of the tree and of its slot can change.
pub unlink_large_chunk-IsForest :
    (s : State) (sizes : ℕ → ℕ) (trees : ℕ → List Ptr) (p i : ℕ) (xs ys : List Ptr)
    → IsForest s sizes trees
    → i < 32
    → trees i ≡ xs ++ p ∷ ys
    → (s' : State) × (unlink_large_chunk p s ≡ ok tt s')
      × IsForest s' (set_size sizes i (sizes i)) (set_tree trees i (uproot xs ys))
      × SameBut s.mem s'.mem (treebin_at i s) (xs ++ p ∷ ys)
      × SameRest s s'
unlink_large_chunk-IsForest s sizes trees p i xs ys forest low held =
    let tree = rw held at (forest.each i low) in
    let step = uprooted-Becomes s i (sizes i) p xs ys tree in
    let near = λ (j : ℕ) (q : j < 32) (ne : i ≢ j). rw held at (forest.cross i j low q ne) in
    let kept =
      λ (j : ℕ) (q : j < 32) (ne : i ≢ j). TreeCross-uproot p xs ys (trees j) (near j q ne) in
    (
      uprooted s i p xs ys,
      uprooted-runs s i (sizes i) p xs ys tree,
      set_tree-IsForest s (uprooted s i p xs ys) sizes trees i (sizes i) (uproot xs ys)
          (xs ++ p ∷ ys) forest low step.rest step.marks step.same tree.outside
          (λ j q ne. TreeCross-sym (xs ++ p ∷ ys) (trees j) (near j q ne))
          (λ j q ne. (TreeCross-sym (uproot xs ys) (trees j) (kept j q ne), kept j q ne)) step.tree,
      step.same,
      step.rest,
    )
