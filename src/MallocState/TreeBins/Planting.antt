-- ===== src/MallocState/TreeBins/Planting.antt =====
-- `insert_large_chunk` on the trees as lists.
use unimem.Base.{ℕ, ◌+◌, ◌≤◌, ◌<◌, ◌^◌, ◌≡◌, ◌≢◌, refl, sym, arith, List, [], ◌∷◌}
use unimem.Machine.{Ptr, null, State, ok}
use unimem.Chunk.{size_of, head_at}
use unimem.MallocState.Bitmap.Marks.{has, has-with_bit}
use unimem.MallocState.Top.{treebin_at}
use unimem.MallocState.TreeIndex.{compute_tree_index}
use unimem.MallocState.TreeIndex.Ranges.{compute_tree_index-Holds}
use unimem.MallocState.TreeBins.{insert_large_chunk}
use unimem.MallocState.TreeBins.Leaf.{TreeApart, OutsideTrees}
use unimem.MallocState.TreeBins.Alone.{plant-runs}
use unimem.MallocState.TreeBins.Nodes.{AllTreeApart, IsTree, SameBut, TreeCross}
use unimem.MallocState.TreeBins.Join.{grown, with_chunk, grown-runs, grown_ring, grown-SameBut}
use unimem.MallocState.TreeBins.Lone.{planted-IsTree, planted-SameBut}
use unimem.MallocState.TreeBins.Forest.{
  IsForest, IsFreshTree, set_tree, set_size, SameRest, set_tree-IsForest,
}

-- The chunks of the size `m` can be joined by one of the size `n`.
abbrev pub Fits : ℕ → ℕ → List Ptr → Type 0
Fits m n [] = Unit
Fits m n (t ∷ ts) = m ≡ n

IsTree-empty : (s : State) (i m n : ℕ) → IsTree s i m [] → IsTree s i n []
IsTree-empty s i m n tree = record {
  low = tree.low;
  map = tree.map;
  marked = tree.marked;
  root = tree.root;
  rooted = tt;
  distinct = tt;
  outside = tt;
}

TreeCross-cons_right :
    (p : Ptr) (xs ys : List Ptr) → AllTreeApart p xs → TreeCross xs ys → TreeCross xs (p ∷ ys)
TreeCross-cons_right p [] ys h c = tt
TreeCross-cons_right p (x ∷ xs) ys h c =
    ((ground (arith, h.0), c.0), TreeCross-cons_right p xs ys h.1 c.1)

AllTreeApart-with_chunk :
    (y x : Ptr) (ts : List Ptr)
    → TreeApart y x
    → AllTreeApart y ts
    → AllTreeApart y (with_chunk ts x)
AllTreeApart-with_chunk y x [] h k = (h, tt)
AllTreeApart-with_chunk y x (t ∷ ts) h k = (k.0, (h, k.1))

TreeCross-with_chunk :
    (x : Ptr) (xs ts : List Ptr)
    → AllTreeApart x xs
    → TreeCross xs ts
    → TreeCross xs (with_chunk ts x)
TreeCross-with_chunk x [] ts h c = tt
TreeCross-with_chunk x (y ∷ ys) ts h c =
    (AllTreeApart-with_chunk y x ts (ground (arith, h.0)) c.0, TreeCross-with_chunk x ys ts h.1 c.1)

with_chunk-TreeCross :
    (x : Ptr) (ts xs : List Ptr)
    → AllTreeApart x xs
    → TreeCross ts xs
    → TreeCross (with_chunk ts x) xs
with_chunk-TreeCross x [] xs h c = (h, tt)
with_chunk-TreeCross x (t ∷ ts) xs h c = (c.0, (h, c.1))

-- What a step on the tree `i` does: it returns, the tree `i` is then `ts'`, and the words it
-- writes are among those of the slot and of the chunks `ds`.
pub record Becomes (s s' : State) (i n : ℕ) (ts ds : List Ptr) : Type 0 where
  pub tree : IsTree s' i n ts
  pub same : SameBut s.mem s'.mem (treebin_at i s) ds
  pub rest : SameRest s s'
  pub marks : (j : ℕ) → i ≢ j → has s'.treemap j ≡ has s.treemap j

module _ (s : State) (i n x : ℕ) (index : compute_tree_index n ≡ i) (nx : x ≢ null)
    (least : s.least_addr ≤ x) (out : OutsideTrees s.gm x)
    (size : size_of (s.mem (x + head_at)) ≡ n) where
  grown-Becomes :
      (m : ℕ) (ts : List Ptr)
      → IsTree s i m ts
      → Fits m n ts
      → AllTreeApart x ts
      → Becomes s (grown s i ts x) i n (with_chunk ts x) (x ∷ ts)
  grown-Becomes m [] tree fits apart = record {
    tree = planted-IsTree s i n x (IsTree-empty s i m n tree) nx least out size index;
    same = planted-SameBut s i x;
    rest = refl;
    marks = λ j ne. ground (arith, has-with_bit s.treemap i j tree.low);
  }
  grown-Becomes m (t ∷ ts) tree fits apart =
      let node = rw fits at tree in
      record {
        tree = grown_ring s i n t x ts node nx apart out least size;
        same = grown-SameBut s i n t x ts node nx apart out;
        rest = refl;
        marks = λ j ne. refl;
      }

  grow-runs :
      (m : ℕ) (ts : List Ptr)
      → IsTree s i m ts
      → Fits m n ts
      → AllTreeApart x ts
      → insert_large_chunk x n s ≡ ok tt (grown s i ts x)
  grow-runs m [] tree fits apart =
      rw index at (plant-runs s x n (rw index tree.low) (rw index tree.marked) nx)
  grow-runs m (t ∷ ts) tree fits apart = grown-runs s i n t x ts (rw fits at tree) nx apart out

-- Where the trees hold a forest of lists, inserting a chunk of a size `n` from 256 to below 2^40
-- that is apart from all of them, into a tree that is empty or holds chunks of its size, returns,
-- and puts it behind the node of that tree, or makes it the node; the other trees hold what they
-- held, and of the memory only words of the chunk, of the tree and its slot can change.
pub insert_large_chunk-IsForest :
    (s : State) (sizes : ℕ → ℕ) (trees : ℕ → List Ptr) (x n : ℕ)
    → IsForest s sizes trees
    → IsFreshTree s trees x
    → 2 ^ 8 ≤ n
    → n < 2 ^ 40
    → size_of (s.mem (x + head_at)) ≡ n
    → Fits (sizes (compute_tree_index n)) n (trees (compute_tree_index n))
    → (s' : State) × (insert_large_chunk x n s ≡ ok tt s')
      × IsForest s'
          (set_size sizes (compute_tree_index n) n)
          (set_tree trees (compute_tree_index n) (with_chunk (trees (compute_tree_index n)) x))
      × SameBut s.mem s'.mem
          (treebin_at (compute_tree_index n) s)
          (x ∷ trees (compute_tree_index n))
      × SameRest s s'
insert_large_chunk-IsForest s sizes trees x n forest fresh low high size fits =
    let i = compute_tree_index n in
    let below : i < 32 = (compute_tree_index-Holds n low high).0 in
    let old = forest.each i below in
    let apart = fresh.apart i below in
    let step =
      grown-Becomes s i n x refl fresh.ne_null fresh.address fresh.outside size (sizes i) (trees i)
        old fits apart in
    (
      grown s i (trees i) x,
      grow-runs s i n x refl fresh.ne_null fresh.address fresh.outside size (sizes i) (trees i) old
          fits apart,
      set_tree-IsForest s (grown s i (trees i) x) sizes trees i n (with_chunk (trees i) x)
          (x ∷ trees i) forest below step.rest step.marks step.same (fresh.outside, old.outside)
          (λ j q ne.
            TreeCross-cons_right x (trees j) (trees i) (fresh.apart j q)
              (forest.cross j i q below (λ e. ne (sym e))))
          (λ j q ne. (
            TreeCross-with_chunk x (trees j) (trees i) (fresh.apart j q)
                (forest.cross j i q below (λ e. ne (sym e))),
            with_chunk-TreeCross x (trees i) (trees j) (fresh.apart j q)
                (forest.cross i j below q ne),
          ))
          step.tree,
      step.same,
      step.rest,
    )
