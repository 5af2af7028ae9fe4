-- ===== src/MallocState/TreeBins/Alone.antt =====
-- A tree of a single chunk: its insertion into an empty tree, and its removal.
use unimem.Base.{ℕ, ◌+◌, ◌<◌, ◌^◌, ◌≡◌, ◌≢◌, ap, arith, true, false, ◌==◌, update}
use unimem.Machine.{Ptr, null, State, ok, load, store, deref, assign}
use unimem.Machine.Returns.{load-ok, write}
use unimem.Chunk.{size_of, head_at, fd_at, bk_at, child_at, parent_at, index_at}
use unimem.MallocState.Bitmap.{
  with_bit, without_bit, is_marked, mark_treemap, clear_treemap, treemap_is_marked,
}
use unimem.MallocState.Bitmap.Marks.{has, has-is_marked, has-with_bit, has-without_bit, with_bit-lt}
use unimem.MallocState.Top.{treebin_at}
use unimem.MallocState.TreeIndex.{compute_tree_index}
use unimem.MallocState.TreeBins.{insert_large_chunk, unlink_large_chunk, replacement, relink_parent}
use unimem.MallocState.TreeBins.Leaf.{OutsideTrees, IsLeaf, prepared, treebin_at-pos}

-- The tree `i` is the chunk `x` of size `n` and nothing else: a ring of one, no children. Its
-- parent is not null, which is how a root is told from a chunk inside a ring.
pub record IsAlone (s : State) (i : ℕ) (x : Ptr) (n : ℕ) : Type 0 where
  pub leaf : IsLeaf s i x n
  pub forward : s.mem (x + fd_at) ≡ x
  pub backward : s.mem (x + bk_at) ≡ x
  pub parent : s.mem (x + parent_at) ≢ null
  pub index : s.mem (x + index_at) ≡ i

abbrev pub planted : State → Ptr → ℕ → State
planted s x i = record (prepared s x i) {
  treemap = with_bit s.treemap i;
  mem =
      update
        (update (update (update (prepared s x i).mem (treebin_at i s) x) (x + parent_at) x)
          (x + bk_at) x)
        (x + fd_at) x;
}

pub plant-runs :
    (s : State) (x n : ℕ)
    → compute_tree_index n < 32
    → has s.treemap (compute_tree_index n) ≡ false
    → x ≢ null
    → insert_large_chunk x n s ≡ ok tt (planted s x (compute_tree_index n))
unfolding insert_large_chunk treemap_is_marked mark_treemap store assign deref
plant-runs s x n low unmarked nn =
    let i = compute_tree_index n in
    let clear : (is_marked s.treemap i == 0) ≡ true =
      ground (arith, has-is_marked s.treemap i low, unmarked) in
    let present : (x == null) ≡ false = ground arith in
    let slot : (treebin_at i s == null) ≡ false = ground (arith, treebin_at-pos i s) in
    let same : (treebin_at i s == treebin_at i s) ≡ true = ground arith in
    rw (present, present, present, clear, slot, slot, same, present, present, present)

planted-IsAlone :
    (s : State) (x i n : ℕ)
    → i < 32
    → s.treemap < 2 ^ 32
    → x ≢ null
    → OutsideTrees s.gm x
    → size_of (s.mem (x + head_at)) ≡ n
    → IsAlone (planted s x i) i x n
unfolding treebin_at
planted-IsAlone s x i n low map nn out size = record {
  leaf = record {
    index = low;
    map = with_bit-lt s.treemap i map low;
    marked = ground (arith, has-with_bit s.treemap i i low);
    root = ground arith;
    ne_null = nn;
    size = rw (← size) (ap size_of (ground arith));
    left = ground arith;
    right = ground arith;
  };
  forward = ground arith;
  backward = ground arith;
  parent = ground arith;
  index = ground arith;
}

-- What the removal of the only chunk changes.
abbrev pub cleared : State → ℕ → State
cleared s i = record s {
  treemap = without_bit s.treemap i;
  mem = update s.mem (treebin_at i s) null;
}

replacement-alone : (s : State) (i x n : ℕ) → IsAlone s i x n → replacement x s ≡ ok null s
unfolding replacement
replacement-alone s i x n alone =
    let nn = alone.leaf.ne_null in
    let same : (x == x) ≡ true = ground arith in
    rw (
      load-ok x bk_at s nn,
      alone.backward,
      same,
      load-ok x (child_at 1) s nn,
      alone.leaf.right,
      load-ok x (child_at 0) s nn,
      alone.leaf.left,
    )

relink_parent-alone :
    (s : State) (i x n xp : ℕ)
    → IsAlone s i x n
    → OutsideTrees s.gm x
    → relink_parent x xp null s ≡ ok tt (cleared s i)
unfolding relink_parent clear_treemap deref assign
relink_parent-alone s i x n xp alone out =
    let nn = alone.leaf.ne_null in
    let same : (x == x) ≡ true = ground arith in
    let slot : (treebin_at i s == null) ≡ false = ground (arith, treebin_at-pos i s) in
    let again : load x index_at (write s (treebin_at i s) null)
        ≡ ok i (write s (treebin_at i s) null) =
      unfold load treebin_at in ground (arith, alone.index, alone.leaf.index) in
    rw (load-ok x index_at s nn, alone.index, slot, alone.leaf.root, same, slot, again)

-- Unlinking the only chunk of a tree empties the tree, and changes nothing but its root and its
-- mark.
pub unlink_large_chunk-alone :
    (s : State) (i x n : ℕ)
    → IsAlone s i x n
    → OutsideTrees s.gm x
    → unlink_large_chunk x s ≡ ok tt (cleared s i)
unfolding unlink_large_chunk
unlink_large_chunk-alone s i x n alone out =
    let nn = alone.leaf.ne_null in
    let parent : (s.mem (x + parent_at) == null) ≡ false = ground (arith, alone.parent) in
    rw (
      load-ok x parent_at s nn,
      replacement-alone s i x n alone,
      parent,
      relink_parent-alone s i x n (s.mem (x + parent_at)) alone out,
    )

-- Inserted into the empty tree of its size and unlinked again, a chunk that does not overlap the
-- array of trees leaves the same trees marked as before, and a tree without a root; in between it
-- is the whole of that tree. Both operations return.
pub insert_large_chunk-unlink_large_chunk :
    (s : State) (x n : ℕ)
    → compute_tree_index n < 32
    → s.treemap < 2 ^ 32
    → has s.treemap (compute_tree_index n) ≡ false
    → x ≢ null
    → OutsideTrees s.gm x
    → size_of (s.mem (x + head_at)) ≡ n
    → (s' : State) × (insert_large_chunk x n s ≡ ok tt s')
      × IsAlone s' (compute_tree_index n) x n
      × (s'' : State) × (unlink_large_chunk x s' ≡ ok tt s'')
      × ((j : ℕ) → has s''.treemap j ≡ has s.treemap j)
      × (s''.mem (treebin_at (compute_tree_index n) s) ≡ null)
insert_large_chunk-unlink_large_chunk s x n low map unmarked nn out size =
    let i = compute_tree_index n in
    let alone = planted-IsAlone s x i n low map nn out size in
    (
      planted s x i,
      plant-runs s x n low unmarked nn,
      alone,
      cleared (planted s x i) i,
      unlink_large_chunk-alone (planted s x i) i x n alone out,
      (λ j. ground (
        arith,
        has-without_bit (with_bit s.treemap i) i j (with_bit-lt s.treemap i map low) low,
        has-with_bit s.treemap i j low,
        unmarked,
      )),
      unfold treebin_at in ground arith,
    )
