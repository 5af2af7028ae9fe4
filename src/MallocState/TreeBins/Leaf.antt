-- ===== src/MallocState/TreeBins/Leaf.antt =====
-- Trees of a single node: insertion into an empty tree, beside a node of another size, and the
-- removal of the only chunk.
use unimem.Base.{
  ℕ, zero, suc, ◌+◌, ◌-◌, ◌≤◌, ◌<◌, ◌^◌, ◌≡◌, ◌≢◌, ap, arith, ◌⊎◌, true, false, ◌==◌, leb, bit_and,
  update,
}
use unimem.Word.{shr, shl64}
use unimem.Word.Masks.{low_one}
use unimem.Machine.{Ptr, null, State, ok, corrupted, load, store, deref}
use unimem.Chunk.{size_of, chunksize, head_at, child_at, index_at, size_t_bitsize}
use unimem.MallocState.Bitmap.{is_marked, treemap_is_marked}
use unimem.MallocState.Bitmap.Marks.{has, has-is_marked}
use unimem.MallocState.Top.{treebin_at, ok_address}
use unimem.MallocState.TreeIndex.{compute_tree_index, leftshift_for_tree_index}
use unimem.MallocState.TreeBins.{insert_from, insert_large_chunk}

-- Two tree chunks (64 bytes of fields) that do not overlap.
abbrev pub TreeApart : Ptr → Ptr → Type 0
TreeApart p q = (p + 64 ≤ q) ⊎ (q + 64 ≤ p)

-- A tree chunk does not overlap the array `treebins` of the object at `gm`.
abbrev pub OutsideTrees : Ptr → Ptr → Type 0
OutsideTrees gm x = (x + 64 ≤ gm + 600) ⊎ (gm + 856 ≤ x)

-- The tree `i` has one node, the chunk `t` of size `n`, which heads a ring of its own size.
pub record IsLeaf (s : State) (i : ℕ) (t : Ptr) (n : ℕ) : Type 0 where
  pub index : i < 32
  pub map : s.treemap < 2 ^ 32
  pub marked : has s.treemap i ≡ true
  pub root : s.mem (treebin_at i s) ≡ t
  pub ne_null : t ≢ null
  pub size : size_of (s.mem (t + head_at)) ≡ n
  pub left : s.mem (t + child_at 0) ≡ null
  pub right : s.mem (t + child_at 1) ≡ null

-- The memory with the index and the children of `x` set.
abbrev pub prepared : State → Ptr → ℕ → State
prepared s x i = record s {
  mem = update (update (update s.mem (x + index_at) i) (x + child_at 1) null) (x + child_at 0) null;
}

pub treebin_at-pos : (i : ℕ) (s : State) → 0 < treebin_at i s
unfolding treebin_at
treebin_at-pos i s = omega arith

-- The root slot and the fields of a chunk that is apart survive.
prepared-IsLeaf :
    (s : State) (x t i n : ℕ)
    → IsLeaf s i t n
    → TreeApart x t
    → OutsideTrees s.gm x
    → IsLeaf (prepared s x i) i t n
unfolding treebin_at
prepared-IsLeaf s x t i n leaf apart out = record {
  index = leaf.index;
  map = leaf.map;
  marked = leaf.marked;
  root = ground (arith, leaf.index, leaf.root);
  ne_null = leaf.ne_null;
  size = rw (← leaf.size) (ap size_of (ground arith));
  left = ground (arith, leaf.left);
  right = ground (arith, leaf.right);
}

chunksize-IsLeaf : (s : State) (t i n : ℕ) → IsLeaf s i t n → chunksize t s ≡ ok n s
unfolding chunksize load
chunksize-IsLeaf s t i n leaf = ground (arith, leaf.ne_null, leaf.size)

child-IsLeaf :
    (s : State) (t i n d : ℕ) → IsLeaf s i t n → d < 2 → deref (t + child_at d) s ≡ ok null s
unfolding deref
child-IsLeaf s t i n zero leaf h = ground (arith, leaf.left)
child-IsLeaf s t i n (suc zero) leaf h = ground (arith, leaf.right)
child-IsLeaf s t i n (suc (suc d)) leaf h = absurd (omega arith)

-- At a node of another size with no child, the walk throws: it tests the address of the null
-- child where it means that of the slot.
insert_from-collides :
    (fuel : ℕ) (s : State) (x t i n m k : ℕ)
    → IsLeaf s i t m
    → m ≢ n
    → 0 < s.least_addr
    → insert_from (suc fuel) x n t k s ≡ corrupted s
unfolding insert_from ok_address
insert_from-collides fuel s x t i n m k leaf ne pos =
    let other : (m == n) ≡ false = ground arith in
    let low : leb s.least_addr null ≡ false = ground arith in
    let d = bit_and (shr k (size_t_bitsize - 1)) 1 in
    let child = child-IsLeaf s t i m d leaf (omega (arith, low_one (shr k 63))) in
    rw (chunksize-IsLeaf s t i m leaf, other, child, child, low)

-- Into a tree whose only node has another size, `insert_large_chunk` does not insert a chunk that
-- is apart from it: if the least address is not null, it throws `MemoryCorruptedException`, with
-- the index of the chunk set, its children null, and nothing else changed.
pub insert_large_chunk-collides :
    (s : State) (x t n m : ℕ)
    → IsLeaf s (compute_tree_index n) t m
    → m ≢ n
    → 0 < s.least_addr
    → x ≢ null
    → TreeApart x t
    → OutsideTrees s.gm x
    → insert_large_chunk x n s ≡ corrupted (prepared s x (compute_tree_index n))
unfolding insert_large_chunk treemap_is_marked store
insert_large_chunk-collides s x t n m leaf ne pos nn apart out =
    let i = compute_tree_index n in
    let leaf' = prepared-IsLeaf s x t i m leaf apart out in
    let marked : (is_marked s.treemap i == 0) ≡ false =
      ground (arith, has-is_marked s.treemap i leaf.index, leaf.marked) in
    let present : (x == null) ≡ false = ground arith in
    let root : deref (treebin_at i s) (prepared s x i) ≡ ok t (prepared s x i) =
      unfold deref treebin_at in ground (arith, leaf'.root) in
    rw (present, present, present, marked, root)
      (insert_from-collides 65 (prepared s x i) x t i n m (shl64 n (leftshift_for_tree_index i))
        leaf' ne pos)
