-- ===== src/MallocState/TreeBins/Lone.antt =====
-- The trees of no chunk and of one.
use unimem.Base.{ℕ, ◌+◌, ◌≤◌, ◌≡◌, ◌≢◌, ap, ◌∙◌, arith, List, [], ◌∷◌}
use unimem.Machine.{Ptr, null, State}
use unimem.Chunk.{size_of, head_at}
use unimem.MallocState.Bitmap.Marks.{has-with_bit, has-without_bit, with_bit-lt, without_bit-lt}
use unimem.MallocState.Top.{treebin_at}
use unimem.MallocState.TreeIndex.{compute_tree_index}
use unimem.MallocState.TreeBins.Leaf.{OutsideTrees, IsLeaf}
use unimem.MallocState.TreeBins.Alone.{IsAlone, planted, cleared}
use unimem.MallocState.TreeBins.Nodes.{IsTree, SameBut}

pub planted-IsTree :
    (s : State) (i n x : ℕ)
    → IsTree s i n []
    → x ≢ null
    → s.least_addr ≤ x
    → OutsideTrees s.gm x
    → size_of (s.mem (x + head_at)) ≡ n
    → compute_tree_index n ≡ i
    → IsTree (planted s x i) i n (x ∷ [])
unfolding treebin_at
planted-IsTree s i n x tree nx low out size index = record {
  low = tree.low;
  map = with_bit-lt s.treemap i tree.map tree.low;
  marked = ground (arith, has-with_bit s.treemap i i tree.low);
  root = ground (arith, out, tree.low);
  rooted = (
    record {
      ne_null = nx;
      address = low;
      size = ap size_of (ground (arith, out, tree.low)) ∙ size;
      tree = index;
      left = ground (arith, out, tree.low);
      right = ground (arith, out, tree.low);
      index = ground (arith, out, tree.low);
    },
    (λ e. nx (ground (arith, e))),
    (ground arith, ground arith),
    tt,
  );
  distinct = (tt, tt);
  outside = (out, tt);
}

pub planted-SameBut :
    (s : State) (i x : ℕ) → SameBut s.mem (planted s x i).mem (treebin_at i s) (x ∷ [])
planted-SameBut s i x a slot clear = ground (arith, clear.0)

pub IsTree-IsLeaf : (s : State) (i n t : ℕ) (ts : List Ptr) → IsTree s i n (t ∷ ts) → IsLeaf s i t n
IsTree-IsLeaf s i n t ts tree = record {
  index = tree.low;
  map = tree.map;
  marked = tree.marked;
  root = tree.root;
  ne_null = tree.rooted.0.ne_null;
  size = tree.rooted.0.size;
  left = tree.rooted.0.left;
  right = tree.rooted.0.right;
}

pub IsTree-IsAlone : (s : State) (i n t : ℕ) → IsTree s i n (t ∷ []) → IsAlone s i t n
IsTree-IsAlone s i n t tree = record {
  leaf = IsTree-IsLeaf s i n t [] tree;
  forward = tree.rooted.2.0;
  backward = tree.rooted.2.1;
  parent = tree.rooted.1;
  index = tree.rooted.0.index;
}

pub cleared-IsTree :
    (s : State) (i n : ℕ) (t : Ptr) → IsTree s i n (t ∷ []) → IsTree (cleared s i) i n []
unfolding treebin_at
cleared-IsTree s i n t tree = record {
  low = tree.low;
  map = without_bit-lt s.treemap i tree.map;
  marked = ground (arith, has-without_bit s.treemap i i tree.map tree.low);
  root = ground arith;
  rooted = tt;
  distinct = tt;
  outside = tt;
}

pub cleared-SameBut :
    (s : State) (i t : ℕ) → SameBut s.mem (cleared s i).mem (treebin_at i s) (t ∷ [])
cleared-SameBut s i t a slot clear = ground arith
