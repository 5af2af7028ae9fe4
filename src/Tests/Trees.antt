-- ===== src/Tests/Trees.antt =====
-- A tree chunk of 512 bytes, and one of 600 bytes, whose tree is the same.
use unimem.Base.{ℕ, ◌+◌, ◌^◌, ◌≡◌, refl, arith, update}
use unimem.Machine.{Ptr, null, State, ok, corrupted}
use unimem.Chunk.{size_of, head_at}
use unimem.MallocState.Bitmap.Marks.{has}
use unimem.MallocState.Top.{treebin_at}
use unimem.MallocState.TreeIndex.{compute_tree_index}
use unimem.MallocState.TreeBins.{insert_large_chunk, unlink_large_chunk}
use unimem.MallocState.TreeBins.Leaf.{IsLeaf, prepared, insert_large_chunk-collides}
use unimem.MallocState.TreeBins.Alone.{IsAlone, insert_large_chunk-unlink_large_chunk}
use unimem.Tests.{fresh}

abbrev t1 : Ptr
t1 = 2 ^ 20

abbrev t2 : Ptr
t2 = 2 ^ 20 + 1024

-- The tree 2 holds `t1`.
abbrev planted_one : State
planted_one = record fresh {
  treemap = 4;
  least_addr = 2 ^ 20;
  mem = update (update fresh.mem (t1 + head_at) 513) (2 ^ 12 + 600 + 16) t1;
}

abbrev with_header : State
with_header = record fresh { mem = update fresh.mem (t1 + head_at) 513 }

same_tree : (compute_tree_index 512 ≡ 2) × (compute_tree_index 600 ≡ 2)
unfolding compute_tree_index
same_tree = (refl, refl)

t1-IsLeaf : IsLeaf planted_one (compute_tree_index 600) t1 512
unfolding treebin_at size_of compute_tree_index
t1-IsLeaf = record {
  index = omega arith;
  map = omega arith;
  marked = refl;
  root = refl;
  ne_null = omega arith;
  size = refl;
  left = refl;
  right = refl;
}

insert_large_chunk-collides_example :
    insert_large_chunk t2 600 planted_one
    ≡ corrupted (prepared planted_one t2 (compute_tree_index 600))
insert_large_chunk-collides_example =
    insert_large_chunk-collides planted_one t2 t1 600 512 t1-IsLeaf (omega arith) (omega arith)
      (omega arith) (omega arith) (omega arith)

size-with_header : size_of (with_header.mem (t1 + head_at)) ≡ 512
unfolding size_of
size-with_header = refl

insert_large_chunk-unlink_large_chunk_example :
    (s' : State) × (insert_large_chunk t1 512 with_header ≡ ok tt s')
    × IsAlone s' (compute_tree_index 512) t1 512
    × (s'' : State) × (unlink_large_chunk t1 s' ≡ ok tt s'')
    × ((j : ℕ) → has s''.treemap j ≡ has with_header.treemap j)
    × (s''.mem (treebin_at (compute_tree_index 512) with_header) ≡ null)
insert_large_chunk-unlink_large_chunk_example =
    insert_large_chunk-unlink_large_chunk with_header t1 512 (omega (arith, same_tree))
      (omega arith) (rw same_tree.0 refl) (omega arith) (omega arith) size-with_header
