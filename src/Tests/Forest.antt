-- ===== src/Tests/Forest.antt =====
-- A forest whose tree 2 holds one chunk of 512 bytes.
use unimem.Base.{
  ℕ, ◌+◌, ◌^◌, ◌<◌, ◌≡◌, ◌≢◌, refl, arith, false, inl, inr, Bool-cases, ◌==◌, if◌then◌else◌, List,
  [], ◌∷◌,
}
use unimem.Machine.{Ptr, State, ok}
use unimem.Chunk.{size_of, head_at, fd_at, bk_at, parent_at, index_at}
use unimem.Word.Bits.{bit-two_pow}
use unimem.MallocState.Top.{treebin_at}
use unimem.MallocState.TreeIndex.{compute_tree_index}
use unimem.MallocState.TreeBins.{insert_large_chunk, unlink_large_chunk}
use unimem.MallocState.TreeBins.Nodes.{IsTree, SameBut}
use unimem.MallocState.TreeBins.Forest.{IsForest, IsFreshTree, SameRest, set_tree, set_size}
use unimem.MallocState.TreeBins.Join.{with_chunk}
use unimem.MallocState.TreeBins.Planting.{insert_large_chunk-IsForest}
use unimem.MallocState.TreeBins.Uprooting.{uproot, unlink_large_chunk-IsForest}
use unimem.Tests.{fresh}

abbrev t1 : Ptr
t1 = 2 ^ 20

abbrev t2 : Ptr
t2 = 2 ^ 20 + 1024

abbrev planted : State
planted = record fresh {
  treemap = 4;
  least_addr = 2 ^ 20;
  mem = λ a.
      if a == 2 ^ 12 + 600 + 16
      then t1
      else if a == t1 + head_at
      then 513
      else if a == t1 + fd_at
      then t1
      else if a == t1 + bk_at
      then t1
      else if a == t1 + parent_at
      then 2 ^ 12 + 600 + 16
      else if a == t1 + index_at
      then 2
      else if a == t2 + head_at
      then 513
      else 0;
}

abbrev sizes : ℕ → ℕ
sizes i = if i == 2 then 512 else 0

abbrev trees : ℕ → List Ptr
trees i = if i == 2 then t1 ∷ [] else []

tree_512 : compute_tree_index 512 ≡ 2
unfolding compute_tree_index
tree_512 = refl

planted-IsTree : IsTree planted 2 512 (t1 ∷ [])
unfolding treebin_at size_of
planted-IsTree = record {
  low = omega arith;
  map = omega arith;
  marked = refl;
  root = refl;
  rooted = (
    record {
      ne_null = omega arith;
      address = omega arith;
      size = refl;
      tree = tree_512;
      left = refl;
      right = refl;
      index = refl;
    },
    omega arith,
    (refl, refl),
    tt,
  );
  distinct = (tt, tt);
  outside = (omega arith, tt);
}

no-IsTree : (i : ℕ) → i < 32 → i ≢ 2 → IsTree planted i 0 []
unfolding treebin_at
no-IsTree i low ne = record {
  low = low;
  map = omega arith;
  marked = ground (arith, bit-two_pow 2 i);
  root = ground arith;
  rooted = tt;
  distinct = tt;
  outside = tt;
}

planted-IsForest : IsForest planted sizes trees
planted-IsForest = record {
  each = λ i low. elim (Bool-cases (i == 2)) [
    | inl e ↦ let q : i ≡ 2 = ground (arith, e) in rw q planted-IsTree
    | inr e ↦ rw e (no-IsTree i low (ground (arith, e)))
  ];
  cross = λ i j p q ne. elim (Bool-cases (i == 2)) [
    | inl e ↦ let other : (j == 2) ≡ false = ground (arith, e, ne) in rw (e, other) (tt, tt)
    | inr e ↦ rw e tt
  ];
}

t2-IsFreshTree : IsFreshTree planted trees t2
t2-IsFreshTree = record {
  ne_null = omega arith;
  address = omega arith;
  outside = omega arith;
  apart = λ i low. elim (Bool-cases (i == 2)) [ inl e ↦ rw e (omega arith, tt) | inr e ↦ rw e tt ];
}

size_t2 : size_of (planted.mem (t2 + head_at)) ≡ 512
unfolding size_of
size_t2 = refl

insert_large_chunk-IsForest_example :
    (s' : State) × (insert_large_chunk t2 512 planted ≡ ok tt s')
    × IsForest s'
        (set_size sizes (compute_tree_index 512) 512)
        (set_tree trees (compute_tree_index 512) (with_chunk (trees (compute_tree_index 512)) t2))
    × SameBut planted.mem s'.mem
        (treebin_at (compute_tree_index 512) planted)
        (t2 ∷ trees (compute_tree_index 512))
    × SameRest planted s'
insert_large_chunk-IsForest_example =
    insert_large_chunk-IsForest planted sizes trees t2 512 planted-IsForest t2-IsFreshTree
      (omega arith) (omega arith) size_t2 (rw tree_512 refl)

unlink_large_chunk-IsForest_example :
    (s' : State) × (unlink_large_chunk t1 planted ≡ ok tt s')
    × IsForest s' (set_size sizes 2 (sizes 2)) (set_tree trees 2 (uproot [] []))
    × SameBut planted.mem s'.mem (treebin_at 2 planted) (t1 ∷ [])
    × SameRest planted s'
unlink_large_chunk-IsForest_example =
    unlink_large_chunk-IsForest planted sizes trees t1 2 [] [] planted-IsForest (omega arith) refl
