-- ===== src/Heap/TakeTree.antt =====
-- `tmalloc_small` on the heap.
use unimem.Base.{ℕ, ◌-◌, ◌%◌, ◌≤◌, ◌<◌, ◌^◌, ◌≡◌, ◌≢◌, sym, ◌∙◌, arith, true, List, ◌∷◌}
use unimem.Word.{sub64}
use unimem.Machine.{Ptr, State}
use unimem.MallocState.Bitmap.Marks.{has}
use unimem.MallocState.Bitmap.Least.{compute_bit2idx-least_bit}
use unimem.MallocState.SmallBins.{replace_dv}
use unimem.MallocState.TreeAlloc.{tmalloc_small}
use unimem.Heap.{Blocks, Stock, IsHeap}
use unimem.Heap.Keep.{replace_dv-Keeps}
use unimem.Heap.Allocated.{Allocates}
use unimem.Heap.SplitLarge.{split_large-Allocates}
use unimem.Heap.Root.{cons_of, smallest-null, root-member, root-ok, root_size-ok, leftmost-null}

module _ (s : State) (b : Blocks) (k : Stock) (nb : ℕ) (heap : IsHeap s b k) (least : 32 ≤ nb)
    (words : nb % 8 ≡ 0) where
  pub map_small : s.treemap < 2 ^ 32
  map_small = (heap.1.forest.each 0 (omega arith)).map

  -- A tree with a mark has a node.
  pub marked-root :
      (i : ℕ) → i < 32 → has s.treemap i ≡ true → (t : Ptr) × (xs : List Ptr) × (k.trees i ≡ t ∷ xs)
  marked-root i low marked = cons_of (k.trees i) (sym (heap.1.forest.each i low).marked ∙ marked)

  -- What is left of a node that is large enough.
  pub fit-rest :
      (i t : ℕ) (xs : List Ptr)
      → i < 32
      → k.trees i ≡ t ∷ xs
      → nb ≤ b.size t
      → sub64 (b.size t) nb ≡ b.size t - nb
  unfolding sub64
  fit-rest i t xs low held enough =
      let chunk = heap.0.each t (root-member s b k i t xs heap low held).0.0 in
      omega (arith, enough, chunk.low, chunk.high, heap.0.limit)

  -- A small request from the trees, where one of them is not empty.
  pub tmalloc_small-Allocates :
      s.treemap ≢ 0 → nb < 256 → s.dvsize < 256 → Allocates b nb (tmalloc_small nb s)
  unfolding tmalloc_small
  tmalloc_small-Allocates some_tree small victim =
      let (i, runs, low, first) =
        compute_bit2idx-least_bit s.treemap s (omega (arith, some_tree)) map_small in
      let (t, xs, held) = marked-root i low first.marked in
      let member = root-member s b k i t xs heap low held in
      rw
        (
          runs,
          root-ok s b k i t xs heap low held,
          root_size-ok s b k i t xs heap low held,
          leftmost-null s b k i t xs heap low held,
          fit-rest i t xs low held (omega (arith, member.1, small)),
          smallest-null nb (record { chunk = t; rsize = b.size t - nb }) s,
        )
        (split_large-Allocates s b k t nb heap member.0 member.1 member.3 least words
          (omega (arith, member.1, small)) replace_dv
          (λ s' b' k' lo hi r n split same.
            replace_dv-Keeps s' b' k' lo hi r n split (omega (arith, same, victim))))
