-- ===== src/Heap/Root.antt =====
-- The node of a tree: it is found through the slot, has a size and no children.
use unimem.Base.{
  ℕ, zero, suc, ◌+◌, ◌-◌, ◌≤◌, ◌<◌, ◌≡◌, ◌≢◌, refl, ap, ◌∙◌, arith, inl, inr, true, false,
  Bool-cases, ◌==◌, ltb, if◌then◌else◌, List, [], ◌∷◌, bit_and, ◌&&◌,
}
use unimem.Word.{sub64, shr}
use unimem.Word.Masks.{low_one}
use unimem.Machine.{Ptr, null, State, ok, deref}
use unimem.Machine.Returns.{load-ok, deref-ok}
use unimem.Chunk.{chunksize, child_at, leftmost_child, get_child, size_t_bitsize}
use unimem.MallocState.Top.{treebin_at}
use unimem.MallocState.SmallBins.Ring.{is_cons}
use unimem.MallocState.TreeBins.{tree_fuel}
use unimem.MallocState.TreeBins.Nodes.{IsTree}
use unimem.MallocState.TreeAlloc.{Fit, better, smallest, search_size}
use unimem.Heap.{Blocks, Stock, IsFree, IsHeap}
use unimem.Heap.Heads.{chunk_ne_null, chunksize-ok}

pub cons_of : (xs : List Ptr) → is_cons xs ≡ true → (p : Ptr) × (ys : List Ptr) × (xs ≡ p ∷ ys)
cons_of [] e = absurd (ground (arith, e))
cons_of (x ∷ xs) e = (x, xs, refl)

-- The search along the leftmost branch ends at once where there is no node.
smallest-step :
    (fuel nb : ℕ) (best : Fit) (s : State) → smallest (suc fuel) nb null best s ≡ ok best s
unfolding smallest
smallest-step fuel nb best s = refl

pub smallest-null :
    (nb : ℕ) (best : Fit) (s : State) → smallest tree_fuel nb null best s ≡ ok best s
smallest-null nb best s = smallest-step 65 nb best s

module _ (s : State) (b : Blocks) (k : Stock) (i t : ℕ) (xs : List Ptr) (heap : IsHeap s b k)
    (low : i < 32) (held : k.trees i ≡ t ∷ xs) where
  tree : IsTree s i (k.sizes i) (t ∷ xs)
  tree = rw held at (heap.1.forest.each i low)

  pub root-member : IsFree b 0 0 t × (256 ≤ b.size t) × (b.size t ≡ k.sizes i) × (t ≢ s.dv)
  root-member = heap.1.large i t low (rw held (inl refl))

  pub root_ne_null : t ≢ null
  root_ne_null = chunk_ne_null s b t heap.0 root-member.0.0

  slot_ne_null : treebin_at i s ≢ null
  unfolding treebin_at
  slot_ne_null = omega arith

  pub root-ok : deref (treebin_at i s) s ≡ ok t s
  root-ok = deref-ok (treebin_at i s) s slot_ne_null ∙ ap (λ w. ok w s) tree.root

  pub root_size-ok : chunksize t s ≡ ok (b.size t) s
  root_size-ok = chunksize-ok s b t heap.0 root-member.0.0

  child-null : (c : ℕ) → s.mem (t + child_at c) ≡ null → get_child t c s ≡ ok null s
  child-null c e = load-ok t (child_at c) s root_ne_null ∙ ap (λ w. ok w s) e

  pub leftmost-null : leftmost_child t s ≡ ok null s
  unfolding leftmost_child
  leftmost-null = rw (child-null 0 tree.rooted.0.left) (child-null 1 tree.rooted.0.right)

  -- The search along the leftmost branch looks at the node only.
  pub smallest-root :
      (nb : ℕ) (best : Fit)
      → smallest tree_fuel nb t best s ≡ ok (better t (sub64 (b.size t) nb) best) s
  unfolding smallest
  smallest-root nb best =
      let other : (t == null) ≡ false = ground (arith, root_ne_null) in
      rw (other, root_size-ok, leftmost-null) refl

  no_child : (c : ℕ) → c < 2 → s.mem (t + child_at c) ≡ null
  no_child zero h = tree.rooted.0.left
  no_child (suc zero) h = tree.rooted.0.right
  no_child (suc (suc c)) h = absurd (omega arith)

  either_child-null :
      (bits : ℕ) → get_child t (bit_and (shr bits (size_t_bitsize - 1)) 1) s ≡ ok null s
  either_child-null bits =
      let c = bit_and (shr bits (size_t_bitsize - 1)) 1 in
      child-null c (no_child c (omega (arith, low_one (shr bits (size_t_bitsize - 1)))))

  -- The search for an exact size ends at the node.
  search_size-step :
      (fuel nb bits : ℕ) (best : Fit)
      → search_size (suc fuel) nb t best null bits s
        ≡ ok
            (let trem = sub64 (b.size t) nb in
              record {
                next = if ltb trem best.rsize && (trem == 0) then t else null;
                best = better t trem best;
              })
            s
  unfolding search_size
  search_size-step fuel nb bits best =
      elim (Bool-cases (ltb (sub64 (b.size t) nb) best.rsize && (sub64 (b.size t) nb == 0))) [
        | inl e ↦ rw (root_size-ok, e) refl
        | inr e ↦
            rw (root_size-ok, e, child-null 1 tree.rooted.0.right, either_child-null bits) refl
      ]

  pub search_size-root :
      (nb bits : ℕ) (best : Fit)
      → search_size tree_fuel nb t best null bits s
        ≡ ok
            (let trem = sub64 (b.size t) nb in
              record {
                next = if ltb trem best.rsize && (trem == 0) then t else null;
                best = better t trem best;
              })
            s
  search_size-root nb bits best = search_size-step 65 nb bits best
