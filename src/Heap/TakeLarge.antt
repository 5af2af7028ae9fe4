-- ===== src/Heap/TakeLarge.antt =====
-- `tmalloc_large` on the heap: a chunk of a tree, or null where the designated victim is better.
use unimem.Base.{
  ℕ, ◌-◌, ◌%◌, ◌≤◌, ◌<◌, ◌^◌, ◌≡◌, refl, ap, ◌∙◌, arith, ◌⊎◌, inl, inr, true, false, Bool-cases,
  ◌==◌, ltb, if◌then◌else◌, List, [], ◌∷◌, bit_and, ◌&&◌, not,
}
use unimem.Word.{sub64, neg64, shl64}
use unimem.Machine.{Ptr, null, State, Cmd, ok, pure, gets, deref, ◌>>=◌}
use unimem.Machine.Returns.{deref-ok}
use unimem.MallocState.Bitmap.{left_bits, idx2bit, least_bit}
use unimem.MallocState.Bitmap.Next.{compute_bit2idx-IsNext_tree}
use unimem.MallocState.Top.{treebin_at}
use unimem.MallocState.TreeIndex.{compute_tree_index, leftshift_for_tree_index}
use unimem.MallocState.TreeIndex.Ranges.{compute_tree_index-lt}
use unimem.MallocState.TreeBins.{tree_fuel, insert_chunk}
use unimem.MallocState.TreeAlloc.{
  Fit, better, smallest, split_large, Search, next_tree, tmalloc_large,
}
use unimem.Heap.{Blocks, Stock, IsHeap}
use unimem.Heap.Keep.{insert_chunk-Keeps}
use unimem.Heap.Allocated.{Allocates}
use unimem.Heap.SplitLarge.{split_large-Allocates}
use unimem.Heap.Root.{
  smallest-null, root-member, root_ne_null, root-ok, smallest-root, search_size-root,
}
use unimem.Heap.Counted.{counted, counted-IsHeap, compute_bit2idx-any}
use unimem.Heap.TakeTree.{map_small, marked-root, fit-rest}

module _ (s : State) (b : Blocks) (k : Stock) (nb : ℕ) (heap : IsHeap s b k) (least : 32 ≤ nb)
    (words : nb % 8 ≡ 0) where
  abbrev at : ℕ → State
  at c = counted s c

  IsHeap-at : (c : ℕ) → IsHeap (at c) b k
  IsHeap-at c = counted-IsHeap s b k c heap

  abbrev none_yet : Fit
  none_yet = record { chunk = null; rsize = neg64 nb }

  neg-is : nb < 2 ^ 64 → neg64 nb ≡ 2 ^ 64 - nb
  unfolding neg64
  neg-is h = omega (arith, least)

  -- The best fit so far is none, or the node of a tree.
  abbrev IsCandidate : Fit → Type 0
  IsCandidate best =
      (best.chunk ≡ null)
      ⊎ ((i : ℕ) × (t : Ptr) × (xs : List Ptr) × (i < 32)
          × (k.trees i ≡ t ∷ xs)
          × (nb ≤ b.size t)
          × (best ≡ record { chunk = t; rsize = b.size t - nb }))

  -- What the search ends with: an allocation, or null, however often the underlying allocator has
  -- been called.
  abbrev pub MayAllocate : Cmd Ptr → Type 0
  MayAllocate m = Allocates b nb (m s) ⊎ ((c : ℕ) → m (at c) ≡ ok null (at c))

  MayAllocate-same :
      (m m' : Cmd Ptr) → ((c : ℕ) → m (at c) ≡ m' (at c)) → MayAllocate m' → MayAllocate m
  MayAllocate-same m m' same (inl served) = let e : m s ≡ m' s = same s.calls in inl (rw e served)
  MayAllocate-same m m' same (inr nothing) = inr (λ c. same c ∙ nothing c)

  abbrev decide : Fit → Cmd Ptr
  decide best = do
    dvs ← gets (λ s. s.dvsize)
    if not (best.chunk == null) && ltb best.rsize (sub64 dvs nb)
        then split_large insert_chunk nb best
        else pure null

  decide-none : (best : Fit) → best.chunk ≡ null → MayAllocate (decide best)
  decide-none best e =
      let absent : (best.chunk == null) ≡ true = ground (arith, e) in rw absent (inr (λ c. refl))

  decide-MayAllocate : (best : Fit) → IsCandidate best → MayAllocate (decide best)
  decide-MayAllocate best (inl e) = decide-none best e
  decide-MayAllocate best (inr (i, t, xs, low, held, enough, is)) =
      let member = root-member s b k i t xs heap low held in
      let present : (t == null) ≡ false = ground (arith, root_ne_null s b k i t xs heap low held) in
      rw (is, present)
        (elim (Bool-cases (ltb (b.size t - nb) (sub64 s.dvsize nb))) [
          | inl e ↦ rw e (
              inl (
                split_large-Allocates s b k t nb heap member.0 member.1 member.3 least words enough
                  insert_chunk
                  (λ s' b' k' lo hi r n split same. insert_chunk-Keeps s' b' k' lo hi r n split)))
          | inr e ↦ rw e (inr (λ c. refl))
        ])

  -- A node that is better than no chunk at all is large enough.
  better-IsCandidate :
      (i t : ℕ) (xs : List Ptr)
      → i < 32
      → k.trees i ≡ t ∷ xs
      → nb < 2 ^ 64
      → IsCandidate (better t (sub64 (b.size t) nb) none_yet)
  unfolding sub64
  better-IsCandidate i t xs low held most =
      elim (Bool-cases (ltb (sub64 (b.size t) nb) none_yet.rsize)) [
        | inl e ↦
            let chunk = heap.0.each t (root-member s b k i t xs heap low held).0.0 in
            let less : sub64 (b.size t) nb < 2 ^ 64 - nb = ground (arith, e, neg-is most) in
            let enough : nb ≤ b.size t =
              omega (arith, less, chunk.low, chunk.high, heap.0.limit, most) in
            rw e (
              inr (
                i,
                t,
                xs,
                low,
                held,
                enough,
                rw (fit-rest s b k nb heap least words i t xs low held enough) refl,
              ))
        | inr e ↦ rw e (inl refl)
      ]

  module _ (most : nb < 2 ^ 64) (idx : ℕ) (below : idx < 32) where
    candidate :
        (i t : ℕ) (xs : List Ptr)
        → i < 32
        → k.trees i ≡ t ∷ xs
        → IsCandidate (better t (sub64 (b.size t) nb) none_yet)
    candidate i t xs low held = better-IsCandidate i t xs low held (omega (arith, most))

    next_tree-root :
        ((c : ℕ) → next_tree idx (at c) ≡ ok null (at c))
        ⊎ ((i : ℕ) × (t : Ptr) × (xs : List Ptr) × (i < 32)
            × (k.trees i ≡ t ∷ xs)
            × ((c : ℕ) → next_tree idx (at c) ≡ ok t (at c)))
    unfolding next_tree
    next_tree-root = elim (Bool-cases (bit_and (left_bits (idx2bit idx)) s.treemap == 0)) [
      | inl e ↦ inl (λ c. rw e refl)
      | inr e ↦
          let (i, runs, low, next) =
            compute_bit2idx-IsNext_tree s.treemap idx s (map_small s b k nb heap least words) below
              (ground (arith, e)) in
          let (t, xs, held) = marked-root s b k nb heap least words i low next.marked in
          let left = bit_and (left_bits (idx2bit idx)) s.treemap in
          inr (
            i,
            t,
            xs,
            low,
            held,
            λ c.
                rw (e, compute_bit2idx-any (least_bit left) i s (at c) runs)
                  (root-ok (at c) b k i t xs (IsHeap-at c) low held),
          )
    ]

    -- The tree at `idx` has no chunk that is large enough: the next tree is tried.
    abbrev go_on : Cmd Ptr
    go_on = do t ← next_tree idx; best ← smallest tree_fuel nb t none_yet; decide best

    go_on-MayAllocate : MayAllocate go_on
    go_on-MayAllocate = elim next_tree-root [
      | inl e ↦
          MayAllocate-same go_on (decide none_yet)
            (λ c. rw (e c, smallest-null nb none_yet (at c)) refl) (decide-none none_yet refl)
      | inr (i, t, xs, low, held, runs) ↦
          let best = better t (sub64 (b.size t) nb) none_yet in
          MayAllocate-same go_on (decide best)
            (λ c.
              rw (runs c, smallest-root (at c) b k i t xs (IsHeap-at c) low held nb none_yet) refl)
            (decide-MayAllocate best (candidate i t xs low held))
    ]

    -- What follows the search in the tree at `idx`.
    abbrev after : Search → Cmd Ptr
    after found = do
      t ←
          (if (found.next == null) && (found.best.chunk == null)
            then next_tree idx
            else pure found.next)
      best ← smallest tree_fuel nb t found.best
      decide best

    abbrev found_at : Ptr → Search
    found_at t =
        let trem = sub64 (b.size t) nb in
        record {
          next = if ltb trem none_yet.rsize && (trem == 0) then t else null;
          best = better t trem none_yet;
        }

    after-MayAllocate :
        (t : Ptr) (xs : List Ptr) → k.trees idx ≡ t ∷ xs → MayAllocate (after (found_at t))
    after-MayAllocate t xs held =
        let trem = sub64 (b.size t) nb in
        let present : (t == null) ≡ false =
          ground (arith, root_ne_null s b k idx t xs heap below held) in
        let chosen = candidate idx t xs below held in
        elim (Bool-cases (ltb trem none_yet.rsize)) [
          | inl e ↦
              let chosen' : IsCandidate (record { chunk = t; rsize = trem }) = rw e at chosen in
              elim (Bool-cases (trem == 0)) [
                | inl e' ↦
                    let same : ltb trem trem ≡ false = ground arith in
                    MayAllocate-same (after (found_at t))
                      (decide (record { chunk = t; rsize = trem }))
                      (λ c.
                        rw
                          (
                            e,
                            e',
                            present,
                            smallest-root (at c) b k idx t xs (IsHeap-at c) below held nb
                                (record { chunk = t; rsize = trem }),
                            same,
                            present,
                          )
                          refl)
                      (decide-MayAllocate (record { chunk = t; rsize = trem }) chosen')
                | inr e' ↦
                    MayAllocate-same (after (found_at t))
                      (decide (record { chunk = t; rsize = trem }))
                      (λ c.
                        rw
                          (
                            e,
                            e',
                            present,
                            smallest-null nb (record { chunk = t; rsize = trem }) (at c),
                            present,
                          )
                          refl)
                      (decide-MayAllocate (record { chunk = t; rsize = trem }) chosen')
              ]
          | inr e ↦ MayAllocate-same (after (found_at t)) go_on (λ c. rw e refl) go_on-MayAllocate
        ]

    root_cases : (ts : List Ptr) → (ts ≡ []) ⊎ ((t : Ptr) × (xs : List Ptr) × (ts ≡ t ∷ xs))
    root_cases [] = inl refl
    root_cases (t ∷ xs) = inr (t, xs, refl)

    no_root-ok : k.trees idx ≡ [] → (c : ℕ) → deref (treebin_at idx (at c)) (at c) ≡ ok null (at c)
    unfolding treebin_at
    no_root-ok e c =
        let tree = rw e at (heap.1.forest.each idx below) in
        deref-ok (treebin_at idx (at c)) (at c) (omega arith) ∙ ap (λ w. ok w (at c)) tree.root

  -- A large request from the trees: a chunk, or null and nothing has changed.
  pub tmalloc_large-MayAllocate : nb < 2 ^ 64 → MayAllocate (tmalloc_large nb)
  unfolding tmalloc_large
  tmalloc_large-MayAllocate most =
      let idx = compute_tree_index nb in
      let below : idx < 32 = compute_tree_index-lt nb in
      let bits = shl64 nb (leftshift_for_tree_index idx) in
      elim (root_cases most idx below (k.trees idx)) [
        | inl e ↦
            MayAllocate-same (tmalloc_large nb) (go_on most idx below)
              (λ c. rw (no_root-ok most idx below e c) refl) (go_on-MayAllocate most idx below)
        | inr (t, xs, held) ↦
            let present : (t == null) ≡ false =
              ground (arith, root_ne_null s b k idx t xs heap below held) in
            MayAllocate-same (tmalloc_large nb) (after most idx below (found_at most idx below t))
              (λ c.
                rw
                  (
                    root-ok (at c) b k idx t xs (IsHeap-at c) below held,
                    present,
                    search_size-root (at c) b k idx t xs (IsHeap-at c) below held nb bits none_yet,
                  )
                  refl)
              (after-MayAllocate most idx below t xs held)
      ]
