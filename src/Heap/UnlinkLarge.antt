-- ===== src/Heap/UnlinkLarge.antt =====
-- `unlink_chunk` of a free chunk of a tree.
use unimem.Base.{
  ℕ, ◌≤◌, ◌<◌, ◌^◌, ◌≡◌, ◌≢◌, refl, sym, ap, ◌∙◌, arith, inl, inr, false, Bool-cases, List, [], ◌∷◌,
  ◌++◌, ◌==◌, ltb,
}
use unimem.Machine.{Ptr, State, ok}
use unimem.MallocState.Top.{treebin_at}
use unimem.MallocState.TreeIndex.{compute_tree_index}
use unimem.MallocState.TreeIndex.Ranges.{compute_tree_index-Holds}
use unimem.MallocState.SmallBins.{is_small}
use unimem.MallocState.SmallBins.Ring.{Distinct}
use unimem.MallocState.SmallBins.Unlink.{last_or}
use unimem.MallocState.TreeBins.{unlink_chunk, unlink_large_chunk}
use unimem.MallocState.TreeBins.Nodes.{SameBut, IsTree}
use unimem.MallocState.TreeBins.Members.{In, Distinct-trees}
use unimem.MallocState.TreeBins.Forest.{IsForest, set_tree, set_size, SameRest}
use unimem.MallocState.TreeBins.Uprooting.{uproot, butlast, unlink_large_chunk-IsForest}
use unimem.Heap.{Blocks, IsTiling, Stock, IsFree, IsStock}
use unimem.Heap.Members.{In-split, In-add, In-drop, In-middle, Distinct-ne}
use unimem.Heap.Words.{SameFields}
use unimem.Heap.TreeStep.{SameRest-SameFields, step-IsTiling, step-IsTable}
use unimem.Heap.UnlinkSmall.{unlink_chunk-small}
use unimem.Heap.Drop.{IsGrown, IsWithout, IsStock-drop}

In-rotate : (x y : Ptr) (ys : List Ptr) → In x (last_or y ys ∷ butlast y ys) → In x (y ∷ ys)
In-rotate x y [] h = h
In-rotate x y (z ∷ zs) (inl e) = inr (In-rotate x z zs (inl e))
In-rotate x y (z ∷ zs) (inr (inl e)) = inl e
In-rotate x y (z ∷ zs) (inr (inr h)) = inr (In-rotate x z zs (inr h))

rotate-In : (x y : Ptr) (ys : List Ptr) → In x (y ∷ ys) → In x (last_or y ys ∷ butlast y ys)
rotate-In x y [] h = h
rotate-In x y (z ∷ zs) (inl e) = inr (inl e)
rotate-In x y (z ∷ zs) (inr h) = elim (rotate-In x z zs h) [ inl e ↦ inl e | inr m ↦ inr (inr m) ]

In-uproot : (x : Ptr) (xs ys : List Ptr) → In x (uproot xs ys) → In x (xs ++ ys)
In-uproot x [] [] h = h
In-uproot x [] (y ∷ ys) h = In-rotate x y ys h
In-uproot x (z ∷ zs) ys h = h

uproot-In : (x : Ptr) (xs ys : List Ptr) → In x (xs ++ ys) → In x (uproot xs ys)
uproot-In x [] [] h = h
uproot-In x [] (y ∷ ys) h = rotate-In x y ys h
uproot-In x (z ∷ zs) ys h = h

-- The tree at `i` has lost `p`.
IsWithout-set_tree :
    (k : Stock) (i p : ℕ) (xs ys : List Ptr)
    → k.trees i ≡ xs ++ p ∷ ys
    → Distinct (xs ++ p ∷ ys)
    → ((j x : ℕ) → j < 32 → In x (k.trees j) → j ≢ i → x ≢ p)
    → ((j x : ℕ) → j < 32 → In x (k.bins j) → x ≢ p)
    → IsWithout k
        (record k {
          trees = set_tree k.trees i (uproot xs ys);
          sizes = set_size k.sizes i (k.sizes i);
        })
        p
IsWithout-set_tree k i p xs ys held distinct others bins = record {
  bins = λ j x low h. (h, bins j x low h);
  trees = λ j x low h. elim (Bool-cases (j == i)) [
    | inl e ↦
        let q : j ≡ i = ground arith in
        let h' : In x (xs ++ ys) = In-uproot x xs ys (rw e at h) in
        (rw (q, held) (In-add x p xs ys h'), Distinct-ne x p xs ys distinct h', rw e (rw q refl))
    | inr e ↦
        let h' : In x (k.trees j) = rw e at h in (h', others j x low h' (ground arith), rw e refl)
  ];
  bins_left = λ j x ne h. h;
  trees_left = λ j x ne h. elim (Bool-cases (j == i)) [
    | inl e ↦
        let q : j ≡ i = ground arith in
        let h' : In x (k.trees i) = rw q at h in
        rw e (uproot-In x xs ys (In-drop x p xs ys ne (rw held at h')))
    | inr e ↦ rw e h
  ];
}

IsTree-index :
    (s : State) (i n x : ℕ) (ts : List Ptr) → IsTree s i n ts → In x ts → compute_tree_index n ≡ i
IsTree-index s i n x [] tree h = elim h [ ]
IsTree-index s i n x (t ∷ ts) tree h = tree.rooted.0.tree

module _ (s s' : State) (b : Blocks) (k : Stock) (lo hi p i : Ptr) (xs ys : List Ptr)
    (tiling : IsTiling s b) (stock : IsStock s b k lo hi) (low : i < 32)
    (held : k.trees i ≡ xs ++ p ∷ ys) (rest : SameRest s s')
    (same : SameBut s.mem s'.mem (treebin_at i s) (xs ++ p ∷ ys)) where
  abbrev pub without_large : Stock
  without_large = record k {
    trees = set_tree k.trees i (uproot xs ys);
    sizes = set_size k.sizes i (k.sizes i);
  }

  in_tree :
      (y : Ptr)
      → In y (xs ++ p ∷ ys)
      → IsFree b lo hi y × (256 ≤ b.size y) × (b.size y ≡ k.sizes i) × (y ≢ s.dv)
  in_tree y m = stock.large i y low (rw held m)

  all_large : (y : Ptr) → In y (xs ++ p ∷ ys) → (0 < b.size y) × (256 ≤ b.size y)
  all_large y m = let member = in_tree y m in (member.0.0, member.1)

  pub uprooted-IsTiling : IsTiling s' b
  uprooted-IsTiling = step-IsTiling s s' b i (xs ++ p ∷ ys) tiling low rest same all_large

  pub uprooted-IsStock :
      (lo' hi' : Ptr)
      → IsForest s' (set_size k.sizes i (k.sizes i)) (set_tree k.trees i (uproot xs ys))
      → IsGrown b lo hi lo' hi' p
      → IsStock s' b without_large lo' hi'
  uprooted-IsStock lo' hi' forest grown =
      let tree : IsTree s i (k.sizes i) (xs ++ p ∷ ys) = rw held at (stock.forest.each i low) in
      let member = in_tree p (In-middle p xs ys) in
      IsStock-drop s s' b k without_large lo hi lo' hi' p
        (step-IsTable s s' b i (xs ++ p ∷ ys) tiling low rest same all_large k lo hi stock) forest
        (ap (λ z. z.dv) rest) (ap (λ z. z.dvsize) rest)
        (IsWithout-set_tree k i p xs ys held (Distinct-trees (xs ++ p ∷ ys) tree.distinct)
          (λ j x below h ne e.
            let other = stock.large j x below h in
            ne (
              sym (IsTree-index s j (k.sizes j) x (k.trees j) (stock.forest.each j below) h)
              ∙ ap compute_tree_index (sym other.2 ∙ ap b.size e ∙ member.2)
              ∙ IsTree-index s i (k.sizes i) p (xs ++ p ∷ ys) tree (In-middle p xs ys)))
          (λ j x below h e. omega (arith, member.1, (stock.small j x below h).1, ap b.size e)))
        member.3 grown stock

-- Unlinking a free chunk of a large size that is not the designated victim returns, takes it out
-- of the stock, and leaves the tiling as it was.
pub unlink_chunk-large :
    (s : State) (b : Blocks) (k : Stock) (lo hi lo' hi' p : Ptr)
    → IsTiling s b
    → IsStock s b k lo hi
    → IsFree b lo hi p
    → p ≢ s.dv
    → 256 ≤ b.size p
    → IsGrown b lo hi lo' hi' p
    → (s' : State) × (k' : Stock) × (unlink_chunk p (b.size p) s ≡ ok tt s')
      × IsTiling s' b
      × IsStock s' b k' lo' hi'
      × SameFields s s'
unfolding unlink_chunk
unlink_chunk-large s b k lo hi lo' hi' p tiling stock free ne large grown =
    let i = compute_tree_index (b.size p) in
    let chunk = tiling.each p free.0 in
    let size : b.size p < 2 ^ 40 =
      omega (arith, chunk.low, chunk.high, tiling.limit, tiling.room) in
    let low : i < 32 = (compute_tree_index-Holds (b.size p) large size).0 in
    let there : In p (k.trees i) = elim (stock.cover p free) [
      | inl e ↦ absurd (ne e)
      | inr (inl h) ↦ absurd (omega (arith, h.0, large))
      | inr (inr h) ↦ h.1
    ] in
    let (xs, ys, held) = In-split p (k.trees i) there in
    let is : is_small (b.size p) ≡ false = ground (arith, large) in
    let (s', runs, forest, same, rest) =
      unlink_large_chunk-IsForest s k.sizes k.trees p i xs ys stock.forest low held in
    (
      s',
      without_large s s' b k lo hi p i xs ys tiling stock low held rest same,
      rw is runs,
      uprooted-IsTiling s s' b k lo hi p i xs ys tiling stock low held rest same,
      uprooted-IsStock s s' b k lo hi p i xs ys tiling stock low held rest same lo' hi' forest
          grown,
      SameRest-SameFields s s' rest,
    )

pub unlink_large_chunk-IsStock :
    (s : State) (b : Blocks) (k : Stock) (lo hi lo' hi' p : Ptr)
    → IsTiling s b
    → IsStock s b k lo hi
    → IsFree b lo hi p
    → p ≢ s.dv
    → 256 ≤ b.size p
    → IsGrown b lo hi lo' hi' p
    → (s' : State) × (k' : Stock) × (unlink_large_chunk p s ≡ ok tt s')
      × IsTiling s' b
      × IsStock s' b k' lo' hi'
      × SameFields s s'
unfolding unlink_chunk
unlink_large_chunk-IsStock s b k lo hi lo' hi' p tiling stock free ne large grown =
    let is : is_small (b.size p) ≡ false = ground (arith, large) in
    rw is at (unlink_chunk-large s b k lo hi lo' hi' p tiling stock free ne large grown)

-- Unlinking a free chunk that is not the designated victim, whatever its size.
pub unlink_chunk-IsStock :
    (s : State) (b : Blocks) (k : Stock) (lo hi lo' hi' p : Ptr)
    → IsTiling s b
    → IsStock s b k lo hi
    → IsFree b lo hi p
    → p ≢ s.dv
    → IsGrown b lo hi lo' hi' p
    → (s' : State) × (k' : Stock) × (unlink_chunk p (b.size p) s ≡ ok tt s')
      × IsTiling s' b
      × IsStock s' b k' lo' hi'
      × SameFields s s'
unlink_chunk-IsStock s b k lo hi lo' hi' p tiling stock free ne grown =
    elim (Bool-cases (ltb (b.size p) 256)) [
      | inl e ↦
          unlink_chunk-small s b k lo hi lo' hi' p tiling stock free ne (ground (arith, e)) grown
      | inr e ↦
          unlink_chunk-large s b k lo hi lo' hi' p tiling stock free ne (ground (arith, e)) grown
    ]
