-- ===== src/Heap/UnlinkSmall.antt =====
-- `unlink_chunk` of a free chunk of a small bin.
use unimem.Base.{
  ℕ, ◌+◌, ◌/◌, ◌≤◌, ◌<◌, ◌≡◌, ◌≢◌, refl, sym, ap, ◌∙◌, arith, inl, inr, true, Bool-cases, List, [],
  ◌∷◌, ◌++◌, ◌==◌,
}
use unimem.Machine.{Ptr, State, ok}
use unimem.MallocState.Top.{smallbin_at}
use unimem.MallocState.SmallBins.{is_small, small_index}
use unimem.MallocState.SmallBins.Ring.{IsBin, Distinct}
use unimem.MallocState.SmallBins.Unlink.{last_or, removed, unlink-runs}
use unimem.MallocState.SmallBins.Cut.{removed-IsTable}
use unimem.MallocState.SmallBins.Table.{set_bin}
use unimem.MallocState.SmallBins.Frame.{NoLink}
use unimem.MallocState.TreeBins.{unlink_chunk}
use unimem.MallocState.TreeBins.Members.{In, In-last}
use unimem.Heap.{Blocks, IsTiling, Stock, IsFree, IsStock}
use unimem.Heap.Members.{SameChunks-all, In-split, In-add, In-drop, In-middle, Distinct-ne}
use unimem.Heap.Keeping.{IsForest-frame}
use unimem.Heap.Words.{IsTag, IsTag-NoLink, IsTag-NoLink_bin, SameFields, IsTiling-tags}
use unimem.Heap.Drop.{IsGrown, IsWithout, IsStock-drop}

-- What is cut out of a bin leaves the words that are no links.
removed-same :
    (s : State) (i a : ℕ) (xs ys : List Ptr)
    → NoLink a (smallbin_at i s)
    → ((x : Ptr) → In x (xs ++ ys) → NoLink a x)
    → (removed s i xs ys).mem a ≡ s.mem a
removed-same s i a [] [] anchor spared = refl
removed-same s i a [] (y ∷ ys) anchor spared = ground (arith, anchor, spared y (inl refl))
removed-same s i a (x ∷ xs) [] anchor spared =
    ground (arith, anchor, spared (last_or x xs) (In-last x xs []))
removed-same s i a (x ∷ xs) (y ∷ ys) anchor spared =
    ground
      (arith, spared (last_or x xs) (In-last x xs (y ∷ ys)), spared y (In-middle y (x ∷ xs) ys))

pub removed-SameFields : (s : State) (i : ℕ) (xs ys : List Ptr) → SameFields s (removed s i xs ys)
removed-SameFields s i [] [] = refl
removed-SameFields s i [] (y ∷ ys) = refl
removed-SameFields s i (x ∷ xs) ys = refl

removed-treemap : (s : State) (i : ℕ) (xs ys : List Ptr) → (removed s i xs ys).treemap ≡ s.treemap
removed-treemap s i [] [] = refl
removed-treemap s i [] (y ∷ ys) = refl
removed-treemap s i (x ∷ xs) ys = refl

-- The list at `i` has lost `p`.
IsWithout-set_bin :
    (k : Stock) (i p : ℕ) (xs ys : List Ptr)
    → k.bins i ≡ xs ++ p ∷ ys
    → Distinct (xs ++ p ∷ ys)
    → ((j x : ℕ) → j < 32 → In x (k.bins j) → j ≢ i → x ≢ p)
    → ((j x : ℕ) → j < 32 → In x (k.trees j) → x ≢ p)
    → IsWithout k (record k { bins = set_bin k.bins i (xs ++ ys) }) p
IsWithout-set_bin k i p xs ys held distinct others trees = record {
  bins = λ j x low h. elim (Bool-cases (j == i)) [
    | inl e ↦
        let q : j ≡ i = ground arith in
        let h' : In x (xs ++ ys) = rw e at h in
        (rw (q, held) (In-add x p xs ys h'), Distinct-ne x p xs ys distinct h')
    | inr e ↦ let h' : In x (k.bins j) = rw e at h in (h', others j x low h' (ground arith))
  ];
  trees = λ j x low h. (h, trees j x low h, refl);
  bins_left = λ j x ne h. elim (Bool-cases (j == i)) [
    | inl e ↦
        let q : j ≡ i = ground arith in
        let h' : In x (k.bins i) = rw q at h in rw e (In-drop x p xs ys ne (rw held at h'))
    | inr e ↦ rw e h
  ];
  trees_left = λ j x ne h. h;
}

module _ (s : State) (b : Blocks) (k : Stock) (lo hi lo' hi' p i : Ptr) (xs ys : List Ptr)
    (tiling : IsTiling s b) (stock : IsStock s b k lo hi) (low : i < 32)
    (held : k.bins i ≡ xs ++ p ∷ ys) where
  abbrev pub without_small : Stock
  without_small = record k { bins = set_bin k.bins i (xs ++ ys) }

  member : IsFree b lo hi p × (b.size p < 256) × (b.size p / 8 ≡ i) × (p ≢ s.dv)
  member = stock.small i p low (rw held (In-middle p xs ys))

  removed-tags : (w : Ptr) → IsTag s b w → (removed s i xs ys).mem w ≡ s.mem w
  removed-tags w tag = removed-same s i w xs ys (IsTag-NoLink_bin s b w i tag low) λ x h.
      IsTag-NoLink s b w x tag tiling (stock.small i x low (rw held (In-add x p xs ys h))).0.0

  pub removed-IsTiling : IsTiling (removed s i xs ys) b
  removed-IsTiling =
      IsTiling-tags s (removed s i xs ys) b (removed-SameFields s i xs ys) removed-tags tiling

  -- The words of the trees are not written.
  removed-trees :
      (j x a : ℕ)
      → j < 32
      → In x (k.trees j)
      → x + 8 ≤ a
      → a < x + 64
      → (removed s i xs ys).mem a ≡ s.mem a
  unfolding smallbin_at
  removed-trees j x a below h from to =
      let large = stock.large j x below h in
      let chunk = tiling.each x large.0.0 in
      removed-same s i a xs ys
        (
          omega (arith, tiling.place, chunk.low, chunk.high, large.1),
          omega (arith, tiling.place, chunk.low, chunk.high, large.1),
        )
        λ y m.
          let small = stock.small i y low (rw held (In-add y p xs ys m)) in
          let least = (tiling.each y small.0.0).least in
          let far = tiling.apart x y large.0.0 small.0.0 in
          let ne : x ≢ y = λ e. omega (arith, small.1, large.1, ap b.size e) in
          (omega (arith, far, ne, least, large.1), omega (arith, far, ne, least, large.1))

  removed-array : (a : Ptr) → s.gm + 600 ≤ a → a < s.gm + 856 → (removed s i xs ys).mem a ≡ s.mem a
  unfolding smallbin_at
  removed-array a from to =
      removed-same s i a xs ys (omega (arith, from, low), omega (arith, from, low))
        λ y m.
          let small = stock.small i y low (rw held (In-add y p xs ys m)) in
          let chunk = tiling.each y small.0.0 in
          (
            omega (arith, tiling.place, chunk.low, chunk.high, chunk.least, from, to),
            omega (arith, tiling.place, chunk.low, chunk.high, chunk.least, from, to),
          )

  pub removed-IsStock :
      IsGrown b lo hi lo' hi' p → IsStock (removed s i xs ys) b without_small lo' hi'
  removed-IsStock grown =
      let s' = removed s i xs ys in
      let fields = removed-SameFields s i xs ys in
      let bin : IsBin s i (xs ++ p ∷ ys) = rw held at (stock.table.each i low) in
      IsStock-drop s s' b k without_small lo hi lo' hi' p
        (removed-IsTable s k.bins stock.table i low p xs ys held)
        (IsForest-frame s s' k.sizes k.trees (ap (λ z. z.gm) fields) (ap (λ z. z.least_addr) fields)
          (removed-treemap s i xs ys) removed-array
          (λ j below.
            SameChunks-all s.mem s'.mem (k.trees j)
              λ x h a from to. removed-trees j x a below h from to)
          stock.forest)
        (ap (λ z. z.dv) fields) (ap (λ z. z.dvsize) fields)
        (IsWithout-set_bin k i p xs ys held bin.distinct
          (λ j x below h ne e.
            let other = stock.small j x below h in
            ne (sym other.2 ∙ ap (λ z. b.size z / 8) e ∙ member.2))
          (λ j x below h e. omega (arith, member.1, (stock.large j x below h).1, ap b.size e)))
        member.3 grown stock

unlink_chunk-removed :
    (s : State) (p n i : ℕ) (xs ys : List Ptr)
    → n < 256
    → small_index n ≡ i
    → IsBin s i (xs ++ p ∷ ys)
    → unlink_chunk p n s ≡ ok tt (removed s i xs ys)
unfolding unlink_chunk
unlink_chunk-removed s p n i xs ys small index bin =
    let is : is_small n ≡ true = ground (arith, small) in
    rw is (rw (← index) (unlink-runs s p n xs ys (rw index bin)))

-- Unlinking a free chunk of a small size that is not the designated victim returns, takes it out
-- of the stock, and leaves the tiling as it was.
pub unlink_chunk-small :
    (s : State) (b : Blocks) (k : Stock) (lo hi lo' hi' p : Ptr)
    → IsTiling s b
    → IsStock s b k lo hi
    → IsFree b lo hi p
    → p ≢ s.dv
    → b.size p < 256
    → IsGrown b lo hi lo' hi' p
    → (s' : State) × (k' : Stock) × (unlink_chunk p (b.size p) s ≡ ok tt s')
      × IsTiling s' b
      × IsStock s' b k' lo' hi'
      × SameFields s s'
unlink_chunk-small s b k lo hi lo' hi' p tiling stock free ne small grown =
    let i = b.size p / 8 in
    let low : i < 32 = omega (arith, small) in
    let there : In p (k.bins i) = elim (stock.cover p free) [
      | inl e ↦ absurd (ne e)
      | inr (inl h) ↦ h.1
      | inr (inr h) ↦ absurd (omega (arith, h.0, small))
    ] in
    let (xs, ys, held) = In-split p (k.bins i) there in
    let index : small_index (b.size p) ≡ i = omega (arith, small) in
    (
      removed s i xs ys,
      without_small s b k lo hi lo' hi' p i xs ys tiling stock low held,
      unlink_chunk-removed s p (b.size p) i xs ys small index (rw held at (stock.table.each i low)),
      removed-IsTiling s b k lo hi lo' hi' p i xs ys tiling stock low held,
      removed-IsStock s b k lo hi lo' hi' p i xs ys tiling stock low held grown,
      removed-SameFields s i xs ys,
    )
