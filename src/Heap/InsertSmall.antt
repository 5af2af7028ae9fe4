-- ===== src/Heap/InsertSmall.antt =====
-- `insert_small_chunk` and `replace_dv` on the heap.
use unimem.Base.{
  ℕ, ◌+◌, ◌/◌, ◌≤◌, ◌<◌, ◌≡◌, ◌≢◌, refl, sym, ap, ◌∙◌, arith, ◌⊎◌, inl, inr, true, Bool-cases, List,
  [], ◌∷◌, ◌==◌,
}
use unimem.Machine.{Ptr, null, State, ok}
use unimem.MallocState.Top.{smallbin_at}
use unimem.MallocState.SmallBins.{small_index, insert_small_chunk}
use unimem.MallocState.SmallBins.Ring.{IsBin}
use unimem.MallocState.SmallBins.Insert.{inserted, insert-runs}
use unimem.MallocState.SmallBins.Table.{IsTable, IsFresh, set_bin, inserted-IsTable}
use unimem.MallocState.SmallBins.Frame.{NoLink}
use unimem.MallocState.TreeBins.Members.{In}
use unimem.MallocState.TreeBins.Forest.{IsForest}
use unimem.Heap.{Blocks, IsTiling, Stock, IsFree, IsStock, IsHeap}
use unimem.Heap.Members.{AllApart-all, SameChunks-all}
use unimem.Heap.Keeping.{IsForest-frame}
use unimem.Heap.Words.{IsTag, IsTag-NoLink, IsTag-NoLink_bin, SameFields, IsTiling-tags}
use unimem.Heap.Add.{IsWith, IsStock-add}

inserted-same :
    (s : State) (p i a : ℕ) (xs : List Ptr)
    → NoLink a p
    → NoLink a (smallbin_at i s)
    → ((x : Ptr) → In x xs → NoLink a x)
    → (inserted s p i xs).mem a ≡ s.mem a
inserted-same s p i a [] own anchor spared = ground (arith, own, anchor)
inserted-same s p i a (x ∷ xs) own anchor spared = ground (arith, own, anchor, spared x (inl refl))

pub inserted-SameFields : (s : State) (p i : ℕ) (xs : List Ptr) → SameFields s (inserted s p i xs)
inserted-SameFields s p i [] = refl
inserted-SameFields s p i (x ∷ xs) = refl

inserted-treemap : (s : State) (p i : ℕ) (xs : List Ptr) → (inserted s p i xs).treemap ≡ s.treemap
inserted-treemap s p i [] = refl
inserted-treemap s p i (x ∷ xs) = refl

pub insert_small_chunk-inserted :
    (s : State) (p n i : ℕ) (xs : List Ptr)
    → small_index n ≡ i
    → IsBin s i xs
    → p ≢ null
    → 32 ≤ n
    → insert_small_chunk p n s ≡ ok tt (inserted s p i xs)
insert_small_chunk-inserted s p n i xs index bin ne big =
    rw (← index) (insert-runs s p n xs (rw index bin) ne big)

-- The free chunk `p` of a small size is in none of the bins and trees.
module _ (s : State) (b : Blocks) (k : Stock) (lo hi p i : Ptr) (tiling : IsTiling s b)
    (stock : IsStock s b k lo hi) (own : IsFree b 0 0 p) (small : b.size p < 256)
    (index : b.size p / 8 ≡ i) (fresh : (j x : ℕ) → j < 32 → In x (k.bins j) → x ≢ p) where
  low : i < 32
  low = omega (arith, index, small)

  p-IsFresh : IsFresh s k.bins p
  p-IsFresh =
      let chunk = tiling.each p own.0 in
      record {
        ne_null = λ e. omega (arith, tiling.least_pos, tiling.least, chunk.low);
        address = omega (arith, tiling.least, chunk.low);
        outside = omega (arith, tiling.place, chunk.low, chunk.high, chunk.least);
        apart = λ j below. AllApart-all p (k.bins j) λ x h.
            let member = stock.small j x below h in
            let least = (tiling.each x member.0.0).least in
            omega (arith, tiling.apart p x own.0 member.0.0, fresh j x below h, chunk.least, least);
      }

  inserted-tags : (w : Ptr) → IsTag s b w → (inserted s p i (k.bins i)).mem w ≡ s.mem w
  inserted-tags w tag =
      inserted-same s p i w (k.bins i) (IsTag-NoLink s b w p tag tiling own.0)
        (IsTag-NoLink_bin s b w i tag low)
        λ x h. IsTag-NoLink s b w x tag tiling (stock.small i x low h).0.0

  pub inserted-IsTiling : IsTiling (inserted s p i (k.bins i)) b
  inserted-IsTiling =
      IsTiling-tags s (inserted s p i (k.bins i)) b (inserted-SameFields s p i (k.bins i))
        inserted-tags tiling

  -- A word of a large free chunk, or of the array of trees.
  abbrev IsTreeWord : Ptr → Type 0
  IsTreeWord a =
      ((s.gm + 600 ≤ a) × (a < s.gm + 856))
      ⊎ ((x : Ptr) × (0 < b.size x) × (256 ≤ b.size x) × (x + 8 ≤ a) × (a < x + 64))

  tree_word-NoLink : (a y : Ptr) → IsTreeWord a → 0 < b.size y → b.size y < 256 → NoLink a y
  tree_word-NoLink a y (inl array) pos size =
      let chunk = tiling.each y pos in
      (
        omega (arith, tiling.place, chunk.low, chunk.high, chunk.least, array),
        omega (arith, tiling.place, chunk.low, chunk.high, chunk.least, array),
      )
  tree_word-NoLink a y (inr (x, there, large, from, to)) pos size =
      let least = (tiling.each y pos).least in
      let far = tiling.apart x y there pos in
      let ne : x ≢ y = λ e. omega (arith, size, large, ap b.size e) in
      (omega (arith, far, ne, least, large), omega (arith, far, ne, least, large))

  tree_word-NoLink_bin : (a : Ptr) → IsTreeWord a → NoLink a (smallbin_at i s)
  unfolding smallbin_at
  tree_word-NoLink_bin a (inl array) = (omega (arith, array, low), omega (arith, array, low))
  tree_word-NoLink_bin a (inr (x, there, large, from, to)) =
      let chunk = tiling.each x there in
      (
        omega (arith, low, tiling.place, chunk.low, chunk.high, large),
        omega (arith, low, tiling.place, chunk.low, chunk.high, large),
      )

  inserted-tree_word : (a : Ptr) → IsTreeWord a → (inserted s p i (k.bins i)).mem a ≡ s.mem a
  inserted-tree_word a is =
      inserted-same s p i a (k.bins i) (tree_word-NoLink a p is own.0 small)
        (tree_word-NoLink_bin a is)
        λ x h. let member = stock.small i x low h in tree_word-NoLink a x is member.0.0 member.1

  abbrev pub with_small : Stock
  with_small = record k { bins = set_bin k.bins i (p ∷ k.bins i) }

  pub IsWith-small : IsWith b k with_small p
  IsWith-small = record {
    bins = λ j x below h. elim (Bool-cases (j == i)) [
      | inl e ↦
          let q : j ≡ i = ground arith in
          let h' : In x (p ∷ k.bins i) = rw e at h in
          elim h' [ inl is ↦ inr (is, small, index ∙ sym q) | inr m ↦ inl (rw q m) ]
      | inr e ↦ inl (rw e at h)
    ];
    trees = λ j x below h. inl (h, refl);
    bins_still = λ j x h. elim (Bool-cases (j == i)) [
      | inl e ↦ let q : j ≡ i = ground arith in rw e (inr (rw q at h))
      | inr e ↦ rw e h
    ];
    trees_still = λ j x h. h;
    there = inl (small, rw index (let e : (i == i) ≡ true = ground arith in rw e (inl refl)));
  }

  pub heap_inserted-IsTable : IsTable (inserted s p i (k.bins i)) with_small.bins
  heap_inserted-IsTable = inserted-IsTable s k.bins stock.table i low p p-IsFresh

  pub heap_inserted-IsForest : IsForest (inserted s p i (k.bins i)) k.sizes k.trees
  heap_inserted-IsForest =
      let s' = inserted s p i (k.bins i) in
      let fields = inserted-SameFields s p i (k.bins i) in
      IsForest-frame s s' k.sizes k.trees (ap (λ z. z.gm) fields) (ap (λ z. z.least_addr) fields)
        (inserted-treemap s p i (k.bins i)) (λ a from to. inserted-tree_word a (inl (from, to)))
        (λ j below. SameChunks-all s.mem s'.mem (k.trees j) λ x h a from to.
          let large = stock.large j x below h in
          inserted-tree_word a (inr (x, large.0.0, large.1, from, to)))
        stock.forest

-- The region holds the free chunk `p`, no other one, and not the designated victim.
pub record IsLoose (b : Blocks) (lo hi p : Ptr) : Type 0 where
  pub free : (0 < b.size p) × (b.cinuse p ≡ 0)
  pub from : lo ≤ p
  pub to : p < hi
  pub only : (x : Ptr) → 0 < b.size x → b.cinuse x ≡ 0 → x ≢ p → (x < lo) ⊎ (hi ≤ x)

pub IsLoose-only :
    (b : Blocks) (lo hi p : Ptr)
    → IsLoose b lo hi p
    → (x : Ptr) → IsFree b 0 0 x
    → x ≢ p
    → IsFree b lo hi x
IsLoose-only b lo hi p loose x free ne = (free.0, free.1, loose.only x free.0 free.1 ne)

-- Inserting the chunk of the region into the small bins returns and leaves a heap.
pub insert_small_chunk-IsHeap :
    (s : State) (b : Blocks) (k : Stock) (lo hi p : Ptr)
    → IsTiling s b
    → IsStock s b k lo hi
    → IsLoose b lo hi p
    → b.size p < 256
    → (s' : State) × (k' : Stock) × (insert_small_chunk p (b.size p) s ≡ ok tt s')
      × IsHeap s' b k'
      × SameFields s s'
insert_small_chunk-IsHeap s b k lo hi p tiling stock loose small =
    let i = b.size p / 8 in
    let own : IsFree b 0 0 p = (loose.free.0, loose.free.1, inr (omega arith)) in
    let low : i < 32 = omega (arith, small) in
    let fresh : (j x : ℕ) → j < 32 → In x (k.bins j) → x ≢ p =
      λ j x below h e. omega (arith, (stock.small j x below h).0.2, e, loose.from, loose.to) in
    let chunk = tiling.each p own.0 in
    let s' = inserted s p i (k.bins i) in
    let fields = inserted-SameFields s p i (k.bins i) in
    (
      s',
      with_small s b k lo hi p i tiling stock own small refl fresh,
      insert_small_chunk-inserted s p (b.size p) i (k.bins i) (omega (arith, small))
          (stock.table.each i low) (λ e. omega (arith, tiling.least_pos, tiling.least, chunk.low))
          chunk.least,
      (
        inserted-IsTiling s b k lo hi p i tiling stock own small refl fresh,
        IsStock-add s s' b k (with_small s b k lo hi p i tiling stock own small refl fresh) lo hi p
            (heap_inserted-IsTable s b k lo hi p i tiling stock own small refl fresh)
            (heap_inserted-IsForest s b k lo hi p i tiling stock own small refl fresh)
            (IsWith-small s b k lo hi p i tiling stock own small refl fresh) own stock
            (ap (λ z. z.dv) fields) (ap (λ z. z.dvsize) fields)
            (λ e. omega (
              arith, stock.victim, loose.from, loose.to, e, chunk.low, tiling.least,
              tiling.least_pos,
            ))
            (IsLoose-only b lo hi p loose),
      ),
      fields,
    )
