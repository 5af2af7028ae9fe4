-- ===== src/Heap/InsertLarge.antt =====
-- `insert_chunk` on the heap: it returns, or throws where the tree of the chunk holds chunks of
-- another size.
use unimem.Base.{
  ℕ, ◌+◌, ◌≤◌, ◌<◌, ◌^◌, ◌≡◌, ◌≢◌, refl, sym, ap, arith, ◌⊎◌, inl, inr, true, Bool-cases, List, [],
  ◌∷◌, ◌==◌,
}
use unimem.Machine.{Ptr, null, State, Run, ok, corrupted}
use unimem.Chunk.{size_of, head_at}
use unimem.Chunk.Head.{size_of-word}
use unimem.MallocState.TreeIndex.{compute_tree_index}
use unimem.MallocState.TreeIndex.Ranges.{compute_tree_index-Holds}
use unimem.MallocState.SmallBins.{is_small}
use unimem.MallocState.TreeBins.{insert_chunk, insert_large_chunk}
use unimem.MallocState.TreeBins.Leaf.{prepared, insert_large_chunk-collides}
use unimem.MallocState.TreeBins.Nodes.{IsTree}
use unimem.MallocState.TreeBins.Members.{In}
use unimem.MallocState.TreeBins.Join.{with_chunk}
use unimem.MallocState.TreeBins.Lone.{IsTree-IsLeaf}
use unimem.MallocState.TreeBins.Forest.{IsFreshTree, set_tree, set_size}
use unimem.MallocState.TreeBins.Planting.{Fits, insert_large_chunk-IsForest}
use unimem.Heap.{Blocks, IsTiling, Stock, IsFree, IsStock, IsHeap}
use unimem.Heap.Members.{AllTreeApart-all}
use unimem.Heap.Words.{SameFields}
use unimem.Heap.TreeStep.{SameRest-SameFields, step-IsTiling, step-IsTable}
use unimem.Heap.Add.{IsWith, IsStock-add}
use unimem.Heap.InsertSmall.{IsLoose, IsLoose-only, insert_small_chunk-IsHeap}

In-with_chunk : (x p : Ptr) (ts : List Ptr) → In x (with_chunk ts p) → (x ≡ p) ⊎ In x ts
In-with_chunk x p [] (inl e) = inl e
In-with_chunk x p [] (inr h) = inr h
In-with_chunk x p (t ∷ ts) (inl e) = inr (inl e)
In-with_chunk x p (t ∷ ts) (inr (inl e)) = inl e
In-with_chunk x p (t ∷ ts) (inr (inr h)) = inr (inr h)

with_chunk-In : (x p : Ptr) (ts : List Ptr) → (x ≡ p) ⊎ In x ts → In x (with_chunk ts p)
with_chunk-In x p [] (inl e) = inl e
with_chunk-In x p [] (inr h) = elim h [ ]
with_chunk-In x p (t ∷ ts) (inl e) = inr (inl e)
with_chunk-In x p (t ∷ ts) (inr (inl e)) = inl e
with_chunk-In x p (t ∷ ts) (inr (inr h)) = inr (inr h)

Fits-In : (m n x : ℕ) (ts : List Ptr) → Fits m n ts → In x ts → m ≡ n
Fits-In m n x [] fits h = elim h [ ]
Fits-In m n x (t ∷ ts) fits h = fits

-- The tree is fit for the size, or its node has another one.
Fits-cases :
    (m n : ℕ) (ts : List Ptr)
    → Fits m n ts ⊎ ((m ≢ n) × (t : Ptr) × (rest : List Ptr) × (ts ≡ t ∷ rest))
Fits-cases m n [] = inl tt
Fits-cases m n (t ∷ ts) = elim (Bool-cases (m == n)) [
  | inl e ↦ inl (ground (arith, e))
  | inr e ↦ inr (ground (arith, e), t, ts, refl)
]

module _ (s : State) (b : Blocks) (k : Stock) (lo hi p : Ptr) (tiling : IsTiling s b)
    (stock : IsStock s b k lo hi) (loose : IsLoose b lo hi p) (large : 256 ≤ b.size p) where
  abbrev index : ℕ
  index = compute_tree_index (b.size p)

  own : IsFree b 0 0 p
  own = (loose.free.0, loose.free.1, inr (omega arith))

  p_ne_null : p ≢ null
  p_ne_null e = omega (arith, e, tiling.least_pos, tiling.least, (tiling.each p own.0).low)

  limit : b.size p < 2 ^ 40
  limit =
      let chunk = tiling.each p own.0 in
      omega (arith, chunk.low, chunk.high, tiling.limit, tiling.room)

  low : index < 32
  low = (compute_tree_index-Holds (b.size p) large limit).0

  not_kept : (j x : ℕ) → j < 32 → In x (k.trees j) → x ≢ p
  not_kept j x below h e = omega (arith, (stock.large j x below h).0.2, e, loose.from, loose.to)

  p-IsFreshTree : IsFreshTree s k.trees p
  p-IsFreshTree =
      let chunk = tiling.each p own.0 in
      record {
        ne_null = p_ne_null;
        address = omega (arith, tiling.least, chunk.low);
        outside = omega (arith, tiling.place, chunk.low, chunk.high, large);
        apart = λ j below. AllTreeApart-all p (k.trees j) λ x h.
            let member = stock.large j x below h in
            omega (arith, tiling.apart p x own.0 member.0.0, not_kept j x below h, large, member.1);
      }

  p_size : size_of (s.mem (p + head_at)) ≡ b.size p
  p_size =
      let chunk = tiling.each p own.0 in
      let head : s.mem (p + head_at) ≡ b.size p + b.pinuse p = omega (arith, chunk.head, own.1) in
      rw head (
        size_of-word (b.size p) (b.pinuse p) (omega (arith, chunk.words, limit))
          (omega (arith, chunk.pflag)))

  abbrev pub with_large : Stock
  with_large = record k {
    trees = set_tree k.trees index (with_chunk (k.trees index) p);
    sizes = set_size k.sizes index (b.size p);
  }

  IsWith-large : Fits (k.sizes index) (b.size p) (k.trees index) → IsWith b k with_large p
  IsWith-large fits = record {
    bins = λ j x below h. inl h;
    trees = λ j x below h. elim (Bool-cases (j == index)) [
      | inl e ↦
          let q : j ≡ index = ground arith in
          let h' : In x (with_chunk (k.trees index) p) = rw e at h in
          elim (In-with_chunk x p (k.trees index) h') [
            | inl is ↦ inr (is, large, rw e refl)
            | inr m ↦ inl (
              rw q m,
              rw e (rw q (sym (Fits-In (k.sizes index) (b.size p) x (k.trees index) fits m))),
            )
          ]
      | inr e ↦ inl (rw e at h, rw e refl)
    ];
    bins_still = λ j x h. h;
    trees_still = λ j x h. elim (Bool-cases (j == index)) [
      | inl e ↦
          let q : j ≡ index = ground arith in
          rw e (with_chunk-In x p (k.trees index) (inr (rw q at h)))
      | inr e ↦ rw e h
    ];
    there =
        let e : (index == index) ≡ true = ground arith in
        inr (large, rw e (with_chunk-In p p (k.trees index) (inl refl)));
  }

  -- The chunks that the insertion writes to.
  all_large : (y : Ptr) → In y (p ∷ k.trees index) → (0 < b.size y) × (256 ≤ b.size y)
  all_large y (inl e) = rw e (own.0, large)
  all_large y (inr h) = let member = stock.large index y low h in (member.0.0, member.1)

  insert_large_chunk-fit :
      Fits (k.sizes index) (b.size p) (k.trees index)
      → (s' : State) × (k' : Stock) × (insert_large_chunk p (b.size p) s ≡ ok tt s')
        × IsHeap s' b k'
        × SameFields s s'
  insert_large_chunk-fit fits =
      let (s', runs, forest, same, rest) =
        insert_large_chunk-IsForest s k.sizes k.trees p (b.size p) stock.forest p-IsFreshTree large
          limit p_size fits in
      let ds = p ∷ k.trees index in
      (
        s',
        with_large,
        runs,
        (
          step-IsTiling s s' b index ds tiling low rest same all_large,
          IsStock-add s s' b k with_large lo hi p
              (step-IsTable s s' b index ds tiling low rest same all_large k lo hi stock) forest
              (IsWith-large fits) own stock (ap (λ z. z.dv) rest) (ap (λ z. z.dvsize) rest)
              (λ e. omega (arith, stock.victim, loose.from, loose.to, e, p_ne_null))
              (IsLoose-only b lo hi p loose),
        ),
        SameRest-SameFields s s' rest,
      )

  insert_large_chunk-misfit :
      (t : Ptr) (ts : List Ptr)
      → k.sizes index ≢ b.size p
      → k.trees index ≡ t ∷ ts
      → insert_large_chunk p (b.size p) s ≡ corrupted (prepared s p index)
  insert_large_chunk-misfit t ts ne held =
      let tree : IsTree s index (k.sizes index) (t ∷ ts) =
        rw held at (stock.forest.each index low) in
      let fresh = p-IsFreshTree in
      let apart = rw held at (fresh.apart index low) in
      insert_large_chunk-collides s p t (b.size p) (k.sizes index)
        (IsTree-IsLeaf s index (k.sizes index) t ts tree) ne tiling.least_pos p_ne_null apart.0
        fresh.outside

-- What an operation leaves: a heap over the chunks `b`, or the exception that a second size in a
-- tree brings about.
abbrev pub Binned : State → Blocks → Run (Unit {0}) → Type 0
Binned s b run =
    ((s' : State) × (k' : Stock) × (run ≡ ok tt s') × IsHeap s' b k' × SameFields s s')
    ⊎ ((s' : State) × (run ≡ corrupted s'))

-- Inserting the chunk of the region returns and leaves a heap, or throws.
pub insert_chunk-IsHeap :
    (s : State) (b : Blocks) (k : Stock) (lo hi p : Ptr)
    → IsTiling s b
    → IsStock s b k lo hi
    → IsLoose b lo hi p
    → Binned s b (insert_chunk p (b.size p) s)
unfolding insert_chunk
insert_chunk-IsHeap s b k lo hi p tiling stock loose = elim (Bool-cases (is_small (b.size p))) [
  | inl e ↦
      rw e (inl (insert_small_chunk-IsHeap s b k lo hi p tiling stock loose (ground (arith, e))))
  | inr e ↦
      let large : 256 ≤ b.size p = ground (arith, e) in
      let i = compute_tree_index (b.size p) in
      elim (Fits-cases (k.sizes i) (b.size p) (k.trees i)) [
        | inl fits ↦ rw e (inl (insert_large_chunk-fit s b k lo hi p tiling stock loose large fits))
        | inr (ne, t, ts, held) ↦ rw e (
            inr (
              prepared s p i,
              insert_large_chunk-misfit s b k lo hi p tiling stock loose large t ts ne held,
            ))
      ]
]
