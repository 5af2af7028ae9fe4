-- ===== src/Heap/Victim.antt =====
-- The designated victim on the heap: it is given up, set, and replaced.
use unimem.Base.{
  ℕ, ◌/◌, ◌<◌, ◌≡◌, ◌≢◌, refl, ap, arith, inl, inr, true, false, Bool-cases, List, ◌==◌,
}
use unimem.Machine.{Ptr, null, State, ok}
use unimem.MallocState.SmallBins.{is_small, replace_dv}
use unimem.MallocState.SmallBins.Insert.{inserted}
use unimem.MallocState.SmallBins.Victim.{with_dv, IsTable-with_dv}
use unimem.MallocState.TreeBins.Members.{In}
use unimem.MallocState.TreeBins.Forest.{IsForest}
use unimem.Heap.{Blocks, IsTiling, Stock, IsFree, IsStock, IsHeap, IsTiling-frame}
use unimem.Heap.Members.{SameChunks-all}
use unimem.Heap.Keeping.{IsForest-frame}
use unimem.Heap.Drop.{IsGrown}
use unimem.Heap.Add.{IsStock-replace}
use unimem.Heap.InsertSmall.{
  IsLoose, IsLoose-only, insert_small_chunk-inserted, inserted-SameFields, with_small,
  inserted-IsTiling, heap_inserted-IsTable, heap_inserted-IsForest, IsWith-small,
}

IsForest-with_dv :
    (s : State) (sizes : ℕ → ℕ) (trees : ℕ → List Ptr) (p n : ℕ)
    → IsForest s sizes trees
    → IsForest (with_dv s p n) sizes trees
IsForest-with_dv s sizes trees p n forest =
    IsForest-frame s (with_dv s p n) sizes trees refl refl refl (λ a from to. refl)
      (λ i low. SameChunks-all s.mem s.mem (trees i) (λ x h a from to. refl)) forest

pub IsTiling-with_dv :
    (s : State) (b : Blocks) (p n : ℕ) → IsTiling s b → IsTiling (with_dv s p n) b
IsTiling-with_dv s b p n tiling =
    IsTiling-frame s (with_dv s p n) b refl refl refl refl refl (λ x pos. refl) (λ x pos free. refl)
      tiling

-- Nothing but the memory, the two maps and the designated victim differs.
abbrev pub SameButDv : State → State → Type 0
SameButDv s s' = s' ≡ record s {
  mem = s'.mem;
  smallmap = s'.smallmap;
  treemap = s'.treemap;
  dv = s'.dv;
  dvsize = s'.dvsize;
}

-- The chunk of the region becomes the designated victim, where there is none.
pub IsStock-set_dv :
    (s : State) (b : Blocks) (k : Stock) (lo hi r : Ptr)
    → IsTiling s b
    → s.dv ≡ null
    → r ≢ null
    → IsStock s b k lo hi
    → IsLoose b lo hi r
    → IsStock (with_dv s r (b.size r)) b k 0 0
IsStock-set_dv s b k lo hi r tiling absent nr stock loose = record {
  table = IsTable-with_dv s k.bins r (b.size r) stock.table;
  forest = IsForest-with_dv s k.sizes k.trees r (b.size r) stock.forest;
  small = λ i x low h.
      let member = stock.small i x low h in
      (
        (member.0.0, member.0.1, inr (omega arith)),
        member.1,
        member.2,
        λ e. omega (arith, e, member.0.2, loose.from, loose.to),
      );
  large = λ i x low h.
      let member = stock.large i x low h in
      (
        (member.0.0, member.0.1, inr (omega arith)),
        member.1,
        member.2,
        λ e. omega (arith, e, member.0.2, loose.from, loose.to),
      );
  victim = inr (nr, (loose.free.0, loose.free.1, inr (omega arith)), refl);
  cover = λ x free. elim (Bool-cases (x == r)) [
    | inl e ↦ inl (ground (arith, e))
    | inr e ↦ elim (stock.cover x (IsLoose-only b lo hi r loose x free (ground (arith, e)))) [
      | inl is ↦
          absurd
            (omega (arith, is, absent, (tiling.each x free.0).low, tiling.least, tiling.least_pos))
      | inr kept ↦ inr kept
    ]
  ];
}

-- The designated victim is given up, and falls into the region.
pub IsStock-drop_dv :
    (s : State) (b : Blocks) (k : Stock) (lo hi lo' hi' : Ptr)
    → IsTiling s b
    → IsGrown b lo hi lo' hi' s.dv
    → IsStock s b k lo hi
    → IsStock (with_dv s null 0) b k lo' hi'
IsStock-drop_dv s b k lo hi lo' hi' tiling grown stock =
    let pos : (x : Ptr) → 0 < b.size x → x ≢ null =
      λ x there e. omega (arith, e, (tiling.each x there).low, tiling.least, tiling.least_pos) in
    record {
      table = IsTable-with_dv s k.bins null 0 stock.table;
      forest = IsForest-with_dv s k.sizes k.trees null 0 stock.forest;
      small = λ i x low h.
          let member = stock.small i x low h in
          (
            (member.0.0, member.0.1, grown.others x member.0 member.3),
            member.1,
            member.2,
            pos x member.0.0,
          );
      large = λ i x low h.
          let member = stock.large i x low h in
          (
            (member.0.0, member.0.1, grown.others x member.0 member.3),
            member.1,
            member.2,
            pos x member.0.0,
          );
      victim = inl (refl, refl);
      cover = λ x free. elim (stock.cover x (grown.within x free)) [
        | inl e ↦ absurd (omega (arith, e, free.2, grown.from, grown.to))
        | inr kept ↦ inr kept
      ];
    }

module _ (s : State) (b : Blocks) (k : Stock) (lo hi r : Ptr) (tiling : IsTiling s b)
    (stock : IsStock s b k lo hi) (loose : IsLoose b lo hi r) (small : s.dvsize < 256) where
  r_ne_null : r ≢ null
  r_ne_null e = omega (arith, tiling.least_pos, tiling.least, (tiling.each r loose.free.0).low, e)

  abbrev Replaced : Type 0
  Replaced =
      (s' : State) × (k' : Stock) × (replace_dv r (b.size r) s ≡ ok tt s')
      × IsHeap s' b k'
      × SameButDv s s'
      × (s'.dv ≡ r)
      × (s'.dvsize ≡ b.size r)

  replace_dv-first : s.dv ≡ null → s.dvsize ≡ 0 → Replaced
  unfolding replace_dv
  replace_dv-first absent zero_size =
      let is : is_small s.dvsize ≡ true = ground (arith, small) in
      let empty : (s.dvsize == 0) ≡ true = ground (arith, zero_size) in
      (
        with_dv s r (b.size r),
        k,
        rw (is, empty) refl,
        (
          IsTiling-with_dv s b r (b.size r) tiling,
          IsStock-set_dv s b k lo hi r tiling absent r_ne_null stock loose,
        ),
        refl,
        refl,
        refl,
      )

  replace_dv-second : IsFree b lo hi s.dv → s.dvsize ≡ b.size s.dv → Replaced
  unfolding replace_dv
  replace_dv-second free size =
      let i = b.size s.dv / 8 in
      let is : is_small s.dvsize ≡ true = ground (arith, small) in
      let least = (tiling.each s.dv free.0).least in
      let present : (s.dvsize == 0) ≡ false = ground (arith, size, least) in
      let own : IsFree b 0 0 s.dv = (free.0, free.1, inr (omega arith)) in
      let own_small : b.size s.dv < 256 = omega (arith, size, small) in
      let low : i < 32 = omega (arith, own_small) in
      let fresh : (j x : ℕ) → j < 32 → In x (k.bins j) → x ≢ s.dv =
        λ j x below h. (stock.small j x below h).3 in
      let s1 = inserted s s.dv i (k.bins i) in
      let fields = inserted-SameFields s s.dv i (k.bins i) in
      let k' = with_small s b k lo hi s.dv i tiling stock own own_small refl fresh in
      let table = heap_inserted-IsTable s b k lo hi s.dv i tiling stock own own_small refl fresh in
      let forest =
        heap_inserted-IsForest s b k lo hi s.dv i tiling stock own own_small refl fresh in
      let tiling1 = inserted-IsTiling s b k lo hi s.dv i tiling stock own own_small refl fresh in
      let nn : s.dv ≢ null =
        λ e. omega (arith, tiling.least_pos, tiling.least, (tiling.each s.dv free.0).low, e) in
      let runs =
        insert_small_chunk-inserted s s.dv s.dvsize i (k.bins i) (omega (arith, size, small))
          (stock.table.each i low) nn (omega (arith, size, least)) in
      (
        with_dv s1 r (b.size r),
        k',
        rw (is, present, runs) refl,
        (
          IsTiling-with_dv s1 b r (b.size r) tiling1,
          IsStock-replace s (with_dv s1 r (b.size r)) b k k' lo hi s.dv
              (IsTable-with_dv s1 k'.bins r (b.size r) table)
              (IsForest-with_dv s1 k'.sizes k'.trees r (b.size r) forest)
              (IsWith-small s b k lo hi s.dv i tiling stock own own_small refl fresh) own stock r
              refl refl refl r_ne_null (loose.free.0, loose.free.1, inr (omega arith)) loose.from
              loose.to free (IsLoose-only b lo hi r loose),
        ),
        ap (λ z. with_dv z r (b.size r)) fields,
        refl,
        refl,
      )

  -- Where the designated victim, if there is one, is of a small size, replacing it by the chunk
  -- of the region returns and leaves a heap.
  pub replace_dv-IsHeap : Replaced
  replace_dv-IsHeap = elim stock.victim [
    | inl absent ↦ replace_dv-first absent.0 absent.1
    | inr present ↦ replace_dv-second present.1 present.2
  ]
