-- ===== src/Heap/Add.antt =====
-- A chunk of the region that nothing keeps is put into the bins or the trees.
use unimem.Base.{ℕ, ◌/◌, ◌≤◌, ◌<◌, ◌≡◌, ◌≢◌, refl, sym, ◌∙◌, arith, ◌⊎◌, inl, inr, Bool-cases, ◌==◌}
use unimem.Machine.{Ptr, null, State}
use unimem.MallocState.TreeIndex.{compute_tree_index}
use unimem.MallocState.SmallBins.Table.{IsTable}
use unimem.MallocState.TreeBins.Members.{In}
use unimem.MallocState.TreeBins.Forest.{IsForest}
use unimem.Heap.{Blocks, Stock, IsFree, IsKept, IsStock}

-- The stock `k'` is `k` with the free chunk `p`.
pub record IsWith (b : Blocks) (k k' : Stock) (p : Ptr) : Type 0 where
  pub bins :
      (i x : ℕ)
      → i < 32
      → In x (k'.bins i)
      → In x (k.bins i) ⊎ ((x ≡ p) × (b.size p < 256) × (b.size p / 8 ≡ i))
  pub trees :
      (i x : ℕ)
      → i < 32
      → In x (k'.trees i)
      → (In x (k.trees i) × (k'.sizes i ≡ k.sizes i))
        ⊎ ((x ≡ p) × (256 ≤ b.size p) × (b.size p ≡ k'.sizes i))
  pub bins_still : (i x : ℕ) → In x (k.bins i) → In x (k'.bins i)
  pub trees_still : (i x : ℕ) → In x (k.trees i) → In x (k'.trees i)
  pub there :
      ((b.size p < 256) × In p (k'.bins (b.size p / 8)))
      ⊎ ((256 ≤ b.size p) × In p (k'.trees (compute_tree_index (b.size p))))

module _ (s s' : State) (b : Blocks) (k k' : Stock) (lo hi p : Ptr) (table : IsTable s' k'.bins)
    (forest : IsForest s' k'.sizes k'.trees) (with_p : IsWith b k k' p) (own : IsFree b 0 0 p)
    (stock : IsStock s b k lo hi) where
  small-with :
      (i x : ℕ)
      → i < 32
      → In x (k'.bins i)
      → IsFree b 0 0 x
        × (b.size x < 256)
        × (b.size x / 8 ≡ i)
        × ((IsFree b lo hi x × (x ≢ s.dv)) ⊎ (x ≡ p))
  small-with i x low h = elim (with_p.bins i x low h) [
    | inl old ↦
        let member = stock.small i x low old in
        ((member.0.0, member.0.1, inr (omega arith)), member.1, member.2, inl (member.0, member.3))
    | inr new ↦ rw new.0 (own, new.1, new.2, inr refl)
  ]

  large-with :
      (i x : ℕ)
      → i < 32
      → In x (k'.trees i)
      → IsFree b 0 0 x
        × (256 ≤ b.size x)
        × (b.size x ≡ k'.sizes i)
        × ((IsFree b lo hi x × (x ≢ s.dv)) ⊎ (x ≡ p))
  large-with i x low h = elim (with_p.trees i x low h) [
    | inl old ↦
        let member = stock.large i x low old.0 in
        (
          (member.0.0, member.0.1, inr (omega arith)),
          member.1,
          member.2 ∙ sym old.1,
          inl (member.0, member.3),
        )
    | inr new ↦ rw new.0 (own, new.1, new.2, inr refl)
  ]

  IsKept-with : (x : Ptr) → IsFree b lo hi x → x ≢ s.dv → IsKept s' b k' x
  IsKept-with x free ne = elim (stock.cover x free) [
    | inl e ↦ absurd (ne e)
    | inr (inl h) ↦ inr (inl (h.0, with_p.bins_still (b.size x / 8) x h.1))
    | inr (inr h) ↦ inr (inr (h.0, with_p.trees_still (compute_tree_index (b.size x)) x h.1))
  ]

  -- The chunk was in the region, and the only free one there.
  pub IsStock-add :
      s'.dv ≡ s.dv
      → s'.dvsize ≡ s.dvsize
      → p ≢ s.dv
      → ((x : Ptr) → IsFree b 0 0 x → x ≢ p → IsFree b lo hi x)
      → IsStock s' b k' 0 0
  IsStock-add dv dvsize ne only = record {
    table = table;
    forest = forest;
    small = λ i x low h.
        let member = small-with i x low h in
        (
          member.0,
          member.1,
          member.2,
          λ e. elim member.3 [ inl other ↦ other.1 (e ∙ dv) | inr is ↦ ne (sym is ∙ e ∙ dv) ],
        );
    large = λ i x low h.
        let member = large-with i x low h in
        (
          member.0,
          member.1,
          member.2,
          λ e. elim member.3 [ inl other ↦ other.1 (e ∙ dv) | inr is ↦ ne (sym is ∙ e ∙ dv) ],
        );
    victim =
        rw (dv, dvsize)
          (elim stock.victim [
            | inl none_kept ↦ inl none_kept
            | inr v ↦ inr (v.0, (v.1.0, v.1.1, inr (omega arith)), v.2)
          ]);
    cover = λ x free. elim (Bool-cases (x == p)) [
      | inl e ↦ let q : x ≡ p = ground arith in rw q (inr with_p.there)
      | inr e ↦
          let free' = only x free (ground arith) in
          elim (Bool-cases (x == s.dv)) [
            | inl e' ↦ let q : x ≡ s.dv = ground arith in inl (q ∙ sym dv)
            | inr e' ↦ IsKept-with x free' (ground arith)
          ]
    ];
  }

  -- The chunk was the designated victim, and another one takes its place.
  pub IsStock-replace :
      (r : Ptr)
      → p ≡ s.dv
      → s'.dv ≡ r
      → s'.dvsize ≡ b.size r
      → r ≢ null
      → IsFree b 0 0 r
      → lo ≤ r
      → r < hi
      → IsFree b lo hi p
      → ((x : Ptr) → IsFree b 0 0 x → x ≢ r → IsFree b lo hi x)
      → IsStock s' b k' 0 0
  IsStock-replace r is dv dvsize nr free_r from to own_out only = record {
    table = table;
    forest = forest;
    small = λ i x low h.
        let member = small-with i x low h in
        (
          member.0,
          member.1,
          member.2,
          λ e. elim member.3 [
            | inl other ↦ omega (arith, other.0.2, from, to, e, dv)
            | inr same ↦ omega (arith, own_out.2, from, to, e, dv, same)
          ],
        );
    large = λ i x low h.
        let member = large-with i x low h in
        (
          member.0,
          member.1,
          member.2,
          λ e. elim member.3 [
            | inl other ↦ omega (arith, other.0.2, from, to, e, dv)
            | inr same ↦ omega (arith, own_out.2, from, to, e, dv, same)
          ],
        );
    victim = rw (dv, dvsize) (inr (nr, free_r, refl));
    cover = λ x free. elim (Bool-cases (x == r)) [
      | inl e ↦ let q : x ≡ r = ground arith in inl (q ∙ sym dv)
      | inr e ↦
          let free' = only x free (ground arith) in
          elim (Bool-cases (x == p)) [
            | inl e' ↦ let q : x ≡ p = ground arith in rw q (inr with_p.there)
            | inr e' ↦ IsKept-with x free' (ground (arith, is))
          ]
    ];
  }
