-- ===== src/Heap/Drop.antt =====
-- A chunk is taken out of the bins or the trees, and falls into the region that nothing keeps.
use unimem.Base.{ℕ, ◌/◌, ◌≤◌, ◌<◌, ◌≡◌, ◌≢◌, sym, ◌∙◌, arith, ◌⊎◌, inl, inr}
use unimem.Machine.{Ptr, State}
use unimem.MallocState.TreeIndex.{compute_tree_index}
use unimem.MallocState.SmallBins.Table.{IsTable}
use unimem.MallocState.TreeBins.Members.{In}
use unimem.MallocState.TreeBins.Forest.{IsForest}
use unimem.Heap.{Blocks, Stock, IsFree, IsStock}

-- The region from `lo` to `hi` grows to that from `lo'` to `hi'`, which holds `p` and no other
-- free chunk that the first one does not.
pub record IsGrown (b : Blocks) (lo hi lo' hi' p : Ptr) : Type 0 where
  pub others : (x : Ptr) → IsFree b lo hi x → x ≢ p → (x < lo') ⊎ (hi' ≤ x)
  pub within : (x : Ptr) → IsFree b lo' hi' x → IsFree b lo hi x
  pub from : lo' ≤ p
  pub to : p < hi'

-- The stock `k'` is `k` without `p`.
pub record IsWithout (k k' : Stock) (p : Ptr) : Type 0 where
  pub bins : (i x : ℕ) → i < 32 → In x (k'.bins i) → In x (k.bins i) × (x ≢ p)
  pub trees :
      (i x : ℕ) → i < 32 → In x (k'.trees i) → In x (k.trees i) × (x ≢ p) × (k'.sizes i ≡ k.sizes i)
  pub bins_left : (i x : ℕ) → x ≢ p → In x (k.bins i) → In x (k'.bins i)
  pub trees_left : (i x : ℕ) → x ≢ p → In x (k.trees i) → In x (k'.trees i)

pub IsStock-drop :
    (s s' : State) (b : Blocks) (k k' : Stock) (lo hi lo' hi' p : Ptr)
    → IsTable s' k'.bins
    → IsForest s' k'.sizes k'.trees
    → s'.dv ≡ s.dv
    → s'.dvsize ≡ s.dvsize
    → IsWithout k k' p
    → p ≢ s.dv
    → IsGrown b lo hi lo' hi' p
    → IsStock s b k lo hi
    → IsStock s' b k' lo' hi'
IsStock-drop s s' b k k' lo hi lo' hi' p table forest dv dvsize without ne grown stock =
    let out : (x : Ptr) → IsFree b lo hi x → x ≢ p → IsFree b lo' hi' x =
      λ x free other. (free.0, free.1, grown.others x free other) in
    record {
      table = table;
      forest = forest;
      small = λ i x low h.
          let there = without.bins i x low h in
          let member = stock.small i x low there.0 in
          (out x member.0 there.1, member.1, member.2, λ e. member.3 (e ∙ dv));
      large = λ i x low h.
          let there = without.trees i x low h in
          let member = stock.large i x low there.0 in
          (out x member.0 there.1, member.1, member.2 ∙ sym there.2, λ e. member.3 (e ∙ dv));
      victim =
          rw (dv, dvsize)
            (elim stock.victim [
              | inl none_kept ↦ inl none_kept
              | inr v ↦ inr (v.0, out s.dv v.1 (λ e. ne (sym e)), v.2)
            ]);
      cover = λ x free.
          let other : x ≢ p = λ e. omega (arith, free.2, grown.from, grown.to) in
          elim (stock.cover x (grown.within x free)) [
            | inl e ↦ inl (e ∙ sym dv)
            | inr (inl h) ↦ inr (inl (h.0, without.bins_left (b.size x / 8) x other h.1))
            | inr (inr h) ↦
                inr (inr (h.0, without.trees_left (compute_tree_index (b.size x)) x other h.1))
          ];
    }
