-- ===== src/Heap/TreeStep.antt =====
-- What a step on one tree leaves alone: the header words and footers, and the small bins.
use unimem.Base.{ℕ, ◌+◌, ◌≤◌, ◌<◌, ◌≡◌, ◌≢◌, sym, ap, ◌∙◌, arith, List}
use unimem.Machine.{Ptr, State}
use unimem.Chunk.{fd_at, bk_at}
use unimem.MallocState.Top.{treebin_at}
use unimem.MallocState.SmallBins.Table.{IsTable}
use unimem.MallocState.TreeBins.Nodes.{SameBut}
use unimem.MallocState.TreeBins.Members.{In}
use unimem.MallocState.TreeBins.Forest.{SameRest}
use unimem.Heap.{Blocks, IsTiling, Stock, IsStock}
use unimem.Heap.Members.{AllClear-all, SameLinks-all}
use unimem.Heap.Keeping.{IsTable-frame}
use unimem.Heap.Words.{IsTag, SameFields, IsTiling-tags}

pub SameRest-SameFields : (s s' : State) → SameRest s s' → SameFields s s'
SameRest-SameFields s s' rest =
    rest
    ∙ ap (λ z. record s { mem = s'.mem; smallmap = z; treemap = s'.treemap })
        (sym (ap (λ z. z.smallmap) rest))

-- The step writes the slot of the tree `i` and fields of the large chunks `ds`.
module _ (s s' : State) (b : Blocks) (i : ℕ) (ds : List Ptr) (tiling : IsTiling s b) (low : i < 32)
    (rest : SameRest s s') (same : SameBut s.mem s'.mem (treebin_at i s) ds)
    (large : (y : Ptr) → In y ds → (0 < b.size y) × (256 ≤ b.size y)) where
  step-tags : (w : Ptr) → IsTag s b w → s'.mem w ≡ s.mem w
  unfolding treebin_at
  step-tags w tag =
      same w (omega (arith, tag.0, low)) (
        AllClear-all w ds
          λ y m. let member = large y m in omega (arith, tag.1 y member.0, member.1))

  pub step-IsTiling : IsTiling s' b
  step-IsTiling = IsTiling-tags s s' b (SameRest-SameFields s s' rest) step-tags tiling

  step-array : (a : Ptr) → s.gm + 72 ≤ a → a < s.gm + 600 → s'.mem a ≡ s.mem a
  unfolding treebin_at
  step-array a from to = same a (omega (arith, low, to)) (
      AllClear-all a ds λ y m.
        let member = large y m in
        let chunk = tiling.each y member.0 in
        omega (arith, tiling.place, chunk.low, chunk.high, member.1, from, to))

  -- The links of a small chunk are not written.
  step-link :
      (x d : ℕ) → 0 < b.size x → b.size x < 256 → 16 ≤ d → d ≤ 24 → s'.mem (x + d) ≡ s.mem (x + d)
  unfolding treebin_at
  step-link x d pos small least most =
      let chunk = tiling.each x pos in
      same (x + d) (omega (arith, low, tiling.place, chunk.low, chunk.high, chunk.least)) (
        AllClear-all (x + d) ds λ y m.
          let member = large y m in
          let far = tiling.apart x y pos member.0 in
          let ne : x ≢ y = λ e. omega (arith, small, member.1, ap b.size e) in
          omega (arith, far, ne, member.1, chunk.least))

  pub step-IsTable : (k : Stock) (lo hi : Ptr) → IsStock s b k lo hi → IsTable s' k.bins
  step-IsTable k lo hi stock =
      IsTable-frame s s' k.bins (ap (λ z. z.gm) rest) (ap (λ z. z.least_addr) rest)
        (ap (λ z. z.smallmap) rest) step-array
        (λ j below. SameLinks-all s.mem s'.mem (k.bins j) λ x h.
          let small = stock.small j x below h in
          (
            step-link x fd_at small.0.0 small.1 (omega arith) (omega arith),
            step-link x bk_at small.0.0 small.1 (omega arith) (omega arith),
          ))
        stock.table
