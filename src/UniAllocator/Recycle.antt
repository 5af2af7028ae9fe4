-- ===== src/UniAllocator/Recycle.antt =====
-- A block that is freed into a small bin and allocated again.
use unimem.Base.{
  ℕ, suc, ◌+◌, ◌≤◌, ◌≡◌, ◌≢◌, refl, sym, ap, ◌∙◌, arith, inl, inr, true, Bool-cases, ◌==◌, List,
  ◌∷◌,
}
use unimem.Machine.{Ptr, State, ok, ◌>>◌}
use unimem.Chunk.{head_at, fd_at, bk_at, chunk2mem}
use unimem.Chunk.Head.{set_pinuse-word}
use unimem.MallocState.Top.{smallbin_at}
use unimem.MallocState.SmallBins.{max_small_request, small_index}
use unimem.MallocState.SmallBins.Table.{IsTable, set_bin}
use unimem.MallocState.SmallBins.Frame.{IsSpared, IsSpared-cons, IsSpared-inserted}
use unimem.UniAllocator.{chunk_size_for, alloc, free}
use unimem.UniAllocator.Reuse.{IsReusable, alloc-IsTable}
use unimem.UniAllocator.Binned.{
  IsBetween, binned, marked_free, binned-IsFreed, binned-IsTable, free-binned,
}

-- What is put into a bin and taken out again.
set_bin-back :
    (bins : ℕ → List Ptr) (i : ℕ) (xs : List Ptr) → set_bin (set_bin bins i xs) i (bins i) ≡ bins
set_bin-back bins i xs t j =
    let same : set_bin (set_bin bins i xs) i (bins i) j ≡ bins j = elim (Bool-cases (j == i)) [
      | inl e ↦ let q : i ≡ j = ground arith in rw e (ap bins q)
      | inr e ↦ rw e refl
    ] in
    same t

module _ (s : State) (bins : ℕ → List Ptr) (p n k : ℕ) (between : IsBetween s bins p n k) where
  IsSpared-binned :
      (a : ℕ)
      → a ≢ p + fd_at
      → a ≢ p + bk_at
      → IsSpared s bins a
      → IsSpared (binned s bins p n k) (set_bin bins (small_index n) (p ∷ bins (small_index n))) a
  unfolding smallbin_at
  IsSpared-binned a fd bk spared =
      let i = small_index n in
      IsSpared-inserted (marked_free s p n k) (set_bin bins i (p ∷ bins i)) p i a (bins i)
        (IsSpared-cons (marked_free s p n k) bins a i p (fd, bk) spared)

  binned-IsReusable :
      IsReusable
        (binned s bins p n k)
        (set_bin bins (small_index n) (p ∷ bins (small_index n)))
        p
        n
        (k + 2)
        (bins (small_index n))
  binned-IsReusable = record {
    held = let same : (small_index n == small_index n) ≡ true = ground arith in rw same refl;
    next_head = (binned-IsFreed s bins p n k between).next_head;
    size = between.size;
    low = between.low;
    high = between.high;
    spared = IsSpared-binned (p + head_at) (omega arith) (omega arith) between.spared;
    next_spared =
        IsSpared-binned (p + n + head_at) (omega (arith, between.low)) (omega (arith, between.low))
          between.next_spared;
  }

-- For a used chunk `p` between two used chunks, of exactly the size that `Alloc` computes for
-- `bytes` (at most `MAX_SMALL_REQUEST`), where the small bins hold a table of lists, `p` is in
-- none of them and no link of the table stands in the header or the footer of `p` or in the
-- header behind it: `Free` of its block and then `Alloc` of `bytes` return, `Alloc` gives the
-- same block back, the small bins hold the lists that they held before, and the header of `p`
-- and the one behind it are what they were.
pub free-alloc :
    (underlying : ℕ → ℕ → Ptr) (fuel bytes : ℕ) (s : State) (bins : ℕ → List Ptr) (p k : ℕ)
    → bytes ≤ max_small_request
    → IsTable s bins
    → IsBetween s bins p (chunk_size_for bytes) k
    → (s' : State) × ((free (chunk2mem p) >> alloc underlying (suc fuel) bytes) s
        ≡ ok (chunk2mem p) s')
      × IsTable s' bins
      × (s'.mem (p + head_at) ≡ s.mem (p + head_at))
      × (s'.mem (p + chunk_size_for bytes + head_at) ≡ s.mem (p + chunk_size_for bytes + head_at))
free-alloc underlying fuel bytes s bins p k small table between =
    let n = chunk_size_for bytes in
    let i = small_index n in
    let s1 = binned s bins p n k in
    let bins1 = set_bin bins i (p ∷ bins i) in
    let t1 = binned-IsTable s bins p n k between table in
    let (s', runs, t2, head, next) =
      alloc-IsTable underlying fuel bytes s1 bins1 p (k + 2) (bins i) small t1
        (binned-IsReusable s bins p n k between) in
    (
      s',
      rw (free-binned s bins p n k between table) runs,
      rw (set_bin-back bins i (p ∷ bins i)) at t2,
      head ∙ sym between.head,
      next ∙ set_pinuse-word k 2 between.next_size (omega arith) ∙ sym between.next_head,
    )
