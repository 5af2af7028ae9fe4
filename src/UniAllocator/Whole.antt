-- ===== src/UniAllocator/Whole.antt =====
-- `Alloc` from the next nonempty small bin, where too little is left of the chunk to split it.
use unimem.Base.{ℕ, suc, ◌+◌, ◌-◌, ◌%◌, ◌≤◌, ◌<◌, ◌≡◌, refl, arith, true, leb, ltb, bit_or, List}
use unimem.Word.{shr, sub64}
use unimem.Machine.{Ptr, State, ok}
use unimem.Chunk.{head_at, pinuse_bit, min_chunk_size, chunk2mem}
use unimem.MallocState.SmallBins.{max_small_request, small_index, small_index2size}
use unimem.MallocState.SmallBins.Unlink.{unlink_first-runs}
use unimem.MallocState.SmallBins.Table.{IsTable, set_bin}
use unimem.UniAllocator.{chunk_size_for, take_next_bin, from_bins, alloc}
use unimem.UniAllocator.Bump.{chunk_size_for_bounds}
use unimem.UniAllocator.Reuse.{
  chunk_size_for_small, IsReusable, reused, set_inuse-reused, reused-IsTable,
}
use unimem.UniAllocator.NextBin.{IsNextBin, found, bin, first, from_bins_small-next}

take_next_bin-reused :
    (s : State) (bins : ℕ → List Ptr) (nb p n h : ℕ) (ys : List Ptr)
    → IsTable s bins
    → IsReusable s bins p n h ys
    → IsNextBin bins nb (small_index n) p ys
    → nb % 8 ≡ 0
    → nb < 256
    → n - nb < 32
    → take_next_bin nb (small_index nb) (shr s.smallmap (small_index nb)) s
      ≡ ok (chunk2mem p) (reused s p n h ys)
unfolding take_next_bin
take_next_bin-reused s bins nb p n h ys table reusable next words small little =
    let i = small_index n in
    let size : small_index2size i ≡ n = omega (arith, reusable.size, reusable.high) in
    let remainder : sub64 n nb ≡ n - nb =
      unfold sub64 in omega (arith, next.behind, reusable.high, small, words, reusable.size) in
    let whole : ltb (n - nb) min_chunk_size ≡ true = ground arith in
    rw
      (
        found s bins nb i p ys table next,
        first s bins nb i p ys table next,
        unlink_first-runs s p i ys (bin s bins nb i p ys table next),
        size,
        remainder,
        whole,
        set_inuse-reused s bins p n h ys table reusable,
      )
      refl

-- For a request of at most `MAX_SMALL_REQUEST` bytes that the designated victim cannot serve,
-- where the small bins hold a table of lists, the bins of its chunk size and of the next one are
-- empty, and the first one behind them that is not empty, that for the size `n`, begins with `p`:
-- if what would be left of that chunk is too small for a chunk, `Alloc` returns the block of `p`,
-- with no recursion, and takes `p` out of its list; the other bins hold what they held. `p` is
-- handed out with its whole size, and PINUSE is set in the header behind it. The condition is
-- that no link of the table stands in these two headers.
pub alloc-IsTable_whole :
    (underlying : ℕ → ℕ → Ptr) (fuel bytes : ℕ) (s : State) (bins : ℕ → List Ptr) (p n h : ℕ)
    (ys : List Ptr)
    → bytes ≤ max_small_request
    → IsTable s bins
    → s.dvsize < chunk_size_for bytes
    → IsReusable s bins p n h ys
    → IsNextBin bins (chunk_size_for bytes) (small_index n) p ys
    → n - chunk_size_for bytes < 32
    → (s' : State) × (alloc underlying (suc fuel) bytes s ≡ ok (chunk2mem p) s')
      × IsTable s' (set_bin bins (small_index n) ys)
      × (s'.mem (p + head_at) ≡ n + 3)
      × (s'.mem (p + n + head_at) ≡ bit_or h pinuse_bit)
unfolding alloc from_bins
alloc-IsTable_whole underlying fuel bytes s bins p n h ys small table short reusable next little =
    let nb = chunk_size_for bytes in
    let bounds = chunk_size_for_bounds bytes (omega arith) in
    let limit = chunk_size_for_small bytes small in
    let path : leb bytes max_small_request ≡ true = ground arith in
    let taken =
      take_next_bin-reused s bins nb p n h ys table reusable next (omega (arith, bounds))
        (omega (arith, limit)) little in
    let s' = reused s p n h ys in
    (
      s',
      rw
          (
            path,
            from_bins_small-next s bins nb (small_index n) p ys table next (chunk2mem p) s' short
                taken,
          )
          refl,
      reused-IsTable s bins p n h ys table reusable,
      ground (arith, reusable.low),
      ground arith,
    )
