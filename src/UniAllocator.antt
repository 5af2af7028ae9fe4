-- ===== src/UniAllocator.antt =====
-- `UniAllocator` of src/cpp/allocators/uni_allocator/uni_allocator.cc: `InitOrExpand`, `Alloc` and
-- `Free`. The underlying allocator is virtual: `underlying n size` is the address that its call
-- number `n`, for `size` bytes, returns.
pub mod Stuck
pub mod Init
pub mod Bump
pub mod Release
pub mod Lifo
pub mod Binned
pub mod Reuse
pub mod Recycle
pub mod NextBin
pub mod Split
pub mod Whole
pub mod Victim
pub mod Served
use unimem.Base.{
  ℕ, zero, suc, ◌+◌, bit_and, bit_or, ◌==◌, leb, ltb, not, ◌||◌, if◌then◌else◌, Option, none, some,
}
use unimem.Word.{shr, add32, shl32, not32, add64, sub64, mul64}
use unimem.Machine.{
  Ptr, null, Cmd, Action, out_of_fuel, skip, pure, gets, modify, rtcheck, ◌>>=◌, ◌>>◌, load, store,
}
use unimem.Chunk.{
  head_at, prev_foot_at, pinuse_bit, inuse_bits, top_foot_size, min_chunk_size, min_request,
  max_request, pad_request, chunk_plus_offset, chunk_minus_offset, ok_next, chunk2mem, mem2chunk,
  cinuse, pinuse, is_inuse, chunksize, get_head, get_fd, set_size_and_pinuse_of_free_chunk,
  set_size_and_pinuse_of_inuse_chunk, set_free_with_pinuse,
}
use unimem.MallocState.Bitmap.{idx2bit, left_bits, least_bit, compute_bit2idx}
use unimem.MallocState.Top.{
  max_size_t, is_initialized, ok_address, smallbin_at, init_bins, init_top, set_inuse_and_pinuse,
  should_trim, sys_trim,
}
use unimem.MallocState.Top
use unimem.MallocState.SmallBins.{
  max_small_request, is_small, small_index, small_index2size, and_also, unlink_first_small_chunk,
  insert_small_chunk, replace_dv,
}
use unimem.MallocState.TreeBins.{insert_large_chunk, unlink_chunk}
use unimem.MallocState.TreeAlloc.{tmalloc_small, tmalloc_large}

-- The chunk size for a request, and whether it counts as small.
unfoldable pub chunk_size_for : ℕ → ℕ
unfolding pad_request
chunk_size_for bytes =
    if leb bytes max_small_request
    then if ltb bytes min_request then min_chunk_size else pad_request bytes
    else if leb max_request bytes
    then max_size_t
    else pad_request bytes

-- A remainderless fit to a small bin: the bin `idx`, or the next one if `idx` is empty.
unfoldable pub take_exact : ℕ → ℕ → Cmd Ptr
take_exact idx smallbits = do
  let i = add32 idx (bit_and (not32 smallbits) 1)
  b ← gets (smallbin_at i)
  p ← get_fd b
  unlink_first_small_chunk b p i
  set_inuse_and_pinuse p (small_index2size i)
  pure (chunk2mem p)

-- A chunk of the next nonempty small bin, whose remainder becomes the designated victim.
unfoldable pub take_next_bin : ℕ → ℕ → ℕ → Cmd Ptr
take_next_bin nb idx smallbits = do
  let leftbits = bit_and (shl32 smallbits idx) (left_bits (idx2bit idx))
  i ← compute_bit2idx (least_bit leftbits)
  b ← gets (smallbin_at i)
  p ← get_fd b
  unlink_first_small_chunk b p i
  let rsize = sub64 (small_index2size i) nb
  (if ltb rsize min_chunk_size then set_inuse_and_pinuse p (small_index2size i) else do
    Top.set_size_and_pinuse_of_inuse_chunk p nb
    let r = chunk_plus_offset p nb
    set_size_and_pinuse_of_free_chunk r rsize
    replace_dv r rsize)
  pure (chunk2mem p)

-- The first part of `Alloc`: what the bins give, `none` where it falls through.
unfoldable pub from_bins_small : ℕ → Cmd (Option Ptr)
from_bins_small nb = do
  let idx = small_index nb
  map ← gets (λ s. s.smallmap)
  let smallbits = shr map idx
  dvs ← gets (λ s. s.dvsize)
  if not (bit_and smallbits 0x3 == 0)
      then take_exact idx smallbits >>= (λ m. pure (some m))
      else if not (ltb dvs nb)
      then pure none
      else if not (smallbits == 0)
      then take_next_bin nb idx smallbits >>= (λ m. pure (some m))
      else do
        trees ← gets (λ s. s.treemap)
        if trees == 0
            then pure none
            else do m ← tmalloc_small nb; pure (if m == null then none else some m)

unfoldable pub from_bins_large : ℕ → Cmd (Option Ptr)
from_bins_large nb = do
  trees ← gets (λ s. s.treemap)
  if trees == 0
      then pure none
      else do m ← tmalloc_large nb; pure (if m == null then none else some m)

unfoldable pub from_bins : ℕ → Cmd (Option Ptr)
from_bins bytes =
    if leb bytes max_small_request
    then from_bins_small (chunk_size_for bytes)
    else if leb max_request bytes
    then pure none
    else from_bins_large (chunk_size_for bytes)

-- The designated victim is large enough: it is split, or used up.
unfoldable pub take_dv : ℕ → Cmd Ptr
take_dv nb = do
  dvs ← gets (λ s. s.dvsize)
  p ← gets (λ s. s.dv)
  let rsize = sub64 dvs nb
  (if leb min_chunk_size rsize
      then (do
        let r = chunk_plus_offset p nb
        modify λ s. record s { dv = r; dvsize = rsize }
        set_size_and_pinuse_of_free_chunk r rsize
        set_size_and_pinuse_of_inuse_chunk p nb)
      else do modify λ s. record s { dvsize = 0; dv = null }; set_inuse_and_pinuse p dvs)
  pure (chunk2mem p)

-- The top chunk is larger than the request: it is split.
unfoldable pub take_top : ℕ → Cmd Ptr
take_top nb = do
  tops ← gets (λ s. s.topsize)
  p ← gets (λ s. s.top)
  let rsize = sub64 tops nb
  let r = chunk_plus_offset p nb
  modify λ s. record s { topsize = rsize; top = r }
  store r head_at (bit_or rsize pinuse_bit)
  Top.set_size_and_pinuse_of_inuse_chunk p nb
  pure (chunk2mem p)

module _ (underlying : ℕ → ℕ → Ptr) where
  -- Memory from the underlying allocator becomes the top chunk, the first time.
  unfoldable pub init_or_expand : Action
  init_or_expand = do
    size ← gets (λ s. s.increasing_size)
    step ← gets (λ s. s.increasing_step)
    let tsize = mul64 size step
    n ← gets (λ s. s.calls)
    let tbase = underlying n tsize
    modify λ s. record s { calls = s.calls + 1 }
    initialized ← is_initialized
    if initialized then skip else do
      least ← gets (λ s. s.least_addr)
      (if (least == null) || ltb tbase least
          then modify (λ s. record s { least_addr = tbase })
          else skip)
      modify λ s. record s { magic = 1; release_checks = max_size_t }
      init_bins
      init_top tbase (sub64 tsize top_foot_size)

  -- `Alloc` calls itself after `InitOrExpand`, with nothing that bounds the depth: hence the fuel.
  unfoldable pub alloc : ℕ → ℕ → Cmd Ptr
  alloc zero bytes s = out_of_fuel
  alloc (suc fuel) bytes s =
      let again = alloc fuel bytes in
      let nb = chunk_size_for bytes in
      (do
        got ← from_bins bytes
        elim got [
          | some m ↦ pure m
          | none ↦ do
            dvs ← gets (λ s. s.dvsize)
            tops ← gets (λ s. s.topsize)
            if leb nb dvs
                then take_dv nb
                else if ltb nb tops
                then take_top nb
                else do init_or_expand; again
        ])
        s

-- Consolidation backward: `none` where `Free` returns, else the chunk and its size so far.
unfoldable pub merge_back : Ptr → Ptr → ℕ → Cmd (Option (Ptr × ℕ))
merge_back p next psize = do
  before ← pinuse p
  if not (before == 0) then pure (some (p, psize)) else do
    prevsize ← load p prev_foot_at
    let prev = chunk_minus_offset p prevsize
    let psize' = add64 psize prevsize
    good ← ok_address prev
    rtcheck good
    victim ← gets (λ s. s.dv)
    if not (prev == victim) then unlink_chunk prev prevsize >> pure (some (prev, psize')) else do
      h ← get_head next
      if bit_and h inuse_bits == inuse_bits
          then (do
            modify λ s. record s { dvsize = psize' }
            set_free_with_pinuse prev psize' next
            pure none)
          else pure (some (prev, psize'))

unfoldable pub merge_top : Ptr → ℕ → Action
merge_top p psize = do
  tops ← gets (λ s. s.topsize)
  let tsize = add64 tops psize
  modify λ s. record s { topsize = tsize; top = p }
  store p head_at (bit_or tsize pinuse_bit)
  victim ← gets (λ s. s.dv)
  (if p == victim then modify (λ s. record s { dv = null; dvsize = 0 }) else skip)
  trim ← should_trim tsize
  if trim then sys_trim 0 >> skip else skip

unfoldable pub merge_dv : Ptr → ℕ → Action
merge_dv p psize = do
  dvs ← gets (λ s. s.dvsize)
  let dsize = add64 dvs psize
  modify λ s. record s { dvsize = dsize; dv = p }
  set_size_and_pinuse_of_free_chunk p dsize

unfoldable pub bin_chunk : Ptr → ℕ → Action
bin_chunk p psize =
    if is_small psize then insert_small_chunk p psize else insert_large_chunk p psize

-- The chunk behind is free, and neither the top nor the designated victim.
unfoldable pub merge_next : Ptr → Ptr → ℕ → Action
unfolding bin_chunk
merge_next p next psize = do
  nsize ← chunksize next
  let psize' = add64 psize nsize
  unlink_chunk next nsize
  set_size_and_pinuse_of_free_chunk p psize'
  victim ← gets (λ s. s.dv)
  if p == victim then modify (λ s. record s { dvsize = psize' }) else bin_chunk p psize'

-- Consolidation forward, and the insertion into a bin.
unfoldable pub merge_forward : Ptr → Ptr → ℕ → Action
unfolding merge_top merge_dv merge_next bin_chunk
merge_forward p next psize = do
  prev_used ← and_also (ok_next p next) (do u ← pinuse next; pure (not (u == 0)))
  if not prev_used then skip else do
    used ← cinuse next
    if not (used == 0) then set_free_with_pinuse p psize next >> bin_chunk p psize else do
      top ← gets (λ s. s.top)
      victim ← gets (λ s. s.dv)
      if next == top
          then merge_top p psize
          else if next == victim
          then merge_dv p psize
          else merge_next p next psize

unfoldable pub free : Ptr → Action
free m = if m == null then skip else do
  let p = mem2chunk m
  good ← ok_address p
  valid ← and_also good (is_inuse p)
  if not valid then skip else do
    psize ← chunksize p
    let next = chunk_plus_offset p psize
    merged ← merge_back p next psize
    elim merged [ none ↦ skip | some (p', psize') ↦ merge_forward p' next psize' ]
