-- ===== src/MallocState/SmallBins.antt =====
-- The bins of small chunks: circular doubly linked lists through the array `smallbins`.
pub mod Ring
pub mod Insert
pub mod Unlink
pub mod Removed
pub mod Table
pub mod Cut
pub mod Frame
pub mod Victim
use unimem.Base.{ℕ, ◌-◌, ◌*◌, ◌^◌, Bool, ◌==◌, leb, ltb, true, false, if◌then◌else◌}
use unimem.Word.{shr, to_u32}
use unimem.Machine.{Ptr, Cmd, Action, skip, pure, gets, modify, rtcheck, assert, ◌>>=◌, ◌>>◌}
use unimem.Chunk.{min_chunk_size, chunk_align_mask, chunk_overhead, get_fd, get_bk, set_fd, set_bk}
use unimem.MallocState.Bitmap.{nsmallbins, mark_smallmap, clear_smallmap, smallmap_is_marked}
use unimem.MallocState.Top.{smallbin_at, ok_address}

abbrev pub smallbin_shift : ℕ
smallbin_shift = 3

abbrev pub treebin_shift : ℕ
treebin_shift = 8

abbrev pub min_large_size : ℕ
min_large_size = 2 ^ treebin_shift

abbrev pub max_small_size : ℕ
max_small_size = min_large_size - 1

abbrev pub max_small_request : ℕ
max_small_request = max_small_size - chunk_align_mask - chunk_overhead

abbrev pub is_small : ℕ → Bool
is_small s = ltb (shr s smallbin_shift) nsmallbins

abbrev pub small_index : ℕ → ℕ
small_index s = to_u32 (shr s smallbin_shift)

-- `(i) << SMALLBIN_SHIFT` on a `bindex_t`.
abbrev pub small_index2size : ℕ → ℕ
small_index2size i = to_u32 (i * 2 ^ smallbin_shift)

-- `a && m`, where `m` is read only if `a` holds, and `a || m`.
abbrev pub and_also : Bool → Cmd Bool → Cmd Bool
and_also true m = m
and_also false m = pure false

abbrev pub or_else : Bool → Cmd Bool → Cmd Bool
or_else true m = pure true
or_else false m = m

-- `F->bk == P` and `B->fd == P`.
abbrev pub bk_is : Ptr → Ptr → Cmd Bool
bk_is f p = do b ← get_bk f; pure (b == p)

abbrev pub fd_is : Ptr → Ptr → Cmd Bool
fd_is b p = do f ← get_fd b; pure (f == p)

-- Unlink the first chunk from a small bin. The bin of a list of one keeps its pointers, and is
-- taken for empty by its bit.
unfoldable pub unlink_first_small_chunk : Ptr → Ptr → ℕ → Action
unlink_first_small_chunk b p i = do
  f ← get_fd p
  if b == f then clear_smallmap i else do
    good ← ok_address f
    linked ← and_also good (bk_is f p)
    rtcheck linked
    set_bk f b
    set_fd b f

-- Link a free chunk into a small bin.
unfoldable pub insert_small_chunk : Ptr → ℕ → Action
insert_small_chunk p size = do
  let i = small_index size
  b ← gets (smallbin_at i)
  assert (leb min_chunk_size size)
  marked ← smallmap_is_marked i
  f ←
      (if marked == 0
        then mark_smallmap i >> pure b
        else do first ← get_fd b; good ← ok_address first; rtcheck good; get_fd b)
  set_fd b p
  set_bk f p
  set_fd p f
  set_bk p b

-- Unlink a chunk from a small bin.
unfoldable pub unlink_small_chunk : Ptr → ℕ → Action
unlink_small_chunk p size = do
  f ← get_fd p
  b ← get_bk p
  let i = small_index size
  bin ← gets (smallbin_at i)
  good_f ← ok_address f
  good ← or_else (f == bin) (and_also good_f (bk_is f p))
  rtcheck good
  if b == f then clear_smallmap i else do
    good_b ← ok_address b
    linked ← or_else (b == bin) (and_also good_b (fd_is b p))
    rtcheck linked
    set_bk f b
    set_fd b f

-- Replace the designated victim and bin the old one.
unfoldable pub replace_dv : Ptr → ℕ → Action
unfolding insert_small_chunk
replace_dv p size = do
  dvs ← gets (λ s. s.dvsize)
  assert (is_small dvs)
  (if dvs == 0 then skip else do old ← gets (λ s. s.dv); insert_small_chunk old dvs)
  modify λ s. record s { dvsize = size; dv = p }
