-- ===== src/MallocState/Top.antt =====
-- The top chunk, the initialisation of a `MallocState`, and the helpers on header words that
-- touch the next chunk.
use unimem.Base.{ℕ, zero, suc, ◌+◌, ◌-◌, ◌*◌, ◌^◌, bit_or, Bool, ◌==◌, leb, ltb, not}
use unimem.Word.{sub64}
use unimem.Machine.{Ptr, null, State, Cmd, Action, skip, pure, gets, modify, ◌>>=◌, ◌>>◌, store}
use unimem.Chunk.{
  head_at, pinuse_bit, cinuse_bit, top_foot_size, align_offset, chunk2mem, chunk_plus_offset,
  get_head, set_fd, set_bk,
}
use unimem.MallocState.Bitmap.{nsmallbins}

-- `2 MB`.
abbrev pub default_trim_threshold : ℕ
default_trim_threshold = 2 * 1024 * 1024

-- `max_release_check_rate` is `MAX_SIZE_T`.
abbrev pub max_size_t : ℕ
max_size_t = 2 ^ 64 - 1

unfoldable pub is_initialized : Cmd Bool
is_initialized = gets λ s. not (s.top == null)

unfoldable pub ok_address : Ptr → Cmd Bool
ok_address a = gets λ s. leb s.least_addr a

-- `smallbins` and `treebins` stand at these offsets in the object.
abbrev pub smallbins_at : ℕ
smallbins_at = 72

abbrev pub treebins_at : ℕ
treebins_at = 600

-- A small bin is a `Chunk*` into the array, of which only `fd` and `bk` are used.
unfoldable pub smallbin_at : ℕ → State → Ptr
smallbin_at i s = s.gm + smallbins_at + 16 * i

unfoldable pub treebin_at : ℕ → State → Ptr
treebin_at i s = s.gm + treebins_at + 8 * i

unfoldable pub init_top : Ptr → ℕ → Action
init_top p psize = do
  let offset = align_offset (chunk2mem p)
  let p' = p + offset
  let psize' = sub64 psize offset
  modify λ s. record s { top = p'; topsize = psize' }
  store p' head_at (bit_or psize' pinuse_bit)
  store (chunk_plus_offset p' psize') head_at top_foot_size
  modify λ s. record s { trim_check = default_trim_threshold }

-- The loop of `init_bins` at index `i`, with `n` rounds left.
unfoldable pub init_bins_from : ℕ → ℕ → Action
init_bins_from zero i = skip
init_bins_from (suc n) i = do
  bin ← gets (smallbin_at i)
  set_bk bin bin
  set_fd bin bin
  init_bins_from n (i + 1)

unfoldable pub init_bins : Action
unfolding init_bins_from
init_bins = init_bins_from nsmallbins 0

-- Set cinuse and pinuse of this chunk and pinuse of the next chunk.
unfoldable pub set_inuse_and_pinuse : Ptr → ℕ → Action
set_inuse_and_pinuse p s = do
  store p head_at (bit_or (bit_or s pinuse_bit) cinuse_bit)
  h ← get_head (chunk_plus_offset p s)
  store (chunk_plus_offset p s) head_at (bit_or h pinuse_bit)

-- Set size, cinuse and pinuse bit of this chunk.
unfoldable pub set_size_and_pinuse_of_inuse_chunk : Ptr → ℕ → Action
set_size_and_pinuse_of_inuse_chunk p s = store p head_at (bit_or (bit_or s pinuse_bit) cinuse_bit)

unfoldable pub should_trim : ℕ → Cmd Bool
should_trim n = gets λ s. ltb s.trim_check n

unfoldable pub sys_trim : ℕ → Cmd ℕ
sys_trim pad = pure 1
