-- ===== src/Chunk.antt =====
-- chunk.h, tree_chunk.h and size_bits.h of src/cpp/allocators/uni_allocator: the layout of a
-- chunk, its header word, and the macros on sizes and addresses. A method of `Chunk` takes the
-- chunk's address first.
pub mod Sizes
pub mod Head
use unimem.Base.{ℕ, ◌+◌, ◌-◌, ◌*◌, ◌%◌, ◌^◌, bit_and, bit_or, Bool, ◌==◌, ltb, not, if◌then◌else◌}
use unimem.Word.{two64, add64, not64}
use unimem.Machine.{Ptr, null, Cmd, Action, pure, ◌>>=◌, ◌>>◌, load, store}

-- size_bits.h.
abbrev pub size_t_size : ℕ
size_t_size = 8

abbrev pub two_size_t_sizes : ℕ
two_size_t_sizes = size_t_size * 2 ^ 2

abbrev pub size_t_bitsize : ℕ
size_t_bitsize = size_t_size * 2 ^ 3

abbrev pub pinuse_bit : ℕ
pinuse_bit = 1

abbrev pub cinuse_bit : ℕ
cinuse_bit = 2

abbrev pub flag4_bit : ℕ
flag4_bit = 4

abbrev pub inuse_bits : ℕ
inuse_bits = bit_or pinuse_bit cinuse_bit

abbrev pub flag_bits : ℕ
flag_bits = bit_or (bit_or pinuse_bit cinuse_bit) flag4_bit

-- The offsets of the fields of `Chunk`, and of those that `TreeChunk` adds.
abbrev pub prev_foot_at : ℕ
prev_foot_at = 0

abbrev pub head_at : ℕ
head_at = 8

abbrev pub fd_at : ℕ
fd_at = 16

abbrev pub bk_at : ℕ
bk_at = 24

abbrev pub child_at : ℕ → ℕ
child_at i = 32 + 8 * i

abbrev pub parent_at : ℕ
parent_at = 48

abbrev pub index_at : ℕ
index_at = 56

-- `sizeof(Chunk)`.
abbrev pub mchunk_size : ℕ
mchunk_size = 32

abbrev pub malloc_alignment : ℕ
malloc_alignment = 2 * size_t_size

abbrev pub chunk_overhead : ℕ
chunk_overhead = size_t_size

abbrev pub chunk_align_mask : ℕ
chunk_align_mask = malloc_alignment - 1

abbrev pub min_chunk_size : ℕ
min_chunk_size = bit_and (mchunk_size + chunk_align_mask) (not64 chunk_align_mask)

abbrev pub top_foot_size : ℕ
top_foot_size = size_t_size

-- `(-MIN_CHUNK_SIZE) << 2` on `size_t`.
abbrev pub max_request : ℕ
max_request = (two64 - min_chunk_size) * 2 ^ 2 % two64

abbrev pub min_request : ℕ
min_request = min_chunk_size - chunk_overhead - 1

-- The number of bytes to offset an address to align it.
unfoldable pub align_offset : ℕ → ℕ
align_offset a =
    if bit_and a chunk_align_mask == 0
    then 0
    else bit_and (malloc_alignment - bit_and a chunk_align_mask) chunk_align_mask

unfoldable pub pad_request : ℕ → ℕ
pad_request req =
    bit_and (add64 (add64 req chunk_overhead) chunk_align_mask) (not64 chunk_align_mask)

unfoldable pub request2size : ℕ → ℕ
unfolding pad_request
request2size req = if ltb req min_request then min_chunk_size else pad_request req

-- Pointer arithmetic in bytes; past the end of the address space it is undefined in C.
abbrev pub chunk_plus_offset : Ptr → ℕ → Ptr
chunk_plus_offset p s = p + s

abbrev pub chunk_minus_offset : Ptr → ℕ → Ptr
chunk_minus_offset p s = p - s

abbrev pub ok_next : Ptr → Ptr → Bool
ok_next p n = ltb p n

abbrev pub chunk2mem : Ptr → Ptr
chunk2mem p = p + two_size_t_sizes

abbrev pub mem2chunk : Ptr → Ptr
mem2chunk m = m - two_size_t_sizes

-- The readings of a header word.
unfoldable pub size_of : ℕ → ℕ
size_of h = bit_and h (not64 flag_bits)

unfoldable pub head_is_inuse : ℕ → Bool
head_is_inuse h = not (bit_and h inuse_bits == pinuse_bit)

abbrev pub get_head : Ptr → Cmd ℕ
get_head p = load p head_at

unfoldable pub cinuse : Ptr → Cmd ℕ
cinuse p = do h ← get_head p; pure (bit_and h cinuse_bit)

unfoldable pub pinuse : Ptr → Cmd ℕ
pinuse p = do h ← get_head p; pure (bit_and h pinuse_bit)

unfoldable pub flag4inuse : Ptr → Cmd ℕ
flag4inuse p = do h ← get_head p; pure (bit_and h flag4_bit)

unfoldable pub is_inuse : Ptr → Cmd Bool
is_inuse p = do h ← get_head p; pure (head_is_inuse h)

unfoldable pub chunksize : Ptr → Cmd ℕ
chunksize p = do h ← get_head p; pure (size_of h)

-- `this + n` on a `Chunk*` moves by `n` chunks of `sizeof(Chunk)` bytes.
unfoldable pub next_chunk : Ptr → Cmd Ptr
next_chunk p = do h ← get_head p; pure (p + mchunk_size * size_of h)

unfoldable pub prev_chunk : Ptr → Cmd Ptr
prev_chunk p = do foot ← load p prev_foot_at; pure (p - mchunk_size * foot)

unfoldable pub next_pinuse : Ptr → Cmd ℕ
unfolding next_chunk pinuse
next_pinuse p = do n ← next_chunk p; pinuse n

unfoldable pub get_foot : Ptr → ℕ → Cmd ℕ
get_foot p s = load (p + s) prev_foot_at

unfoldable pub set_foot : Ptr → ℕ → Action
set_foot p s = store (p + s) prev_foot_at s

unfoldable pub set_size_and_pinuse_of_free_chunk : Ptr → ℕ → Action
unfolding set_foot
set_size_and_pinuse_of_free_chunk p s = store p head_at (bit_or s pinuse_bit) >> set_foot p s

unfoldable pub set_size_and_pinuse_of_inuse_chunk : Ptr → ℕ → Action
set_size_and_pinuse_of_inuse_chunk p s = store p head_at (bit_or (bit_or s pinuse_bit) cinuse_bit)

unfoldable pub clear_pinuse : Ptr → Action
clear_pinuse p = do h ← get_head p; store p head_at (bit_and h (not64 pinuse_bit))

unfoldable pub set_free_with_pinuse : Ptr → ℕ → Ptr → Action
unfolding clear_pinuse set_size_and_pinuse_of_free_chunk
set_free_with_pinuse p s next = clear_pinuse next >> set_size_and_pinuse_of_free_chunk p s

-- The fields of a free chunk.
abbrev pub get_fd : Ptr → Cmd Ptr
get_fd p = load p fd_at

abbrev pub get_bk : Ptr → Cmd Ptr
get_bk p = load p bk_at

abbrev pub set_fd : Ptr → Ptr → Action
set_fd p v = store p fd_at v

abbrev pub set_bk : Ptr → Ptr → Action
set_bk p v = store p bk_at v

abbrev pub get_child : Ptr → ℕ → Cmd Ptr
get_child p i = load p (child_at i)

abbrev pub set_child : Ptr → ℕ → Ptr → Action
set_child p i v = store p (child_at i) v

abbrev pub get_parent : Ptr → Cmd Ptr
get_parent p = load p parent_at

abbrev pub set_parent : Ptr → Ptr → Action
set_parent p v = store p parent_at v

unfoldable pub leftmost_child : Ptr → Cmd Ptr
leftmost_child t = do left ← get_child t 0; if left == null then get_child t 1 else pure left
