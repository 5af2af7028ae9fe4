-- ===== src/Chunk/Sizes.antt =====
-- What the macros `pad_request`, `request2size` and `align_offset` of chunk.h compute.
use unimem.Base.{ℕ, ◌+◌, ◌-◌, ◌*◌, ◌/◌, ◌%◌, ◌^◌, ◌≤◌, ◌<◌, bit_and, ◌≡◌, ◌↔◌, arith}
use unimem.Word.{add64}
use unimem.Word.Masks.{clear_four, low_four}
use unimem.Chunk.{
  min_chunk_size, max_request, chunk_overhead, malloc_alignment, align_offset, pad_request,
  request2size, chunk2mem, head_at,
}

pub pad_request-div : (req : ℕ) → req + 23 < 2 ^ 64 → pad_request req ≡ (req + 23) / 16 * 16
unfolding pad_request add64
pad_request-div req h = omega (arith, clear_four (((req + 8) % 2 ^ 64 + 15) % 2 ^ 64) (omega arith))

-- `n` has room for a request of `bytes` and its overhead, and is not below the least chunk.
abbrev pub HasRoom : ℕ → ℕ → Type 0
HasRoom bytes n = (min_chunk_size ≤ n) × (bytes + chunk_overhead ≤ n)

-- For every request below `MAX_REQUEST`, `request2size` is the least multiple of the alignment
-- with room for it: it is a multiple, and any multiple has room exactly if it is not below.
pub request2size_least :
    (bytes n : ℕ)
    → bytes < max_request
    → n % malloc_alignment ≡ 0
    → (request2size bytes % malloc_alignment ≡ 0) × (HasRoom bytes n ↔ (request2size bytes ≤ n))
unfolding request2size
request2size_least bytes n h aligned = (
  ground (arith, pad_request-div bytes),
  ((λ room. ground (arith, pad_request-div bytes)), (λ le. ground (arith, pad_request-div bytes))),
)

pub request2size_bounds :
    (bytes : ℕ)
    → bytes < max_request
    → (request2size bytes % 16 ≡ 0)
      × (32 ≤ request2size bytes)
      × (bytes + 8 ≤ request2size bytes)
      × (request2size bytes < bytes + 33)
      × (request2size bytes < 2 ^ 64)
unfolding request2size
request2size_bounds bytes h = ground (arith, pad_request-div bytes)

-- `align_offset` is the least offset that aligns an address to 16 bytes: it aligns, and it is not
-- above any other offset `k` that aligns.
pub align_offset_least :
    (a k : ℕ)
    → (a + k) % malloc_alignment ≡ 0
    → ((a + align_offset a) % malloc_alignment ≡ 0) × (align_offset a ≤ k)
unfolding align_offset
align_offset_least a k aligned = ground (arith, low_four a, low_four (16 - bit_and a 15))

pub align_offset_aligned : (a : ℕ) → a % 16 ≡ 0 → align_offset a ≡ 0
unfolding align_offset
align_offset_aligned a h = ground (arith, low_four a)

-- The payload that `chunk2mem` gives out begins `TWO_SIZE_T_SIZES` = 32 bytes behind the chunk.
-- For every request of 9 bytes or more (below `MAX_REQUEST`) it reaches past the first byte of
-- the header word of the chunk behind.
pub request2size-overlaps :
    (p bytes : ℕ)
    → 9 ≤ bytes
    → bytes < max_request
    → p + request2size bytes + head_at < chunk2mem p + bytes
unfolding request2size
request2size-overlaps p bytes low high = ground (arith, pad_request-div bytes)
