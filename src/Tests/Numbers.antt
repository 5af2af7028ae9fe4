-- ===== src/Tests/Numbers.antt =====
-- The bit tricks and the macros on sizes at concrete numbers.
use unimem.Base.{
  ℕ, ◌+◌, ◌%◌, ◌≤◌, ◌<◌, ◌≡◌, ◌≢◌, ◌↔◌, refl, arith, true, false, bit_and, if◌then◌else◌, ◌==◌,
}
use unimem.Word.{shr, shl32}
use unimem.Machine.{ok}
use unimem.Chunk.{malloc_alignment, align_offset, request2size, chunk2mem, head_at}
use unimem.Chunk.Sizes.{HasRoom, request2size_least, align_offset_least, request2size-overlaps}
use unimem.MallocState.Bitmap.{
  idx2bit, with_bit, without_bit, left_bits, least_bit, compute_bit2idx,
}
use unimem.MallocState.Bitmap.Marks.{has, has-with_bit, has-without_bit}
use unimem.MallocState.Bitmap.Least.{IsFirst, compute_bit2idx-least_bit}
use unimem.MallocState.Bitmap.Next.{
  IsNext, compute_bit2idx-IsNext_small, compute_bit2idx-IsNext_tree,
}
use unimem.MallocState.TreeIndex.{compute_tree_index}
use unimem.MallocState.TreeIndex.Ranges.{Holds, compute_tree_index-Holds}
use unimem.UniAllocator.{chunk_size_for}
use unimem.UniAllocator.Bump.{chunk_size_for-request2size}
use unimem.Tests.{fresh}

some_tree : bit_and (left_bits (idx2bit 4)) 0x441 ≢ 0
unfolding left_bits idx2bit
some_tree = omega arith

request2size_least_example :
    (request2size 100 % malloc_alignment ≡ 0) × (HasRoom 100 112 ↔ (request2size 100 ≤ 112))
request2size_least_example = request2size_least 100 112 (omega arith) refl

align_offset_least_example :
    ((37 + align_offset 37) % malloc_alignment ≡ 0) × (align_offset 37 ≤ 27)
align_offset_least_example = align_offset_least 37 27 refl

request2size-overlaps_example : 4096 + request2size 100 + head_at < chunk2mem 4096 + 100
request2size-overlaps_example = request2size-overlaps 4096 100 (omega arith) (omega arith)

chunk_size_for-request2size_example : chunk_size_for 100 ≡ request2size 100
chunk_size_for-request2size_example = chunk_size_for-request2size 100 (omega arith)

has-with_bit_example : has (with_bit 5 3) 3 ≡ (if 3 == 3 then true else has 5 3)
has-with_bit_example = has-with_bit 5 3 3 (omega arith)

has-without_bit_example : has (without_bit 5 2) 0 ≡ (if 2 == 0 then false else has 5 0)
has-without_bit_example = has-without_bit 5 2 0 (omega arith) (omega arith)

compute_bit2idx-least_bit_example :
    (i : ℕ) × (compute_bit2idx (least_bit 40) fresh ≡ ok i fresh) × (i < 32) × IsFirst 40 i
compute_bit2idx-least_bit_example = compute_bit2idx-least_bit 40 fresh (omega arith) (omega arith)

compute_bit2idx-IsNext_small_example :
    (i : ℕ) × (compute_bit2idx
        (least_bit (bit_and (shl32 (shr 0x441 4) 4) (left_bits (idx2bit 4))))
        fresh
      ≡ ok i fresh)
    × (i < 32)
    × IsNext 0x441 4 i
compute_bit2idx-IsNext_small_example =
    compute_bit2idx-IsNext_small 0x441 4 fresh (omega arith) (omega arith) refl (omega arith)

compute_bit2idx-IsNext_tree_example :
    (i : ℕ) × (compute_bit2idx (least_bit (bit_and (left_bits (idx2bit 4)) 0x441)) fresh
      ≡ ok i fresh)
    × (i < 32)
    × IsNext 0x441 4 i
compute_bit2idx-IsNext_tree_example =
    compute_bit2idx-IsNext_tree 0x441 4 fresh (omega arith) (omega arith) some_tree

compute_tree_index-Holds_example : Holds (compute_tree_index 1000) 1000
compute_tree_index-Holds_example = compute_tree_index-Holds 1000 (omega arith) (omega arith)
