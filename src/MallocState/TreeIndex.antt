-- ===== src/MallocState/TreeIndex.antt =====
-- The index of the tree that holds the chunks of a size.
pub mod Ranges
use unimem.Base.{ℕ, zero, suc, ◌+◌, ◌-◌, ◌*◌, ◌/◌, bit_and, ◌==◌, ltb, if◌then◌else◌}
use unimem.Word.{shr, to_u32}
use unimem.Chunk.{size_t_bitsize}
use unimem.MallocState.Bitmap.{ntreebins}
use unimem.MallocState.SmallBins.{treebin_shift}

-- The number of binary digits, for a number of at most `n` of them.
unfoldable pub bit_length : ℕ → ℕ → ℕ
bit_length zero x = 0
bit_length (suc n) x = let rest = bit_length n (x / 2) in if x == 0 then 0 else suc rest

-- `__builtin_clz` on `unsigned int`, undefined at 0, where it is not called.
unfoldable pub clz : ℕ → ℕ
unfolding bit_length
clz x = 32 - bit_length 32 x

-- `X` is an `unsigned int`: sizes from 2 ^ 40 lose their high bits.
unfoldable pub compute_tree_index : ℕ → ℕ
unfolding clz
compute_tree_index s =
    let x = to_u32 (shr s treebin_shift) in
    let k = 32 - 1 - clz x in
    if x == 0
    then 0
    else if ltb 0xFFFF x
    then ntreebins - 1
    else to_u32 (k * 2 + bit_and (shr s (k + (treebin_shift - 1))) 1)

-- The shift that places the maximum resolved bit in the tree at `i` as the sign bit.
unfoldable pub leftshift_for_tree_index : ℕ → ℕ
leftshift_for_tree_index i =
    if i == ntreebins - 1 then 0 else size_t_bitsize - 1 - (shr i 1 + treebin_shift - 2)
