-- ===== src/MallocState/Bitmap.antt =====
-- The two bitmaps of bins, and the bit tricks on `binmap_t` (32 bits).
pub mod Marks
pub mod Least
pub mod Next
use unimem.Base.{ℕ, zero, suc, ◌/◌, ◌%◌, bit_and, bit_or, ◌==◌, if◌then◌else◌}
use unimem.Word.{shl32, neg32, not32}
use unimem.Machine.{Cmd, Action, fault, pure, gets, modify}

abbrev pub nsmallbins : ℕ
nsmallbins = 32

abbrev pub ntreebins : ℕ
ntreebins = 32

unfoldable pub idx2bit : ℕ → ℕ
unfolding shl32
idx2bit i = shl32 1 i

-- `smallmap |= idx2bit(i)` and the like, as functions of the map.
unfoldable pub with_bit : ℕ → ℕ → ℕ
with_bit map i = bit_or map (idx2bit i)

unfoldable pub without_bit : ℕ → ℕ → ℕ
without_bit map i = bit_and map (not32 (idx2bit i))

unfoldable pub is_marked : ℕ → ℕ → ℕ
is_marked map i = bit_and map (idx2bit i)

unfoldable pub mark_smallmap : ℕ → Action
mark_smallmap i = modify λ s. record s { smallmap = with_bit s.smallmap i }

unfoldable pub clear_smallmap : ℕ → Action
clear_smallmap i = modify λ s. record s { smallmap = without_bit s.smallmap i }

unfoldable pub smallmap_is_marked : ℕ → Cmd ℕ
smallmap_is_marked i = gets λ s. is_marked s.smallmap i

unfoldable pub mark_treemap : ℕ → Action
mark_treemap i = modify λ s. record s { treemap = with_bit s.treemap i }

unfoldable pub clear_treemap : ℕ → Action
clear_treemap i = modify λ s. record s { treemap = without_bit s.treemap i }

unfoldable pub treemap_is_marked : ℕ → Cmd ℕ
treemap_is_marked i = gets λ s. is_marked s.treemap i

-- Isolate the least set bit of a bitmap.
unfoldable pub least_bit : ℕ → ℕ
unfolding neg32
least_bit x = bit_and x (neg32 x)

-- Mask with all bits to the left of the least bit of `x` on.
unfoldable pub left_bits : ℕ → ℕ
unfolding neg32 shl32
left_bits x = bit_or (shl32 x 1) (neg32 (shl32 x 1))

-- The number of trailing zeros among the lowest `n` bits.
unfoldable pub trailing_zeros : ℕ → ℕ → ℕ
trailing_zeros zero x = 0
trailing_zeros (suc n) x = let rest = trailing_zeros n (x / 2) in if x % 2 == 0 then suc rest else 0

-- `__builtin_ctz`, which is undefined at 0.
unfoldable pub compute_bit2idx : ℕ → Cmd ℕ
unfolding trailing_zeros
compute_bit2idx x = if x == 0 then (λ s. fault) else pure (trailing_zeros 32 x)
