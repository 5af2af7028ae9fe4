-- ===== src/MallocState/Bitmap/Marks.antt =====
-- The bitmaps as sets of bins: marking, clearing and testing one bin.
use unimem.Base.{
  ℕ, ◌-◌, ◌^◌, ◌<◌, bit_and, ◌≡◌, ap, arith, Bool, ◌==◌, if◌then◌else◌, true, false, not,
}
use unimem.Word.{shl32, not32}
use unimem.Word.Bits.{
  bit, bit-le-one, two_pow, two_pow_lt, bit-bit_and, bit-bit_or, bit-two_pow, bit-complement,
  bit-of_lt, bit_and-two_pow, bit_and-lt, bit_or-lt,
}
use unimem.MallocState.Bitmap.{idx2bit, with_bit, without_bit, is_marked}

-- `i` is in the set that `map` stands for.
abbrev pub has : ℕ → ℕ → Bool
has map i = bit map i == 1

pub idx2bit-two_pow : (i : ℕ) → i < 32 → idx2bit i ≡ 2 ^ i
unfolding idx2bit shl32
idx2bit-two_pow i h = omega (arith, two_pow_lt i 32 h)

-- For a bin `i` below 32, `mark_…map(i)` adds it to the set and changes no other.
pub has-with_bit :
    (map i j : ℕ) → i < 32 → has (with_bit map i) j ≡ (if i == j then true else has map j)
unfolding with_bit
has-with_bit map i j h = ground (
  arith,
  bit-bit_or map (idx2bit i) j,
  ap (λ t. bit t j) (idx2bit-two_pow i h),
  bit-two_pow i j,
  bit-le-one map j,
)

-- For a bitmap of 32 bits and a bin `i` below 32, `clear_…map(i)` removes the bin and changes no
-- other.
pub has-without_bit :
    (map i j : ℕ)
    → map < 2 ^ 32
    → i < 32
    → has (without_bit map i) j ≡ (if i == j then false else has map j)
unfolding without_bit
has-without_bit map i j small h = ground (
  arith,
  bit-bit_and map (not32 (idx2bit i)) j,
  ap (λ (t : ℕ). bit (2 ^ 32 - 1 - t) j) (idx2bit-two_pow i h),
  bit-complement 32 (2 ^ i) j (two_pow_lt i 32 h),
  bit-two_pow i j,
  bit-le-one map j,
  bit-of_lt 32 map j small,
)

-- `…map_is_marked(i)` is nonzero exactly if the bin `i` is in the set.
pub has-is_marked : (map i : ℕ) → i < 32 → (is_marked map i == 0) ≡ not (has map i)
unfolding is_marked
has-is_marked map i h = ground (
  arith,
  ap (λ (t : ℕ). bit_and map t) (idx2bit-two_pow i h),
  bit_and-two_pow map i,
  two_pow i,
  bit-le-one map i,
)

pub with_bit-lt : (map i : ℕ) → map < 2 ^ 32 → i < 32 → with_bit map i < 2 ^ 32
unfolding with_bit
with_bit-lt map i small h =
    rw (idx2bit-two_pow i h) (bit_or-lt 32 map (2 ^ i) small (two_pow_lt i 32 h))

pub without_bit-lt : (map i : ℕ) → map < 2 ^ 32 → without_bit map i < 2 ^ 32
unfolding without_bit
without_bit-lt map i small = bit_and-lt 32 map (not32 (idx2bit i)) small
