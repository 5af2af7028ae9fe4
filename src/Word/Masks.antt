-- ===== src/Word/Masks.antt =====
-- The masks of header words and of padded sizes, as arithmetic.
use unimem.Base.{
  ℕ, zero, suc, ◌+◌, ◌-◌, ◌*◌, ◌/◌, ◌%◌, ◌^◌, ◌≤◌, ◌<◌, bit_and, bit_or, ◌≡◌, refl, ap, ◌∙◌, arith,
}
use unimem.Word.{not64}
use unimem.Word.Digits.{bit_and_digit, bit_or_digit}
use unimem.Word.Bits.{bit_and-zero, two_pow}

bit_or_nil : (n y : ℕ) → y ≤ n → bit_or y 0 ≡ y
bit_or_nil n zero h = refl
bit_or_nil zero (suc y) h = absurd (omega arith)
bit_or_nil (suc n) (suc y) h =
    omega (arith, bit_or_digit (suc y) 0, bit_or_nil n (suc y / 2) (omega arith))

pub bit_or-zero : (y : ℕ) → bit_or y 0 ≡ y
bit_or-zero y = bit_or_nil y y (omega arith)

-- A mask of ones changes nothing below it.
bit_and_ones : (k x : ℕ) → x < 2 ^ k → bit_and x (2 ^ k - 1) ≡ x
bit_and_ones zero x h = omega (arith, bit_and-zero x)
bit_and_ones (suc k) x h =
    let halved : (2 ^ suc k - 1) / 2 ≡ 2 ^ k - 1 = omega (arith, two_pow k) in
    let lower : bit_and (x / 2) ((2 ^ suc k - 1) / 2) ≡ x / 2 =
      ap (λ t. bit_and (x / 2) t) halved ∙ bit_and_ones k (x / 2) (omega (arith, two_pow k)) in
    omega (arith, bit_and_digit x (2 ^ suc k - 1), two_pow k, lower)

-- `x & ~7`, `x & ~15` and `x & ~1`.
pub clear_three : (x : ℕ) → x < 2 ^ 64 → bit_and x (not64 7) ≡ x / 8 * 8
clear_three x h = omega (
  arith,
  bit_and_digit x (not64 7),
  bit_and_digit (x / 2) (not64 7 / 2),
  bit_and_digit (x / 2 / 2) (not64 7 / 4),
  bit_and_ones 61 (x / 2 / 2 / 2) (omega arith),
)

pub clear_four : (x : ℕ) → x < 2 ^ 64 → bit_and x (not64 15) ≡ x / 16 * 16
clear_four x h = omega (
  arith,
  bit_and_digit x (not64 15),
  bit_and_digit (x / 2) (not64 15 / 2),
  bit_and_digit (x / 2 / 2) (not64 15 / 4),
  bit_and_digit (x / 2 / 2 / 2) (not64 15 / 8),
  bit_and_ones 60 (x / 2 / 2 / 2 / 2) (omega arith),
)

pub clear_one : (x : ℕ) → x < 2 ^ 64 → bit_and x (not64 1) ≡ x / 2 * 2
clear_one x h = omega (arith, bit_and_digit x (not64 1), bit_and_ones 63 (x / 2) (omega arith))

-- The low digits.
pub low_one : (x : ℕ) → bit_and x 1 ≡ x % 2
low_one x = omega (arith, bit_and_digit x 1, bit_and-zero (x / 2))

pub second_one : (x : ℕ) → bit_and x 2 ≡ x / 2 % 2 * 2
second_one x = omega (arith, bit_and_digit x 2, low_one (x / 2))

pub low_two : (x : ℕ) → bit_and x 3 ≡ x % 4
low_two x = omega (arith, bit_and_digit x 3, low_one (x / 2))

pub third_one : (x : ℕ) → bit_and x 4 ≡ x / 4 % 2 * 4
third_one x = omega (arith, bit_and_digit x 4, second_one (x / 2))

pub low_four : (x : ℕ) → bit_and x 15 ≡ x % 16
low_four x = omega (arith, bit_and_digit x 15, bit_and_digit (x / 2) 7, low_two (x / 2 / 2))

-- The flags set.
pub set_one : (x : ℕ) → bit_or x 1 ≡ x / 2 * 2 + 1
set_one x = omega (arith, bit_or_digit x 1, bit_or-zero (x / 2))

pub set_second : (x : ℕ) → bit_or x 2 ≡ x / 4 * 4 + 2 + x % 2
set_second x = omega (arith, bit_or_digit x 2, set_one (x / 2))

pub ruleset masks = (
  arith, clear_three, clear_four, clear_one, low_one, second_one, low_two, third_one, low_four,
  set_one, set_second,
)
