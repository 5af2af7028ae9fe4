-- ===== src/MallocState/Bitmap/Least.antt =====
-- `least_bit`, `left_bits` and `compute_bit2idx`: the search for the first marked bin.
use unimem.Base.{
  ℕ, zero, suc, ◌-◌, ◌*◌, ◌/◌, ◌%◌, ◌^◌, ◌<◌, bit_and, ◌≡◌, ap, arith, ◌⊎◌, inl, inr, true, false,
}
use unimem.Word.{neg32}
use unimem.Word.Digits.{bit_and_digit}
use unimem.Word.Bits.{bit, two_pow}
use unimem.Machine.{State, ok}
use unimem.MallocState.Bitmap.{least_bit, trailing_zeros, compute_bit2idx}
use unimem.MallocState.Bitmap.Marks.{has}

-- `i` is the first bin of the set `map`.
pub record IsFirst (map i : ℕ) : Type 0 where
  pub marked : has map i ≡ true
  pub first : (j : ℕ) → j < i → has map j ≡ false

-- `x & -x` on `w` bits.
abbrev lowest : ℕ → ℕ → ℕ
lowest w x = bit_and x (2 ^ w - x)

even_step : (w x : ℕ) → x < 2 ^ suc w → x % 2 ≡ 0 → lowest (suc w) x ≡ lowest w (x / 2) * 2
even_step w x h even =
    let halved : (2 ^ suc w - x) / 2 ≡ 2 ^ w - x / 2 = omega (arith, two_pow w) in
    omega (arith, bit_and_digit x (2 ^ suc w - x), ap (λ t. bit_and (x / 2) t) halved)

odd_step : (w x : ℕ) → x < 2 ^ suc w → x % 2 ≡ 1 → lowest (suc w) x % 2 ≡ 1
odd_step w x h odd = omega (arith, bit_and_digit x (2 ^ suc w - x), two_pow w)

-- The number of zeros below the lowest one of `x`.
abbrev zeros : ℕ → ℕ → ℕ
zeros w x = trailing_zeros w (lowest w x)

zeros-even : (w x : ℕ) → x < 2 ^ suc w → x % 2 ≡ 0 → zeros (suc w) x ≡ suc (zeros w (x / 2))
unfolding trailing_zeros
zeros-even w x h even = rw (even_step w x h even) (ground (arith, halves (lowest w (x / 2))))
  where
    halves : (y : ℕ) → trailing_zeros w (y * 2 / 2) ≡ trailing_zeros w y
    halves y = ap (trailing_zeros w) (omega arith)

zeros-odd : (w x : ℕ) → x < 2 ^ suc w → x % 2 ≡ 1 → zeros (suc w) x ≡ 0
unfolding trailing_zeros
zeros-odd w x h odd = ground (arith, odd_step w x h odd)

module _ where
  lowest-pos : (w x : ℕ) → 0 < x → x < 2 ^ w → 0 < lowest w x
  lowest-pos zero x pos h = absurd (omega arith)
  lowest-pos (suc w) x pos h =
      ground (arith, two_pow w, even_step w x h, odd_step w x h, lowest-pos w (x / 2))

  zeros-lt : (w x : ℕ) → 0 < x → x < 2 ^ w → zeros w x < w
  zeros-lt zero x pos h = absurd (omega arith)
  zeros-lt (suc w) x pos h =
      ground (arith, two_pow w, zeros-even w x h, zeros-odd w x h, zeros-lt w (x / 2))

  bit-zeros : (w x : ℕ) → 0 < x → x < 2 ^ w → bit x (zeros w x) ≡ 1
  bit-zeros zero x pos h = absurd (omega arith)
  bit-zeros (suc w) x pos h = elim (parity x) [
    | inl even ↦
        rw (zeros-even w x h even) (bit-zeros w (x / 2) (omega arith) (omega (arith, two_pow w)))
    | inr odd ↦ rw (zeros-odd w x h odd) odd
  ]
    where
      parity : (x : ℕ) → (x % 2 ≡ 0) ⊎ (x % 2 ≡ 1)
      parity x = omega arith

  bit-lt_zeros : (w x j : ℕ) → 0 < x → x < 2 ^ w → j < zeros w x → bit x j ≡ 0
  bit-lt_zeros zero x j pos h lt = absurd (omega arith)
  bit-lt_zeros (suc w) x zero pos h lt = ground (arith, zeros-odd w x h)
  bit-lt_zeros (suc w) x (suc j) pos h lt =
      ground (arith, two_pow w, zeros-even w x h, zeros-odd w x h, bit-lt_zeros w (x / 2) j)

-- For a bitmap of 32 bits that is not empty, `compute_bit2idx(least_bit(x))` returns its first
-- bin.
pub compute_bit2idx-least_bit :
    (x : ℕ) (s : State)
    → 0 < x
    → x < 2 ^ 32
    → (i : ℕ) × (compute_bit2idx (least_bit x) s ≡ ok i s) × (i < 32) × IsFirst x i
unfolding compute_bit2idx least_bit
compute_bit2idx-least_bit x s pos h =
    let e : neg32 x ≡ 2 ^ 32 - x = unfold neg32 in omega arith in
    (
      zeros 32 x,
      rw e (ground (arith, lowest-pos 32 x pos h)),
      zeros-lt 32 x pos h,
      record {
        marked = ground (arith, bit-zeros 32 x pos h);
        first = λ j lt. ground (arith, bit-lt_zeros 32 x j pos h lt);
      },
    )
