-- ===== src/Word/Bits.antt =====
-- The binary digits of the results of `&`, `|`, `~` and of powers of two.
use native.Mathlib.Nat.{pow-suc, one-le-pow}
use Prim.Native.Nat.{bit_and-bitwise, bit_or-bitwise}
use unimem.Base.{
  ℕ, zero, suc, ◌-◌, ◌*◌, ◌/◌, ◌%◌, ◌^◌, ◌≤◌, ◌<◌, min, max, bit_and, bit_or, ◌≡◌, refl, ap, ◌∙◌,
  arith, ◌==◌, ltb, leb, ◌&&◌, if◌then◌else◌,
}
use unimem.Word.Digits.{bit_and_digit, bit_or_digit}

-- The binary digit of `x` at `j`.
abbrev pub bit : ℕ → ℕ → ℕ
bit x zero = x % 2
bit x (suc j) = bit (x / 2) j

pub bit-le-one : (x j : ℕ) → bit x j ≤ 1
bit-le-one x zero = omega arith
bit-le-one x (suc j) = bit-le-one (x / 2) j

-- A power of two, and its double.
pub two_pow : (k : ℕ) → (2 ^ suc k ≡ 2 ^ k * 2) × (1 ≤ 2 ^ k)
two_pow k = (pow-suc 2 k, one-le-pow k 2 (omega arith))

pub two_pow_lt : (i w : ℕ) → i < w → 2 ^ i < 2 ^ w
two_pow_lt i zero h = absurd (omega arith)
two_pow_lt zero (suc w) h = omega (arith, two_pow w)
two_pow_lt (suc i) (suc w) h = omega (arith, two_pow i, two_pow w, two_pow_lt i w (omega arith))

pub bit-bit_and : (a b j : ℕ) → bit (bit_and a b) j ≡ min (bit a j) (bit b j)
bit-bit_and a b zero = omega (arith, bit_and_digit a b)
bit-bit_and a b (suc j) = ap (λ t. bit t j) (halved a b) ∙ bit-bit_and (a / 2) (b / 2) j
  where
    halved : (a b : ℕ) → bit_and a b / 2 ≡ bit_and (a / 2) (b / 2)
    halved a b = omega (arith, bit_and_digit a b)

pub bit-bit_or : (a b j : ℕ) → bit (bit_or a b) j ≡ max (bit a j) (bit b j)
bit-bit_or a b zero = omega (arith, bit_or_digit a b)
bit-bit_or a b (suc j) = ap (λ t. bit t j) (halved a b) ∙ bit-bit_or (a / 2) (b / 2) j
  where
    halved : (a b : ℕ) → bit_or a b / 2 ≡ bit_or (a / 2) (b / 2)
    halved a b = omega (arith, bit_or_digit a b)

pub bit_zero : (j : ℕ) → bit 0 j ≡ 0
bit_zero zero = refl
bit_zero (suc j) = bit_zero j

pub bit-two_pow : (i j : ℕ) → bit (2 ^ i) j ≡ (if i == j then 1 else 0)
bit-two_pow zero zero = refl
bit-two_pow zero (suc j) = bit_zero j ∙ ground arith
bit-two_pow (suc i) zero = ground (arith, two_pow i)
bit-two_pow (suc i) (suc j) =
    ap (λ t. bit t j) (omega (arith, two_pow i)) ∙ bit-two_pow i j ∙ ground arith

pub bit-complement :
    (w x j : ℕ) → x < 2 ^ w → bit (2 ^ w - 1 - x) j ≡ (if ltb j w then 1 - bit x j else 0)
bit-complement zero x j h = ap (λ t. bit t j) (omega arith) ∙ bit_zero j ∙ ground arith
bit-complement (suc w) x zero h = ground (arith, two_pow w)
bit-complement (suc w) x (suc j) h =
    ap (λ t. bit t j) (omega (arith, two_pow w))
    ∙ bit-complement w (x / 2) j (omega (arith, two_pow w))
    ∙ ground arith

pub bit-of_lt : (w x j : ℕ) → x < 2 ^ w → w ≤ j → bit x j ≡ 0
bit-of_lt zero x j h le = ap (λ t. bit t j) (omega arith) ∙ bit_zero j
bit-of_lt (suc w) x zero h le = absurd (omega arith)
bit-of_lt (suc w) x (suc j) h le = bit-of_lt w (x / 2) j (omega (arith, two_pow w)) (omega arith)

-- `-2 ^ k` on `w` bits has all its digits from `k` on.
pub bit-neg_two_pow :
    (w k j : ℕ) → k ≤ w → bit (2 ^ w - 2 ^ k) j ≡ (if leb k j && ltb j w then 1 else 0)
bit-neg_two_pow w zero j h =
    ap (λ t. bit t j) (omega arith)
    ∙ bit-complement w 0 j (omega (arith, two_pow w))
    ∙ ground (arith, bit_zero j)
bit-neg_two_pow zero (suc k) j h = absurd (omega arith)
bit-neg_two_pow (suc w) (suc k) zero h = ground (arith, two_pow w, two_pow k)
bit-neg_two_pow (suc w) (suc k) (suc j) h =
    ap (λ t. bit t j) (omega (arith, two_pow w, two_pow k))
    ∙ bit-neg_two_pow w k j (omega arith)
    ∙ ground arith

bit_and_nil : (n y : ℕ) → y ≤ n → bit_and y 0 ≡ 0
bit_and_nil n zero h = refl
bit_and_nil zero (suc y) h = absurd (omega arith)
bit_and_nil (suc n) (suc y) h =
    omega (arith, bit_and_digit (suc y) 0, bit_and_nil n (suc y / 2) (omega arith))

pub bit_and-zero : (y : ℕ) → bit_and y 0 ≡ 0
bit_and-zero y = bit_and_nil y y (omega arith)

-- `&` with a single bit.
pub bit_and-two_pow : (x i : ℕ) → bit_and x (2 ^ i) ≡ bit x i * 2 ^ i
bit_and-two_pow x zero = omega (arith, bit_and_digit x 1, bit_and-zero (x / 2))
bit_and-two_pow x (suc i) =
    let halved : 2 ^ suc i / 2 ≡ 2 ^ i = omega (arith, two_pow i) in
    let lower : bit_and (x / 2) (2 ^ suc i / 2) ≡ bit (x / 2) i * 2 ^ i =
      ap (λ t. bit_and (x / 2) t) halved ∙ bit_and-two_pow (x / 2) i in
    omega (
      arith,
      bit_and_digit x (2 ^ suc i),
      two_pow i,
      lower,
      ap (λ (t : ℕ). bit (x / 2) i * t) (pow-suc 2 i),
    )

-- The results stay on the width of the operands.
pub bit_and-lt : (w a b : ℕ) → a < 2 ^ w → bit_and a b < 2 ^ w
bit_and-lt zero zero b h = omega (arith, bit_and-bitwise 0 b)
bit_and-lt zero (suc a) b h = absurd (omega arith)
bit_and-lt (suc w) a b h =
    omega
      (arith, two_pow w, bit_and_digit a b, bit_and-lt w (a / 2) (b / 2) (omega (arith, two_pow w)))

pub bit_and-lt_right : (w a b : ℕ) → b < 2 ^ w → bit_and a b < 2 ^ w
bit_and-lt_right zero a zero h = omega (arith, bit_and-zero a)
bit_and-lt_right zero a (suc b) h = absurd (omega arith)
bit_and-lt_right (suc w) a b h = omega (
  arith,
  two_pow w,
  bit_and_digit a b,
  bit_and-lt_right w (a / 2) (b / 2) (omega (arith, two_pow w)),
)

pub bit_or-lt : (w a b : ℕ) → a < 2 ^ w → b < 2 ^ w → bit_or a b < 2 ^ w
bit_or-lt zero zero b h k = omega (arith, bit_or-bitwise 0 b)
bit_or-lt zero (suc a) b h k = absurd (omega arith)
bit_or-lt (suc w) a b h k = omega (
  arith,
  two_pow w,
  bit_or_digit a b,
  bit_or-lt w (a / 2) (b / 2) (omega (arith, two_pow w)) (omega (arith, two_pow w)),
)
