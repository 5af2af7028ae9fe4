-- ===== src/MallocState/TreeIndex/Ranges.antt =====
-- The range of sizes that each tree holds.
use native.Mathlib.Nat.{div-mul-le_self, lt-div-mul-add, pow-le-pow_right}
use native.Mathlib.Decide.{dec_lt}
use native.Mathlib.Numerals.{towards_suc}
use unimem.Base.{
  ℕ, zero, suc, ◌+◌, ◌-◌, ◌*◌, ◌/◌, ◌%◌, ◌^◌, ◌<◌, ◌≤◌, ◌≡◌, refl, ap, ◌⊎◌, inl, inr, arith, ◌==◌,
  true, false, ltb, Bool-cases,
}
use unimem.Word.{shr, to_u32}
use unimem.Word.Bits.{two_pow}
use unimem.Word.Masks.{low_one}
use unimem.MallocState.TreeIndex.{bit_length, compute_tree_index}

-- The least size of the tree at `i`: two trees for each power of two from 256 on.
unfoldable pub least_size : ℕ → ℕ
least_size i = (2 + i % 2) * 2 ^ (i / 2 + 7)

bit_length-zero : (n : ℕ) → bit_length n 0 ≡ 0
unfolding bit_length
bit_length-zero zero = refl
bit_length-zero (suc n) = refl

-- `x` has `suc k` binary digits.
abbrev HasDigits : ℕ → ℕ → Type 0
HasDigits x k = (2 ^ k ≤ x) × (x < 2 ^ suc k)

bit_length_range :
    (n x : ℕ) → 0 < x → x < 2 ^ n → (k : ℕ) × (bit_length n x ≡ suc k) × HasDigits x k
unfolding bit_length
bit_length_range zero x pos h = absurd (omega arith)
bit_length_range (suc n) zero pos h = absurd (omega arith)
bit_length_range (suc n) (suc zero) pos h = (0, ground (arith, bit_length-zero n), omega arith)
bit_length_range (suc n) (suc (suc x)) pos h =
    let (k, e, has) =
      bit_length_range n (suc (suc x) / 2) (omega arith) (omega (arith, two_pow n)) in
    (suc k, ground arith, (omega (arith, two_pow k), omega (arith, two_pow (suc k))))

pow_seven : (k : ℕ) → 2 ^ (k + 7) ≡ 128 * 2 ^ k
pow_seven k = simp towards_suc (omega arith)

-- The digit below the highest of a number between `2 * m` and `4 * m`.
second_digit :
    (s m : ℕ) → 2 * m ≤ s → s < 4 * m → ((s / m ≡ 2) × (s < 3 * m)) ⊎ ((s / m ≡ 3) × (3 * m ≤ s))
second_digit s m low high = grind (arith, div-mul-le_self s m, lt-div-mul-add)

few_digits : (k x : ℕ) → HasDigits x k → x < 2 ^ 16 → k < 16
few_digits k x has h = elim (dec_lt k 16) [
  | yes few ↦ few
  | no many ↦
      absurd (omega (arith, pow-le-pow_right {n = 2} (omega arith) {i = 16} {j = k} (omega arith)))
]

-- With `k + 9` binary digits the index is `2 * k`, and one more in the upper half.
tree_of_digits :
    (s k : ℕ)
    → 2 ^ 8 ≤ s
    → s < 2 ^ 24
    → bit_length 32 (s / 2 ^ 8) ≡ suc k
    → k < 16
    → compute_tree_index s ≡ k * 2 + s / 2 ^ (k + 7) % 2
unfolding compute_tree_index
tree_of_digits s k low h e few =
    let x : to_u32 (shr s 8) ≡ s / 2 ^ 8 = omega arith in
    rw (x, e)
      (ground (
        arith,
        low_one (s / 2 ^ (31 - (32 - suc k) + 7)),
        ap (λ (t : ℕ). s / 2 ^ (t + 7) % 2) (same k few),
      ))
  where
    same : (k : ℕ) → k < 16 → 31 - (32 - suc k) ≡ k
    same k few = omega arith

least_size-even : (k : ℕ) → least_size (k * 2) ≡ 256 * 2 ^ k
unfolding least_size
least_size-even k =
    let low : k * 2 % 2 ≡ 0 = omega arith in
    let half : k * 2 / 2 ≡ k = omega arith in rw (low, half, pow_seven k) (omega arith)

least_size-odd : (k : ℕ) → least_size (k * 2 + 1) ≡ 384 * 2 ^ k
unfolding least_size
least_size-odd k =
    let low : (k * 2 + 1) % 2 ≡ 1 = omega arith in
    let half : (k * 2 + 1) / 2 ≡ k = omega arith in rw (low, half, pow_seven k) (omega arith)

-- The tree `i` holds the size `s`: not below the least of the tree, and, but for the last tree,
-- below the least of the next one.
abbrev pub Holds : ℕ → ℕ → Type 0
Holds i s = (i < 32) × (least_size i ≤ s) × ((i ≡ 31) ⊎ (s < least_size (i + 1)))

Holds-digits : (s k : ℕ) → HasDigits (s / 2 ^ 8) k → k < 16 → Holds (k * 2 + s / 2 ^ (k + 7) % 2) s
Holds-digits s k has few =
    elim (second_digit s (2 ^ (k + 7)) (omega (arith, pow_seven k))
      (omega (arith, pow_seven k, two_pow k))) [
        | inl (d, below) ↦
            let e : k * 2 + s / 2 ^ (k + 7) % 2 ≡ k * 2 = omega arith in
            rw e (omega (arith, least_size-even k, least_size-odd k, pow_seven k))
        | inr (d, above) ↦
            let e : k * 2 + s / 2 ^ (k + 7) % 2 ≡ k * 2 + 1 = omega arith in
            let next : k * 2 + 1 + 1 ≡ suc k * 2 = omega arith in
            rw e (
              omega (
                arith,
                least_size-odd k,
                ap least_size next,
                least_size-even (suc k),
                two_pow k,
                pow_seven k,
              ))
      ]

large_tests : (x : ℕ) → 2 ^ 16 ≤ x → ((x == 0) ≡ false) × (ltb 0xFFFF x ≡ true)
large_tests x h = (ground arith, ground arith)

last_tree : (s : ℕ) → 2 ^ 24 ≤ s → s < 2 ^ 40 → compute_tree_index s ≡ 31
unfolding compute_tree_index
last_tree s low high =
    let x : to_u32 (shr s 8) ≡ s / 2 ^ 8 = omega arith in
    let (positive, large) = large_tests (s / 2 ^ 8) (omega arith) in rw (x, positive, large)

-- From 256 to below 2 ^ 40, the tree that `compute_tree_index` gives holds the size.
pub compute_tree_index-Holds : (s : ℕ) → 2 ^ 8 ≤ s → s < 2 ^ 40 → Holds (compute_tree_index s) s
compute_tree_index-Holds s low high = elim (dec_lt s (2 ^ 24)) [
  | yes h ↦
      let (k, e, has) = bit_length_range 32 (s / 2 ^ 8) (omega arith) (omega arith) in
      let few = few_digits k (s / 2 ^ 8) has (omega arith) in
      rw (tree_of_digits s k low h e few) (Holds-digits s k has few)
  | no h ↦ rw (last_tree s (omega arith) high) (unfold least_size in omega arith)
]

-- Every size has a tree, those included whose high bits are lost.
pub compute_tree_index-lt : (s : ℕ) → compute_tree_index s < 32
unfolding compute_tree_index
compute_tree_index-lt s =
    let x = to_u32 (shr s 8) in
    elim (Bool-cases (x == 0)) [
      | inl e ↦ rw e (omega arith)
      | inr e ↦ elim (Bool-cases (ltb 0xFFFF x)) [
        | inl e' ↦ rw (e, e') (omega arith)
        | inr e' ↦
            let pos : 0 < x = ground (arith, e) in
            let (k, digits, has) = bit_length_range 32 x pos (omega arith) in
            let few = few_digits k x has (ground (arith, e')) in
            rw (digits, e, e') (omega (arith, few, low_one (shr s (31 - (32 - suc k) + 7))))
      ]
    ]
