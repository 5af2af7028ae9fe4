-- ===== src/MallocState/Bitmap/Next.antt =====
-- The search for the first marked bin behind a given one, as `Alloc` does it in `smallmap` and
-- `tmalloc_large` in `treemap`.
use native.Mathlib.Nat.{pow-suc, div-div-eq-div-mul, div-mul-le_self, div-le_self}
use unimem.Base.{
  ℕ, zero, suc, ◌+◌, ◌-◌, ◌*◌, ◌/◌, ◌%◌, ◌^◌, ◌<◌, ◌≤◌, bit_and, ◌≡◌, ◌≢◌, refl, ap, ap₂, ◌∙◌, sym,
  arith, ◌⊎◌, inl, inr, if◌then◌else◌, true, false, ltb, ◌&&◌,
}
use unimem.Word.{neg32, shl32, shr}
use unimem.Word.Masks.{low_two}
use unimem.Word.Bits.{
  bit, bit-le-one, bit_zero, bit_and-lt, bit_and-lt_right, two_pow, two_pow_lt, bit-bit_and,
  bit-bit_or, bit-two_pow, bit-neg_two_pow, bit-of_lt,
}
use unimem.Machine.{State, ok}
use unimem.MallocState.Bitmap.{idx2bit, least_bit, left_bits, compute_bit2idx}
use unimem.MallocState.Bitmap.Marks.{has, idx2bit-two_pow}
use unimem.MallocState.Bitmap.Least.{compute_bit2idx-least_bit}

doubled : (i : ℕ) → i < 31 → shl32 (2 ^ i) 1 ≡ 2 ^ suc i
unfolding shl32
doubled i h = omega (arith, two_pow i, two_pow_lt (suc i) 32 (omega arith))

left_bits_inner :
    (i j : ℕ) → i < 31 → bit (left_bits (2 ^ i)) j ≡ (if ltb i j && ltb j 32 then 1 else 0)
unfolding left_bits
left_bits_inner i j h =
    let small : 2 ^ suc i < 2 ^ 32 = two_pow_lt (suc i) 32 (omega arith) in
    let negated : neg32 (2 ^ suc i) ≡ 2 ^ 32 - 2 ^ suc i =
      unfold neg32 in omega (arith, two_pow (suc i)) in
    rw
      (
        doubled i h,
        negated,
        bit-bit_or,
        bit-two_pow (suc i) j,
        bit-neg_two_pow 32 (suc i) j (omega arith),
      )
      (ground arith)

left_bits_last : (j : ℕ) → bit (left_bits (2 ^ 31)) j ≡ (if ltb 31 j && ltb j 32 then 1 else 0)
unfolding left_bits shl32 neg32
left_bits_last j = bit_zero j ∙ ground arith

-- For a bin `i` below 32, `left_bits(idx2bit(i))` are the bins behind `i`, up to 31.
pub bit-left_bits :
    (i j : ℕ) → i < 32 → bit (left_bits (idx2bit i)) j ≡ (if ltb i j && ltb j 32 then 1 else 0)
bit-left_bits i j h = ap (λ t. bit (left_bits t) j) (idx2bit-two_pow i h) ∙ elim (last_or_not i h) [
  | inl inner ↦ left_bits_inner i j inner
  | inr last ↦ rw last (left_bits_last j)
]
  where
    last_or_not : (i : ℕ) → i < 32 → (i < 31) ⊎ (i ≡ 31)
    last_or_not i h = omega arith

-- `i` is the first bin of `map` behind `idx`.
pub record IsNext (map idx i : ℕ) : Type 0 where
  pub behind : idx < i
  pub marked : has map i ≡ true
  pub first : (j : ℕ) → idx < j → j < i → has map j ≡ false

half_of_shr : (x k : ℕ) → x / 2 / 2 ^ k ≡ x / 2 ^ suc k
half_of_shr x k = div-div-eq-div-mul x 2 (2 ^ k) ∙ ap (λ (t : ℕ). x / t) (omega (arith, two_pow k))

bit_eq : (x y i j : ℕ) → x ≡ y → i ≡ j → bit x i ≡ bit y j
bit_eq x y i j p q = ap₂ bit p q

pub bit-shr : (x k j : ℕ) → bit (x / 2 ^ k) j ≡ bit x (k + j)
bit-shr x zero j = bit_eq (x / 1) x j (0 + j) (omega arith) (omega arith)
bit-shr x (suc k) j =
    ap (λ t. bit t j) (sym (half_of_shr x k))
    ∙ bit-shr (x / 2) k j
    ∙ bit_eq x x (suc (k + j)) (suc k + j) refl (omega arith)

bit-shl : (x k j : ℕ) → k ≤ j → bit (x * 2 ^ k) j ≡ bit x (j - k)
bit-shl x zero j h = bit_eq (x * 1) x j (j - 0) (omega arith) (omega arith)
bit-shl x (suc k) zero h = absurd (omega arith)
bit-shl x (suc k) (suc j) h =
    bit_eq (x * 2 ^ suc k / 2) (x * 2 ^ k) j j (omega (arith, ap (λ (t : ℕ). x * t) (pow-suc 2 k)))
      refl
    ∙ bit-shl x k j (omega arith)
    ∙ bit_eq x x (j - k) (suc j - suc k) refl (omega arith)

-- `(map >> k) << k` has the bins of `map` from `k` on.
cut_below : (map k j : ℕ) → map < 2 ^ 32 → k ≤ j → bit (shl32 (shr map k) k) j ≡ bit map j
unfolding shl32
cut_below map k j small h =
    let fits : map / 2 ^ k * 2 ^ k < 2 ^ 32 = omega (arith, div-mul-le_self map (2 ^ k)) in
    bit_eq (map / 2 ^ k * 2 ^ k % 2 ^ 32) (map / 2 ^ k * 2 ^ k) j j (omega arith) refl
    ∙ bit-shl (map / 2 ^ k) k j h
    ∙ bit-shr map k (j - k)
    ∙ bit_eq map map (k + (j - k)) j refl (omega arith)

-- A bitmap that holds the bins of `map` behind `idx`, and no other.
abbrev Behind : ℕ → ℕ → ℕ → Type 0
Behind map idx left = (j : ℕ) → bit left j ≡ (if ltb idx j then bit map j else 0)

compute_bit2idx-IsNext :
    (map idx left : ℕ) (s : State)
    → left < 2 ^ 32
    → 0 < left
    → Behind map idx left
    → (i : ℕ) × (compute_bit2idx (least_bit left) s ≡ ok i s) × (i < 32) × IsNext map idx i
compute_bit2idx-IsNext map idx left s small pos is =
    let (i, runs, below, f) = compute_bit2idx-least_bit left s pos small in
    (
      i,
      runs,
      below,
      record {
        behind = ground (arith, is i, f.marked);
        marked = ground (arith, is i, f.marked);
        first = λ j after before. ground (arith, is j, f.first j);
      },
    )

small-Behind :
    (map idx : ℕ)
    → map < 2 ^ 32
    → idx < 32
    → Behind map idx (bit_and (shl32 (shr map idx) idx) (left_bits (idx2bit idx)))
small-Behind map idx small h j =
    rw (bit-bit_and, bit-left_bits idx j h)
      (ground (arith, cut_below map idx j small, bit-of_lt 32 map j small, bit-le-one map j))

pub pos_of_bit : (x j : ℕ) → bit x j ≡ 1 → 0 < x
pos_of_bit zero j e = absurd (omega (arith, bit_zero j))
pos_of_bit (suc x) j e = omega arith

tree-Behind :
    (map idx : ℕ) → map < 2 ^ 32 → idx < 32 → Behind map idx (bit_and (left_bits (idx2bit idx)) map)
tree-Behind map idx small h j =
    rw (bit-bit_and, bit-left_bits idx j h)
      (ground (arith, bit-of_lt 32 map j small, bit-le-one map j))

shl32-lt : (x k : ℕ) → shl32 x k < 2 ^ 32
unfolding shl32
shl32-lt x k = omega arith

-- Two low digits that are zero, and another that is not.
nonzero_digit :
    (x : ℕ) (s : State) → x < 2 ^ 32 → bit_and x 3 ≡ 0 → x ≢ 0 → (z : ℕ) × (2 ≤ z) × (bit x z ≡ 1)
nonzero_digit x s small low ne =
    let (z, runs, below, f) = compute_bit2idx-least_bit x s (omega arith) small in
    (z, high z (ground (arith, f.marked)), ground (arith, f.marked))
  where
    high : (z : ℕ) → bit x z ≡ 1 → 2 ≤ z
    high zero e = absurd (omega (arith, low_two x))
    high (suc zero) e = absurd (omega (arith, low_two x))
    high (suc (suc z)) e = omega arith

-- The search of `Alloc` in `smallmap`, a bitmap of 32 bits, for `idx` below 32: where the bins
-- `idx` and `idx + 1` are empty and some bin from `idx` on is not, it ends at the first nonempty
-- bin behind `idx`.
pub compute_bit2idx-IsNext_small :
    (map idx : ℕ) (s : State)
    → map < 2 ^ 32
    → idx < 32
    → bit_and (shr map idx) 0x3 ≡ 0
    → shr map idx ≢ 0
    → (i : ℕ) × (compute_bit2idx
          (least_bit (bit_and (shl32 (shr map idx) idx) (left_bits (idx2bit idx))))
          s
        ≡ ok i s)
      × (i < 32)
      × IsNext map idx i
compute_bit2idx-IsNext_small map idx s small h low ne =
    let left = bit_and (shl32 (shr map idx) idx) (left_bits (idx2bit idx)) in
    let is : Behind map idx left = small-Behind map idx small h in
    let (z, two, e) =
      nonzero_digit (shr map idx) s (omega (arith, div-le_self map (2 ^ idx))) low ne in
    compute_bit2idx-IsNext map idx left s
      (bit_and-lt 32 (shl32 (shr map idx) idx) (left_bits (idx2bit idx))
        (shl32-lt (shr map idx) idx))
      (pos_of_bit left (idx + z) (ground (arith, is (idx + z), bit-shr map idx z))) is

-- The search of `tmalloc_large` in `treemap`, a bitmap of 32 bits, for `idx` below 32: if some
-- tree behind `idx` is not empty, it ends at the first one.
pub compute_bit2idx-IsNext_tree :
    (map idx : ℕ) (s : State)
    → map < 2 ^ 32
    → idx < 32
    → bit_and (left_bits (idx2bit idx)) map ≢ 0
    → (i : ℕ) × (compute_bit2idx (least_bit (bit_and (left_bits (idx2bit idx)) map)) s ≡ ok i s)
      × (i < 32)
      × IsNext map idx i
compute_bit2idx-IsNext_tree map idx s small h ne =
    compute_bit2idx-IsNext map idx (bit_and (left_bits (idx2bit idx)) map) s
      (bit_and-lt_right 32 (left_bits (idx2bit idx)) map small) (omega arith)
      (tree-Behind map idx small h)
