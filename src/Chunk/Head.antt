-- ===== src/Chunk/Head.antt =====
-- The header word: what the setters of chunk.h write is what the getters read.
use unimem.Base.{ℕ, ◌+◌, ◌*◌, ◌/◌, ◌%◌, ◌^◌, ◌<◌, bit_and, bit_or, ◌≡◌, arith}
use unimem.Word.{not64}
use unimem.Word.Masks.{clear_three, clear_one, low_one, second_one, low_two, set_one, set_second}
use unimem.Chunk.{size_of, pinuse_bit, cinuse_bit, inuse_bits}

-- A chunk's size: a multiple of 8 in a `size_t`.
abbrev pub IsSize : ℕ → Type 0
IsSize n = (n % 8 ≡ 0) × (n < 2 ^ 64)

-- The words that the setters write, as sums.
pub free_word : (n : ℕ) → IsSize n → bit_or n pinuse_bit ≡ n + 1
free_word n is = omega (arith, set_one n)

pub inuse_word : (n : ℕ) → IsSize n → bit_or (bit_or n pinuse_bit) cinuse_bit ≡ n + 3
inuse_word n is = omega (arith, set_one n, set_second (bit_or n 1))

-- What a word with the size `n` and the flags `f` reads as.
module _ (n f : ℕ) (is : IsSize n) (flags : f < 8) where
  pub size_of-word : size_of (n + f) ≡ n
  unfolding size_of
  size_of-word = omega (arith, clear_three (n + f) (omega arith))

  pub pinuse-word : bit_and (n + f) pinuse_bit ≡ f % 2
  pinuse-word = omega (arith, low_one (n + f))

  pub cinuse-word : bit_and (n + f) cinuse_bit ≡ f / 2 % 2 * 2
  cinuse-word = omega (arith, second_one (n + f))

  pub inuse_bits-word : bit_and (n + f) inuse_bits ≡ f % 4
  inuse_bits-word = omega (arith, low_two (n + f))

  pub set_pinuse-word : bit_or (n + f) pinuse_bit ≡ n + (f / 2 * 2 + 1)
  set_pinuse-word = omega (arith, set_one (n + f))

  pub clear_pinuse-word : bit_and (n + f) (not64 pinuse_bit) ≡ n + f / 2 * 2
  clear_pinuse-word = omega (arith, clear_one (n + f) (omega arith))
