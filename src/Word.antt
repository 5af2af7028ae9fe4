-- ===== src/Word.antt =====
-- `size_t` (64 bits) and `unsigned int` (32 bits): arithmetic modulo a power of two, shifts and
-- complements, as C has them on these types.
pub mod Digits
pub mod Bits
pub mod Masks
use unimem.Base.{ℕ, ◌+◌, ◌-◌, ◌*◌, ◌/◌, ◌%◌, ◌^◌}

abbrev pub two64 : ℕ
two64 = 2 ^ 64

abbrev pub two32 : ℕ
two32 = 2 ^ 32

-- `size_t` sums and differences. The modulus is added first, since `-` on ℕ stops at 0.
unfoldable pub add64 : ℕ → ℕ → ℕ
add64 a b = (a + b) % two64

unfoldable pub sub64 : ℕ → ℕ → ℕ
sub64 a b = (a + two64 - b) % two64

unfoldable pub neg64 : ℕ → ℕ
neg64 a = (two64 - a) % two64

unfoldable pub mul64 : ℕ → ℕ → ℕ
mul64 a b = a * b % two64

unfoldable pub shl64 : ℕ → ℕ → ℕ
shl64 a k = a * 2 ^ k % two64

abbrev pub shr : ℕ → ℕ → ℕ
shr a k = a / 2 ^ k

-- `~a` on `size_t`.
abbrev pub not64 : ℕ → ℕ
not64 a = two64 - 1 - a

-- `unsigned int`.
unfoldable pub add32 : ℕ → ℕ → ℕ
add32 a b = (a + b) % two32

unfoldable pub sub32 : ℕ → ℕ → ℕ
sub32 a b = (a + two32 - b) % two32

unfoldable pub neg32 : ℕ → ℕ
neg32 a = (two32 - a) % two32

unfoldable pub shl32 : ℕ → ℕ → ℕ
shl32 a k = a * 2 ^ k % two32

abbrev pub not32 : ℕ → ℕ
not32 a = two32 - 1 - a

-- The cast of a `size_t` to `unsigned int`.
abbrev pub to_u32 : ℕ → ℕ
to_u32 a = a % two32
