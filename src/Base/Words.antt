-- ===== src/Base/Words.antt =====
-- `int32_t`: an integer whose sums wrap at 32 bits, in two's complement.
use tp_2014_1c_tp_so.Base.{
  ℕ, zero, suc, ◌/◌, ◌*◌, ◌+◌, ◌-◌, ◌^◌, ◌%◌, ◌≤◌, ◌<◌, ◌≡◌, arith, ltb, if◌then◌else◌,
}
use tp_2014_1c_tp_so.Base.Int.{ℤ, pos, negsuc, pos_part, neg_part, ◌+ℤ◌, ◌-ℤ◌, ◌*ℤ◌}

-- The number that a 32-bit pattern stands for.
unfoldable pub signed32 : ℕ → ℤ
signed32 w = if ltb w (2 ^ 31) then pos w else negsuc (2 ^ 32 - w - 1)

-- The pattern of an integer, taken modulo 2 ^ 32.
unfoldable pub pattern32 : ℤ → ℕ
pattern32 (pos n) = n % 2 ^ 32
pattern32 (negsuc n) = 2 ^ 32 - 1 - n % 2 ^ 32

unfoldable pub wrap32 : ℤ → ℤ
unfolding signed32 pattern32
wrap32 z = signed32 (pattern32 z)

unfoldable pub add32 : ℤ → ℤ → ℤ
unfolding wrap32 ◌+ℤ◌
add32 a b = wrap32 (a +ℤ b)

unfoldable pub sub32 : ℤ → ℤ → ℤ
unfolding wrap32 ◌-ℤ◌
sub32 a b = wrap32 (a -ℤ b)

unfoldable pub mul32 : ℤ → ℤ → ℤ
unfolding wrap32 ◌*ℤ◌
mul32 a b = wrap32 (a *ℤ b)

-- -n
abbrev pub opuesto : ℕ → ℤ
opuesto zero = pos 0
opuesto (suc n) = negsuc n

-- `a / k` for a positive constant `k`: C drops the fraction, also of a negative number.
unfoldable pub div32 : ℤ → ℕ → ℤ
div32 (pos n) k = pos (n / k)
div32 (negsuc n) k = opuesto (suc n / k)

-- The values that an `int32_t` can hold.
abbrev pub IsInt32 : ℤ → Type 0
IsInt32 z = (pos_part z < 2 ^ 31) × (neg_part z ≤ 2 ^ 31)

pub wrap32_id : (z : ℤ) → IsInt32 z → wrap32 z ≡ z
unfolding wrap32
wrap32_id (pos n) h = ground arith
wrap32_id (negsuc n) h = ground arith

pub wrap32-IsInt32 : (z : ℤ) → IsInt32 (wrap32 z)
unfolding wrap32
wrap32-IsInt32 (pos n) = ground arith
wrap32-IsInt32 (negsuc n) = ground arith

pub add32-pos : (a b : ℕ) → a + b < 2 ^ 31 → add32 (pos a) (pos b) ≡ pos (a + b)
unfolding add32
add32-pos a b h = ground arith

pub sub32-pos : (a b : ℕ) → b ≤ a → a < 2 ^ 31 → sub32 (pos a) (pos b) ≡ pos (a - b)
unfolding sub32
sub32-pos a b h k = ground arith

pub sub32-negative : (a b : ℕ) → a < b → b ≤ 2 ^ 31 → sub32 (pos a) (pos b) ≡ negsuc (b - a - 1)
unfolding sub32
sub32-negative a b h k = ground arith

pub mul32-opposite : (n : ℕ) → suc n < 2 ^ 31 → mul32 (negsuc n) (negsuc 0) ≡ pos (suc n)
unfolding mul32
mul32-opposite n h = ground arith

pub mul32-pos : (a b : ℕ) → a * b < 2 ^ 31 → mul32 (pos a) (pos b) ≡ pos (a * b)
unfolding mul32
mul32-pos a b h = ground arith
