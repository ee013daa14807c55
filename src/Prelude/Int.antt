-- ===== src/Prelude/Int.antt =====
-- Signed integers over the native numbers: the C++ `int` and `long` results.
use asio_kcp.Prelude.{ℕ, ◌-◌, ◌%◌, ◌<◌, Bool, true, false, arith, leb, if◌then◌else◌, u32_mod}

-- `negsuc n` is -(n + 1).
pub data ℤ : Type 0 where
  pos : ℕ → ℤ
  negsuc : ℕ → ℤ

abbrev pub neg : ℕ → ℤ
neg n = if leb n 0 then pos 0 else negsuc (n - 1)

abbrev pub is_negative : ℤ → Bool
is_negative (pos n) = false
is_negative (negsuc n) = true

-- The conversion of a signed integer to uint32_t.
abbrev pub to_u32 : ℤ → ℕ
to_u32 (pos n) = n % u32_mod
to_u32 (negsuc n) = u32_mod - 1 - n % u32_mod

-- a - b, as an integer.
abbrev pub sub_ℕ : ℕ → ℕ → ℤ
sub_ℕ a b = if leb b a then pos (a - b) else negsuc (b - a - 1)

pub to_u32-lt : (z : ℤ) → to_u32 z < u32_mod
to_u32-lt (pos n) = omega arith
to_u32-lt (negsuc n) = omega arith
