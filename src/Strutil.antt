-- ===== src/Strutil.antt =====
-- essential/_src/utility/strutil.cpp: texts as byte strings. `char` is signed, so a byte from 128 on is a
-- negative character. The asserts are off, as in a release build; an `assert_check` that throws gives `none`.
pub mod CStyle
pub mod HexDump
pub mod Names
pub mod Spaces
use asio_kcp.Prelude.{
  ℕ, zero, suc, ◌+◌, ◌-◌, ◌*◌, ◌^◌, Bool, true, false, ◌&&◌, ◌||◌, List, [], ◌∷◌, ◌++◌, Option,
  none, some, Bytes, codes, length, ltb, leb, ◌==◌, if◌then◌else◌,
}
use asio_kcp.Prelude.Int.{ℤ, pos, negsuc}

unfoldable pub pow_i : ℕ → ℕ → ℕ
pow_i d zero = 1
pow_i d (suc n) = pow_i d n * d

-- The digits of a base stand in pairs, each in both its cases.
abbrev pub digit_pairs : Bytes
digit_pairs = codes "00112233445566778899aAbBcCdDeEfF"

unfoldable pub among_pairs : ℕ → Bytes → ℕ → Bool
among_pairs c (a ∷ b ∷ rest) (suc n) = c == a || c == b || among_pairs c rest n
among_pairs c _ _ = false

unfoldable pub is_right_data : ℕ → ℕ → Bool
unfolding among_pairs
is_right_data c jz = if ltb jz 2 || ltb 16 jz then false else among_pairs c digit_pairs jz

unfoldable pub is_digit : ℕ → Bool
is_digit c = leb b'0' c && leb c b'9'

unfoldable pub to_hex_digit : ℕ → ℕ
unfolding is_digit
to_hex_digit c =
    if is_digit c
    then c - 0x30
    else if c == b'a' || c == b'A'
    then 0x0a
    else if c == b'b' || c == b'B'
    then 0x0b
    else if c == b'c' || c == b'C'
    then 0x0c
    else if c == b'd' || c == b'D'
    then 0x0d
    else if c == b'e' || c == b'E'
    then 0x0e
    else if c == b'f' || c == b'F'
    then 0x0f
    else 0

-- The loop from a place on, with the sum so far; what is left gives the weight. A sum that exceeds a `long`
-- has no defined value, and is left as it is.
unfoldable pub str_to_data_from : ℕ → ℕ → Bytes → ℤ
unfolding is_right_data to_hex_digit pow_i
str_to_data_from jz sum [] = pos sum
str_to_data_from jz sum (c ∷ s) =
    let rest = str_to_data_from jz (to_hex_digit c * pow_i jz (length s) + sum) s in
    if is_right_data c jz then rest else negsuc 0

unfoldable pub str_to_data : Bytes → ℕ → ℤ
unfolding str_to_data_from
str_to_data s jz = str_to_data_from jz 0 s
