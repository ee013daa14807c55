-- ===== src/Strutil/CStyle.antt =====
-- `ConvertToCStyleStr` and `ConvertFromCStyleStr`: texts with their control characters written out.
use asio_kcp.Prelude.{
  ℕ, zero, suc, ◌+◌, ◌-◌, ◌*◌, ◌/◌, ◌%◌, ◌<◌, ◌≤◌, ◌≡◌, refl, ap, Bool, true, false, ◌&&◌, ◌||◌, [],
  ◌∷◌, ◌++◌, Bytes, codes, arith, length, length-append, drop, leb→le, All, All-append, ◌∙◌, ltb,
  leb, ◌==◌, if◌then◌else◌, Bool-cases, inl, inr,
}
use asio_kcp.Prelude.Int.{ℤ, pos, negsuc}
use asio_kcp.Strutil.{
  str_to_data, str_to_data_from, is_right_data, among_pairs, to_hex_digit, is_digit, pow_i,
}

-- "0123456789ABCDEF"[d].
abbrev pub hex_digit : ℕ → ℕ
hex_digit d = if ltb d 10 then b'0' + d else b'A' - 10 + d

-- The entry of the table for an ASCII character.
unfoldable pub shift_map : ℕ → Bytes
shift_map c =
    if c == 9
    then codes "\\t"
    else if c == 10
    then codes "\\n"
    else if c == 13
    then codes "\\r"
    else if c == b'\\'
    then codes "\\\\"
    else if ltb c 32 || c == 127
    then b'\\' ∷ b'(' ∷ hex_digit (c / 16) ∷ hex_digit (c % 16) ∷ b')' ∷ []
    else c ∷ []

unfoldable pub convert_to_c_style_str : Bytes → Bytes
unfolding shift_map
convert_to_c_style_str [] = []
convert_to_c_style_str (c ∷ s) =
    (if leb c 127 then shift_map c else c ∷ []) ++ convert_to_c_style_str s

abbrev pub member : ℕ → Bytes → Bool
member c [] = false
member c (x ∷ xs) = c == x || member c xs

-- `strchr` also finds the NUL at the end.
unfoldable pub is_hex_number : ℕ → Bool
is_hex_number c = member c (codes "0123456789abcdefABCDEF") || c == 0

-- (unsigned char)(int).
abbrev pub to_byte : ℤ → ℕ
to_byte (pos n) = n % 256
to_byte (negsuc n) = 255 - n % 256

-- The character, and how far to go on: "\(3F)".
unfoldable pub proc_shift_char_by_num : Bytes → ℕ × ℕ
unfolding is_hex_number
proc_shift_char_by_num (a ∷ b ∷ c ∷ d ∷ e ∷ rest) =
    if a == b'\\' && b == b'(' && e == b')' && is_hex_number c && is_hex_number d
    then (to_byte (str_to_data (c ∷ d ∷ []) 16), 5)
    else (a, 1)
proc_shift_char_by_num (a ∷ rest) = (a, 1)
proc_shift_char_by_num [] = (0, 1)

-- "\r", "\n", "\t", "\\".
unfoldable pub proc_shift_char_by_char : Bytes → ℕ × ℕ
proc_shift_char_by_char (a ∷ b ∷ rest) =
    if b == b'r'
    then (13, 2)
    else if b == b'n'
    then (10, 2)
    else if b == b't'
    then (9, 2)
    else if b == b'\\'
    then (b'\\', 2)
    else (a, 1)
proc_shift_char_by_char (a ∷ []) = (a, 1)
proc_shift_char_by_char [] = (0, 1)

-- At the end of the text the next character is the NUL behind it.
unfoldable pub proc_shift_char : Bytes → ℕ × ℕ
unfolding proc_shift_char_by_char proc_shift_char_by_num
proc_shift_char (a ∷ b ∷ rest) =
    if b == b'r' || b == b'n' || b == b't' || b == b'\\'
    then proc_shift_char_by_char (a ∷ b ∷ rest)
    else if b == b'('
    then proc_shift_char_by_num (a ∷ b ∷ rest)
    else (a, 1)
proc_shift_char (a ∷ []) = (a, 1)
proc_shift_char [] = (0, 1)

-- The loop; a turn goes on by at least one character.
unfoldable pub convert_from : ℕ → Bytes → Bytes
unfolding proc_shift_char
convert_from zero s = []
convert_from (suc fuel) [] = []
convert_from (suc fuel) (c ∷ s) =
    let (dst, n) = proc_shift_char (c ∷ s) in
    let plain = convert_from fuel s in
    let shifted = convert_from fuel (drop n (c ∷ s)) in
    if c == b'\\' then dst ∷ shifted else c ∷ plain

unfoldable pub convert_from_c_style_str : Bytes → Bytes
unfolding convert_from
convert_from_c_style_str s = convert_from (length s) s

hex_value : (d : ℕ) → d < 16 → to_hex_digit (hex_digit d) ≡ d
unfolding to_hex_digit is_digit
hex_value d h = ground arith

hex_number : (d : ℕ) → d < 16 → is_hex_number (hex_digit d) ≡ true
unfolding is_hex_number
hex_number d h = ground arith

hex_right : (d : ℕ) → d < 16 → is_right_data (hex_digit d) 16 ≡ true
unfolding is_right_data among_pairs
hex_right d h = ground arith

hex_pair :
    (a b : ℕ) → a < 16 → b < 16 → str_to_data (hex_digit a ∷ hex_digit b ∷ []) 16 ≡ pos (a * 16 + b)
unfolding str_to_data str_to_data_from pow_i
hex_pair a b h h' =
    rw (hex_right a h, hex_right b h', hex_value a h, hex_value b h') (ap pos (omega arith))

-- One character of the text.
convert_from-shift_map :
    (fuel c : ℕ) (rest : Bytes)
    → c < 128
    → convert_from (suc fuel) (shift_map c ++ rest) ≡ c ∷ convert_from fuel rest
unfolding convert_from shift_map proc_shift_char proc_shift_char_by_char proc_shift_char_by_num
convert_from-shift_map fuel c rest h =
    ground (arith, hex_pair (c / 16) (c % 16), hex_number (c / 16), hex_number (c % 16))

convert_from-high :
    (fuel c : ℕ) (rest : Bytes)
    → leb c 127 ≡ false
    → convert_from (suc fuel) (c ∷ rest) ≡ c ∷ convert_from fuel rest
unfolding convert_from
convert_from-high fuel c rest h = ground arith

convert_from-char :
    (fuel c : ℕ) (rest : Bytes)
    → convert_from (suc fuel) ((if leb c 127 then shift_map c else c ∷ []) ++ rest)
      ≡ c ∷ convert_from fuel rest
convert_from-char fuel c rest = elim (Bool-cases (leb c 127)) [
  | inl t ↦ rw t (convert_from-shift_map fuel c rest (omega (arith, leb→le c 127 t)))
  | inr f ↦ rw f (convert_from-high fuel c rest f)
]

convert_from-convert_to :
    (fuel : ℕ) (s : Bytes) → length s ≤ fuel → convert_from fuel (convert_to_c_style_str s) ≡ s
unfolding convert_to_c_style_str convert_from
convert_from-convert_to zero [] h = refl
convert_from-convert_to (suc fuel) [] h = refl
convert_from-convert_to zero (c ∷ s) h = absurd (omega (arith, h))
convert_from-convert_to (suc fuel) (c ∷ s) h =
    convert_from-char fuel c (convert_to_c_style_str s)
    ∙ ap (◌∷◌ c) (convert_from-convert_to fuel s (omega (arith, h)))

shift_map-length : (c : ℕ) → 1 ≤ length (if leb c 127 then shift_map c else c ∷ [])
unfolding shift_map
shift_map-length c = ground arith

convert_to-length : (s : Bytes) → length s ≤ length (convert_to_c_style_str s)
unfolding convert_to_c_style_str
convert_to-length [] = omega arith
convert_to-length (c ∷ s) = omega (
  arith,
  shift_map-length c,
  convert_to-length s,
  length-append (if leb c 127 then shift_map c else c ∷ []) (convert_to_c_style_str s),
)

-- Every text is read back from its C-style form, whatever bytes it has: control characters, backslashes,
-- and bytes beyond ASCII.
pub c_style_round_trip : (s : Bytes) → convert_from_c_style_str (convert_to_c_style_str s) ≡ s
unfolding convert_from_c_style_str
c_style_round_trip s = convert_from-convert_to _ s (convert_to-length s)

-- Bytes that print.
abbrev pub IsPrintable : ℕ → Type 0
IsPrintable c = 32 ≤ c

IsPrintable-char : (c : ℕ) → All IsPrintable (if leb c 127 then shift_map c else c ∷ [])
unfolding shift_map
IsPrintable-char c = ground arith

-- The C-style form of a text has no control character.
pub c_style-IsPrintable : (s : Bytes) → All IsPrintable (convert_to_c_style_str s)
unfolding convert_to_c_style_str
c_style-IsPrintable [] = tt
c_style-IsPrintable (c ∷ s) =
    All-append IsPrintable (if leb c 127 then shift_map c else c ∷ []) (convert_to_c_style_str s)
      (IsPrintable-char c) (c_style-IsPrintable s)
