-- ===== src/StdText.antt =====
-- What the packets use of the standard library's text: "%u" of `snprintf`, `to_string` and `<<`,
-- and `atol`.
pub mod RoundTrip
use asio_kcp.Prelude.{
  ℕ, zero, suc, ◌+◌, ◌-◌, ◌*◌, ◌/◌, ◌%◌, ◌^◌, Bool, true, false, ◌&&◌, ◌||◌, [], ◌∷◌, ◌++◌, ◌≡◌,
  refl, arith, Bytes, codes, ltb, leb, ◌==◌, if◌then◌else◌,
}
use asio_kcp.Prelude.Int.{ℤ, pos, negsuc, neg}

-- The last `f` decimal digits of `n`, with no zero in front.
unfoldable pub digits : ℕ → ℕ → Bytes
digits zero n = []
digits (suc f) n =
    let more = digits f (n / 10) ++ (b'0' + n % 10) ∷ [] in
    if ltb n 10 then (b'0' + n) ∷ [] else more

-- A size_t has at most 20 digits.
unfoldable pub format_unsigned : ℕ → Bytes
unfolding digits
format_unsigned n = digits 20 n

unfoldable pub is_digit : ℕ → Bool
is_digit c = leb b'0' c && leb c b'9'

unfoldable pub is_space : ℕ → Bool
is_space c = c == 32 || (leb 9 c && leb c 13)

pub scan_digits : Bytes → ℕ → ℕ
unfolding is_digit
scan_digits [] n = n
scan_digits (c ∷ s) n = elim (is_digit c) [ true ↦ scan_digits s (n * 10 + (c - b'0')) | false ↦ n ]

-- A value out of range is clamped to that of a 64-bit `long`.
clamp : ℕ → ℕ → ℕ
clamp limit n = if ltb limit n then limit else n

pub signed : Bytes → ℤ
unfolding scan_digits clamp
signed [] = pos 0
signed (c ∷ s) =
    if c == b'-'
    then neg (clamp (2 ^ 63) (scan_digits s 0))
    else if c == b'+'
    then pos (clamp (2 ^ 63 - 1) (scan_digits s 0))
    else pos (clamp (2 ^ 63 - 1) (scan_digits (c ∷ s) 0))

-- The end of the list stands for the NUL behind a C string.
unfoldable pub atol : Bytes → ℤ
unfolding is_space signed
atol [] = pos 0
atol (c ∷ s) = if is_space c then atol s else signed (c ∷ s)

prints : format_unsigned 4294967295 ≡ codes "4294967295"
unfolding format_unsigned
prints = refl

reads : atol (codes " -42x") ≡ negsuc 41
unfolding atol
reads = refl
