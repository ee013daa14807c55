-- ===== src/StdText/RoundTrip.antt =====
-- `atol` reads what "%u" prints.
use native.Mathlib.Nat.{pow-suc}
use asio_kcp.Prelude.{
  Bool-cases, ltb, ltb→lt, inl, inr, ℕ, zero, suc, ◌+◌, ◌-◌, ◌*◌, ◌/◌, ◌%◌, ◌^◌, ◌<◌, ◌≤◌, [], ◌∷◌,
  ◌++◌, append_assoc, ◌≡◌, refl, arith, Bytes, length,
}
use asio_kcp.Prelude.Int.{pos}
use asio_kcp.StdText.{digits, format_unsigned, scan_digits, clamp, atol}

scan_last :
    (n : ℕ) (rest : Bytes) → scan_digits ((b'0' + n % 10) ∷ rest) (n / 10) ≡ scan_digits rest n
unfolding scan_digits
scan_last n rest = ground arith

scan-one : (n : ℕ) (rest : Bytes) → n < 10 → scan_digits ((b'0' + n) ∷ rest) 0 ≡ scan_digits rest n
unfolding scan_digits
scan-one n rest h = ground arith

scan-digits :
    (f n : ℕ) (rest : Bytes) → n < 10 ^ f → scan_digits (digits f n ++ rest) 0 ≡ scan_digits rest n
unfolding digits
scan-digits zero n rest h = let e : n ≡ 0 = omega arith in rw e refl
scan-digits (suc f) n rest h =
    let fits : n < 10 ^ f * 10 = rw (pow-suc 10 f) at h in
    let rec : n / 10 < 10 ^ f
        → scan_digits (digits f (n / 10) ++ (b'0' + n % 10) ∷ rest) 0
          ≡ scan_digits ((b'0' + n % 10) ∷ rest) (n / 10) =
      scan-digits f (n / 10) ((b'0' + n % 10) ∷ rest) in
    ground (
      arith,
      rec,
      scan_last n rest,
      scan-one n rest,
      append_assoc (digits f (n / 10)) ((b'0' + n % 10) ∷ []) rest,
    )

abbrev pub StartsWithDigit : Bytes → Type 0
StartsWithDigit [] = ⊥
StartsWithDigit (c ∷ s) = (b'0' ≤ c) × (c ≤ b'9')

StartsWithDigit-append : (s t : Bytes) → StartsWithDigit s → StartsWithDigit (s ++ t)
StartsWithDigit-append [] t h = absurd h
StartsWithDigit-append (c ∷ s) t h = h

digits-StartsWithDigit : (f n : ℕ) → StartsWithDigit (digits (suc f) n)
unfolding digits
digits-StartsWithDigit zero n = ground arith
digits-StartsWithDigit (suc f) n =
    let more =
      StartsWithDigit-append _ ((b'0' + n % 10) ∷ []) (digits-StartsWithDigit f (n / 10)) in
    elim (Bool-cases (ltb n 10)) [
      | inl one ↦ rw one (omega (arith, ltb→lt n 10 one))
      | inr many ↦ rw many more
    ]

atol-scan_digits :
    (s : Bytes) → StartsWithDigit s → atol s ≡ pos (clamp (2 ^ 63 - 1) (scan_digits s 0))
unfolding atol
atol-scan_digits [] h = absurd h
atol-scan_digits (c ∷ s) h = ground arith

scan_stops : (rest : Bytes) (n : ℕ) → ¬ StartsWithDigit rest → scan_digits rest n ≡ n
unfolding scan_digits
scan_stops [] n h = refl
scan_stops (c ∷ s) n h = ground arith

-- A number below 2^63 is read back, whatever stands behind it that is no digit.
pub atol-format_unsigned :
    (n : ℕ) (rest : Bytes)
    → n < 2 ^ 63
    → ¬ StartsWithDigit rest
    → atol (format_unsigned n ++ rest) ≡ pos n
unfolding format_unsigned clamp
atol-format_unsigned n rest h stop = ground (
  arith,
  atol-scan_digits (digits 20 n ++ rest)
      (StartsWithDigit-append _ rest (digits-StartsWithDigit 19 n)),
  scan-digits 20 n rest (omega arith),
  scan_stops rest n stop,
)

pub format_unsigned-StartsWithDigit : (n : ℕ) → StartsWithDigit (format_unsigned n)
unfolding format_unsigned
format_unsigned-StartsWithDigit n = digits-StartsWithDigit 19 n

length-StartsWithDigit : (s : Bytes) → StartsWithDigit s → 1 ≤ length s
length-StartsWithDigit [] h = absurd h
length-StartsWithDigit (c ∷ s) h = omega arith

pub length-format_unsigned : (n : ℕ) → 1 ≤ length (format_unsigned n)
length-format_unsigned n = length-StartsWithDigit _ (format_unsigned-StartsWithDigit n)
