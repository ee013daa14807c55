-- ===== src/Programs/TestMsg/Sizes.antt =====
-- The length of a test message, and how it starts.
use asio_kcp.Prelude.{
  ℕ, zero, suc, ◌+◌, ◌-◌, ◌/◌, ◌%◌, ◌^◌, ◌<◌, ◌≤◌, ◌≡◌, refl, ap, [], ◌∷◌, ◌++◌, Bytes, codes,
  length, length-append, length-take, length-replicate, take, replicate, ltb, leb, leb→le, arith,
  Bool-cases, inl, inr,
}
use asio_kcp.StdText.{digits, format_unsigned}
use asio_kcp.Programs.TestMsg.{position_digits, padded, with_block, with_blocks, resized, test_str}

-- The number has at most so many digits and one more.
abbrev Short : ℕ → ℕ → Type 0
Short zero n = n < 10
Short (suc k) n = Short k (n / 10)

length-digits : (f k n : ℕ) → Short k n → length (digits f n) ≤ suc k
unfolding digits
length-digits zero k n h = omega arith
length-digits (suc f) zero n h = ground arith
length-digits (suc f) (suc k) n h =
    ground
      (arith, length-digits f k (n / 10), length-append (digits f (n / 10)) ((b'0' + n % 10) ∷ []))

length-format_unsigned_le : (n : ℕ) → n < 10 ^ 7 → length (format_unsigned n) ≤ 7
unfolding format_unsigned
length-format_unsigned_le n h = length-digits 20 6 n (omega arith)

length-position_digits : (i n : ℕ) → length (position_digits i n) ≡ n
length-position_digits i zero = refl
length-position_digits i (suc n) = ap suc (length-position_digits (i + 1) n)

length-padded : (last : ℕ) (str : Bytes) → length str ≤ last → length (padded last str) ≡ last
length-padded last str h = omega (
  arith,
  length-append str (position_digits (length str + 1) (last - length str)),
  length-position_digits (length str + 1) (last - length str),
)

length-with_block :
    (str : Bytes) → length str + 10 < 10 ^ 7 → length (with_block str) ≡ length str + 10
unfolding with_block
length-with_block str h =
    let number = format_unsigned (length str + 10) in
    let tmp = str ++ codes "(" ++ number ++ codes "_" in
    let short : length tmp ≤ length str + 10 - 1 = omega (
      arith,
      length-format_unsigned_le (length str + 10) h,
      length-append (str ++ codes "(" ++ number) (codes "_"),
      length-append (str ++ codes "(") number,
      length-append str (codes "("),
    ) in
    omega (
      arith,
      length-append (padded (length str + 10 - 1) tmp) (codes ")"),
      length-padded (length str + 10 - 1) tmp short,
    )

-- Fuel for the length that is left suffices: after the loop its condition is false.
with_blocks_lem :
    (fuel str_len : ℕ) (str : Bytes)
    → str_len < 10 ^ 7
    → length str ≤ str_len
    → str_len ≤ fuel + length str
    → let r = with_blocks fuel str_len str in (length r ≤ str_len) × (str_len < length r + 10)
unfolding with_blocks
with_blocks_lem zero str_len str h l f = omega arith
with_blocks_lem (suc fuel) str_len str h l f = elim (Bool-cases (leb (length str + 10) str_len)) [
  | inl t ↦
      let small = leb→le (length str + 10) str_len t in
      let grows = length-with_block str (omega arith) in
      rw t (with_blocks_lem fuel str_len (with_block str) h (omega arith) (omega arith))
  | inr e ↦ rw e (ground arith)
]

length-resized : (n c : ℕ) (str : Bytes) → length (resized n c str) ≡ n
length-resized n c str = omega (
  arith,
  length-append (take n str) (replicate (n - length str) c),
  length-take n str,
  length-replicate (n - length str) c,
)

-- The text has the length that is asked for, whatever it is to start with, if this is below ten million (so that
-- the number in a block has at most seven digits).
pub length-test_str : (prefix : Bytes) (n : ℕ) → n < 10 ^ 7 → length (test_str prefix n) ≡ n
unfolding test_str
length-test_str prefix n h =
    let str = prefix ++ codes ":" in
    let start = resized 10 b'=' str in
    elim (Bool-cases (leb n (length str))) [
      | inl t ↦ rw t (omega (arith, length-take n str, leb→le n (length str) t))
      | inr f ↦ elim (Bool-cases (ltb n 20)) [
        | inl t ↦ rw (f, t) (length-padded n str (ground arith))
        | inr g ↦
            let first = length-resized 10 b'=' str in
            let big : 20 ≤ n = ground arith in
            let (r, _) = with_blocks_lem n n start h (omega arith) (omega arith) in
            rw (f, g) (length-padded n (with_blocks n n start) r)
      ]
    ]
