-- ===== src/Programs/TestMsg/Times.antt =====
-- The time that a message was made at is read from it again.
use asio_kcp.Prelude.{
  ℕ, zero, suc, ◌+◌, ◌-◌, ◌/◌, ◌%◌, ◌^◌, ◌<◌, ◌≤◌, ◌≡◌, ◌≢◌, refl, sym, ap, ◌∙◌, [], ◌∷◌, ◌++◌,
  some, Bytes, codes, length, length-append, take, drop, take-append, leb, leb→le, ltb, arith,
  append_assoc, Bool-cases, inl, inr, All, All-append, u64_mod,
}
use asio_kcp.StdText.{digits, format_unsigned, atol}
use asio_kcp.StdText.RoundTrip.{atol-format_unsigned}
use asio_kcp.Programs.TestMsg.{
  padded, position_digits, with_block, with_blocks, test_str, make_test_str, find,
  get_time_from_msg, search_time_from_kcp_str, clock_start_str, clock_interval_str, to_u64,
}

abbrev Begins : ℕ → ℕ → ℕ → Bytes → Type 0
Begins a b c s = (rest : Bytes) × (s ≡ a ∷ b ∷ c ∷ rest)

with_blocks-Begins :
    (fuel n a b c : ℕ) (r : Bytes) → Begins a b c (with_blocks fuel n (a ∷ b ∷ c ∷ r))
unfolding with_blocks with_block
with_blocks-Begins zero n a b c r = (r, refl)
with_blocks-Begins (suc fuel) n a b c r = elim (Bool-cases (leb (length (a ∷ b ∷ c ∷ r) + 10) n)) [
  | inl t ↦ rw t (with_blocks-Begins fuel n a b c (drop 3 (with_block (a ∷ b ∷ c ∷ r))))
  | inr f ↦ rw f (r, refl)
]

padded-Begins : (n a b c : ℕ) (s : Bytes) → Begins a b c s → Begins a b c (padded n s)
padded-Begins n a b c s (r, e) = (r ++ position_digits (length s + 1) (n - length s), rw e refl)

short-Begins : (n : ℕ) → 3 ≤ n → n ≤ 4 → Begins b'_' b'h' b'a' (take n (codes "_ha:"))
short-Begins zero h h' = absurd (omega arith)
short-Begins (suc zero) h h' = absurd (omega arith)
short-Begins (suc (suc zero)) h h' = absurd (omega arith)
short-Begins (suc (suc (suc zero))) h h' = ([], refl)
short-Begins (suc (suc (suc (suc zero)))) h h' = (codes ":", refl)
short-Begins (suc (suc (suc (suc (suc n))))) h h' = absurd (omega arith)

test_str-Begins : (n : ℕ) → 3 ≤ n → Begins b'_' b'h' b'a' (test_str clock_interval_str n)
unfolding test_str
test_str-Begins n h = elim (Bool-cases (leb n 4)) [
  | inl t ↦ rw t (short-Begins n h (leb→le n 4 t))
  | inr f ↦ elim (Bool-cases (ltb n 20)) [
    | inl t ↦ rw (f, t) (padded-Begins n b'_' b'h' b'a' (codes "_ha:") (codes ":", refl))
    | inr g ↦
        rw (f, g)
          (padded-Begins n b'_' b'h' b'a' _
            (with_blocks-Begins n n b'_' b'h' b'a' (codes ":======")))
  ]
]

abbrev IsNumeral : ℕ → Type 0
IsNumeral c = c ≢ b'_'

digits-numerals : (f n : ℕ) → All IsNumeral (digits f n)
unfolding digits
digits-numerals zero n = tt
digits-numerals (suc f) n = elim (Bool-cases (ltb n 10)) [
  | inl t ↦ rw t (ground arith, tt)
  | inr e ↦
      rw e
        (All-append IsNumeral (digits f (n / 10)) _ (digits-numerals f (n / 10)) (omega arith, tt))
]

find-interval :
    (front rest : Bytes)
    → All IsNumeral front
    → find clock_interval_str (front ++ (clock_interval_str ++ rest)) ≡ some (length front)
find-interval [] rest h = refl
find-interval (c ∷ front) rest h = ground (arith, find-interval front rest h.1)

-- A message as it is made: the time stands between the two marks.
made : ℕ → Bytes → Bytes
made clock rest = clock_start_str ++ format_unsigned clock ++ (clock_interval_str ++ rest)

make_test_str-made :
    (clock size : ℕ)
    → length (format_unsigned clock) + 6 ≤ size
    → size < u64_mod
    → (rest : Bytes) × (make_test_str clock size ≡ made clock rest)
unfolding make_test_str made
make_test_str-made clock size h h' =
    let front = clock_start_str ++ format_unsigned clock in
    let left = (size + u64_mod - length front) % u64_mod in
    let (rest, e) = test_str-Begins left (omega arith) in (rest, ap (λ s. front ++ s) e)

find-made :
    (clock : ℕ) (rest : Bytes)
    → find clock_interval_str (made clock rest) ≡ some (3 + length (format_unsigned clock))
unfolding made format_unsigned
find-made clock rest =
    find-interval (clock_start_str ++ format_unsigned clock) rest
      (omega arith, (omega arith, (omega arith, digits-numerals 20 clock)))
    ∙ ap some (omega arith)

take-made :
    (clock : ℕ) (rest : Bytes)
    → take (3 + length (format_unsigned clock)) (drop 3 (made clock rest))
      ≡ format_unsigned clock ++ clock_interval_str
unfolding made
take-made clock rest =
    let number = format_unsigned clock in
    ap (λ n. take n (number ++ (clock_interval_str ++ rest)))
      (omega (arith, length-append number clock_interval_str))
    ∙ ap (take (length (number ++ clock_interval_str)))
        (sym (append_assoc number clock_interval_str rest))
    ∙ take-append (number ++ clock_interval_str) rest

to_u64-atol :
    (clock : ℕ) (rest : Bytes)
    → clock < 2 ^ 63
    → to_u64 (atol (format_unsigned clock ++ (clock_interval_str ++ rest))) ≡ clock
to_u64-atol clock rest small =
    rw (atol-format_unsigned clock (clock_interval_str ++ rest) small (ground arith)) (omega arith)

get_time-made :
    (clock : ℕ) (rest : Bytes) → clock < 2 ^ 63 → get_time_from_msg (made clock rest) ≡ clock
unfolding get_time_from_msg
get_time-made clock rest small =
    rw (get_time_from_msg, find-made clock rest, take-made clock rest) (to_u64-atol clock [] small)

search_time-made :
    (clock : ℕ) (rest : Bytes) → clock < 2 ^ 63 → search_time_from_kcp_str (made clock rest) ≡ clock
unfolding search_time_from_kcp_str
search_time-made clock rest small =
    rw (search_time_from_kcp_str, find-made clock rest)
      (unfold made in to_u64-atol clock rest small)

-- From a test message that has room for it (six bytes beside the digits), the reader of the received messages and
-- the one that searches a packet of KCP both get the time at which it was made, if this is below 2^63
-- milliseconds and the size of the message below 2^64.
pub time_round_trip :
    (clock size : ℕ)
    → clock < 2 ^ 63
    → length (format_unsigned clock) + 6 ≤ size
    → size < u64_mod
    → (get_time_from_msg (make_test_str clock size) ≡ clock)
      × (search_time_from_kcp_str (make_test_str clock size) ≡ clock)
time_round_trip clock size small h h' =
    let (rest, e) = make_test_str-made clock size h h' in
    rw e (get_time-made clock rest small, search_time-made clock rest small)
