-- ===== src/Programs/TestMsg.antt =====
-- client_with_asio/test_util.cpp, and the messages of client_with_asio/client_with_asio.cpp: a text of a given
-- length that starts with the time at which it was made.
pub mod Sizes
pub mod Times
use asio_kcp.Prelude.{
  ℕ, zero, suc, ◌+◌, ◌-◌, ◌*◌, ◌%◌, Bool, true, false, ◌&&◌, [], ◌∷◌, ◌++◌, Option, none, some,
  Bytes, codes, length, take, drop, replicate, starts_with, ltb, leb, ◌==◌, u64_mod, if◌then◌else◌,
}
use asio_kcp.Prelude.Int.{ℤ, pos, negsuc}
use asio_kcp.StdText.{format_unsigned, atol}

-- `push_back` for the positions from `i` on.
abbrev pub position_digits : ℕ → ℕ → Bytes
position_digits i zero = []
position_digits i (suc n) = (i % 10 + 0x30) ∷ position_digits (i + 1) n

-- A loop from `str.size() + 1` up to `last`.
abbrev pub padded : ℕ → Bytes → Bytes
padded last str = str ++ position_digits (length str + 1) (last - length str)

-- A turn of the loop: "(20_56789)".
unfoldable pub with_block : Bytes → Bytes
with_block str =
    let new_len = length str + 10 in
    let tmp = str ++ codes "(" ++ format_unsigned new_len ++ codes "_" in
    padded (new_len - 1) tmp ++ codes ")"

unfoldable pub with_blocks : ℕ → ℕ → Bytes → Bytes
unfolding with_block
with_blocks zero str_len str = str
with_blocks (suc fuel) str_len str =
    let more = with_blocks fuel str_len (with_block str) in
    if leb (length str + 10) str_len then more else str

-- `str.resize(n, c)`.
abbrev pub resized : ℕ → ℕ → Bytes → Bytes
resized n c str = take n str ++ replicate (n - length str) c

unfoldable pub test_str : Bytes → ℕ → Bytes
unfolding with_blocks
test_str str_prefix str_len =
    let str = str_prefix ++ codes ":" in
    let long = padded str_len (with_blocks str_len str_len (resized 10 b'=' str)) in
    if leb str_len (length str)
    then take str_len str
    else if ltb str_len 20
    then padded str_len str
    else long

abbrev pub clock_start_str : Bytes
clock_start_str = codes "!ha"

abbrev pub clock_interval_str : Bytes
clock_interval_str = codes "_ha"

-- The difference of two size_t wraps.
unfoldable pub make_test_str : ℕ → ℕ → Bytes
unfolding test_str
make_test_str clock test_str_size =
    let msg_str = clock_start_str ++ format_unsigned clock in
    let left = (test_str_size + u64_mod - length msg_str) % u64_mod in
    msg_str ++ test_str clock_interval_str left

-- `std::string::find`.
abbrev pub find : Bytes → Bytes → Option ℕ
find pattern_ [] = if starts_with pattern_ [] then some 0 else none
find pattern_ (c ∷ s) =
    let later = find pattern_ s in
    if starts_with pattern_ (c ∷ s)
    then some 0
    else (elim later [ none ↦ none | some n ↦ some (n + 1) ])

abbrev pub to_u64 : ℤ → ℕ
to_u64 (pos n) = n % u64_mod
to_u64 (negsuc n) = u64_mod - 1 - n % u64_mod

unfoldable pub get_time_from_msg : Bytes → ℕ
unfolding atol
get_time_from_msg msg = elim (find clock_interval_str msg) [
  | none ↦ 0
  | some p ↦ to_u64 (atol (take p (drop 3 msg)))
]

unfoldable pub search_time_from_kcp_str : Bytes → ℕ
unfolding atol
search_time_from_kcp_str kcp_str = elim (find clock_interval_str kcp_str) [
  | none ↦ 0
  | some _ ↦ elim (find clock_start_str kcp_str) [
    | none ↦ 0
    | some start ↦ to_u64 (atol (drop (start + 3) kcp_str))
  ]
]
