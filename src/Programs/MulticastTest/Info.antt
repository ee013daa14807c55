-- ===== src/Programs/MulticastTest/Info.antt =====
-- What the server of the test tells of its group is what the client reads.
use asio_kcp.Prelude.{
  ℕ, zero, suc, ◌+◌, ◌/◌, ◌^◌, ◌<◌, ◌≡◌, ◌≢◌, refl, sym, ap, ◌∙◌, true, [], ◌∷◌, ◌++◌, Option, none,
  some, Bytes, codes, length, length-append, take, drop, take-append, drop-append, append_assoc,
  append-nil, ltb, arith, if◌then◌else◌, Bool-cases, inl, inr, All, All-append, u32_mod,
}
use asio_kcp.Prelude.Int.{pos}
use asio_kcp.StdText.{digits, format_unsigned, atol, is_digit, is_space}
use asio_kcp.StdText.RoundTrip.{
  atol-format_unsigned, StartsWithDigit, format_unsigned-StartsWithDigit,
}
use asio_kcp.Programs.MulticastTest.{
  multicast_info, find_char, between, stoi, has_number, int_range, cast,
}
use asio_kcp.Programs.MulticastTest.Client.{read_info}

abbrev NoColon : ℕ → Type 0
NoColon c = c ≢ b':'

abbrev shifted : ℕ → Option ℕ → Option ℕ
shifted n none = none
shifted n (some k) = some (n + k)

shifted_zero : (o : Option ℕ) → o ≡ shifted 0 o
shifted_zero none = refl
shifted_zero (some k) = ap some (omega arith)

shifted-suc :
    (n : ℕ) (o : Option ℕ)
    → elim (shifted n o) as (λ _. Option ℕ) [ none ↦ none | some k ↦ some (k + 1) ]
      ≡ shifted (suc n) o
shifted-suc n none = refl
shifted-suc n (some k) = ap some (omega arith)

find_char-behind :
    (c : ℕ) (front s : Bytes)
    → find_char c (length front) (front ++ s) ≡ shifted (length front) (find_char c 0 s)
find_char-behind c [] s = shifted_zero (find_char c 0 s)
find_char-behind c (x ∷ front) s =
    rw (find_char-behind c front s) (shifted-suc (length front) (find_char c 0 s))

find_char-first :
    (a rest : Bytes) → All NoColon a → find_char b':' 0 (a ++ b':' ∷ rest) ≡ some (length a)
find_char-first [] rest h = refl
find_char-first (x ∷ a) rest h = ground (arith, find_char-first a rest h.1)

digits-NoColon : (f n : ℕ) → All NoColon (digits f n)
unfolding digits
digits-NoColon zero n = tt
digits-NoColon (suc f) n = elim (Bool-cases (ltb n 10)) [
  | inl t ↦ rw t (ground arith, tt)
  | inr e ↦
      rw e (All-append NoColon (digits f (n / 10)) _ (digits-NoColon f (n / 10)) (omega arith, tt))
]

format_unsigned-NoColon : (n : ℕ) → All NoColon (format_unsigned n)
unfolding format_unsigned
format_unsigned-NoColon n = digits-NoColon 20 n

-- The middle of three parts.
between_lem : (x y z : Bytes) → between (length x) (length x + length y) (x ++ (y ++ z)) ≡ y
between_lem x y z =
    rw (drop-append x (y ++ z)) (ap (λ n. take n (y ++ z)) (omega arith) ∙ take-append y z)

has_number-digit : (s : Bytes) → StartsWithDigit s → has_number s ≡ true
unfolding is_digit is_space
has_number-digit [] h = absurd h
has_number-digit (c ∷ s) h = ground arith

stoi-format_unsigned : (n : ℕ) → n < 2 ^ 32 → stoi (format_unsigned n) ≡ int_range (pos n)
unfolding stoi
stoi-format_unsigned n h =
    let reads : atol (format_unsigned n) ≡ pos n =
      ap atol (sym (append-nil (format_unsigned n)))
      ∙ atol-format_unsigned n [] (omega arith) (λ x. x) in
    rw (has_number-digit (format_unsigned n) (format_unsigned-StartsWithDigit n), reads) refl

behind_colon :
    (front y rest : Bytes) → drop (length front + length y + 1) (front ++ (y ++ b':' ∷ rest)) ≡ rest
behind_colon front y rest =
    ap (drop (length front + length y + 1))
      (sym (append_assoc (front ++ y) (codes ":") rest ∙ append_assoc front y (b':' ∷ rest)))
    ∙ ap (λ n. drop n (front ++ y ++ codes ":" ++ rest)) size
    ∙ drop-append (front ++ y ++ codes ":") rest
  where
    size : length front + length y + 1 ≡ length (front ++ y ++ codes ":")
    size = omega (arith, length-append (front ++ y) (codes ":"), length-append front y)

-- A part of the text that a colon ends: where the colon is, the part, and what is behind it.
part_lem :
    (front y rest text : Bytes) (n m : ℕ)
    → n ≡ length front
    → m ≡ length front + length y
    → text ≡ front ++ (y ++ b':' ∷ rest)
    → All NoColon y
    → (find_char b':' n text ≡ some m) × (between n m text ≡ y) × (drop (m + 1) text ≡ rest)
part_lem front y rest text n m en em et h =
    rw (en, em, et)
      (
        rw (find_char-behind b':' front (y ++ b':' ∷ rest), find_char-first y rest h) refl,
        between_lem front y (b':' ∷ rest),
        behind_colon front y rest,
      )

-- The three parts as `read_info` takes them.
read_numbers : Bytes → Bytes → Bytes → Option (Option (Bytes × ℕ × ℕ))
read_numbers address port group_id = elim (stoi port) [
  | none ↦ none
  | some p ↦ elim (stoi group_id) [
    | none ↦ none
    | some g ↦ some (some (address, cast (2 ^ 16) p, cast u32_mod g))
  ]
]

read_info-numbers :
    (text : Bytes) (pos2 pos3 : ℕ)
    → find_char b':' 10 text ≡ some pos2
    → find_char b':' (pos2 + 1) text ≡ some pos3
    → read_info text
      ≡ read_numbers (between 10 pos2 text) (between (pos2 + 1) pos3 text) (drop (pos3 + 1) text)
unfolding read_info read_numbers
read_info-numbers text pos2 pos3 f2 f3 = rw (read_info, f2, f3) refl

-- The three parts are read, whatever numbers they are taken for.
read_parts :
    (address port group_id text : Bytes)
    → text ≡ codes "MULTICAST:" ++ (address ++ b':' ∷ (port ++ b':' ∷ group_id))
    → All NoColon address
    → All NoColon port
    → read_info text ≡ read_numbers address port group_id
read_parts address port group_id text e h h' =
    let pos2 = 10 + length address in
    let pos3 = 10 + length address + 1 + length port in
    let (f2, b2, d2) =
      part_lem (codes "MULTICAST:") address (port ++ b':' ∷ group_id) text 10 pos2 refl refl e h in
    let front = codes "MULTICAST:" ++ address ++ codes ":" in
    let size : length front ≡ pos2 + 1 = omega (
      arith,
      length-append (codes "MULTICAST:" ++ address) (codes ":"),
      length-append (codes "MULTICAST:") address,
    ) in
    let (f3, b3, d3) =
      part_lem front port group_id text (pos2 + 1) pos3 (sym size) (omega (arith, size))
        (e
          ∙ sym (
              append_assoc (codes "MULTICAST:" ++ address) (codes ":") (port ++ b':' ∷ group_id)
              ∙ append_assoc (codes "MULTICAST:") address (b':' ∷ (port ++ b':' ∷ group_id))))
        h' in
    read_info-numbers text pos2 pos3 f2 f3 ∙ rw (b2, b3, d3) refl

numbers_lem :
    (address : Bytes) (port group_id : ℕ)
    → port < 2 ^ 16
    → group_id < u32_mod
    → read_numbers address (format_unsigned port) (format_unsigned group_id)
      ≡ (if ltb group_id (2 ^ 31) then some (some (address, port, group_id)) else none)
unfolding read_numbers
numbers_lem address port group_id small fits =
    ground (arith, stoi-format_unsigned port (omega arith), stoi-format_unsigned group_id fits)

-- The client reads the address, the port and the number of the group that the server tells it, if the address has
-- no colon (is an IPv4 address) and the number is below 2^31; for a greater number, which the server may give
-- out too, `std::stoi` throws, and the client ends.
pub info_round_trip :
    (address : Bytes) (port group_id : ℕ)
    → All NoColon address
    → port < 2 ^ 16
    → group_id < u32_mod
    → read_info (multicast_info address port group_id)
      ≡ (if ltb group_id (2 ^ 31) then some (some (address, port, group_id)) else none)
unfolding multicast_info
info_round_trip address port group_id h small fits =
    let p = format_unsigned port in
    let g = format_unsigned group_id in
    read_parts address p g _
      (append_assoc (codes "MULTICAST:" ++ address ++ codes ":" ++ p) (codes ":") g
        ∙ append_assoc (codes "MULTICAST:" ++ address ++ codes ":") p (b':' ∷ g)
        ∙ append_assoc (codes "MULTICAST:" ++ address) (codes ":") (p ++ b':' ∷ g)
        ∙ append_assoc (codes "MULTICAST:") address (b':' ∷ (p ++ b':' ∷ g)))
      h (format_unsigned-NoColon port)
    ∙ numbers_lem address port group_id small fits
