-- ===== src/BinaryStream/Bounds.antt =====
-- Reading a string: what is given and what throws.
use mathlib.Core.Path.{subst}
use asio_kcp.Prelude.{
  ℕ, ◌+◌, ◌*◌, ◌-◌, ◌<◌, ◌≤◌, ◌^◌, ◌≡◌, refl, ap, ◌∙◌, u32_mod, lt→ltb, length-append, true, false,
  ◌&&◌, [], ◌∷◌, ◌++◌, Option, none, some, Bytes, length, take, drop, ltb, leb, if◌then◌else◌,
  arith, Bool-cases, inl, inr, leb→le, length-take, take-append-drop, append_assoc,
}
use asio_kcp.Prelude.Int.{ℤ, pos, negsuc}
use asio_kcp.BinaryStream.RoundTrip.{
  stream, unpack_front, read_front, unpack_chars_front, as_int-small, within-small, within-true,
}
use asio_kcp.BinaryStream.{
  Input, read, unpack, to_int, unpack_chars, unpack_string, fits, unpack_text, c_text,
}

-- The string at the front of what is left, and the stream behind it. The four bytes of its length come first,
-- the low one first; a length of 2^31 or more is negative.
abbrev pub string_front : Bytes → Bytes → Option (Input × Bytes)
string_front before (a ∷ b ∷ c ∷ d ∷ rest) =
    let n = a + 256 * b + 65536 * c + 16777216 * d in
    if ltb n (2 ^ 31) && leb n (length rest)
    then some (
      record { read_buf = before ++ (a ∷ b ∷ c ∷ d ∷ rest); read_pos = length before + 4 + n },
      take n rest,
    )
    else none
string_front before _ = none

-- Fewer than four bytes are left.
too_short :
    (before after : Bytes)
    → length (before ++ after) + 4 < 2 ^ 31
    → length after < 4
    → unpack_string (stream before after) ≡ none
unfolding unpack_string read
too_short before after h few =
    let long = length-append before after in
    rw
      (
        unpack_string,
        read,
        within-true (length before) (before ++ after) (omega (arith, long)) (omega (arith, h)),
        as_int-small (length before + 4) (omega (arith, h, long)),
        within-small (length before + 4) (before ++ after) (omega (arith, h)),
        leb_false (length before + 4) (length (before ++ after)) (omega (arith, long, few)),
      )
      refl
  where
    leb_false : (m n : ℕ) → n < m → leb m n ≡ false
    leb_false m n lt = ground arith

chars_front :
    (n : ℕ) (before rest : Bytes)
    → length (before ++ rest) < 2 ^ 31
    → n ≤ length rest
    → unpack_chars n (stream before rest)
      ≡ some (stream (before ++ take n rest) (drop n rest), take n rest)
chars_front n before rest h le =
    let all = take-append-drop n rest in
    let size : length (take n rest) ≡ n = omega (arith, length-take n rest) in
    subst
      (λ m.
        unpack_chars m (stream before rest)
        ≡ some (stream (before ++ take n rest) (drop n rest), take n rest))
      size
      (subst
        (λ r.
          unpack_chars (length (take n rest)) (stream before r)
          ≡ some (stream (before ++ take n rest) (drop n rest), take n rest))
        all
        (unpack_chars_front (take n rest) before (drop n rest)
          (omega (arith, h, ap (λ r. length (before ++ r)) all))))

abbrev number : ℕ → ℕ → ℕ → ℕ → ℕ
number a b c d = a + 256 * b + 65536 * c + 16777216 * d

number_lem : (a b c d : ℕ) → a + 256 * (b + 256 * (c + 256 * d)) ≡ number a b c d
number_lem a b c d = omega arith

int_of :
    (a b c d : ℕ) → number a b c d < 2 ^ 31 → to_int (a ∷ b ∷ c ∷ d ∷ []) ≡ pos (number a b c d)
unfolding to_int
int_of a b c d h = rw (number_lem a b c d, lt→ltb (number a b c d) (2 ^ 31) h) refl

negative_int :
    (a b c d : ℕ)
    → ltb (number a b c d) (2 ^ 31) ≡ false
    → to_int (a ∷ b ∷ c ∷ d ∷ []) ≡ negsuc (u32_mod - 1 - number a b c d)
unfolding to_int
negative_int a b c d f = rw (number_lem a b c d, f) refl

fits_lem :
    (n : ℕ) (before four rest : Bytes)
    → length four ≡ 4
    → length (before ++ (four ++ rest)) < 2 ^ 31
    → fits (pos n) (stream before (four ++ rest)) ≡ leb n (length rest)
unfolding fits
fits_lem n before four rest size h =
    rw (fits, as_int-small (length (before ++ (four ++ rest))) h)
      (ap (leb n)
        (omega (arith, length-append before (four ++ rest), length-append four rest, size)))

-- The stream behind a string.
behind :
    (before four rest : Bytes) (n : ℕ)
    → length four ≡ 4
    → n ≤ length rest
    → stream (before ++ four ++ take n rest) (drop n rest)
      ≡ record { read_buf = before ++ (four ++ rest); read_pos = length before + 4 + n }
behind before four rest n size le =
    ap (λ b. record { read_buf = b; read_pos = length (before ++ four ++ take n rest) }) buf
    ∙ ap (λ p. record { read_buf = before ++ (four ++ rest); read_pos = p }) position
  where
    buf : before ++ four ++ take n rest ++ drop n rest ≡ before ++ (four ++ rest)
    buf =
        append_assoc (before ++ four) (take n rest) (drop n rest)
        ∙ ap (◌++◌ (before ++ four)) (take-append-drop n rest)
        ∙ append_assoc before four rest

    position : length (before ++ four ++ take n rest) ≡ length before + 4 + n
    position = omega (
      arith,
      length-append (before ++ four) (take n rest),
      length-append before four,
      length-take n rest,
      size,
    )

no_string :
    (before four rest : Bytes) (z : ℤ)
    → length (before ++ (four ++ rest)) < 2 ^ 31
    → length four ≡ 4
    → to_int four ≡ z
    → fits z (stream before (four ++ rest)) ≡ false
    → unpack_string (stream before (four ++ rest)) ≡ none
unfolding unpack_string
no_string before four rest z h size e f =
    let front =
      subst (λ n. read (pos n) (stream before (four ++ rest)) ≡ some four) size
        (read_front before four rest h) in
    rw (unpack_string, front, e, f) refl

a_string :
    (before four rest : Bytes) (n : ℕ)
    → length (before ++ (four ++ rest)) < 2 ^ 31
    → length four ≡ 4
    → to_int four ≡ pos n
    → fits (pos n) (stream before (four ++ rest)) ≡ true
    → n ≤ length rest
    → unpack_string (stream before (four ++ rest))
      ≡ some (
        record { read_buf = before ++ (four ++ rest); read_pos = length before + 4 + n },
        take n rest,
      )
unfolding unpack_string
a_string before four rest n h size e t le =
    let front =
      subst (λ m. read (pos m) (stream before (four ++ rest)) ≡ some four) size
        (read_front before four rest h) in
    let taken =
      subst
        (λ m.
          unpack (pos m) (stream before (four ++ rest)) ≡ some (stream (before ++ four) rest, four))
        size (unpack_front before four rest h) in
    rw
      (
        unpack_string,
        front,
        e,
        t,
        taken,
        e,
        chars_front n (before ++ four) rest (rw (append_assoc before four rest) h) le,
      )
      (ap (λ i. some (i, take n rest)) (behind before four rest n size le))

-- `UnpackString`, wherever the position is and whatever the buffer holds: with `before` read and `after` left,
-- it gives the bytes that follow the length, as many as that says, and moves behind them, if four
-- bytes are left, the length is not negative and so many bytes follow; otherwise it throws. The buffer has at least
-- four bytes less than 2^31, so that no int overflows.
pub unpack_string_lem :
    (before after : Bytes)
    → length (before ++ after) + 4 < 2 ^ 31
    → unpack_string (stream before after) ≡ string_front before after
unfolding fits
unpack_string_lem before [] h = too_short before [] h (omega arith)
unpack_string_lem before (a ∷ []) h = too_short before (a ∷ []) h (omega arith)
unpack_string_lem before (a ∷ b ∷ []) h = too_short before (a ∷ b ∷ []) h (omega arith)
unpack_string_lem before (a ∷ b ∷ c ∷ []) h = too_short before (a ∷ b ∷ c ∷ []) h (omega arith)
unpack_string_lem before (a ∷ b ∷ c ∷ d ∷ rest) h =
    let four = a ∷ b ∷ c ∷ d ∷ [] in
    let n = number a b c d in
    let small : length (before ++ (four ++ rest)) < 2 ^ 31 = omega (arith, h) in
    let room = fits_lem n before four rest (omega arith) small in
    elim (Bool-cases (ltb n (2 ^ 31))) [
      | inl t ↦
          let e = int_of a b c d (ground arith) in
          elim (Bool-cases (leb n (length rest))) [
            | inl u ↦
                a_string before four rest n small (omega arith) e (room ∙ u)
                  (leb→le n (length rest) u)
                ∙ rw (t, u) refl
            | inr u ↦
                no_string before four rest (pos n) small (omega arith) e (room ∙ u) ∙ rw (t, u) refl
          ]
      | inr f ↦
          no_string before four rest _ small (omega arith) (negative_int a b c d f) refl ∙ rw f refl
    ]

-- A string that is read by its size (`Unpack(int)`) ends at its first NUL: what is read back from packed
-- bytes is their part before it, if they are fewer than 1024.
pub unpack_text_cut :
    (beyond bytes after : Bytes)
    → length bytes < 1024
    → length (bytes ++ after) < 2 ^ 31
    → unpack_text beyond (pos (length bytes)) (stream [] (bytes ++ after))
      ≡ some (stream bytes after, c_text bytes)
unfolding unpack_text
unpack_text_cut beyond bytes after h h' =
    rw (unpack_text, unpack_front [] bytes after h', lt→ltb (length bytes) 1024 h) refl
