-- ===== src/BinaryStream/RoundTrip.antt =====
-- What is packed is unpacked.
use asio_kcp.Prelude.{
  ℕ, zero, suc, ◌+◌, ◌-◌, ◌*◌, ◌/◌, ◌%◌, ◌^◌, ◌<◌, ◌≤◌, ◌≡◌, refl, sym, ap, u32_mod, ◌∙◌, true, [],
  ◌∷◌, ◌++◌, some, Bytes, length, take-all, length-append, take, drop, replicate, leb, lt→ltb,
  le→leb, length-replicate, if◌then◌else◌, append-nil, append_assoc, arith, take-append,
  drop-append, Bool-cases, inl, inr,
}
use asio_kcp.Prelude.Int.{pos, negsuc}
use asio_kcp.BinaryStream.{
  Input, resize, replace, output, set_write_pos, pack, pack_to, int_bytes, pack_string, read,
  unpack, move_read_pos, set_read_pos, within, as_int, fits, to_int, unpack_chars, unpack_string,
}

drop-all : (n : ℕ) (xs : Bytes) → length xs ≤ n → drop n xs ≡ []
drop-all zero [] h = refl
drop-all (suc n) [] h = refl
drop-all zero (x ∷ xs) h = absurd (omega (arith, h))
drop-all (suc n) (x ∷ xs) h = drop-all n xs (omega (arith, h))

pub as_int-small : (n : ℕ) → n < 2 ^ 31 → as_int n ≡ pos n
unfolding as_int
as_int-small n h = rw (mod_small n h, lt→ltb n (2 ^ 31) h) refl
  where
    mod_small : (n : ℕ) → n < 2 ^ 31 → n % u32_mod ≡ n
    mod_small n h = omega arith

pub as_int_wrapped : (n : ℕ) → 2 ^ 31 ≤ n → n < 2 ^ 32 → as_int n ≡ negsuc (u32_mod - 1 - n)
unfolding as_int
as_int_wrapped n h h' = ground arith

-- In a buffer whose size is an int.
pub within-small : (p : ℕ) (buf : Bytes) → length buf < 2 ^ 31 → within p buf ≡ leb p (length buf)
unfolding within
within-small p buf h = rw (within, as_int-small (length buf) h) refl

pub within-true : (p : ℕ) (buf : Bytes) → p ≤ length buf → length buf < 2 ^ 31 → within p buf ≡ true
within-true p buf le h = within-small p buf h ∙ le→leb p (length buf) le

grown :
    (bytes buf big : Bytes)
    → take (length buf) big ≡ buf
    → length buf ≤ length big
    → length big ≤ length buf + length bytes
    → replace (length buf) bytes big ≡ some (buf ++ bytes)
unfolding replace
grown bytes buf big e h h' =
    rw
      (
        le→leb (length buf) (length big) h,
        e,
        drop-all (length buf + length bytes) big h',
        append-nil (buf ++ bytes),
      )
      refl

-- The buffer when there is room for the bytes.
with_room : (bytes buf : Bytes) → Bytes
with_room bytes buf =
    if leb (length buf + length bytes) (length buf)
    then buf
    else resize (length buf + length bytes) buf

with_room_lem :
    (bytes buf : Bytes)
    → (take (length buf) (with_room bytes buf) ≡ buf)
      × (length buf ≤ length (with_room bytes buf))
      × (length (with_room bytes buf) ≤ length buf + length bytes)
unfolding with_room resize
with_room_lem bytes buf =
    let big = length buf + length bytes in
    let same = take-all big buf (omega arith) in
    let zeros : Bytes = replicate (big - length buf) 0 in
    elim (Bool-cases (leb big (length buf))) [
      | inr f ↦
          rw (f, same)
            (
              take-append buf zeros,
              omega (arith, length-append buf zeros),
              omega (arith, length-append buf zeros, length-replicate {A = ℕ} (big - length buf) 0),
            )
      | inl t ↦ rw t (take-all (length buf) buf (omega arith), omega arith, omega arith)
    ]

at_end :
    (p : ℕ) (buf : Bytes)
    → p ≡ length buf
    → length buf < 2 ^ 31
    → set_write_pos (pos p) (record { write_buf = buf; write_pos = 0 }) ≡ some (output buf)
unfolding set_write_pos output
at_end p buf e h = rw (e, within-true (length buf) buf (omega arith) h) refl

-- At the end of the buffer `pack` appends.
pub pack_at_end :
    (bytes buf : Bytes)
    → length buf + length bytes < 2 ^ 31
    → pack bytes (output buf) ≡ some (output (buf ++ bytes))
unfolding pack output with_room set_write_pos
pack_at_end bytes buf h =
    let (e, low, high) = with_room_lem bytes buf in
    let need = length buf + length bytes in
    rw
      (
        pack,
        as_int-small need h,
        pack_to,
        within-small need buf (omega arith),
        grown bytes buf (with_room bytes buf) e low high,
      )
      (at_end need (buf ++ bytes) (sym (length-append buf bytes))
        (omega (arith, length-append buf bytes)))

bytes_value :
    (n : ℕ)
    → n < 2 ^ 31
    → n % 256 + 256 * (n / 256 % 256 + 256 * (n / 2 ^ 16 % 256 + 256 * (n / 2 ^ 24 % 256))) ≡ n
bytes_value n h = omega arith

read_int : (n : ℕ) → n < 2 ^ 31 → to_int (int_bytes n) ≡ pos n
unfolding to_int
read_int n h = rw (bytes_value n h, lt→ltb n (2 ^ 31) h) refl

-- The stream over a buffer whose part `before` has been read.
abbrev pub stream : Bytes → Bytes → Input
stream before after = record { read_buf = before ++ after; read_pos = length before }

pub read_front :
    (before bytes after : Bytes)
    → length (before ++ (bytes ++ after)) < 2 ^ 31
    → read (pos (length bytes)) (stream before (bytes ++ after)) ≡ some bytes
unfolding read
read_front before bytes after h =
    let whole = before ++ (bytes ++ after) in
    let long = length-append before (bytes ++ after) in
    let rest = length-append bytes after in
    rw
      (
        within-true (length before) whole (omega (arith, long)) h,
        as_int-small (length before + length bytes) (omega (arith, long, rest)),
        within-true (length before + length bytes) whole (omega (arith, long, rest)) h,
        drop-append before (bytes ++ after),
        take-append bytes after,
      )
      refl

pub unpack_front :
    (before bytes after : Bytes)
    → length (before ++ (bytes ++ after)) < 2 ^ 31
    → unpack (pos (length bytes)) (stream before (bytes ++ after))
      ≡ some (stream (before ++ bytes) after, bytes)
unfolding unpack move_read_pos set_read_pos
unpack_front before bytes after h =
    let whole = before ++ (bytes ++ after) in
    let long = length-append before (bytes ++ after) in
    let rest = length-append bytes after in
    rw
      (
        unpack,
        read_front before bytes after h,
        as_int-small (length before + length bytes) (omega (arith, long, rest)),
        within-true (length before + length bytes) whole (omega (arith, long, rest)) h,
        append_assoc before bytes after,
        length-append before bytes,
      )
      refl

-- A string as it is packed.
abbrev pub encoded : Bytes → Bytes
encoded s = int_bytes (length s) ++ s

pub pack_string_at_end :
    (s buf : Bytes)
    → length (buf ++ encoded s) < 2 ^ 31
    → pack_string s (output buf) ≡ some (output (buf ++ encoded s))
unfolding pack_string
pack_string_at_end s buf h =
    let header = int_bytes (length s) in
    let long = length-append buf (encoded s) in
    let whole = length-append header s in
    rw
      (
        pack_string,
        pack_at_end header buf (omega (arith, long, whole)),
        as_int-small (length s) (omega (arith, long, whole)),
        take-all (length s) s (omega arith),
      )
      (pack_at_end s (buf ++ header) (omega (arith, long, whole, length-append buf header))
        ∙ ap (λ b. some (output b)) (append_assoc buf header s))

pub unpack_chars_front :
    (s before after : Bytes)
    → length (before ++ (s ++ after)) < 2 ^ 31
    → unpack_chars (length s) (stream before (s ++ after)) ≡ some (stream (before ++ s) after, s)
unfolding unpack_chars
unpack_chars_front [] before after h = rw (append-nil before) refl
unpack_chars_front (c ∷ s) before after h =
    rw
      (
        unpack_chars,
        unpack_front before (c ∷ []) (s ++ after) h,
        unpack_chars_front s (before ++ c ∷ []) after
            (rw (append_assoc before (c ∷ []) (s ++ after)) h),
        append_assoc before (c ∷ []) s,
      )
      refl

room :
    (before s after : Bytes)
    → length (before ++ (encoded s ++ after)) < 2 ^ 31
    → fits (pos (length s)) (stream before (encoded s ++ after)) ≡ true
unfolding fits
room before s after h =
    rw (fits, as_int-small (length (before ++ (encoded s ++ after))) h)
      (le→leb _ _ (
        omega (
          arith,
          length-append before (encoded s ++ after),
          length-append (encoded s) after,
          length-append (int_bytes (length s)) s,
        )))

pub unpack_string_front :
    (s before after : Bytes)
    → length (before ++ (encoded s ++ after)) < 2 ^ 31
    → unpack_string (stream before (encoded s ++ after))
      ≡ some (stream (before ++ encoded s) after, s)
unfolding unpack_string
unpack_string_front s before after h =
    let header = int_bytes (length s) in
    let short : length s < 2 ^ 31 = omega (
      arith,
      length-append before (encoded s ++ after),
      length-append (encoded s) after,
      length-append header s,
    ) in
    let front = read_front before header (s ++ after) h in
    let taken = unpack_front before header (s ++ after) h in
    rw
      (
        unpack_string,
        front,
        read_int (length s) short,
        room before s after h,
        taken,
        read_int (length s) short,
        unpack_chars_front s (before ++ header) after
            (rw (append_assoc before header (s ++ after)) h),
        append_assoc before header s,
      )
      refl
