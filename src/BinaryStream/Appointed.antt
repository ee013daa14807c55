-- ===== src/BinaryStream/Appointed.antt =====
-- essential/binary_stream/appointed_buf.h: a buffer over memory of a fixed size, and `_binary_ostream` on it.
-- A failed check throws: `none`.
use asio_kcp.Prelude.{
  Bool-cases, inl, inr, refl, true, false, ◌∙◌, ℕ, Bool, ◌+◌, ◌-◌, ◌≤◌, ◌≡◌, ◌&&◌, ◌++◌, Option,
  none, some, Bytes, length, take, drop, replicate, get_elem?, length-append, length-take,
  length-drop, ltb, leb, le→leb, leb→le, take-all, sym, ap, ◌<◌, ◌^◌, if◌then◌else◌, arith,
}
use asio_kcp.Prelude.Int.{ℤ, pos, negsuc}
use asio_kcp.BinaryStream
use asio_kcp.BinaryStream.{Output, set_write_pos, within, as_int, output, int_bytes}
use asio_kcp.BinaryStream.RoundTrip.{as_int-small, as_int_wrapped, within-small, within-true}

-- The size may not be changed.
unfoldable pub resize : ℕ → Bytes → Option Bytes
resize newsize buf = none

unfoldable pub at : ℕ → Bytes → Option ℕ
at off buf = if ltb off (length buf) then get_elem? buf off else none

unfoldable pub replace : ℕ → Bytes → Bytes → Option Bytes
replace off ptr buf =
    if ltb off (length buf) && leb (length ptr) (length buf) && leb (off + length ptr) (length buf)
    then some (take off buf ++ ptr ++ drop (off + length ptr) buf)
    else none

unfoldable pub clear : Bytes → Bytes
clear buf = replicate (length buf) 0

-- `operator=`. A buffer that is assigned to itself stays as it is.
unfoldable pub assign : Bytes → Bytes → Option Bytes
assign b buf =
    if leb (length b) (length buf) then some (b ++ replicate (length buf - length b) 0) else none

-- `_binary_ostream::Pack` on this buffer, up to the position `need`.
abbrev pub pack_to : ℤ → Bytes → Output → Option Output
unfolding resize replace within set_write_pos
pack_to (negsuc n) bytes o = none
pack_to (pos need) bytes o =
    elim (if within need o.write_buf then some o.write_buf else resize need o.write_buf) [
      | none ↦ none
      | some buf ↦ elim (replace o.write_pos bytes buf) [
        | none ↦ none
        | some buf' ↦ set_write_pos (pos need) (record o { write_buf = buf' })
      ]
    ]

unfoldable pub pack : Bytes → Output → Option Output
unfolding resize replace within set_write_pos as_int
pack bytes o = pack_to (as_int (o.write_pos + length bytes)) bytes o

abbrev pub pack_sized : ℤ → Bytes → Output → Option Output
unfolding pack
pack_sized (negsuc n) s o = none
pack_sized (pos n) s o = pack (take n s) o

unfoldable pub pack_string : Bytes → Output → Option Output
unfolding pack as_int
pack_string s o = elim (pack (int_bytes (length s)) o) [
  | none ↦ none
  | some o' ↦ pack_sized (as_int (length s)) s o'
]

-- What the machine has ints for: the size of the buffer, which the constructor asserts, and the position.
abbrev pub HoldsInts : Output → Type 0
HoldsInts o = (length o.write_buf < 2 ^ 31) × (o.write_pos < 2 ^ 31)

-- The position is before the end, and the bytes fit from it on.
abbrev pub has_room : Bytes → Output → ℕ → Bool
has_room bytes o n =
    ltb (o.write_pos + n) (length o.write_buf)
    && leb (o.write_pos + n + length bytes) (length o.write_buf)

length-replaced :
    (off : ℕ) (ptr buf : Bytes)
    → off + length ptr ≤ length buf
    → length (take off buf ++ ptr ++ drop (off + length ptr) buf) ≡ length buf
length-replaced off ptr buf h = omega (
  arith,
  length-append (take off buf ++ ptr) (drop (off + length ptr) buf),
  length-append (take off buf) ptr,
  length-take off buf,
  length-drop (off + length ptr) buf,
)

-- What `pack` of a growing buffer gives where the bytes fit.
written : Bytes → Output → Output
written bytes o = record {
  write_buf =
      take o.write_pos o.write_buf ++ bytes ++ drop (o.write_pos + length bytes) o.write_buf;
  write_pos = o.write_pos + length bytes;
}

some_inj : (a b : Output) → some a ≡ some b → a ≡ b
some_inj a b e = cc

growing_pack-written :
    (bytes : Bytes) (o : Output)
    → HoldsInts o
    → o.write_pos + length bytes ≤ length o.write_buf
    → BinaryStream.pack bytes o ≡ some (written bytes o)
unfolding BinaryStream.pack BinaryStream.replace set_write_pos written
growing_pack-written bytes o (small, _) h =
    let need = o.write_pos + length bytes in
    let same = length-replaced o.write_pos bytes o.write_buf h in
    rw
      (
        BinaryStream.pack,
        as_int-small need (omega arith),
        BinaryStream.pack_to,
        within-true need o.write_buf h small,
        le→leb o.write_pos (length o.write_buf) (omega arith),
        within-true need (take o.write_pos o.write_buf ++ bytes ++ drop need o.write_buf)
            (omega (arith, same)) (omega (arith, same)),
      )
      refl

room→le :
    (bytes : Bytes) (o : Output) (n : ℕ)
    → has_room bytes o n ≡ true
    → o.write_pos + n + length bytes ≤ length o.write_buf
room→le bytes o n h = ground arith

before_end :
    (bytes : Bytes) (o : Output)
    → has_room bytes o 0 ≡ true
    → ltb o.write_pos (length o.write_buf) ≡ true
before_end bytes o h = ground arith

fits_pack :
    (bytes : Bytes) (o : Output)
    → HoldsInts o
    → has_room bytes o 0 ≡ true
    → pack bytes o ≡ some (written bytes o)
unfolding pack resize replace set_write_pos written
fits_pack bytes o ints t =
    let need = o.write_pos + length bytes in
    let h = room→le bytes o 0 t in
    let same = length-replaced o.write_pos bytes o.write_buf (omega (arith, h)) in
    rw
      (
        pack,
        as_int-small need (omega (arith, h, ints.0)),
        pack_to,
        within-true need o.write_buf (omega (arith, h)) ints.0,
        before_end bytes o t,
        le→leb (length bytes) (length o.write_buf) (omega (arith, h)),
        le→leb need (length o.write_buf) (omega (arith, h)),
        within-true need (take o.write_pos o.write_buf ++ bytes ++ drop need o.write_buf)
            (omega (arith, same, h)) (omega (arith, same, ints.0)),
      )
      refl

no_fit_pack :
    (bytes : Bytes) (o : Output)
    → HoldsInts o
    → length bytes < 2 ^ 31
    → has_room bytes o 0 ≡ false
    → pack bytes o ≡ none
unfolding pack resize replace
no_fit_pack bytes o (small, position) short f =
    let need = o.write_pos + length bytes in
    elim (Bool-cases (leb (2 ^ 31) need)) [
      | inl t ↦
          rw (pack, as_int_wrapped need (leb→le (2 ^ 31) need t) (omega (arith, position, short)))
            refl
      | inr g ↦
          rw (pack, as_int-small need (ground arith), pack_to, within-small need o.write_buf small)
            (ground arith)
    ]

pack-written :
    (bytes : Bytes) (o : Output)
    → HoldsInts o
    → length bytes < 2 ^ 31
    → pack bytes o ≡ (if has_room bytes o 0 then some (written bytes o) else none)
pack-written bytes o ints short = elim (Bool-cases (has_room bytes o 0)) [
  | inl t ↦ fits_pack bytes o ints t ∙ rw t refl
  | inr f ↦ no_fit_pack bytes o ints short f ∙ rw f refl
]

length-written :
    (bytes : Bytes) (o : Output)
    → o.write_pos + length bytes ≤ length o.write_buf
    → length (written bytes o).write_buf ≡ length o.write_buf
unfolding written
length-written bytes o h = length-replaced o.write_pos bytes o.write_buf h

pack-growing :
    (bytes : Bytes) (o : Output)
    → HoldsInts o
    → length bytes < 2 ^ 31
    → pack bytes o ≡ (if has_room bytes o 0 then BinaryStream.pack bytes o else none)
pack-growing bytes o ints short = elim (Bool-cases (has_room bytes o 0)) [
  | inl t ↦
      let same = growing_pack-written bytes o ints (omega (arith, room→le bytes o 0 t)) in
      pack-written bytes o ints short ∙ rw (t, same) refl
  | inr f ↦ pack-written bytes o ints short ∙ rw f refl
]

-- The room for a string is room for its length, and then for its bytes.
string_room :
    (s : Bytes) (o : Output)
    → has_room s o 4 ≡ true
    → (has_room (int_bytes (length s)) o 0 ≡ true)
      × (has_room s (written (int_bytes (length s)) o) 0 ≡ true)
unfolding written
string_room s o h = ground (arith, length-replaced o.write_pos (int_bytes (length s)) o.write_buf)

no_string_room :
    (s : Bytes) (o : Output)
    → has_room s o 4 ≡ false
    → has_room (int_bytes (length s)) o 0 ≡ true
    → has_room s (written (int_bytes (length s)) o) 0 ≡ false
unfolding written
no_string_room s o h k =
    ground (arith, length-replaced o.write_pos (int_bytes (length s)) o.write_buf)

written-HoldsInts :
    (bytes : Bytes) (o : Output)
    → HoldsInts o
    → has_room bytes o 0 ≡ true
    → HoldsInts (written bytes o)
unfolding written
written-HoldsInts bytes o (small, _) t =
    let h = room→le bytes o 0 t in
    (
      omega (arith, length-replaced o.write_pos bytes o.write_buf (omega (arith, h)), small),
      omega (arith, h, small),
    )

pack_string-growing :
    (s : Bytes) (o : Output)
    → HoldsInts o
    → length s < 2 ^ 31
    → pack_string s o ≡ (if has_room s o 4 then BinaryStream.pack_string s o else none)
unfolding pack_string BinaryStream.pack_string
pack_string-growing s o ints short =
    let header = int_bytes (length s) in
    let size = as_int-small (length s) short in
    let all = take-all (length s) s (omega arith) in
    elim (Bool-cases (has_room s o 4)) [
      | inl t ↦
          let (k, k') = string_room s o t in
          let same = growing_pack-written header o ints (omega (arith, room→le header o 0 k)) in
          rw
            (
              t,
              pack_string,
              pack-written header o ints (omega arith),
              k,
              BinaryStream.pack_string,
              same,
              size,
              all,
            )
            (pack-growing s (written header o) (written-HoldsInts header o ints k) short
              ∙ rw k' refl)
      | inr f ↦ elim (Bool-cases (has_room header o 0)) [
        | inr g ↦ rw (f, pack_string, pack-written header o ints (omega arith), g) refl
        | inl k ↦
            rw (f, pack_string, pack-written header o ints (omega arith), k, size, all)
              (pack-growing s (written header o) (written-HoldsInts header o ints k) short
                ∙ rw (no_string_room s o f k) refl)
      ]
    ]

pack-length :
    (bytes : Bytes) (o o' : Output)
    → HoldsInts o
    → length bytes < 2 ^ 31
    → pack bytes o ≡ some o'
    → length o'.write_buf ≡ length o.write_buf
pack-length bytes o o' ints short e = elim (Bool-cases (has_room bytes o 0)) [
  | inl t ↦
      let same = some_inj (written bytes o) o' (sym (fits_pack bytes o ints t) ∙ e) in
      ap (λ u. length u.write_buf) (sym same)
      ∙ length-written bytes o (omega (arith, room→le bytes o 0 t))
  | inr f ↦ cc (no_fit_pack bytes o ints short f)
]

-- A stream on a buffer of a fixed size packs bytes as one on a buffer that grows does, if the position is before
-- the end and the bytes fit, and throws otherwise; it packs a string so if the bytes behind its length start
-- before the end and fit. The size of the buffer stays. A new stream, which starts at the end, throws at the first
-- call of `Pack`, even of nothing. The sizes of the buffer and the bytes, and the position, are ints.
pub appointed_lem :
    (bytes : Bytes) (o : Output)
    → HoldsInts o
    → length bytes < 2 ^ 31
    → (pack bytes o ≡ (if has_room bytes o 0 then BinaryStream.pack bytes o else none))
      × (pack_string bytes o
          ≡ (if has_room bytes o 4 then BinaryStream.pack_string bytes o else none))
      × ((o' : Output) → pack bytes o ≡ some o' → length o'.write_buf ≡ length o.write_buf)
      × (pack bytes (output o.write_buf) ≡ none)
unfolding output
appointed_lem bytes o ints short = (
  pack-growing bytes o ints short,
  pack_string-growing bytes o ints short,
  λ o' e. pack-length bytes o o' ints short e,
  pack-growing bytes (output o.write_buf) (ints.0, ints.0) short ∙ ground arith,
)
