-- ===== src/BinaryStream.antt =====
-- essential/binary_stream: numbers and strings packed into a buffer (binary_ostream.h) and read from one
-- (binary_istream.h), on the buffer of binary_buf.hpp. A failed check throws: `none`. The machine puts the
-- low byte of an int first. Positions are ints that are not negative; sums of them, and the size of a buffer,
-- wrap around as ints do.
pub mod RoundTrip
pub mod Values
pub mod Bounds
pub mod Buf
pub mod Appointed
use asio_kcp.Prelude.{
  ℕ, zero, suc, ◌+◌, ◌-◌, ◌*◌, ◌/◌, ◌%◌, ◌^◌, Bool, true, false, ◌&&◌, List, [], ◌∷◌, ◌++◌, Option,
  none, some, Bytes, length, take, drop, replicate, ltb, leb, ◌==◌, u32_mod, if◌then◌else◌,
}
use asio_kcp.Prelude.Int.{ℤ, pos, negsuc, sub_ℕ}

-- `_binary_ostream` with its buffer.
pub record Output : Type 0 where
  pub write_buf : Bytes
  pub write_pos : ℕ

-- `_binary_istream` with its buffer.
pub record Input : Type 0 where
  pub read_buf : Bytes
  pub read_pos : ℕ

-- `_binary_buf::resize`: new bytes are NULs.
unfoldable pub resize : ℕ → Bytes → Bytes
resize n buf = take n buf ++ replicate (n - length buf) 0

-- What becomes of a number in an int.
unfoldable pub as_int : ℕ → ℤ
as_int n = let w = n % u32_mod in if ltb w (2 ^ 31) then pos w else negsuc (u32_mod - 1 - w)

-- `p <= EndPos()`, for a position that is not negative; `EndPos` is the size as an int.
unfoldable pub within : ℕ → Bytes → Bool
unfolding as_int
within p buf = elim (as_int (length buf)) [ pos end ↦ leb p end | negsuc n ↦ false ]

-- `_binary_buf::replace` of as many bytes as are put in: an offset behind the end throws.
unfoldable pub replace : ℕ → Bytes → Bytes → Option Bytes
replace off ptr buf =
    if leb off (length buf) then some (take off buf ++ ptr ++ drop (off + length ptr) buf) else none

-- The constructor: writing goes on at the end.
unfoldable pub output : Bytes → Output
output buf = record { write_buf = buf; write_pos = length buf }

unfoldable pub input : Bytes → Input
input buf = record { read_buf = buf; read_pos = 0 }

-- A position and an offset.
abbrev pub moved : ℕ → ℤ → ℤ
unfolding as_int
moved p (pos n) = as_int (p + n)
moved p (negsuc n) = sub_ℕ p (n + 1)

unfoldable pub set_write_pos : ℤ → Output → Option Output
unfolding within
set_write_pos (negsuc n) o = none
set_write_pos (pos p) o = if within p o.write_buf then some (record o { write_pos = p }) else none

unfoldable pub move_write_pos : ℤ → Output → Option Output
unfolding set_write_pos as_int
move_write_pos offset o = set_write_pos (moved o.write_pos offset) o

-- From the position `need` behind the bytes on, which is an int: one that has become negative is refused in
-- the end by `SetWritePos`, whatever `replace` does before.
abbrev pub pack_to : ℤ → Bytes → Output → Option Output
unfolding resize replace within set_write_pos
pack_to (negsuc n) bytes o = none
pack_to (pos need) bytes o =
    elim (replace o.write_pos bytes
      (if within need o.write_buf then o.write_buf else resize need o.write_buf)) [
        | none ↦ none
        | some buf ↦ set_write_pos (pos need) (record o { write_buf = buf })
      ]

-- The result of `Pack` is the new position. The size of the bytes is an int.
unfoldable pub pack : Bytes → Output → Option Output
unfolding resize replace within set_write_pos as_int
pack bytes o = pack_to (as_int (o.write_pos + length bytes)) bytes o

abbrev pub int_bytes : ℕ → Bytes
int_bytes n = n % 256 ∷ n / 256 % 256 ∷ n / 2 ^ 16 % 256 ∷ n / 2 ^ 24 % 256 ∷ []

-- The size of the string as an int, of which a negative one is refused.
abbrev pub pack_sized : ℤ → Bytes → Output → Option Output
unfolding pack
pack_sized (negsuc n) s o = none
pack_sized (pos n) s o = pack (take n s) o

unfoldable pub pack_string : Bytes → Output → Option Output
unfolding pack as_int
pack_string s o = elim (pack (int_bytes (length s)) o) [
  | none ↦ none
  | some o' ↦ pack_sized (as_int (length s)) s o'
]

unfoldable pub set_read_pos : ℤ → Input → Option Input
unfolding within
set_read_pos (negsuc n) i = none
set_read_pos (pos p) i = if within p i.read_buf then some (record i { read_pos = p }) else none

unfoldable pub move_read_pos : ℤ → Input → Option Input
unfolding set_read_pos as_int
move_read_pos offset i = set_read_pos (moved i.read_pos offset) i

-- `Read` into a buffer of the size that is read. A sum that has become negative passes the check, and what is
-- behind the buffer is read, which is undefined: `none` too.
abbrev pub ends_within : ℤ → Bytes → Bool
unfolding within
ends_within (negsuc n) buf = false
ends_within (pos end) buf = within end buf

unfoldable pub read : ℤ → Input → Option Bytes
unfolding within as_int
read (negsuc n) i = none
read (pos n) i =
    if within i.read_pos i.read_buf && ends_within (as_int (i.read_pos + n)) i.read_buf
    then some (take n (drop i.read_pos i.read_buf))
    else none

unfoldable pub unpack : ℤ → Input → Option (Input × Bytes)
unfolding read move_read_pos
unpack size i = elim (read size i) [
  | none ↦ none
  | some bytes ↦ elim (move_read_pos size i) [ none ↦ none | some i' ↦ some (i', bytes) ]
]

-- The text up to its first NUL.
abbrev pub c_text : Bytes → Bytes
c_text [] = []
c_text (c ∷ s) = if c == 0 then [] else c ∷ c_text s

-- `Unpack(int)`, which makes a string of the buffer as of a C text. A buffer for 1024 bytes or more has no
-- NUL behind them: `beyond` stands for what follows it in memory.
unfoldable pub unpack_text : Bytes → ℤ → Input → Option (Input × Bytes)
unfolding unpack
unpack_text beyond size i = elim (unpack size i) [
  | none ↦ none
  | some (i', bytes) ↦
      some (i', c_text (if ltb (length bytes) 1024 then bytes else bytes ++ beyond))
]

-- The int that four bytes make.
unfoldable pub to_int : Bytes → ℤ
to_int (a ∷ b ∷ c ∷ d ∷ rest) =
    let n = a + 256 * (b + 256 * (c + 256 * d)) in
    if ltb n (2 ^ 31) then pos n else negsuc (u32_mod - 1 - n)
to_int _ = pos 0

-- `Unpack<char>` again and again.
unfoldable pub unpack_chars : ℕ → Input → Option (Input × Bytes)
unfolding unpack
unpack_chars zero i = some (i, [])
unpack_chars (suc n) i = elim (unpack (pos 1) i) [
  | none ↦ none
  | some (i', bytes) ↦ elim (unpack_chars n i') [
    | none ↦ none
    | some (last, more) ↦ some (last, bytes ++ more)
  ]
]

-- The length is looked at before anything is taken.
abbrev pub fits : ℤ → Input → Bool
unfolding as_int
fits (negsuc n) i = false
fits (pos n) i = elim (as_int (length i.read_buf)) [
  | pos end ↦ leb n (end - i.read_pos - 4)
  | negsuc m ↦ false
]

abbrev pub length_of : ℤ → ℕ
length_of (pos n) = n
length_of (negsuc n) = 0

unfoldable pub unpack_string : Input → Option (Input × Bytes)
unfolding read unpack to_int unpack_chars as_int
unpack_string i = elim (read (pos 4) i) [
  | none ↦ none
  | some bytes ↦
      if fits (to_int bytes) i
      then elim (unpack (pos 4) i) [
        | none ↦ none
        | some (i', bytes') ↦ unpack_chars (length_of (to_int bytes')) i'
      ]
      else none
]
