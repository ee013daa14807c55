-- ===== src/BinaryStream/Values.antt =====
-- essential/binary_stream: `Pack` and `Unpack` of a type, and of wide strings. A wide character has four
-- bytes, the low one first.
pub mod RoundTrip
use asio_kcp.Prelude.{ℕ, ◌+◌, ◌*◌, ◌≡◌, List, [], ◌∷◌, ◌++◌, Option, none, some, Bytes, length}
use asio_kcp.Prelude.Int.{pos}
use asio_kcp.BinaryStream.{Output, Input, pack, pack_string, unpack, unpack_string, int_bytes}

-- A type whose values are copied byte by byte. What is read of the bytes of a value is this value.
pub record Pod : Type 1 where
  pub Value : Type 0
  pub size_of : ℕ
  pub bytes_of : Value → Bytes
  pub value_of : Bytes → Value
  pub length_bytes_of : (v : Value) → length (bytes_of v) ≡ size_of
  pub value_of_bytes_of : (v : Value) → value_of (bytes_of v) ≡ v

-- `Pack<pack_type>`.
unfoldable pub pack_value : (t : Pod) → t.Value → Output → Option Output
unfolding pack
pack_value t v o = pack (t.bytes_of v) o

-- `Unpack<unpack_type>`.
unfoldable pub unpack_value : (t : Pod) → Input → Option (Input × t.Value)
unfolding unpack
unpack_value t i = elim (unpack (pos t.size_of) i) [
  | none ↦ none
  | some (i', bytes) ↦ some (i', t.value_of bytes)
]

-- The memory of a wide string.
abbrev pub wide_bytes : List ℕ → Bytes
wide_bytes [] = []
wide_bytes (c ∷ cs) = int_bytes c ++ wide_bytes cs

-- Bytes that do not make up a character are left.
abbrev pub wide_chars : Bytes → List ℕ
wide_chars (a ∷ b ∷ c ∷ d ∷ rest) = (a + 256 * (b + 256 * (c + 256 * d))) ∷ wide_chars rest
wide_chars _ = []

unfoldable pub pack_wstring : List ℕ → Output → Option Output
unfolding pack_string
pack_wstring wstr o = pack_string (wide_bytes wstr) o

unfoldable pub unpack_wstring : Input → Option (Input × List ℕ)
unfolding unpack_string
unpack_wstring i = elim (unpack_string i) [
  | none ↦ none
  | some (i', dst) ↦ some (i', wide_chars dst)
]
