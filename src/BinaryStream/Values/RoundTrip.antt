-- ===== src/BinaryStream/Values/RoundTrip.antt =====
-- Values, strings and wide strings in one stream.
use mathlib.Core.Path.{subst}
use asio_kcp.Prelude.{
  ℕ, ◌+◌, ◌*◌, ◌/◌, ◌%◌, ◌<◌, ◌^◌, ◌≡◌, refl, ap, List, [], ◌∷◌, ◌++◌, Option, none, some, Bytes,
  length, map, append-nil, append_assoc, length-append, All, arith,
}
use asio_kcp.Prelude.Int.{pos}
use asio_kcp.BinaryStream.{Output, Input, output, input, pack_string, unpack, unpack_string}
use asio_kcp.BinaryStream.RoundTrip.{
  pack_at_end, pack_string_at_end, unpack_string_front, unpack_front, stream, encoded,
}
use asio_kcp.BinaryStream.Values.{
  Pod, pack_value, unpack_value, wide_bytes, wide_chars, pack_wstring, unpack_wstring,
}

-- What is packed.
pub data Item : Type 1 where
  value : (t : Pod) → t.Value → Item
  text : Bytes → Item
  wide : List ℕ → Item

-- What is asked for when one is unpacked.
pub data Kind : Type 1 where
  value_of_type : Pod → Kind
  a_text a_wide : Kind

abbrev pub kind : Item → Kind
kind (value t v) = value_of_type t
kind (text s) = a_text
kind (wide ws) = a_wide

abbrev pub pack_item : Item → Output → Option Output
pack_item (value t v) o = pack_value t v o
pack_item (text s) o = pack_string s o
pack_item (wide ws) o = pack_wstring ws o

abbrev pub unpack_item : Kind → Input → Option (Input × Item)
unpack_item (value_of_type t) i = elim (unpack_value t i) [
  | none ↦ none
  | some (i', v) ↦ some (i', value t v)
]
unpack_item a_text i = elim (unpack_string i) [ none ↦ none | some (i', s) ↦ some (i', text s) ]
unpack_item a_wide i = elim (unpack_wstring i) [ none ↦ none | some (i', ws) ↦ some (i', wide ws) ]

abbrev pub pack_items : List Item → Output → Option Output
pack_items [] o = some o
pack_items (x ∷ xs) o = elim (pack_item x o) [ none ↦ none | some o' ↦ pack_items xs o' ]

abbrev pub unpack_items : List Kind → Input → Option (Input × List Item)
unpack_items [] i = some (i, [])
unpack_items (k ∷ ks) i = elim (unpack_item k i) [
  | none ↦ none
  | some (i', x) ↦ elim (unpack_items ks i') [ none ↦ none | some (last, xs) ↦ some (last, x ∷ xs) ]
]

-- A wide character has 32 bits.
abbrev pub IsPackable : Item → Type 0
IsPackable (value t v) = Unit {0}
IsPackable (text s) = Unit {0}
IsPackable (wide ws) = All (λ c. c < 2 ^ 32) ws

-- The bytes that an item takes.
abbrev pub item_size : Item → ℕ
item_size (value t v) = t.size_of
item_size (text s) = 4 + length s
item_size (wide ws) = 4 + 4 * length ws

abbrev pub items_size : List Item → ℕ
items_size [] = 0
items_size (x ∷ xs) = item_size x + items_size xs

abbrev encoded_item : Item → Bytes
encoded_item (value t v) = t.bytes_of v
encoded_item (text s) = encoded s
encoded_item (wide ws) = encoded (wide_bytes ws)

char_value :
    (n : ℕ)
    → n < 2 ^ 32
    → n % 256 + 256 * (n / 256 % 256 + 256 * (n / 2 ^ 16 % 256 + 256 * (n / 2 ^ 24 % 256))) ≡ n
char_value n h = omega arith

wide_chars-wide_bytes : (ws : List ℕ) → All (λ c. c < 2 ^ 32) ws → wide_chars (wide_bytes ws) ≡ ws
wide_chars-wide_bytes [] h = refl
wide_chars-wide_bytes (c ∷ ws) (h, hs) = rw (char_value c h, wide_chars-wide_bytes ws hs) refl

length-wide_bytes : (ws : List ℕ) → length (wide_bytes ws) ≡ 4 * length ws
length-wide_bytes [] = refl
length-wide_bytes (c ∷ ws) = omega (arith, length-wide_bytes ws)

length-encoded_item : (x : Item) → length (encoded_item x) ≡ item_size x
length-encoded_item (value t v) = t.length_bytes_of v
length-encoded_item (text s) = omega arith
length-encoded_item (wide ws) = omega (arith, length-wide_bytes ws)

pack_item_at_end :
    (x : Item) (buf : Bytes)
    → length (buf ++ encoded_item x) < 2 ^ 31
    → pack_item x (output buf) ≡ some (output (buf ++ encoded_item x))
unfolding pack_value pack_wstring
pack_item_at_end (value t v) buf h =
    pack_at_end (t.bytes_of v) buf (omega (arith, length-append buf (t.bytes_of v)))
pack_item_at_end (text s) buf h = pack_string_at_end s buf h
pack_item_at_end (wide ws) buf h = pack_string_at_end (wide_bytes ws) buf h

unpack_value_front :
    (t : Pod) (v : t.Value) (before after : Bytes)
    → length (before ++ (t.bytes_of v ++ after)) < 2 ^ 31
    → unpack_value t (stream before (t.bytes_of v ++ after))
      ≡ some (stream (before ++ t.bytes_of v) after, v)
unfolding unpack_value
unpack_value_front t v before after h =
    let taken =
      subst
        (λ n.
          unpack (pos n) (stream before (t.bytes_of v ++ after))
          ≡ some (stream (before ++ t.bytes_of v) after, t.bytes_of v))
        (t.length_bytes_of v) (unpack_front before (t.bytes_of v) after h) in
    rw (unpack_value, taken)
      (ap (λ u. some (stream (before ++ t.bytes_of v) after, u)) (t.value_of_bytes_of v))

unpack_wstring_front :
    (ws : List ℕ) (before after : Bytes)
    → length (before ++ (encoded (wide_bytes ws) ++ after)) < 2 ^ 31
    → All (λ c. c < 2 ^ 32) ws
    → unpack_wstring (stream before (encoded (wide_bytes ws) ++ after))
      ≡ some (stream (before ++ encoded (wide_bytes ws)) after, ws)
unfolding unpack_wstring
unpack_wstring_front ws before after h hs =
    rw (unpack_wstring, unpack_string_front (wide_bytes ws) before after h)
      (ap (λ u. some (stream (before ++ encoded (wide_bytes ws)) after, u))
        (wide_chars-wide_bytes ws hs))

unpack_item_front :
    (x : Item) (before after : Bytes)
    → length (before ++ (encoded_item x ++ after)) < 2 ^ 31
    → IsPackable x
    → unpack_item (kind x) (stream before (encoded_item x ++ after))
      ≡ some (stream (before ++ encoded_item x) after, x)
unpack_item_front (value t v) before after h p =
    rw (unpack_item, unpack_value_front t v before after h) refl
unpack_item_front (text s) before after h p =
    rw (unpack_item, unpack_string_front s before after h) refl
unpack_item_front (wide ws) before after h p =
    rw (unpack_item, unpack_wstring_front ws before after h p) refl

abbrev items_encoded : List Item → Bytes
items_encoded [] = []
items_encoded (x ∷ xs) = encoded_item x ++ items_encoded xs

length-items_encoded : (xs : List Item) → length (items_encoded xs) ≡ items_size xs
length-items_encoded [] = refl
length-items_encoded (x ∷ xs) = omega (
  arith,
  length-append (encoded_item x) (items_encoded xs),
  length-encoded_item x,
  length-items_encoded xs,
)

pack_items_at_end :
    (xs : List Item) (buf : Bytes)
    → length (buf ++ items_encoded xs) < 2 ^ 31
    → pack_items xs (output buf) ≡ some (output (buf ++ items_encoded xs))
pack_items_at_end [] buf h = rw (append-nil buf) refl
pack_items_at_end (x ∷ xs) buf h =
    let all : length (buf ++ encoded_item x ++ items_encoded xs) < 2 ^ 31 =
      rw (append_assoc buf (encoded_item x) (items_encoded xs)) h in
    rw
      (
        pack_items,
        pack_item_at_end x buf
            (omega (arith, all, length-append (buf ++ encoded_item x) (items_encoded xs))),
        pack_items_at_end xs (buf ++ encoded_item x) all,
        append_assoc buf (encoded_item x) (items_encoded xs),
      )
      refl

unpack_items_front :
    (xs : List Item) (before after : Bytes)
    → length (before ++ (items_encoded xs ++ after)) < 2 ^ 31
    → All IsPackable xs
    → unpack_items (map kind xs) (stream before (items_encoded xs ++ after))
      ≡ some (stream (before ++ items_encoded xs) after, xs)
unpack_items_front [] before after h p = rw (append-nil before) refl
unpack_items_front (x ∷ xs) before after h (p, ps) =
    let h' = rw (append_assoc (encoded_item x) (items_encoded xs) after) at h in
    rw
      (
        unpack_items,
        append_assoc (encoded_item x) (items_encoded xs) after,
        unpack_item_front x before (items_encoded xs ++ after) h' p,
        unpack_items_front xs (before ++ encoded_item x) after
            (rw (append_assoc before (encoded_item x) (items_encoded xs ++ after)) h') ps,
        append_assoc before (encoded_item x) (items_encoded xs),
      )
      refl

-- Whatever is packed into a new buffer, values of types that are copied byte by byte, strings and wide
-- strings in any order, is unpacked from it by the same types in the same order, whatever bytes it has, and
-- nothing of the buffer is left; no check fails and no int wraps on the way. All the bytes together, with
-- four for the length of each string, are fewer than 2^31, and the characters of a wide string are
-- below 2^32.
pub items_round_trip :
    (xs : List Item)
    → items_size xs < 2 ^ 31
    → All IsPackable xs
    → (o : Output) × ((pack_items xs (output []) ≡ some o)
        × (unpack_items (map kind xs) (input o.write_buf)
            ≡ some (record { read_buf = o.write_buf; read_pos = length o.write_buf }, xs)))
unfolding output input
items_round_trip xs h p =
    let few : length (items_encoded xs) < 2 ^ 31 = omega (arith, length-items_encoded xs) in
    (
      output (items_encoded xs),
      (
        pack_items_at_end xs [] few,
        rw (append-nil (items_encoded xs)) at
            (unpack_items_front xs [] [] (rw (append-nil (items_encoded xs)) few) p),
      ),
    )
