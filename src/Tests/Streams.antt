-- ===== src/Tests/Streams.antt =====
-- Strings in a buffer, evaluated.
use asio_kcp.Prelude.{ℕ, ◌≡◌, refl, List, [], ◌∷◌, none, some, arith, length}
use asio_kcp.BinaryStream.{Output, output, input, unpack_string}
use asio_kcp.BinaryStream.Values.{Pod}
use asio_kcp.BinaryStream.Values.RoundTrip.{
  Item, value, text, wide, value_of_type, a_text, a_wide, pack_items, unpack_items,
  items_round_trip,
}
use asio_kcp.BinaryStream.Bounds.{string_front, unpack_string_lem}
use asio_kcp.BinaryStream.RoundTrip.{stream}

abbrev char : Pod
char = record {
  Value = ℕ;
  size_of = 1;
  bytes_of = λ c. c ∷ [];
  value_of = λ bytes. elim bytes [ [] ↦ 0 | c ∷ rest ↦ c ];
  length_bytes_of = λ c. refl;
  value_of_bytes_of = λ c. refl;
}

abbrev items : List Item
items = value char 7 ∷ text (0 ∷ 255 ∷ []) ∷ wide (0x4e2d ∷ 0x6587 ∷ []) ∷ text [] ∷ []

items_round_trip_example :
    (o : Output) × ((pack_items items (output []) ≡ some o)
      × (unpack_items (value_of_type char ∷ a_text ∷ a_wide ∷ a_text ∷ []) (input o.write_buf)
          ≡ some (record { read_buf = o.write_buf; read_pos = length o.write_buf }, items)))
items_round_trip_example =
    items_round_trip items (omega arith) (tt, (tt, ((omega arith, (omega arith, tt)), (tt, tt))))

-- A string of two bytes behind one that is read.
unpack_string_lem_example :
    unpack_string (stream (9 ∷ []) (2 ∷ 0 ∷ 0 ∷ 0 ∷ 65 ∷ 66 ∷ 67 ∷ []))
    ≡ string_front (9 ∷ []) (2 ∷ 0 ∷ 0 ∷ 0 ∷ 65 ∷ 66 ∷ 67 ∷ [])
unpack_string_lem_example =
    unpack_string_lem (9 ∷ []) (2 ∷ 0 ∷ 0 ∷ 0 ∷ 65 ∷ 66 ∷ 67 ∷ []) (omega arith)

-- What that is, and a length that exceeds the buffer.
two_bytes :
    string_front (9 ∷ []) (2 ∷ 0 ∷ 0 ∷ 0 ∷ 65 ∷ 66 ∷ 67 ∷ [])
    ≡ some (record { read_buf = 9 ∷ 2 ∷ 0 ∷ 0 ∷ 0 ∷ 65 ∷ 66 ∷ 67 ∷ []; read_pos = 7 }, 65 ∷ 66 ∷ [])
two_bytes = refl

too_long : string_front [] (9 ∷ 0 ∷ 0 ∷ 0 ∷ 65 ∷ []) ≡ none
too_long = refl
