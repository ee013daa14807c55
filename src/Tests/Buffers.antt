-- ===== src/Tests/Buffers.antt =====
-- Buffers that grow and buffers of a fixed size, evaluated.
use asio_kcp.Prelude.{◌≡◌, [], ◌∷◌, ◌++◌, codes, none, some, arith, length, if◌then◌else◌}
use asio_kcp.BinaryStream
use asio_kcp.BinaryStream.{Output, output, replace}
use asio_kcp.BinaryStream.Buf.{
  write_stream, read_stream, size_bytes, load_from_string_front_is_size,
}
use asio_kcp.BinaryStream.Buf.Files.{stream_round_trip, load_from_string_round_trip}
use asio_kcp.BinaryStream.Appointed
use asio_kcp.BinaryStream.Appointed.{has_room, appointed_lem}

stream_round_trip_example :
    read_stream (write_stream [] (10 ∷ 0 ∷ 65 ∷ 200 ∷ []) ++ 10 ∷ codes "next")
    ≡ (10 ∷ 0 ∷ 65 ∷ 200 ∷ [], codes "next")
stream_round_trip_example = stream_round_trip (10 ∷ 0 ∷ 65 ∷ 200 ∷ []) (codes "next")

loads_three :
    load_from_string_front_is_size (size_bytes 8 3 ++ codes "abc" ++ codes "rest")
    ≡ some (codes "abc", 11)
loads_three = load_from_string_round_trip (codes "abc") (codes "rest") (omega arith)

abbrev eight_bytes : Output
eight_bytes = record { write_buf = 0 ∷ 0 ∷ 0 ∷ 0 ∷ 0 ∷ 0 ∷ 0 ∷ 0 ∷ []; write_pos = 0 }

appointed_lem_example :
    (Appointed.pack (codes "ab") eight_bytes ≡ (
      if has_room (codes "ab") eight_bytes 0
      then BinaryStream.pack (codes "ab") eight_bytes
      else none))
    × (Appointed.pack_string (codes "ab") eight_bytes ≡ (
        if has_room (codes "ab") eight_bytes 4
        then BinaryStream.pack_string (codes "ab") eight_bytes
        else none))
    × ((o' : Output) → Appointed.pack (codes "ab") eight_bytes ≡ some o' → length o'.write_buf ≡ 8)
    × (Appointed.pack (codes "ab") (output eight_bytes.write_buf) ≡ none)
appointed_lem_example =
    appointed_lem (codes "ab") eight_bytes (omega arith, omega arith) (omega arith)
