-- ===== src/Tests/Texts.antt =====
-- The texts of the helpers, evaluated.
use asio_kcp.Prelude.{refl, ◌≡◌, List, [], ◌∷◌, Bytes, codes, some, arith}
use asio_kcp.Strutil.Names.{Lacks}
use asio_kcp.Strutil.CStyle.{convert_to_c_style_str, convert_from_c_style_str, c_style_round_trip}
use asio_kcp.Strutil.HexDump.{to_hex_dump_text, to_hex_dump_text_lem, dump_lines, join, AreLines}

c_style_round_trip_example :
    convert_from_c_style_str (convert_to_c_style_str (0 ∷ 9 ∷ 92 ∷ 65 ∷ 200 ∷ []))
    ≡ 0 ∷ 9 ∷ 92 ∷ 65 ∷ 200 ∷ []
c_style_round_trip_example = c_style_round_trip (0 ∷ 9 ∷ 92 ∷ 65 ∷ 200 ∷ [])

to_hex_dump_text_lem_example :
    (ls : List Bytes) × ((to_hex_dump_text 6 (codes "hello") 2 (codes "> ")
        ≡ some (dump_lines (codes "> ") 2 ls))
      × (join ls ≡ codes "hello")
      × AreLines 2 ls)
to_hex_dump_text_lem_example =
    to_hex_dump_text_lem 6 2 (codes "hello") (codes "> ") (omega arith) (omega arith)

no_dot : Lacks b'.' (codes "cpp")
no_dot = (refl, (refl, (refl, tt)))
