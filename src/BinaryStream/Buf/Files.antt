-- ===== src/BinaryStream/Buf/Files.antt =====
-- The buffer written to a stream and read back, and loaded from a file or from memory.
use asio_kcp.Prelude.{
  ℕ, zero, suc, ◌+◌, ◌/◌, ◌<◌, ◌≡◌, ◌≢◌, refl, sym, ap, ◌∙◌, Bool, true, false, [], ◌∷◌, ◌++◌,
  Option, none, some, Bytes, length, length-append, length-drop, take, drop, take-append,
  drop-append, take-append-drop, append_assoc, append-nil, leb, le→leb, ◌==◌, arith, if◌then◌else◌,
  All, All-append, u64_mod,
}
use asio_kcp.Strutil.CStyle.{shift_map, convert_to_c_style_str, c_style_round_trip}
use asio_kcp.BinaryStream.Buf.{
  getline, write_stream, read_stream, load_loop, load_from_file, size_bytes, size_of_bytes,
  load_from_string_front_is_size,
}

abbrev InLine : ℕ → Type 0
InLine c = c ≢ 10

char-InLine : (c : ℕ) → All InLine (if leb c 127 then shift_map c else c ∷ [])
unfolding shift_map
char-InLine c = ground arith

c_style-InLine : (s : Bytes) → All InLine (convert_to_c_style_str s)
unfolding convert_to_c_style_str
c_style-InLine [] = tt
c_style-InLine (c ∷ s) = All-append InLine _ _ (char-InLine c) (c_style-InLine s)

getline-line : (line rest : Bytes) → All InLine line → getline (line ++ 10 ∷ rest) ≡ (line, rest)
getline-line [] rest h = refl
getline-line (c ∷ line) rest h = ground (arith, getline-line line rest h.1)

-- A buffer that is written to a stream as a line is read back from it with all its bytes, newlines and NULs
-- among them, and the stream is left behind this line.
pub stream_round_trip :
    (buf rest : Bytes) → read_stream (write_stream [] buf ++ 10 ∷ rest) ≡ (buf, rest)
unfolding read_stream write_stream
stream_round_trip buf rest =
    rw (getline-line (convert_to_c_style_str buf) rest (c_style-InLine buf), c_style_round_trip buf)
      refl

full_turn : (n : ℕ) (stay on : Bytes) → (if suc n == 0 then stay else on) ≡ on
full_turn n stay on = ground arith

load_loop_lem :
    (fuel : ℕ) (file buf : Bytes) → length file < fuel → load_loop fuel file buf ≡ buf ++ file
unfolding load_loop
load_loop_lem zero file buf h = absurd (omega arith)
load_loop_lem (suc fuel) [] buf h = sym (append-nil buf)
load_loop_lem (suc fuel) (c ∷ file) buf h =
    full_turn (length first) buf (load_loop fuel left (buf ++ c ∷ first))
    ∙ load_loop_lem fuel left (buf ++ c ∷ first) (omega (arith, length-drop 10239 file))
    ∙ same
  where
    first : Bytes
    first = take 10239 file

    left : Bytes
    left = drop 10239 file

    same : (buf ++ c ∷ first) ++ left ≡ buf ++ c ∷ file
    same = append_assoc buf (c ∷ first) left ∙ ap (λ l. buf ++ c ∷ l) (take-append-drop 10239 file)

-- With one turn more than the file has bytes, `LoadFromFile` reads the whole file, whatever its length and
-- whatever the buffer held before; if the file cannot be opened it returns false and the buffer is empty.
pub load_from_file_lem :
    (file : Option Bytes) (buf : Bytes)
    → load_from_file file buf
      ≡ elim file as (λ _. Bytes × Bool) [ none ↦ ([], false) | some contents ↦ (contents, true) ]
unfolding load_from_file
load_from_file_lem none buf = refl
load_from_file_lem (some file) buf = rw (load_loop_lem (length file + 1) file [] (omega arith)) refl

-- The number needs so many bytes at most.
abbrev Narrow : ℕ → ℕ → Type 0
Narrow zero n = n ≡ 0
Narrow (suc w) n = Narrow w (n / 256)

size_round_trip : (w n : ℕ) → Narrow w n → size_of_bytes (size_bytes w n) ≡ n
size_round_trip zero n h = sym h
size_round_trip (suc w) n h = omega (arith, size_round_trip w (n / 256) h)

size-Narrow : (n : ℕ) → n < u64_mod → Narrow 8 n
size-Narrow n h = omega arith

behind_header :
    (header s rest : Bytes)
    → length header ≡ 8
    → size_of_bytes header ≡ length s
    → load_from_string_front_is_size (header ++ (s ++ rest)) ≡ some (s, length s + 8)
unfolding load_from_string_front_is_size
behind_header header s rest e n =
    rw
      (
        ap (λ k. take k (header ++ (s ++ rest))) (sym e) ∙ take-append header (s ++ rest),
        ap (λ k. drop k (header ++ (s ++ rest))) (sym e) ∙ drop-append header (s ++ rest),
        n,
        take-append s rest,
        le→leb 8 (length (header ++ (s ++ rest))) (omega (arith, length-append header (s ++ rest))),
        le→leb (length s) (length (s ++ rest)) (omega (arith, length-append s rest)),
      )
      refl

-- A size_t in front of as many bytes is taken off memory with them, whatever follows: the buffer holds these
-- bytes, and the offset is behind them.
pub load_from_string_round_trip :
    (s rest : Bytes)
    → length s < u64_mod
    → load_from_string_front_is_size (size_bytes 8 (length s) ++ s ++ rest) ≡ some (s, length s + 8)
load_from_string_round_trip s rest h =
    behind_header (size_bytes 8 (length s)) s rest refl
      (size_round_trip 8 (length s) (size-Narrow (length s) h))
