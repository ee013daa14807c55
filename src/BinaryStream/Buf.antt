-- ===== src/BinaryStream/Buf.antt =====
-- essential/binary_stream/binary_buf.hpp: the buffer itself, whose methods call those of a `std::string`.
-- An offset behind the end throws `std::out_of_range`, `none`; a count that goes past the end is cut.
-- Capacities are left out.
pub mod Order
pub mod Files
use asio_kcp.Prelude.{
  ℕ, zero, suc, ◌+◌, ◌*◌, ◌/◌, ◌%◌, Bool, true, false, not, ◌&&◌, ◌||◌, List, [], ◌∷◌, ◌++◌, Option,
  none, some, Bytes, length, take, drop, replicate, get_elem?, ltb, leb, ◌==◌, if◌then◌else◌,
}
use asio_kcp.BinaryStream.{c_text}
use asio_kcp.Strutil.CStyle.{convert_to_c_style_str, convert_from_c_style_str}
use asio_kcp.Strutil.HexDump.{to_hex_dump_text}

unfoldable pub append : Bytes → Bytes → Bytes
append right buf = buf ++ right

-- `[_Roff, _Roff + _Count)` of the other buffer.
abbrev pub part : ℕ → ℕ → Bytes → Bytes
part roff count right = take count (drop roff right)

unfoldable pub append_part : Bytes → ℕ → ℕ → Bytes → Option Bytes
append_part right roff count buf =
    if leb roff (length right) then some (buf ++ part roff count right) else none

unfoldable pub append_chars : ℕ → ℕ → Bytes → Bytes
append_chars count ch buf = buf ++ replicate count ch

-- The private overload for a text that a NUL ends.
unfoldable pub append_text : Bytes → Bytes → Bytes
append_text ptr buf = buf ++ c_text ptr

unfoldable pub replace_range : ℕ → ℕ → Bytes → Bytes → Option Bytes
replace_range off n0 ptr buf =
    if leb off (length buf) then some (take off buf ++ ptr ++ drop (off + n0) buf) else none

unfoldable pub insert : ℕ → Bytes → Bytes → Option Bytes
insert off ptr buf =
    if leb off (length buf) then some (take off buf ++ ptr ++ drop off buf) else none

unfoldable pub insert_part : ℕ → Bytes → ℕ → ℕ → Bytes → Option Bytes
unfolding insert
insert_part off right roff count buf =
    if leb roff (length right) then insert off (part roff count right) buf else none

unfoldable pub insert_text : ℕ → Bytes → Bytes → Option Bytes
unfolding insert
insert_text off ptr buf = insert off (c_text ptr) buf

unfoldable pub insert_chars : ℕ → ℕ → ℕ → Bytes → Option Bytes
unfolding insert
insert_chars off count ch buf = insert off (replicate count ch) buf

unfoldable pub erase : ℕ → ℕ → Bytes → Option Bytes
erase off count buf =
    if leb off (length buf) then some (take off buf ++ drop (off + count) buf) else none

-- `operator[]`: behind the last byte there is a NUL, and nothing further on may be read.
unfoldable pub at : ℕ → Bytes → Option ℕ
at off buf = if off == length buf then some 0 else get_elem? buf off

-- The order of `std::string`, byte by byte.
unfoldable pub less : Bytes → Bytes → Bool
less buf [] = false
less [] (y ∷ ys) = true
less (x ∷ xs) (y ∷ ys) = ltb x y || (x == y && less xs ys)

unfoldable pub equal : Bytes → Bytes → Bool
equal [] [] = true
equal (x ∷ xs) (y ∷ ys) = x == y && equal xs ys
equal _ _ = false

unfoldable pub not_equal : Bytes → Bytes → Bool
unfolding equal
not_equal a b = not (equal a b)

unfoldable pub greater : Bytes → Bytes → Bool
unfolding less
greater a b = less b a

unfoldable pub less_or_equal : Bytes → Bytes → Bool
unfolding less
less_or_equal a b = not (less b a)

unfoldable pub greater_or_equal : Bytes → Bytes → Bool
unfolding less
greater_or_equal a b = not (less a b)

unfoldable pub to_cstyle_str : Bytes → Bytes
unfolding convert_to_c_style_str
to_cstyle_str buf = convert_to_c_style_str buf

unfoldable pub to_hex_dump_str : Bytes → Option Bytes
unfolding to_hex_dump_text
to_hex_dump_str buf = to_hex_dump_text (length buf + 1) buf 32 []

-- `os << buf`, with what has been written before.
unfoldable pub write_stream : Bytes → Bytes → Bytes
unfolding convert_to_c_style_str
write_stream os buf = os ++ convert_to_c_style_str buf

-- `std::getline`: the line, and what is left.
abbrev pub getline : Bytes → Bytes × Bytes
getline [] = ([], [])
getline (c ∷ is) = let (line, rest) = getline is in if c == 10 then ([], is) else (c ∷ line, rest)

-- `is >> buf`: the buffer, and what is left to read.
unfoldable pub read_stream : Bytes → Bytes × Bytes
unfolding convert_from_c_style_str
read_stream is = let (line, rest) = getline is in (convert_from_c_style_str line, rest)

-- The loop of `LoadFromFile`, which reads up to 10 KB a turn. There is a turn for every 10 KB.
unfoldable pub load_loop : ℕ → Bytes → Bytes → Bytes
load_loop zero file buf = buf
load_loop (suc fuel) file buf =
    let read_buf = take (1024 * 10) file in
    let more = load_loop fuel (drop (1024 * 10) file) (buf ++ read_buf) in
    if length read_buf == 0 then buf else more

-- The contents of the file, `none` if it cannot be opened. The buffer that is loaded is cleared first.
unfoldable pub load_from_file : Option Bytes → Bytes → Bytes × Bool
unfolding load_loop
load_from_file none buf = ([], false)
load_from_file (some file) buf = (load_loop (length file + 1) file [], true)

-- A size_t in memory, the low byte first.
abbrev pub size_bytes : ℕ → ℕ → Bytes
size_bytes zero n = []
size_bytes (suc w) n = n % 256 ∷ size_bytes w (n / 256)

abbrev pub size_of_bytes : Bytes → ℕ
size_of_bytes [] = 0
size_of_bytes (b ∷ bs) = b + 256 * size_of_bytes bs

-- The buffer and the offset behind it. To read past the memory is undefined: `none`.
unfoldable pub load_from_string_front_is_size : Bytes → Option (Bytes × ℕ)
load_from_string_front_is_size memory =
    let n = size_of_bytes (take 8 memory) in
    if leb 8 (length memory) && leb n (length (drop 8 memory))
    then some (take n (drop 8 memory), n + 8)
    else none
