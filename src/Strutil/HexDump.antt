-- ===== src/Strutil/HexDump.antt =====
-- `ToHexDumpText`: a text in lines of hexadecimal digits and characters.
use asio_kcp.Prelude.{
  ℕ, zero, suc, ◌+◌, ◌-◌, ◌*◌, ◌/◌, ◌%◌, ◌<◌, ◌≤◌, ◌≡◌, refl, ap, ◌∙◌, false, ◌||◌, List, [], ◌∷◌,
  ◌++◌, Option, none, some, Bytes, arith, length, length-drop, length-take, All, append-nil, take,
  drop, take-append-drop, replicate, ltb, leb, ◌==◌, if◌then◌else◌, Bool-cases, inl, inr, ltb→lt,
}
use asio_kcp.Strutil.CStyle.{hex_digit}

-- "%02X " of a byte.
abbrev pub hex_text : ℕ → Bytes
hex_text c = hex_digit (c / 16) ∷ hex_digit (c % 16) ∷ b' ' ∷ []

-- The bytes from the place `i` on; a space more after the places 7, 15 and 23.
unfoldable pub hex_part : ℕ → Bytes → Bytes
hex_part i [] = []
hex_part i (c ∷ s) =
    hex_text c ++ (if i == 7 || i == 15 || i == 23 then b' ' ∷ [] else []) ++ hex_part (i + 1) s

abbrev pub spaces : ℕ → Bytes
spaces n = replicate n b' '

-- A byte below a space, or beyond ASCII, is negative or a control character as a `char`.
unfoldable pub text_part : Bytes → Bytes
text_part [] = []
text_part (c ∷ s) = (if ltb c 32 || leb 128 c then b'.' else c) ∷ text_part s

unfoldable pub hexdump_oneline : Bytes → Bytes → ℕ → Bytes
unfolding hex_part text_part
hexdump_oneline prefix line width =
    prefix
    ++ hex_part 0 line
    ++ spaces (3 * (width - length line))
    ++ (if leb (length line) 8
        then spaces 3
        else if leb (length line) 16
        then spaces 2
        else if leb (length line) 24
        then spaces 1
        else [])
    ++ b':' ∷ b' ' ∷ text_part line
    ++ 10 ∷ []

-- The lines that the loop makes of a text; `none` where the fuel does not suffice.
unfoldable pub lines : ℕ → ℕ → Bytes → Option (List Bytes)
lines zero width s = none
lines (suc fuel) width s =
    let rest = lines fuel width (drop width s) in
    if ltb width (length s)
    then elim rest [ none ↦ none | some ls ↦ some (take width s ∷ ls) ]
    else if ltb 0 (length s)
    then some (s ∷ [])
    else some []

abbrev pub dump_lines : Bytes → ℕ → List Bytes → Bytes
dump_lines prefix width [] = []
dump_lines prefix width (l ∷ ls) = hexdump_oneline prefix l width ++ dump_lines prefix width ls

unfoldable pub to_hex_dump_text : ℕ → Bytes → ℕ → Bytes → Option Bytes
unfolding lines hexdump_oneline
to_hex_dump_text fuel s width prefix = elim (lines fuel width s) [
  | none ↦ none
  | some ls ↦ some (dump_lines prefix width ls)
]

abbrev pub join : List Bytes → Bytes
join [] = []
join (l ∷ ls) = l ++ join ls

abbrev pub AreLines : ℕ → List Bytes → Type 0
AreLines width ls = All (λ l. (1 ≤ length l) × (length l ≤ width)) ls

short : (width : ℕ) (s : Bytes) → ltb width (length s) ≡ false → length s ≤ width
short width s h = ground arith

empty : (s : Bytes) → ltb 0 (length s) ≡ false → [] ≡ s
empty [] h = refl
empty (c ∷ s) h = absurd (ground arith)

lines_lem :
    (fuel width : ℕ) (s : Bytes)
    → 1 ≤ width
    → length s < fuel
    → (ls : List Bytes) × ((lines fuel width s ≡ some ls) × (join ls ≡ s) × AreLines width ls)
unfolding lines
lines_lem zero width s w h = absurd (omega (arith, h))
lines_lem (suc fuel) width s w h = elim (Bool-cases (ltb width (length s))) [
  | inl t ↦
      let long = ltb→lt width (length s) t in
      let (ls, (e, j, all)) =
        lines_lem fuel width (drop width s) w (omega (arith, h, w, long, length-drop width s)) in
      (
        take width s ∷ ls,
        (
          rw (lines, t, e) refl,
          ap (λ x. take width s ++ x) j ∙ take-append-drop width s,
          ((omega (arith, w, long, length-take width s), omega (arith, length-take width s)), all),
        ),
      )
  | inr f ↦ elim (Bool-cases (ltb 0 (length s))) [
    | inl t ↦ (
      s ∷ [],
      (
        rw (lines, f, t) refl,
        append-nil s,
        ((omega (arith, ltb→lt 0 (length s) t), short width s f), tt),
      ),
    )
    | inr n ↦ ([], (rw (lines, f, n) refl, empty s n, tt))
  ]
]

lines_zero : (fuel c : ℕ) (s : Bytes) → lines fuel 0 (c ∷ s) ≡ none
unfolding lines
lines_zero zero c s = refl
lines_zero (suc fuel) c s = ground (arith, lines_zero fuel c s)

-- For every width but 0 the dump ends, with fuel for one turn more than the text has bytes: the lines that
-- it shows are not empty, none is longer than the width, and one after the other they are the text.
pub to_hex_dump_text_lem :
    (fuel width : ℕ) (s prefix : Bytes)
    → 1 ≤ width
    → length s < fuel
    → (ls : List Bytes) × ((to_hex_dump_text fuel s width prefix
          ≡ some (dump_lines prefix width ls))
        × (join ls ≡ s)
        × AreLines width ls)
unfolding to_hex_dump_text
to_hex_dump_text_lem fuel width s prefix w h =
    let (ls, (e, j, all)) = lines_lem fuel width s w h in
    (ls, (rw (to_hex_dump_text, e) refl, j, all))

-- With the width 0 the loop takes nothing off a text that is not empty, and goes on for ever.
pub to_hex_dump_text_zero :
    (fuel c : ℕ) (s prefix : Bytes) → to_hex_dump_text fuel (c ∷ s) 0 prefix ≡ none
unfolding to_hex_dump_text
to_hex_dump_text_zero fuel c s prefix = rw (to_hex_dump_text, lines_zero fuel c s) refl
