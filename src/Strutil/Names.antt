-- ===== src/Strutil/Names.antt =====
-- File names, case and spaces in strutil.cpp. An `assert_check` that fails throws: `none`.
use asio_kcp.Prelude.{
  ℕ, suc, ◌+◌, ◌-◌, ◌<◌, ◌≡◌, ◌≢◌, ◌↔◌, refl, false, ◌&&◌, [], ◌∷◌, ◌++◌, Option, none, some, Bytes,
  arith, length, length-append, take, drop, take-append, ltb, leb, ◌==◌, if◌then◌else◌, All,
  Bool-cases, inl, inr, ==-refl, ==_iff,
}
use asio_kcp.Prelude.Int.{ℤ, pos, negsuc, sub_ℕ}

-- The last place of a character.
unfoldable pub rfind : ℕ → Bytes → Option ℕ
rfind c [] = none
rfind c (x ∷ s) = elim (rfind c s) [
  | some i ↦ some (suc i)
  | none ↦ if x == c then some 0 else none
]

-- The last check asks for a character before the dot.
unfoldable pub get_file_suffix : Bytes → Option Bytes
unfolding rfind
get_file_suffix file_name = elim (rfind b'.' file_name) [
  | none ↦ some []
  | some dot ↦
      if dot == length file_name - 1
      then some []
      else let suffix_len = length file_name - (dot + 1) in
        if ltb (dot + 1) (length file_name)
          && ltb 0 suffix_len
          && ltb suffix_len (length file_name - 1)
        then some (drop (dot + 1) file_name)
        else none
]

unfoldable pub get_file_without_suffix : Bytes → Bytes
unfolding rfind
get_file_without_suffix file_name = elim (rfind b'.' file_name) [
  | none ↦ []
  | some dot ↦ if dot == length file_name - 1 then [] else take dot file_name
]

unfoldable pub get_fill_path_by_full_path_name : Bytes → Option Bytes
unfolding rfind
get_fill_path_by_full_path_name full = elim (rfind b'\\' full) [
  | none ↦ none
  | some p ↦ some (take (p + 1) full)
]

-- A C text, which ends at a NUL.
abbrev pub c_text : Bytes → Bytes
c_text [] = []
c_text (c ∷ s) = if c == 0 then [] else c ∷ c_text s

unfoldable pub get_file_name_without_path : Bytes → Option Bytes
unfolding rfind
get_file_name_without_path full = elim (rfind b'\\' full) [
  | none ↦ none
  | some p ↦ some (c_text (drop (p + 1) full))
]

-- `tolower` in the C locale.
unfoldable pub tolower : ℕ → ℕ
tolower c = if leb b'A' c && leb c b'Z' then c + 32 else c

unfoldable pub to_lower : Bytes → Bytes
unfolding tolower
to_lower [] = []
to_lower (c ∷ s) = tolower c ∷ to_lower s

-- A byte as a `char`.
abbrev pub to_char : ℕ → ℤ
to_char c = if ltb c 128 then pos c else negsuc (255 - c)

-- The difference of the first characters that differ, else that of the sizes. `tolower` gives a negative
-- character back.
unfoldable pub compair_no_case : Bytes → Bytes → ℤ
unfolding tolower
compair_no_case [] rhs = sub_ℕ 0 (length rhs)
compair_no_case (c ∷ lhs) [] = pos (suc (length lhs))
compair_no_case (c ∷ lhs) (d ∷ rhs) =
    let rest = compair_no_case lhs rhs in
    if tolower c == tolower d then rest else char_difference (tolower c) (tolower d)
  where
    char_difference : ℕ → ℕ → ℤ
    char_difference a b =
        if leb 128 a && ltb b 128
        then negsuc (255 + b - a)
        else if ltb a 128 && leb 128 b
        then pos (a + 256 - b)
        else sub_ℕ a b

unfoldable pub cut_all_space : Bytes → Bytes
cut_all_space [] = []
cut_all_space (c ∷ s) = if c == b' ' then cut_all_space s else c ∷ cut_all_space s

-- A place where a character does not stand later.
abbrev pub Lacks : ℕ → Bytes → Type 0
Lacks c [] = Unit {0}
Lacks c (x ∷ s) = ((x == c) ≡ false) × Lacks c s

rfind-Lacks : (c : ℕ) (s : Bytes) → Lacks c s → rfind c s ≡ none
unfolding rfind
rfind-Lacks c [] h = refl
rfind-Lacks c (x ∷ s) (h, hs) = rw (rfind-Lacks c s hs, h) refl

rfind-last : (c : ℕ) (a b : Bytes) → Lacks c b → rfind c (a ++ c ∷ b) ≡ some (length a)
unfolding rfind
rfind-last c [] b h = rw (rfind-Lacks c b h, ==-refl c) refl
rfind-last c (x ∷ a) b h = rw (rfind-last c a b h) refl

drop-next : (a b : Bytes) (x : ℕ) → drop (length a + 1) (a ++ x ∷ b) ≡ b
drop-next [] b x = refl
drop-next (y ∷ a) b x =
    let e : suc (length a) + 1 ≡ suc (length a + 1) = omega arith in rw e (drop-next a b x)

-- The parts of a file name by its last dot, where both functions are given a name with a dot.
module _ (a b : Bytes) (last : Lacks b'.' b) where
  abbrev pub file_name : Bytes
  file_name = a ++ b'.' ∷ b

  length-file_name : length file_name ≡ length a + suc (length b)
  length-file_name = length-append a (b'.' ∷ b)

  suffix_part : drop (length a + 1) file_name ≡ b
  suffix_part = drop-next a b b'.'

  suffix_computed : get_file_suffix file_name ≡ (
      if length a == length file_name - 1
      then some []
      else if ltb (length a + 1) (length file_name)
          && ltb 0 (length file_name - (length a + 1))
          && ltb (length file_name - (length a + 1)) (length file_name - 1)
      then some (drop (length a + 1) file_name)
      else none)
  unfolding get_file_suffix
  suffix_computed = rw (get_file_suffix, rfind-last b'.' a b last) refl

  stem_computed :
      get_file_without_suffix file_name
      ≡ (if length a == length file_name - 1 then [] else take (length a) file_name)
  unfolding get_file_without_suffix
  stem_computed = rw (get_file_without_suffix, rfind-last b'.' a b last) refl

  -- A file name with a dot, of which `b` stands behind the last dot and `a` before it: where `b` is empty
  -- both functions give the empty text; else `GetFileWithoutSuffix` gives `a`, and `GetFileSuffix` gives `b`
  -- if `a` is not empty, and throws if it is.
  pub file_name_parts :
      (length b ≡ 0
        → (get_file_suffix file_name ≡ some []) × (get_file_without_suffix file_name ≡ []))
      × (0 < length b
          → (get_file_without_suffix file_name ≡ a)
            × (0 < length a → get_file_suffix file_name ≡ some b)
            × (length a ≡ 0 → get_file_suffix file_name ≡ none))
  file_name_parts = (
    λ e. (
      ground (arith, suffix_computed, length-file_name),
      ground (arith, stem_computed, length-file_name),
    ),
    λ h. (
      ground (arith, stem_computed, length-file_name, take-append a (b'.' ∷ b)),
      (λ h'. ground (arith, suffix_computed, length-file_name, suffix_part)),
      λ e. ground (arith, suffix_computed, length-file_name),
    ),
  )

compair-char_differs :
    (c d : ℕ) (lhs rhs : Bytes)
    → c < 256
    → d < 256
    → (tolower c == tolower d) ≡ false
    → compair_no_case (c ∷ lhs) (d ∷ rhs) ≢ pos 0
unfolding compair_no_case tolower
compair-char_differs c d lhs rhs h h' ne = ground arith

-- `CompairNoCase` of two texts of bytes gives 0 if and only if they are the same in lower case.
pub compair_no_case_zero :
    (lhs rhs : Bytes)
    → All (λ c. c < 256) lhs
    → All (λ c. c < 256) rhs
    → (compair_no_case lhs rhs ≡ pos 0) ↔ (to_lower lhs ≡ to_lower rhs)
unfolding compair_no_case to_lower
compair_no_case_zero [] [] h h' = ground arith
compair_no_case_zero [] (d ∷ rhs) h h' = ground arith
compair_no_case_zero (c ∷ lhs) [] h h' = ground arith
compair_no_case_zero (c ∷ lhs) (d ∷ rhs) (h, hs) (h', hs') =
    elim (Bool-cases (tolower c == tolower d)) [
      | inl t ↦
          ground (arith, compair_no_case_zero lhs rhs hs hs', (==_iff (tolower c) (tolower d)).0 t)
      | inr f ↦
          ground (arith, compair-char_differs c d lhs rhs h h' f, ==_iff (tolower c) (tolower d))
    ]
