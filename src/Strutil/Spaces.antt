-- ===== src/Strutil/Spaces.antt =====
-- `CutSpace`: what stands between the spaces at the two ends of a text.
use mathlib.Core.Path.{subst}
use asio_kcp.Prelude.{
  ℕ, zero, suc, ◌-◌, ◌≤◌, ◌≡◌, refl, sym, Option-cases, ap, ◌∙◌, Bool, true, false, ◌||◌, [], ◌∷◌,
  ◌++◌, Option, none, some, Bytes, length, length-take, take, get_elem?, append_assoc, append-nil,
  ◌==◌, if◌then◌else◌, arith, All, All-append, Bool-cases, inl, inr,
}

-- Of a `std::string`: spaces and tabs.
abbrev pub is_space : ℕ → Bool
is_space c = c == 0x20 || c == b'\t'

-- Of a `std::wstring`: spaces only.
abbrev pub is_wide_space : ℕ → Bool
is_wide_space c = c == 0x20

module _ (cut : ℕ → Bool) where
  unfoldable pub cut_front : Bytes → Bytes
  cut_front [] = []
  cut_front (c ∷ s) = if cut c then cut_front s else c ∷ s

  abbrev pub last_cut : Option ℕ → Bool
  last_cut none = false
  last_cut (some c) = cut c

  -- Every turn takes a character off the end; a turn for each suffices.
  unfoldable pub cut_back : ℕ → Bytes → Bytes
  cut_back zero s = s
  cut_back (suc fuel) s =
      let shorter = cut_back fuel (take (length s - 1) s) in
      if last_cut (get_elem? s (length s - 1)) then shorter else s

  abbrev pub cut_ends : Bytes → Bytes
  cut_ends s = let r = cut_front s in cut_back (length r) r

unfoldable pub cut_space : Bytes → Bytes
unfolding cut_front cut_back
cut_space s = cut_ends is_space s

unfoldable pub cut_wide_space : Bytes → Bytes
unfolding cut_front cut_back
cut_wide_space s = cut_ends is_wide_space s

some_inj : (x c : ℕ) → some x ≡ some c → x ≡ c
some_inj x c e = cc

-- The text without its last character, and this.
take_last :
    (s : Bytes) (n c : ℕ) → length s - 1 ≡ n → get_elem? s n ≡ some c → s ≡ take n s ++ c ∷ []
take_last [] n c h e = cc
take_last (x ∷ []) zero c h e = ap (λ v. v ∷ []) (some_inj x c e)
take_last (x ∷ []) (suc n) c h e = absurd (omega arith)
take_last (x ∷ y ∷ s) zero c h e = absurd (omega arith)
take_last (x ∷ y ∷ s) (suc n) c h e = ap (◌∷◌ x) (take_last (y ∷ s) n c (omega arith) e)

module _ (cut : ℕ → Bool) where
  abbrev IsCut : ℕ → Type 0
  IsCut c = cut c ≡ true

  abbrev first_cut : Bytes → Bool
  first_cut [] = false
  first_cut (c ∷ s) = cut c

  cut_front_lem :
      (s : Bytes)
      → (front : Bytes) × All IsCut front
        × (s ≡ front ++ cut_front cut s)
        × (first_cut (cut_front cut s) ≡ false)
  unfolding cut_front
  cut_front_lem [] = ([], tt, refl, refl)
  cut_front_lem (c ∷ s) = elim (Bool-cases (cut c)) [
    | inl t ↦
        let (front, all, e, f) = cut_front_lem s in
        rw (cut_front, t) (c ∷ front, (t, all), ap (◌∷◌ c) e, f)
    | inr f ↦ rw (cut_front, f) ([], tt, refl, f)
  ]

  cut_back_lem :
      (fuel : ℕ) (s : Bytes)
      → length s ≤ fuel
      → (back : Bytes) × All IsCut back
        × (s ≡ cut_back cut fuel s ++ back)
        × (last_cut cut (get_elem? (cut_back cut fuel s) (length (cut_back cut fuel s) - 1))
            ≡ false)
  unfolding cut_back
  cut_back_lem zero [] h = ([], tt, refl, refl)
  cut_back_lem zero (x ∷ s) h = absurd (omega arith)
  cut_back_lem (suc fuel) s h = elim (Option-cases (get_elem? s (length s - 1))) [
    | inl n ↦ rw (n) ([], tt, sym (append-nil s), ap (last_cut cut) n)
    | inr (c, e) ↦ elim (Bool-cases (cut c)) [
      | inl t ↦
          let (back, all, cat, last) =
            cut_back_lem fuel (take (length s - 1) s)
              (omega (arith, length-take (length s - 1) s)) in
          rw (e, last_cut, t)
            (
              back ++ c ∷ [],
              All-append IsCut back (c ∷ []) all (t, tt),
              take_last s (length s - 1) c refl e
                  ∙ ap (λ v. v ++ c ∷ []) cat
                  ∙ append_assoc _ back (c ∷ []),
              last,
            )
      | inr f ↦ rw (e, last_cut, f) ([], tt, sym (append-nil s), ap (last_cut cut) e ∙ f)
    ]
  ]

  first_cut-append : (s t : Bytes) → first_cut (s ++ t) ≡ false → first_cut s ≡ false
  first_cut-append [] t h = refl
  first_cut-append (c ∷ s) t h = h

  -- Cut from both ends: all that went was to be cut, and neither end of
  -- what is left is.
  abbrev IsCore : Bytes → Bytes → Type 0
  IsCore s core =
      (front back : Bytes) × All IsCut front
      × All IsCut back
      × (s ≡ front ++ (core ++ back))
      × (first_cut core ≡ false)
      × (last_cut cut (get_elem? core (length core - 1)) ≡ false)

  cut_ends-IsCore : (s : Bytes) → IsCore s (cut_ends cut s)
  cut_ends-IsCore s =
      let (front, all_front, cat, first) = cut_front_lem s in
      let r = cut_front cut s in
      let (back, all_back, parts, last) = cut_back_lem (length r) r (omega arith) in
      (
        front,
        back,
        all_front,
        all_back,
        cat ∙ ap (◌++◌ front) parts,
        first_cut-append (cut_ends cut s) back (subst (λ t. first_cut t ≡ false) parts first),
        last,
      )

-- `CutSpace` of a string keeps the text between the spaces and tabs at its
-- two ends: the string is spaces and tabs, then what is kept, then spaces and
-- tabs, and what is kept neither begins nor ends with one. Of a wide string
-- the same holds for spaces alone.
pub cut_space_lem :
    (s : Bytes) → IsCore is_space s (cut_space s) × IsCore is_wide_space s (cut_wide_space s)
unfolding cut_space cut_wide_space cut_front cut_back
cut_space_lem s = (cut_ends-IsCore is_space s, cut_ends-IsCore is_wide_space s)

-- `CutAllSpace`.
unfoldable pub cut_all_space : Bytes → Bytes
cut_all_space [] = []
cut_all_space (c ∷ s) = if c == 0x20 then cut_all_space s else c ∷ cut_all_space s

-- `CutAllSpace` leaves no space, and changes nothing where there is none.
pub cut_all_space_lem :
    (s : Bytes)
    → All (λ c. (c == 0x20) ≡ false) (cut_all_space s)
      × (All (λ c. (c == 0x20) ≡ false) s → cut_all_space s ≡ s)
unfolding cut_all_space
cut_all_space_lem [] = (tt, λ h. refl)
cut_all_space_lem (c ∷ s) =
    let (none_left, same) = cut_all_space_lem s in
    elim (Bool-cases (c == 0x20)) [
      | inl t ↦ rw (cut_all_space, t) (none_left, λ h. cc)
      | inr f ↦ rw (cut_all_space, f) ((f, none_left), λ h. ap (◌∷◌ c) (same h.1))
    ]
