-- ===== src/Prelude/Maps.antt =====
-- Maps with numbers for keys (`std::map`, `std::unordered_map`), as association lists by key.
use mathlib.Core.Path.{subst₂}
use native.Mathlib.Decide.{dec_le}
use asio_kcp.Prelude.{
  ◌≢◌, ==_iff, inl, inr, Bool-cases, ℕ, suc, ◌≤◌, ◌<◌, ◌≡◌, refl, List, [], ◌∷◌, Option, none, some,
  arith, ltb, ◌==◌, if◌then◌else◌,
}

abbrev pub Map {ℓ} : Type ℓ → Type ℓ
Map V = List (ℕ × V)

module _ {ℓ} {V : Type ℓ} where
  unfoldable pub lookup : ℕ → Map V → Option V
  lookup k [] = none
  lookup k ((j, v) ∷ m) = if j == k then some v else lookup k m

  -- `m[k] = v`.
  unfoldable pub insert : ℕ → V → Map V → Map V
  insert k v [] = (k, v) ∷ []
  insert k v ((j, w) ∷ m) =
      if ltb k j then (k, v) ∷ (j, w) ∷ m else if j == k then (k, v) ∷ m else (j, w) ∷ insert k v m

  unfoldable pub erase : ℕ → Map V → Map V
  erase k [] = []
  erase k ((j, w) ∷ m) = if j == k then m else (j, w) ∷ erase k m

  abbrev pub keys : Map V → List ℕ
  keys [] = []
  keys ((k, v) ∷ m) = k ∷ keys m

  -- The keys rise along the list, from `n` on.
  abbrev pub Ascending : ℕ → Map V → Type 0
  Ascending n [] = Unit {0}
  Ascending n ((k, v) ∷ m) = (n ≤ k) × Ascending (suc k) m

module _ {ℓ} {V : Type ℓ} where
  pub Ascending-mono : {a b : ℕ} (m : Map V) → a ≤ b → Ascending b m → Ascending a m
  Ascending-mono [] h s = tt
  Ascending-mono ((k, v) ∷ m) h s = (omega arith, s.1)

  pub lookup_below : (k n : ℕ) (m : Map V) → k < n → Ascending n m → lookup k m ≡ none
  unfolding lookup
  lookup_below k n [] h s = refl
  lookup_below k n ((j, v) ∷ m) h s = ground (arith, lookup_below k (suc j) m)

  pub le_of_lookup : (k n : ℕ) (m : Map V) {v : V} → Ascending n m → lookup k m ≡ some v → n ≤ k
  le_of_lookup k n m s e = elim (dec_le n k) [
    | yes h ↦ h
    | no h ↦ cc (lookup_below k n m (omega arith) s)
  ]

  pub lookup-insert :
      (new other : ℕ) (value : V) (m : Map V)
      → lookup other (insert new value m) ≡ (if new == other then some value else lookup other m)
  unfolding lookup insert
  lookup-insert new other value [] = refl
  lookup-insert new other value ((first, w) ∷ rest) =
      ground (arith, lookup-insert new other value rest)

  pub lookup-erase :
      (k j n : ℕ) (m : Map V)
      → Ascending n m
      → lookup j (erase k m) ≡ (if k == j then none else lookup j m)
  unfolding lookup erase
  lookup-erase k j n [] s = ground arith
  lookup-erase k j n ((i, w) ∷ m) s =
      ground (arith, lookup-erase k j (suc i) m s.1, lookup_below j (suc i) m)

  pub insert-ne-nil : (k : ℕ) (v : V) (m : Map V) → insert k v m ≢ []
  unfolding insert
  insert-ne-nil k v [] = cc
  insert-ne-nil k v ((j, w) ∷ m) = ground arith

  pub insert-Ascending :
      (k n : ℕ) (v : V) (m : Map V) → n ≤ k → Ascending n m → Ascending n (insert k v m)
  unfolding insert
  insert-Ascending k n v [] h s = (h, tt)
  insert-Ascending k n v ((j, w) ∷ m) h s = ground (arith, insert-Ascending k (suc j) v m, s.1)

  pub erase-Ascending : (k n : ℕ) (m : Map V) → Ascending n m → Ascending n (erase k m)
  unfolding erase
  erase-Ascending k n [] s = tt
  erase-Ascending k n ((j, w) ∷ m) s =
      ground (arith, erase-Ascending k (suc j) m s.1, Ascending-mono {a = n} {b = suc j} m)

-- A predicate on all entries.
module _ {ℓ κ} {V : Type ℓ} (P : ℕ → V → Type κ) where
  abbrev pub Entries : Map V → Type κ
  Entries [] = Unit
  Entries ((k, v) ∷ m) = P k v × Entries m

  pub Entries-insert : (k : ℕ) (v : V) (m : Map V) → P k v → Entries m → Entries (insert k v m)
  unfolding insert
  Entries-insert k v [] p h = (p, h)
  Entries-insert k v ((j, w) ∷ m) p h = ground (arith, Entries-insert k v m p h.1)

  pub Entries-erase : (k : ℕ) (m : Map V) → Entries m → Entries (erase k m)
  unfolding erase
  Entries-erase k [] h = h
  Entries-erase k ((j, w) ∷ m) h = ground (arith, Entries-erase k m h.1)

  pub Entries-lookup : (k : ℕ) (m : Map V) {v : V} → Entries m → lookup k m ≡ some v → P k v
  unfolding lookup
  Entries-lookup k [] h e = cc
  Entries-lookup k ((j, w) ∷ m) {v} h e = elim (Bool-cases (j == k)) [
    | inl t ↦ subst₂ P ((==_iff j k).0 t) (ground arith) h.0
    | inr t ↦ Entries-lookup k m h.1 (ground arith)
  ]

module _ {ℓ κ ν} {V : Type ℓ} {P : ℕ → V → Type κ} {Q : ℕ → V → Type ν} where
  pub Entries-map : (f : (k : ℕ) (v : V) → P k v → Q k v) (m : Map V) → Entries P m → Entries Q m
  Entries-map f [] h = tt
  Entries-map f ((k, v) ∷ m) h = (f k v h.0, Entries-map f m h.1)

-- In an ordered map every entry is found under its key.
module _ {ℓ} {V : Type ℓ} where
  pub Entries-found :
      (n : ℕ) (m : Map V) → Ascending n m → Entries (λ k v. (n ≤ k) × (lookup k m ≡ some v)) m
  unfolding lookup
  Entries-found n [] s = tt
  Entries-found n ((j, w) ∷ m) s = (
    (s.0, ground arith),
    Entries-map (λ k v h. (omega arith, ground arith)) m (Entries-found (suc j) m s.1),
  )

module _ {ℓ κ ν} {V : Type ℓ} (P : ℕ → V → Type κ) (Q : ℕ → V → Type ν) where
  pub Entries-both : (m : Map V) → Entries P m → Entries Q m → Entries (λ k v. P k v × Q k v) m
  Entries-both [] h h' = tt
  Entries-both ((k, v) ∷ m) h h' = ((h.0, h'.0), Entries-both m h.1 h'.1)
