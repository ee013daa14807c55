-- ===== src/Server/Sessions/Ranges.antt =====
-- To go through a map in the order of its keys is to go through the convs that it may have.
use mathlib.Core.Path.{ap₂}
use asio_kcp.Prelude.{
  ℕ, zero, suc, ◌+◌, ◌<◌, ◌≤◌, ◌≡◌, refl, ap, ◌∙◌, List, [], ◌∷◌, ◌++◌, Option, none, some, arith,
  ◌==◌, true, Bool-cases, inl, inr,
}
use asio_kcp.Prelude.Maps.{
  Map, lookup, Ascending, Ascending-mono, Entries, Entries-map, lookup_below,
}
use asio_kcp.Server.{Effect}
use asio_kcp.Server.Sessions.{for_convs}

pub for_convs-ext :
    (g h : ℕ → List Effect) (from count : ℕ)
    → ((k : ℕ) → from ≤ k → g k ≡ h k)
    → for_convs g from count ≡ for_convs h from count
unfolding for_convs
for_convs-ext g h from zero e = refl
for_convs-ext g h from (suc count) e =
    rw (e from (omega arith), for_convs-ext g h (suc from) count (λ k l. e k (omega arith))) refl

for_convs-nil : (from count : ℕ) → for_convs (λ k. []) from count ≡ []
unfolding for_convs
for_convs-nil from zero = refl
for_convs-nil from (suc count) = for_convs-nil (suc from) count

module _ {ℓ} {V : Type ℓ} where
  -- The keys are below a bound.
  abbrev pub Below : ℕ → Map V → Type 0
  Below bound m = Entries (λ k v. k < bound) m

  lookup_here : (k j : ℕ) (v : V) (m : Map V) → (j == k) ≡ true → lookup k ((j, v) ∷ m) ≡ some v
  unfolding lookup
  lookup_here k j v m h = ground arith

  lookup_after : (k j : ℕ) (v : V) (m : Map V) → j < k → lookup k ((j, v) ∷ m) ≡ lookup k m
  unfolding lookup
  lookup_after k j v m h = ground arith

module _ {ℓ} {V : Type ℓ} (f : V → List Effect) where
  abbrev pub entry : Option V → List Effect
  entry none = []
  entry (some v) = f v

  abbrev pub for_entries : Map V → List Effect
  for_entries [] = []
  for_entries ((k, v) ∷ m) = f v ++ for_entries m

  pub for_convs-entries :
      (from count : ℕ) (m : Map V)
      → Ascending from m
      → Below (from + count) m
      → for_convs (λ k. entry (lookup k m)) from count ≡ for_entries m
  unfolding for_convs
  for_convs-entries from count [] s b = unfold lookup in for_convs-nil from count
  for_convs-entries from zero ((j, v) ∷ m) s b = absurd (omega arith)
  for_convs-entries from (suc count) ((j, v) ∷ m) s b = elim (Bool-cases (j == from)) [
    | inl t ↦ ap₂ ◌++◌ (ap entry (lookup_here from j v m t)) (
        for_convs-ext _ (λ k. entry (lookup k m)) (suc from) count
          (λ k h. ap entry (lookup_after k j v m (ground arith)))
        ∙ for_convs-entries (suc from) count m
            (Ascending-mono {a = suc from} {b = suc j} m (ground arith) s.1)
            (Entries-map (λ k w h. omega (arith, h)) m b.1))
    | inr e ↦
        ap₂ ◌++◌ (ap entry (lookup_below from j ((j, v) ∷ m) (ground arith) (omega arith, s.1))) (
          for_convs-entries (suc from) count ((j, v) ∷ m) (ground arith, s.1)
            (Entries-map {P = λ k w. k < from + suc count} {Q = λ k w. k < suc from + count}
              (λ k w h. omega (arith, h)) ((j, v) ∷ m) b))
  ]
