-- ===== src/BinaryStream/Buf/Order.antt =====
-- The comparisons of the buffer.
use mathlib.Core.Path.{subst}
use asio_kcp.Prelude.{◌≡◌, ◌↔◌, refl, true, false, not, ◌||◌, [], ◌∷◌, Bytes, arith}
use asio_kcp.BinaryStream.Buf.{less, equal, not_equal, greater, less_or_equal, greater_or_equal}

equal_refl : (a : Bytes) → equal a a ≡ true
unfolding equal
equal_refl [] = refl
equal_refl (x ∷ xs) = ground (arith, equal_refl xs)

equal-same : (a b : Bytes) → equal a b ≡ true → a ≡ b
unfolding equal
equal-same [] [] e = refl
equal-same [] (y ∷ ys) e = cc
equal-same (x ∷ xs) [] e = cc
equal-same (x ∷ xs) (y ∷ ys) e = ground (arith, equal-same xs ys)

less_irrefl : (a : Bytes) → less a a ≡ false
unfolding less
less_irrefl [] = refl
less_irrefl (x ∷ xs) = ground (arith, less_irrefl xs)

less_trans : (a b c : Bytes) → less a b ≡ true → less b c ≡ true → less a c ≡ true
unfolding less
less_trans a [] c p q = cc
less_trans a (y ∷ ys) [] p q = cc
less_trans [] (y ∷ ys) (z ∷ zs) p q = refl
less_trans (x ∷ xs) (y ∷ ys) (z ∷ zs) p q = ground (arith, less_trans xs ys zs)

less-total : (a b : Bytes) → less a b ≡ false → less b a ≡ false → a ≡ b
unfolding less
less-total [] [] p q = refl
less-total [] (y ∷ ys) p q = cc
less-total (x ∷ xs) [] p q = cc
less-total (x ∷ xs) (y ∷ ys) p q = ground (arith, less-total xs ys)

same-equal : (a b : Bytes) → a ≡ b → equal a b ≡ true
same-equal a b e = subst (λ x. equal a x ≡ true) e (equal_refl a)

not-less : (a b : Bytes) → not (less b a) ≡ (less a b || equal a b)
unfolding less equal
not-less [] [] = refl
not-less [] (y ∷ ys) = refl
not-less (x ∷ xs) [] = refl
not-less (x ∷ xs) (y ∷ ys) = ground (arith, not-less xs ys)

same_symm : (a b : Bytes) → equal a b ≡ equal b a
unfolding equal
same_symm [] [] = refl
same_symm [] (y ∷ ys) = refl
same_symm (x ∷ xs) [] = refl
same_symm (x ∷ xs) (y ∷ ys) = ground (arith, same_symm xs ys)

-- The six comparisons belong to one total order of the buffers: `==` tells whether two buffers hold the same
-- bytes, `<` is transitive and never holds of a buffer and itself, two buffers neither of which is below the
-- other are the same, and the other four are what these two say.
pub comparisons_lem :
    (a b c : Bytes)
    → ((equal a b ≡ true) ↔ (a ≡ b))
      × (less a a ≡ false)
      × (less a b ≡ true → less b c ≡ true → less a c ≡ true)
      × (less a b ≡ false → greater a b ≡ false → equal a b ≡ true)
      × (not_equal a b ≡ not (equal a b))
      × (less_or_equal a b ≡ (less a b || equal a b))
      × (greater_or_equal a b ≡ (greater a b || equal a b))
unfolding not_equal greater less_or_equal greater_or_equal
comparisons_lem a b c = (
  (equal-same a b, same-equal a b),
  less_irrefl a,
  less_trans a b c,
  λ p q. same-equal a b (less-total a b p q),
  refl,
  not-less a b,
  rw (same_symm a b) (not-less b a),
)
