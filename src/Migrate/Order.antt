-- ===== src/Migrate/Order.antt =====
-- About the order of versions that migrations are sorted by.
use specseed.Prelude.{ℕ, ◌≡◌, refl, true, false, List, [], ◌∷◌, arith}
use specseed.Migrate.{version_lt}

pub version_lt_irrefl : (v : List ℕ) → version_lt v v ≡ false
unfolding version_lt
version_lt_irrefl [] = refl
version_lt_irrefl (x ∷ xs) = ground (arith, version_lt_irrefl xs)

pub version_lt_trans :
    (u v w : List ℕ) → version_lt u v ≡ true → version_lt v w ≡ true → version_lt u w ≡ true
unfolding version_lt
version_lt_trans u v [] h k = cc
version_lt_trans u [] (z ∷ zs) h k = cc
version_lt_trans [] (y ∷ ys) (z ∷ zs) h k = refl
version_lt_trans (x ∷ xs) (y ∷ ys) (z ∷ zs) h k = ground (arith, version_lt_trans xs ys zs)

cons_eq : (x y : ℕ) (xs ys : List ℕ) → x ≡ y → xs ≡ ys → x ∷ xs ≡ y ∷ ys
cons_eq x y xs ys e f = cc

pub version_lt-total : (v w : List ℕ) → version_lt v w ≡ false → version_lt w v ≡ false → v ≡ w
unfolding version_lt
version_lt-total [] [] h k = refl
version_lt-total [] (y ∷ ys) h k = cc
version_lt-total (x ∷ xs) [] h k = cc
version_lt-total (x ∷ xs) (y ∷ ys) h k =
    cons_eq x y xs ys (ground arith) (version_lt-total xs ys (ground arith) (ground arith))

-- not before, before or equal: what is not below u is not below what is below u
pub version_lt-le_trans :
    (u v w : List ℕ) → version_lt v u ≡ false → version_lt v w ≡ true → version_lt u w ≡ true
unfolding version_lt
version_lt-le_trans u v [] h k = cc
version_lt-le_trans [] v (z ∷ zs) h k = refl
version_lt-le_trans (x ∷ xs) [] (z ∷ zs) h k = cc
version_lt-le_trans (x ∷ xs) (y ∷ ys) (z ∷ zs) h k = ground (arith, version_lt-le_trans xs ys zs)
