-- ===== src/Prelude/Lists.antt =====
-- Lists measured by native numbers, filtered and counted by Boolean tests, and predicates on all
-- or one of their items.
use Prim.Native.Nat.{ℕ, suc, ◌+◌}
use mathlib.Core.Path.{◌≡◌, refl, sym, subst}
use mathlib.Core.Logic.{◌⊎◌, inl, inr}
use mathlib.Core.Bool.{Bool, true, false, ◌||◌, ◌&&◌}
use mathlib.Core.Option.{Option, none, some}
use mathlib.Core.List.{List, [], ◌∷◌, ◌++◌}
use native.Mathlib.Omega.{arith}
use specseed.Prelude.Tests.{if◌then◌else◌, Bool-cases}

-- every item satisfies P
abbrev pub All {ℓ κ} : {A : Type ℓ} → (A → Type κ) → List A → Type κ
All P [] = Unit
All P (x ∷ xs) = P x × All P xs

-- x stands in the list
abbrev pub In : {A : Type 0} → A → List A → Type 0
In x [] = ⊥
In x (y ∷ ys) = (x ≡ y) ⊎ In x ys

module _ {ℓ} {A : Type ℓ} where
  abbrev pub length : List A → ℕ
  length [] = 0
  length (x ∷ xs) = suc (length xs)

  -- the items that pass a test, in order: `[x for x in xs if p(x)]`
  abbrev pub keep : (A → Bool) → List A → List A
  keep p [] = []
  keep p (x ∷ xs) = if p x then x ∷ keep p xs else keep p xs

  -- how many items pass: `SELECT COUNT(*) … WHERE p`
  abbrev pub count : (A → Bool) → List A → ℕ
  count p [] = 0
  count p (x ∷ xs) = if p x then suc (count p xs) else count p xs

  abbrev pub any : (A → Bool) → List A → Bool
  any p [] = false
  any p (x ∷ xs) = p x || any p xs

  -- the first item that passes
  abbrev pub find? : (A → Bool) → List A → Option A
  find? p [] = none
  find? p (x ∷ xs) = if p x then some x else find? p xs

  pub length-append : (xs ys : List A) → length (xs ++ ys) ≡ length xs + length ys
  length-append [] ys = omega arith
  length-append (x ∷ xs) ys = omega (arith, length-append xs ys)

  pub count-append : (p : A → Bool) (xs ys : List A) → count p (xs ++ ys) ≡ count p xs + count p ys
  count-append p [] ys = omega arith
  count-append p (x ∷ xs) ys = ground (arith, count-append p xs ys)

  pub length-keep : (p : A → Bool) (xs : List A) → length (keep p xs) ≡ count p xs
  length-keep p [] = refl
  length-keep p (x ∷ xs) = ground (arith, length-keep p xs)

module _ {A : Type 0} where
  pub In-keep : (p : A → Bool) (x : A) (xs : List A) → In x (keep p xs) → In x xs × (p x ≡ true)
  In-keep p x [] h = elim h [ ]
  In-keep p x (y ∷ ys) h = elim (Bool-cases (p y)) [
    | inl e ↦ head (In-keep p x ys) e (rw e at h)
    | inr e ↦ let r = In-keep p x ys (rw e at h) in (inr r.0, r.1)
  ]
    where
      head :
          (In x (keep p ys) → In x ys × (p x ≡ true))
          → p y ≡ true
          → (x ≡ y) ⊎ In x (keep p ys)
          → In x (y ∷ ys) × (p x ≡ true)
      head ih e (inl q) = (inl q, rw q e)
      head ih e (inr q) = (inr (ih q).0, (ih q).1)

  pub keep-In : (p : A → Bool) (x : A) (xs : List A) → In x xs → p x ≡ true → In x (keep p xs)
  keep-In p x [] h e = elim h [ ]
  keep-In p x (y ∷ ys) h e = elim (Bool-cases (p y)) [
    | inl t ↦ rw t (present (keep-In p x ys) h)
    | inr t ↦ rw t (absent (keep-In p x ys) t h)
  ]
    where
      present : (In x ys → p x ≡ true → In x (keep p ys)) → In x (y ∷ ys) → In x (y ∷ keep p ys)
      present ih (inl q) = inl q
      present ih (inr q) = inr (ih q e)

      absent :
          (In x ys → p x ≡ true → In x (keep p ys)) → p y ≡ false → In x (y ∷ ys) → In x (keep p ys)
      absent ih t (inl q) = absurd (cc)
      absent ih t (inr q) = ih q e

  pub keep-keep : (p q : A → Bool) (xs : List A) → keep p (keep q xs) ≡ keep (λ x. q x && p x) xs
  keep-keep p q [] = refl
  keep-keep p q (x ∷ xs) = ground (arith, keep-keep p q xs)

  pub keep_cong :
      (p q : A → Bool) (xs : List A) → ((x : A) → In x xs → p x ≡ q x) → keep p xs ≡ keep q xs
  keep_cong p q [] h = refl
  keep_cong p q (x ∷ xs) h = ground (arith, h x (inl refl), keep_cong p q xs (λ y m. h y (inr m)))

  pub keep_all : (p : A → Bool) (xs : List A) → ((x : A) → p x ≡ true) → keep p xs ≡ xs
  keep_all p [] h = refl
  keep_all p (x ∷ xs) h = rw (h x, keep_all p xs h)

module _ {ℓ κ} {A : Type ℓ} (P : A → Type κ) where
  pub All-append : (xs ys : List A) → All P xs → All P ys → All P (xs ++ ys)
  All-append [] ys h k = k
  All-append (x ∷ xs) ys h k = (h.0, All-append xs ys h.1 k)

  pub All-keep : (p : A → Bool) (xs : List A) → All P xs → All P (keep p xs)
  All-keep p [] h = tt
  All-keep p (x ∷ xs) h = elim (Bool-cases (p x)) [
    | inl e ↦ rw e (h.0, All-keep p xs h.1)
    | inr e ↦ rw e (All-keep p xs h.1)
  ]

module _ {A : Type 0} (P : A → Type 0) where
  pub All-In : (x : A) (xs : List A) → All P xs → In x xs → P x
  All-In x [] h m = elim m [ ]
  All-In x (y ∷ ys) h (inl e) = subst P (sym e) h.0
  All-In x (y ∷ ys) h (inr m) = All-In x ys h.1 m
