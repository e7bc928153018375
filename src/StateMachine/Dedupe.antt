-- ===== src/StateMachine/Dedupe.antt =====
-- `_dedupe` of state_machines/base.py keeps what a list contains, once each.
use specseed.Prelude.{
  String, ◌≡◌, refl, ap, inl, inr, true, false, ◌&&◌, not, List, [], ◌∷◌, arith, All, str_eq,
  str_eq_iff, str_eq_refl, Bool-cases,
}
use specseed.StateMachine.{contains, dedupe, dedupe_from}

All-dedupe_from {ℓ} :
    (P : String → Type ℓ) (seen xs : List String) → All P xs → All P (dedupe_from seen xs)
unfolding dedupe_from
All-dedupe_from P seen [] h = tt
All-dedupe_from P seen (x ∷ xs) h = elim (Bool-cases (contains x seen)) [
  | inl e ↦ rw e (All-dedupe_from P seen xs h.1)
  | inr e ↦ rw e (h.0, All-dedupe_from P (x ∷ seen) xs h.1)
]

pub All-dedupe {ℓ} : (P : String → Type ℓ) (xs : List String) → All P xs → All P (dedupe xs)
unfolding dedupe
All-dedupe P xs h = All-dedupe_from P [] xs h

same_text :
    (v a : String) (seen : List String) → str_eq v a ≡ true → contains v seen ≡ contains a seen
same_text v a seen e = ap (λ s. contains s seen) ((str_eq_iff v a).0 e)

str_eq_sym : (v a : String) → str_eq v a ≡ str_eq a v
str_eq_sym v a = ground (arith, str_eq_iff v a, str_eq_iff a v)

contains-dedupe_from :
    (a : String) (seen xs : List String)
    → contains a (dedupe_from seen xs) ≡ (contains a xs && not (contains a seen))
unfolding dedupe_from
contains-dedupe_from a seen [] = refl
contains-dedupe_from a seen (v ∷ xs) = ground (
  arith,
  same_text v a seen,
  contains-dedupe_from a seen xs,
  contains-dedupe_from a (v ∷ seen) xs,
)

-- no text stands twice
abbrev pub Distinct : List String → Type 0
Distinct [] = Unit
Distinct (x ∷ xs) = (contains x xs ≡ false) × Distinct xs

dedupe_from-Distinct : (seen xs : List String) → Distinct (dedupe_from seen xs)
unfolding dedupe_from
dedupe_from-Distinct seen [] = tt
dedupe_from-Distinct seen (v ∷ xs) = elim (Bool-cases (contains v seen)) [
  | inl e ↦ rw e (dedupe_from-Distinct seen xs)
  | inr e ↦ rw e (
    ground (arith, contains-dedupe_from v (v ∷ seen) xs, str_eq_refl v),
    dedupe_from-Distinct (v ∷ seen) xs,
  )
]

-- Removing duplicates leaves a list with no text twice that contains exactly the same texts.
pub dedupe_lem :
    (xs : List String)
    → Distinct (dedupe xs) × ((a : String) → contains a (dedupe xs) ≡ contains a xs)
unfolding dedupe
dedupe_lem xs = (dedupe_from-Distinct [] xs, λ a. ground (arith, contains-dedupe_from a [] xs))
