-- ===== src/Control/Words.antt =====
-- About `_first_token` of control.py: it is the first of the words that white space separates.
use Prim.Native.Char.{Char}
use specseed.Prelude.{
  String, ◌≡◌, refl, ◌∙◌, ap, sym, inl, inr, Bool, true, false, Option, none, some, List, [], ◌∷◌,
  str_eq, str_eq_iff, if◌then◌else◌, Bool-cases,
}
use specseed.Prelude.Text.{
  is_space, lstrip, rstrip, strip, casefold, words, filled, push_char, split_on,
}
use specseed.Control.{first_word, first_token}

abbrev pub first : List String → String
first [] = ""
first (w ∷ ws) = w

-- the first word of a text, the case aside
abbrev pub spoken : Option String → String
spoken none = ""
spoken (some body) = casefold (first (split_on is_space body))

first-push_char : (c : Char) (ws : List String) → first (push_char c ws) ≡ String.◌∷◌ c (first ws)
unfolding push_char
first-push_char c [] = refl
first-push_char c (w ∷ ws) = refl

first-words : (s : String) → first (words is_space s) ≡ first_word s
unfolding words first_word
first-words String.[] = refl
first-words (String.◌∷◌ c s) = elim (Bool-cases (is_space c)) [
  | inl e ↦ rw e refl
  | inr e ↦ rw (e, first-push_char c (words is_space s), first-words s) refl
]

first_word-letter :
    (c : Char) (s : String)
    → is_space c ≡ false
    → first_word (String.◌∷◌ c s) ≡ String.◌∷◌ c (first_word s)
unfolding first_word
first_word-letter c s e = rw e refl

not_empty : (c : Char) (s : String) → str_eq (String.◌∷◌ c s) "" ≡ false
not_empty c s = elim (Bool-cases (str_eq (String.◌∷◌ c s) "")) [
  | inl e ↦ absurd (cc ((str_eq_iff (String.◌∷◌ c s) "").0 e))
  | inr e ↦ e
]

first-filled :
    (c : Char) (ws : List String) → first (filled (push_char c ws)) ≡ String.◌∷◌ c (first ws)
unfolding push_char filled
first-filled c [] = rw (not_empty c "") refl
first-filled c (w ∷ ws) = rw (not_empty c w) refl

split_on-first_word : (s : String) → first (split_on is_space s) ≡ first_word (lstrip s)
unfolding split_on words lstrip first_word filled
split_on-first_word String.[] = refl
split_on-first_word (String.◌∷◌ c s) = elim (Bool-cases (is_space c)) [
  | inl e ↦ rw e (split_on-first_word s)
  | inr e ↦ rw e (
      first-filled c (words is_space s)
      ∙ ap (λ w. String.◌∷◌ c w) (first-words s)
      ∙ sym (first_word-letter c s e))
]

first_word-rstrip : (s : String) → first_word (rstrip s) ≡ first_word s
unfolding rstrip first_word
first_word-rstrip String.[] = refl
first_word-rstrip (String.◌∷◌ c s) = elim (Bool-cases (is_space c)) [
  | inl e ↦ rw e (cut e (str_eq (rstrip s) ""))
  | inr e ↦ rw e (first_word-letter c (rstrip s) e ∙ ap (λ w. String.◌∷◌ c w) (first_word-rstrip s))
]
  where
    cut :
        is_space c ≡ true → (b : Bool) → first_word (if b then "" else String.◌∷◌ c (rstrip s)) ≡ ""
    cut e true = refl
    cut e false = rw e refl

pub first_token-spoken : (body : Option String) → first_token body ≡ spoken body
unfolding first_token strip
first_token-spoken none = refl
first_token-spoken (some body) =
    ap casefold (first_word-rstrip (lstrip body) ∙ sym (split_on-first_word body))
