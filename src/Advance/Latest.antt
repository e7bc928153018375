-- ===== src/Advance/Latest.antt =====
-- About the latest comment of a person in a conversation (executing/advance.py).
use specseed.Prelude.{
  some_injective, ◌≡◌, ◌∙◌, refl, ap, subst, inl, inr, true, false, Option, none, some, List, [],
  ◌∷◌, ◌++◌, All, Bool-cases, Option-cases,
}
use specseed.Config.{Config}
use specseed.Entities.{Comment, or_else}
use specseed.Advance.Signals.{latest_human_comment, is_human}

or_else-some : {A : Type 0} (o p : Option A) (a : A) → o ≡ some a → or_else o p ≡ some a
or_else-some o p a e = rw e refl

-- the latest comment of a person
abbrev pub IsLatest : Config → List Comment → Comment → Type 0
IsLatest config cs c =
    (before : List Comment) × (after : List Comment) × (cs ≡ before ++ c ∷ after)
    × (is_human config c ≡ true)
    × All (λ d. is_human config d ≡ false) after

latest-none :
    (config : Config) (cs : List Comment)
    → latest_human_comment config cs ≡ none
    → All (λ d. is_human config d ≡ false) cs
unfolding latest_human_comment
latest-none config [] e = tt
latest-none config (c ∷ cs) e = elim (Option-cases (latest_human_comment config cs)) [
  | inl k ↦ elim (Bool-cases (is_human config c)) [
    | inl h ↦ absurd (cc (rw (k, h) at e))
    | inr h ↦ (h, latest-none config cs k)
  ]
  | inr (d, k) ↦ absurd (cc (rw k at e))
]

none-latest :
    (config : Config) (cs : List Comment)
    → All (λ d. is_human config d ≡ false) cs
    → latest_human_comment config cs ≡ none
unfolding latest_human_comment
none-latest config [] h = refl
none-latest config (c ∷ cs) h = rw (none-latest config cs h.1, h.0) refl

pub latest_human_comment-IsLatest :
    (config : Config) (cs : List Comment) (c : Comment)
    → latest_human_comment config cs ≡ some c
    → IsLatest config cs c
unfolding latest_human_comment
latest_human_comment-IsLatest config [] c e = cc
latest_human_comment-IsLatest config (x ∷ xs) c e =
    elim (Option-cases (latest_human_comment config xs)) [
      | inl k ↦ elim (Bool-cases (is_human config x)) [
        | inl h ↦
            let same : x ≡ c = some_injective x c (rw (k, h) at e) in
            (
              [],
              xs,
              ap (λ y. y ∷ xs) same,
              subst (λ y. is_human config y ≡ true) same h,
              latest-none config xs k,
            )
        | inr h ↦ absurd (cc (rw (k, h) at e))
      ]
      | inr (d, k) ↦
          let same : d ≡ c = some_injective d c (rw k at e) in
          let (before, after, q, h, a) =
            latest_human_comment-IsLatest config xs c (k ∙ ap some same) in
          (x ∷ before, after, ap (λ ys. x ∷ ys) q, h, a)
    ]

IsLatest-latest :
    (config : Config) (before after : List Comment) (c : Comment)
    → is_human config c ≡ true
    → All (λ d. is_human config d ≡ false) after
    → latest_human_comment config (before ++ c ∷ after) ≡ some c
unfolding latest_human_comment
IsLatest-latest config [] after c h a = rw (none-latest config after a, h) refl
IsLatest-latest config (x ∷ before) after c h a =
    or_else-some _ _ c (IsLatest-latest config before after c h a)

pub IsLatest-some :
    (config : Config) (cs : List Comment) (c : Comment)
    → IsLatest config cs c
    → latest_human_comment config cs ≡ some c
IsLatest-some config cs c (before, after, q, h, a) =
    ap (latest_human_comment config) q ∙ IsLatest-latest config before after c h a
