-- ===== src/Entities/Examples.antt =====
-- Tests of what labels say.
use specseed.Prelude.{◌≡◌, refl, true, none, some, [], ◌∷◌, str_eq}
use specseed.Entities.{tier_from_labels, for_labels, can_contain}

tier_of : tier_from_labels ("bug" ∷ "tier:epic" ∷ []) ≡ some "epic"
unfolding tier_from_labels str_eq
tier_of = refl

contains :
    can_contain
      (for_labels "1" ("tier:epic" ∷ []) none none)
      (for_labels "2" ("tier:ticket" ∷ []) none none)
    ≡ true
unfolding can_contain for_labels str_eq
contains = refl
