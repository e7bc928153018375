-- ===== src/Entities/Labels.antt =====
-- What an entity built from labels is.
use specseed.Prelude.{
  String, ◌≡◌, refl, ◌⊎◌, true, Option, none, some, List, arith, str_eq, str_eq_iff,
}
use specseed.Entities.{
  Entity, epic, ticket, issue, or_else, class_tier, class_of_tier, tier, tier_from_labels,
  for_labels, can_contain,
}

class_of_tier-tier : (t : Option String) → or_else (class_tier (class_of_tier t)) t ≡ t
unfolding class_of_tier
class_of_tier-tier none = refl
class_of_tier-tier (some t) =
    ground (arith, str_eq_iff t "epic", str_eq_iff t "ticket", str_eq_iff t "issue")

-- The tier of an entity that is built from labels is the tier that the labels state, also where
-- that is no tier of the work breakdown.
pub tier-for_labels :
    (post_id : String) (labels : List String) (title parent_id : Option String)
    → tier (for_labels post_id labels title parent_id) ≡ tier_from_labels labels
unfolding tier for_labels
tier-for_labels post_id labels title parent_id = class_of_tier-tier (tier_from_labels labels)

-- Containment goes down one tier: only an epic contains a ticket and a ticket an issue, so no two
-- entities contain each other and none contains itself.
pub can_contain_iff :
    (e other : Entity)
    → can_contain e other ≡ true
    → ((e.cls ≡ epic) × (other.cls ≡ ticket)) ⊎ ((e.cls ≡ ticket) × (other.cls ≡ issue))
unfolding can_contain str_eq
can_contain_iff e other h = ground arith
