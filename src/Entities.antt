-- ===== src/Entities.antt =====
-- entities/entity_base.py, with the subclasses of epic.py, ticket.py and issue.py: a work item's
-- tier and status out of its labels, and which tiers contain which. The attributes that
-- executing/context.py and the callers attach to an entity are fields here.
pub mod Labels
pub mod Links
mod Examples
use specseed.Prelude.{
  String, Bool, true, false, ◌&&◌, ◌||◌, Option, none, some, List, [], ◌∷◌, str_eq, if◌then◌else◌,
}
use specseed.Prelude.Text.{strip_prefix, cut_at}
use specseed.Payload.{EntityRef}

-- one kind of reaction and the users who reacted so
pub record Reaction : Type 0 where
  pub kind : String
  pub users : List String

-- tracking/comment.py, as far as approvals read it
pub record Comment : Type 0 where
  pub id : String
  pub author : Option String
  pub body : Option String
  pub reactions : List Reaction

-- `_TIER_REGISTRY`: the class that is built for a tier, and the base class for any other
pub data Class : Type 0 where
  base epic ticket issue : Class

pub record Entity : Type 0 where
  pub cls : Class
  pub post_id : String
  pub title : Option String
  pub labels : List String
  pub parent_id : Option String
  pub depends_on : List String
  pub pending_approval_ids : List String
  pub reactions : List Reaction
  -- the thread that is attached to the entity, for callers that pass no conversation
  pub comments : List Comment

abbrev pub class_tier : Class → Option String
class_tier base = none
class_tier epic = some "epic"
class_tier ticket = some "ticket"
class_tier issue = some "issue"

abbrev pub child_tier : Class → Option String
child_tier base = none
child_tier epic = some "ticket"
child_tier ticket = some "issue"
child_tier issue = none

-- `label in _WORK_TIERS`
unfoldable pub is_work_tier : String → Bool
is_work_tier s = str_eq s "epic" || str_eq s "ticket" || str_eq s "issue"

abbrev pub or_else {ℓ} : {A : Type ℓ} → Option A → Option A → Option A
or_else none b = b
or_else (some a) b = some a

-- the first loop of `tier_from_labels`: `tier:<tier>`
unfoldable pub prefixed_tier : List String → Option String
unfolding strip_prefix
prefixed_tier [] = none
prefixed_tier (l ∷ ls) = or_else (strip_prefix "tier:" l) (prefixed_tier ls)

-- the second loop: a bare tier label
unfoldable pub bare_tier : List String → Option String
unfolding is_work_tier
bare_tier [] = none
bare_tier (l ∷ ls) = if is_work_tier l then some l else bare_tier ls

abbrev work_tier_of : Option (String × String) → Option String
work_tier_of none = none
work_tier_of (some (before, after)) = if is_work_tier before then some before else none

-- the third loop: the tier in front of `:status:`
unfoldable pub embedded_tier : List String → Option String
unfolding cut_at is_work_tier
embedded_tier [] = none
embedded_tier (l ∷ ls) = or_else (work_tier_of (cut_at ":status:" l)) (embedded_tier ls)

unfoldable pub tier_from_labels : List String → Option String
unfolding prefixed_tier bare_tier embedded_tier
tier_from_labels labels =
    or_else (prefixed_tier labels) (or_else (bare_tier labels) (embedded_tier labels))

abbrev after_mark : Option (String × String) → Option String
after_mark none = none
after_mark (some (before, after)) = some after

unfoldable pub status_from_labels : List String → Option String
unfolding strip_prefix cut_at
status_from_labels [] = none
status_from_labels (l ∷ ls) =
    or_else (strip_prefix "status:" l)
      (or_else (after_mark (cut_at ":status:" l)) (status_from_labels ls))

-- the property `tier`: that of the class, else that of the labels
unfoldable pub tier : Entity → Option String
unfolding tier_from_labels
tier e = or_else (class_tier e.cls) (tier_from_labels e.labels)

unfoldable pub status : Entity → Option String
unfolding status_from_labels
status e = status_from_labels e.labels

abbrev same_tier : Option String → Option String → Bool
same_tier (some a) (some b) = str_eq a b
same_tier _ _ = false

unfoldable pub can_contain : Entity → Entity → Bool
can_contain e other = same_tier (child_tier e.cls) (class_tier other.cls)

unfoldable pub is_child_of : Entity → Entity → Bool
unfolding can_contain
is_child_of e other = can_contain other e

unfoldable pub ref : Entity → EntityRef
unfolding tier status
ref e = record { post_id = e.post_id; tier = tier e; status = status e; title = e.title }

-- `_TIER_REGISTRY.get(tier, cls)`
unfoldable pub class_of_tier : Option String → Class
class_of_tier none = base
class_of_tier (some t) =
    if str_eq t "epic"
    then epic
    else if str_eq t "ticket"
    then ticket
    else if str_eq t "issue"
    then issue
    else base

unfoldable pub for_labels :
    (post_id : String) (labels : List String) (title parent_id : Option String) → Entity
unfolding class_of_tier tier_from_labels
for_labels post_id labels title parent_id = record {
  cls = class_of_tier (tier_from_labels labels);
  post_id = post_id;
  title = title;
  labels = labels;
  parent_id = parent_id;
  depends_on = [];
  pending_approval_ids = [];
  reactions = [];
  comments = [];
}

-- tasks/task_base.py: the entity context that one label implies
abbrev some_ref : String → Option String → Option String → Option EntityRef
some_ref post_id none none = none
some_ref post_id t s = some (record { post_id = post_id; tier = t; status = s; title = none })

unfoldable pub entity_ref_for_label : (post_id label : String) → Option EntityRef
unfolding tier_from_labels status_from_labels
entity_ref_for_label post_id label =
    some_ref post_id (tier_from_labels (label ∷ [])) (status_from_labels (label ∷ []))
