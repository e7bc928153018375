-- ===== src/Tasks.antt =====
-- tasks/*.py: the typed tasks, built from a change of the tracker, and the resource that a task is
-- about. Ids of the tracker are texts, as the queue stores them.
pub mod Keys
mod Examples
use Prim.Native.String
use specseed.Prelude.{
  String, Bool, true, false, ◌&&◌, ◌||◌, not, Option, none, some, List, [], ◌∷◌, str_eq,
  if◌then◌else◌, ◌==◌, ℕ,
}
use specseed.Prelude.Text.{strip, casefold}
use specseed.Payload
use specseed.Payload.{Payload, Value, EntityRef, null, flag, num, text, entity, of_text}
use specseed.Entities.{entity_ref_for_label}

-- what a change holds as old or new: a value, or the columns of a row
pub data Datum : Type 0 where
  value : Value → Datum
  row : Payload → Datum

-- tracking/tracking_base.py, TrackingSyncChange
pub record Change : Type 0 where
  pub action : String
  pub resource_type : String
  pub resource_id : String
  pub parent_id : Option String
  pub field : Option String
  pub old : Datum
  pub new : Datum
  pub at : Option String

-- class Task: ACTION, post_id, payload
pub record TaskSpec : Type 0 where
  pub action : String
  pub post_id : Option String
  pub payload : Payload

-- the tuples of `resource_key`
pub data Key : Type 0 where
  comment_key : Value → Key
  label_key : Option String → Value → Key
  reaction_key : Value → Key
  entry_reaction_key : Value → Key
  entry_key : Option String → Key
  action_key : String → Option String → Key

abbrev pub opt_eq : Option String → Option String → Bool
opt_eq none none = true
opt_eq (some a) (some b) = str_eq a b
opt_eq _ _ = false

abbrev ref_eq : EntityRef → EntityRef → Bool
ref_eq a b =
    str_eq a.post_id b.post_id
    && opt_eq a.tier b.tier
    && opt_eq a.status b.status
    && opt_eq a.title b.title

abbrev bool_eq : Bool → Bool → Bool
bool_eq true true = true
bool_eq false false = true
bool_eq _ _ = false

unfoldable pub value_eq : Value → Value → Bool
unfolding str_eq
value_eq null null = true
value_eq (flag a) (flag b) = bool_eq a b
value_eq (num a) (num b) = a == b
value_eq (text a) (text b) = str_eq a b
value_eq (entity a) (entity b) = ref_eq a b
value_eq _ _ = false

unfoldable pub key_eq : Key → Key → Bool
unfolding value_eq str_eq
key_eq (comment_key a) (comment_key b) = value_eq a b
key_eq (label_key p a) (label_key q b) = opt_eq p q && value_eq a b
key_eq (reaction_key a) (reaction_key b) = value_eq a b
key_eq (entry_reaction_key a) (entry_reaction_key b) = value_eq a b
key_eq (entry_key p) (entry_key q) = opt_eq p q
key_eq (action_key a p) (action_key b q) = str_eq a b && opt_eq p q
key_eq _ _ = false

-- tasks/task_base.py
unfoldable pub resource_key : (action : String) → Option String → Payload → Key
unfolding Payload.get str_eq
resource_key action pid payload =
    if str_eq action "handle_comment_added" || str_eq action "handle_comment_updated"
    then comment_key (Payload.get "comment_id" payload)
    else if str_eq action "handle_label_added" || str_eq action "handle_label_removed"
    then label_key pid (Payload.get "label" payload)
    else if str_eq action "handle_reaction_added" || str_eq action "handle_reaction_removed"
    then reaction_key (Payload.get "reaction_id" payload)
    else if str_eq action "handle_entry_reaction_added"
        || str_eq action "handle_entry_reaction_removed"
    then entry_reaction_key (Payload.get "reaction_id" payload)
    else if str_eq action "handle_entry_created"
        || str_eq action "handle_entry_updated"
        || str_eq action "handle_entry_reopened"
    then entry_key pid
    else action_key action pid

unfoldable pub spec_key : TaskSpec → Key
unfolding resource_key
spec_key t = resource_key t.action t.post_id t.payload

-- the columns of a row, and none of a plain value: `change.new if isinstance(…, dict) else {}`
abbrev pub columns : Datum → Payload
columns (value v) = []
columns (row p) = p

-- `str(change.new)` of a label, which is a text
abbrev pub label_text : Datum → String
label_text (value (text s)) = s
label_text _ = ""

abbrev entity_value : Option EntityRef → Value
entity_value none = null
entity_value (some r) = entity r

abbrev title_text : Value → Option String
title_text (text s) = some s
title_text _ = none

-- bool(v)
unfoldable pub truthy : Value → Bool
unfolding str_eq
truthy null = false
truthy (flag b) = b
truthy (num n) = not (n == 0)
truthy (text s) = not (str_eq s "")
truthy (entity r) = true

abbrev has : String → Payload → Bool
has key [] = false
has key ((k, v) ∷ rest) = str_eq k key || has key rest

unfoldable pub entry_created : Change → TaskSpec
unfolding Payload.get truthy
entry_created c =
    let new = columns c.new in
    record {
      action = "handle_entry_created";
      post_id = some c.resource_id;
      payload =
          ("title", Payload.get "title" new)
          ∷ (
            "is_open",
            if has "is_open" new then flag (truthy (Payload.get "is_open" new)) else null,
          )
          ∷ ("author", Payload.get "author" new)
          ∷ ("at", of_text c.at)
          ∷ (
            "entity",
            entity (record {
              post_id = c.resource_id;
              tier = none;
              status = none;
              title = title_text (Payload.get "title" new);
            }),
          )
          ∷ [];
    }

-- the tasks that carry only the time of the change
abbrev pub timed : String → Change → TaskSpec
timed action c = record {
  action = action;
  post_id = some c.resource_id;
  payload = ("at", of_text c.at) ∷ [];
}

unfoldable pub label_task : String → String → Change → TaskSpec
unfolding entity_ref_for_label
label_task action label c = record {
  action = action;
  post_id = c.parent_id;
  payload =
      ("label", text label)
      ∷ ("at", of_text c.at)
      ∷ (
        "entity",
        elim c.parent_id [
          | none ↦ entity_value (entity_ref_for_label "None" label)
          | some p ↦ entity_value (entity_ref_for_label p label)
        ],
      )
      ∷ [];
}

unfoldable pub comment_added : Change → TaskSpec
unfolding Payload.get
comment_added c = record {
  action = "handle_comment_added";
  post_id = c.parent_id;
  payload =
      ("comment_id", text c.resource_id)
      ∷ ("body", Payload.get "body" (columns c.new))
      ∷ ("author", Payload.get "author" (columns c.new))
      ∷ ("at", of_text c.at)
      ∷ [];
}

abbrev pub comment_updated : Change → TaskSpec
comment_updated c = record {
  action = "handle_comment_updated";
  post_id = c.parent_id;
  payload =
      ("comment_id", text c.resource_id) ∷ ("field", of_text c.field) ∷ ("at", of_text c.at) ∷ [];
}

-- a reaction on a comment or on an entry was added
unfoldable pub reaction_added : String → Change → TaskSpec
unfolding Payload.get
reaction_added action c = record {
  action = action;
  post_id = c.parent_id;
  payload =
      ("reaction_id", text c.resource_id)
      ∷ ("kind", Payload.get "kind" (columns c.new))
      ∷ ("user", Payload.get "user" (columns c.new))
      ∷ ("at", of_text c.at)
      ∷ [];
}

abbrev pub reaction_removed : String → Change → TaskSpec
reaction_removed action c = record {
  action = action;
  post_id = c.parent_id;
  payload = ("reaction_id", text c.resource_id) ∷ ("at", of_text c.at) ∷ [];
}

-- CleanupTask.for_post
abbrev pub cleanup_for_post : (post_id reason : String) → ℕ → TaskSpec
cleanup_for_post post_id reason interrupted = record {
  action = "cleanup";
  post_id = some post_id;
  payload = ("reason", text reason) ∷ ("interrupted_task_id", num interrupted) ∷ [];
}
