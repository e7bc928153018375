-- ===== src/Sync/Build.antt =====
-- scheduling/sync_to_db.py: the change that is looked at, and the task that is built from it.
use specseed.Prelude.{
  String, Bool, true, false, ◌&&◌, ◌||◌, not, Option, none, some, [], ◌∷◌, str_eq, if◌then◌else◌,
}
use specseed.Prelude.Text.{strip, casefold}
use specseed.Payload
use specseed.Payload.{Payload, Value, null, flag, num, text}
use specseed.Identity.{is_platform_comment}
use specseed.Tasks.{
  Change, Datum, value, row, TaskSpec, columns, label_text, truthy, entry_created, timed,
  label_task, comment_added, comment_updated, reaction_added, reaction_removed,
}

-- `_is_open` of a column: texts are read, other values are tested
unfoldable pub is_open : Value → Bool
unfolding strip casefold str_eq truthy
is_open (text s) =
    let folded = casefold (strip s) in
    not (str_eq folded "0" || str_eq folded "false" || str_eq folded "")
is_open v = truthy v

abbrev pub datum_open : Datum → Bool
datum_open (value v) = is_open v
datum_open (row []) = false
datum_open (row (c ∷ cs)) = true

abbrev pub opt_is : String → Option String → Bool
opt_is s none = false
opt_is s (some t) = str_eq t s

-- a change of an entry's open state
unfoldable pub is_state_change : Change → Bool
unfolding str_eq
is_state_change c = str_eq c.action "state" && opt_is "is_open" c.field

-- `_is_entry_teardown`
unfoldable pub is_entry_teardown : Change → Bool
unfolding is_state_change is_open
is_entry_teardown c =
    str_eq c.resource_type "entry"
    && (str_eq c.action "delete" || (is_state_change c && not (datum_open c.new)))

abbrev pub value_text : Value → Option String
value_text (text s) = some s
value_text _ = none

-- `_is_platform_comment_change`
unfoldable pub is_platform_comment_change : Option String → Change → Bool
unfolding str_eq Payload.get is_platform_comment
is_platform_comment_change bot c =
    str_eq c.resource_type "comment"
    && (str_eq c.action "create" || str_eq c.action "update")
    && is_platform_comment (value_text (Payload.get "author" (columns c.new)))
        (value_text (Payload.get "body" (columns c.new))) bot

abbrev pub by_action : String → (create update delete : Option TaskSpec) → Option TaskSpec
by_action action create update delete =
    if str_eq action "create"
    then create
    else if str_eq action "update"
    then update
    else if str_eq action "delete"
    then delete
    else none

unfoldable pub entry_task : Change → Option TaskSpec
unfolding str_eq entry_created is_state_change is_open
entry_task c =
    if str_eq c.action "create"
    then some (entry_created c)
    else if str_eq c.action "update"
    then (if opt_is "updated_at" c.field then none else some (timed "handle_entry_updated" c))
    else if is_state_change c && datum_open c.new
    then some (timed "handle_entry_reopened" c)
    else none

-- `_build_task`
unfoldable pub build_task : Change → Option TaskSpec
unfolding str_eq entry_task label_task comment_added reaction_added
build_task c =
    if str_eq c.resource_type "entry"
    then entry_task c
    else if str_eq c.resource_type "entry_label"
    then by_action c.action (some (label_task "handle_label_added" (label_text c.new) c)) none
        (some (label_task "handle_label_removed" (label_text c.old) c))
    else if str_eq c.resource_type "comment"
    then by_action c.action (some (comment_added c)) (some (comment_updated c)) none
    else if str_eq c.resource_type "reaction"
    then by_action c.action (some (reaction_added "handle_reaction_added" c)) none
        (some (reaction_removed "handle_reaction_removed" c))
    else if str_eq c.resource_type "entry_reaction"
    then by_action c.action (some (reaction_added "handle_entry_reaction_added" c)) none
        (some (reaction_removed "handle_entry_reaction_removed" c))
    else none
