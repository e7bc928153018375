-- ===== src/Tracker.antt =====
-- tracking/tracking_local.py: the tables of a local tracker and the operations on entries. It is the
-- mirror of the runtime, and the remote of a project without a provider. A method is one
-- transaction; where the code raises within it, the tables stay as they were. `now` is `_now()`.
mod Tables
pub mod Read
pub mod Labels
pub mod Writes
pub mod Order
unfoldable pub use Tables.*
use Prim.Native.String
use specseed.Prelude.{
  ℕ, zero, suc, String, Bool, true, false, ◌&&◌, not, Option, none, some, List, [], ◌∷◌, ◌++◌, map,
  keep, any, find?, str_eq, ◌==◌, if◌then◌else◌,
}
use specseed.Prelude.Text.{strip, decimal}

-- class TrackingResult
pub data Answer (A : Type 0) : Type 0 where
  ok : A → Answer A
  failed : (error : String) → Answer A

abbrev pub missing_entry : {A : Type 0} → String → Answer A
missing_entry id = failed (String.◌++◌ "entry not found: " id)

-- a write to the entry of this id, where there is one
abbrev pub at_entry :
    {A : Type 0} → String → (EntryRow → Store → Store × Answer A) → Store → Store × Answer A
at_entry id write s = elim (entry_row id s) [
  | none ↦ (s, missing_entry id)
  | some row ↦ write row s
]

-- `UPDATE entries SET … WHERE id = ?`
unfoldable pub update_entry : (EntryRow → EntryRow) → ℕ → Store → Store
update_entry f id s = record s { entries = map (λ r. if r.id == id then f r else r) s.entries }

unfoldable pub touch_entry : ℕ → (now : String) → Store → Store
unfolding update_entry
touch_entry id now s = update_entry (λ r. record r { updated_at = now }) id s

-- `_set_entry_state`
unfoldable pub set_entry_state : Bool → (now id : String) → Store → Store × Answer Bool
unfolding update_entry
set_entry_state is_open now id s =
    at_entry id
      (λ row s.
        (update_entry (λ r. record r { is_open = is_open; updated_at = now }) row.id s, ok is_open))
      s

abbrev pub set_entry_open : (now id : String) → Store → Store × Answer Bool
set_entry_open = set_entry_state true

abbrev pub set_entry_closed : (now id : String) → Store → Store × Answer Bool
set_entry_closed = set_entry_state false

unfoldable pub pin_entry : String → Store → Store × Answer ℕ
pin_entry id s =
    at_entry id
      (λ row s. (
        if any (λ p. p == row.id) s.pinned
            then s
            else record s { pinned = s.pinned ++ row.id ∷ [] },
        ok row.id,
      ))
      s

-- `DELETE FROM entries`, which the foreign keys carry on to what hangs on the entry
unfoldable pub drop_entry : ℕ → Store → Store
drop_entry id s =
    let gone = keep (λ c. c.entry_id == id) s.comments in
    record s {
      entries = keep (λ r. not (r.id == id)) s.entries;
      entry_labels = keep (λ p. not (p.0 == id)) s.entry_labels;
      pinned = keep (λ p. not (p == id)) s.pinned;
      comments = keep (λ c. not (c.entry_id == id)) s.comments;
      comment_reactions = keep (λ r. not (any (λ c. c.id == r.parent) gone)) s.comment_reactions;
      entry_reactions = keep (λ r. not (r.parent == id)) s.entry_reactions;
    }

unfoldable pub delete_entry : String → Store → Store × Answer ℕ
unfolding drop_entry
delete_entry id s = at_entry id (λ row s. (drop_entry row.id s, ok row.id)) s

abbrev or_kept : {A : Type 0} → Option A → A → A
or_kept none old = old
or_kept (some new) old = new

abbrev kept_body : Option String → Option String → Option String
kept_body none old = old
kept_body (some new) old = some new

abbrev is_blank : Option String → Bool
is_blank none = false
is_blank (some t) = str_eq (strip t) ""

abbrev none_given : Option String → Option String → Bool
none_given none none = true
none_given _ _ = false

unfoldable pub edit_entry :
    (now id : String) (title body : Option String) → Store → Store × Answer ℕ
unfolding update_entry strip str_eq
edit_entry now id title body s =
    if is_blank title
    then (s, failed "entry title cannot be blank")
    else if none_given title body
    then (s, failed "nothing to edit (title and body both None)")
    else at_entry id
        (λ row s. (
          update_entry
              (λ r. record r {
                title = or_kept title r.title;
                body = kept_body body r.body;
                updated_at = now;
              })
              row.id s,
          ok row.id,
        ))
        s

unfoldable pub set_entry_assignees : (now id : String) → List String → Store → Store × Answer ℕ
unfolding update_entry
set_entry_assignees now id assignees s =
    at_entry id
      (λ row s. (
        update_entry (λ r. record r { assignees = assignees; updated_at = now }) row.id s,
        ok row.id,
      ))
      s

-- `_ensure_label_conn`, for a name that is not blank
unfoldable pub ensure_label : String → (color description : Option String) → Store → Store
unfolding str_eq
ensure_label name color description s =
    if any (λ l. str_eq l.name name) s.labels then s else record s {
      labels = s.labels ++ record { name = name; color = color; description = description } ∷ [];
    }

unfoldable pub is_blank_label : String → Bool
unfolding strip str_eq
is_blank_label name = str_eq (strip name) ""

unfoldable pub create_label :
    String → (color description : Option String) → Store → Store × Answer String
unfolding is_blank_label ensure_label
create_label name color description s =
    if is_blank_label name
    then (s, failed "label name is required")
    else (ensure_label name color description s, ok name)

-- `_attach_label_conn`: INSERT OR IGNORE
unfoldable pub attach_label : ℕ → String → Store → Store
unfolding has_label
attach_label id label s =
    if has_label id label s
    then s
    else record s { entry_labels = s.entry_labels ++ (id, label) ∷ [] }

unfoldable pub label_entry : ℕ → String → Store → Store
unfolding ensure_label attach_label
label_entry id label s = attach_label id label (ensure_label label none none s)

unfoldable pub label_all : ℕ → List String → Store → Store
unfolding label_entry
label_all id [] s = s
label_all id (l ∷ ls) s = label_all id ls (label_entry id l s)

unfoldable pub add_entry :
    (now title : String) (body : Option String) (labels assignees : List String)
    → Store
    → Store × Answer ℕ
unfolding is_blank_label label_all
add_entry now title body labels assignees s =
    if is_blank_label title
    then (s, failed "entry title is required")
    else if any is_blank_label labels
    then (s, failed "label name is required")
    else (
      label_all s.next_entry labels (record s {
        entries =
            s.entries
            ++ record {
              id = s.next_entry;
              title = title;
              body = body;
              is_open = true;
              author = some s.author;
              assignees = assignees;
              created_at = now;
              updated_at = now;
            }
              ∷ [];
        next_entry = suc s.next_entry;
      }),
      ok s.next_entry,
    )

unfoldable pub insert_comment : (now body : String) → ℕ → Store → Store
insert_comment now body id s = record s {
  comments =
      s.comments
      ++ record {
        id = s.next_comment;
        entry_id = id;
        body = body;
        author = some s.author;
        created_at = now;
        updated_at = now;
      }
        ∷ [];
  next_comment = suc s.next_comment;
}

unfoldable pub add_entry_comment : (now id body : String) → Store → Store × Answer ℕ
unfolding insert_comment touch_entry str_eq
add_entry_comment now id body s =
    if str_eq body ""
    then (s, failed "comment body is required")
    else at_entry id
        (λ row s. (touch_entry row.id now (insert_comment now body row.id s), ok s.next_comment)) s

-- SUPPORTED_REACTIONS
unfoldable pub is_supported_reaction : String → Bool
is_supported_reaction kind = any (str_eq kind) ("eyes" ∷ "heart" ∷ "thumbs_up" ∷ "thumbs_down" ∷ [])

abbrev reacted : ℕ → String → Store → ReactionRow
reacted parent kind s = record {
  id = s.next_reaction;
  parent = parent;
  kind = kind;
  user = some s.author;
}

unfoldable pub add_entry_reaction : (now id kind : String) → Store → Store × Answer ℕ
unfolding touch_entry is_supported_reaction
add_entry_reaction now id kind s =
    if not (is_supported_reaction kind)
    then (s, failed (String.◌++◌ "unsupported reaction: " kind))
    else at_entry id
        (λ row s. (
          touch_entry row.id now (record s {
            entry_reactions = s.entry_reactions ++ reacted row.id kind s ∷ [];
            next_reaction = suc s.next_reaction;
          }),
          ok row.id,
        ))
        s

unfoldable pub add_entry_comment_reaction :
    (now id comment_id kind : String) → Store → Store × Answer ℕ
unfolding comment_row touch_entry is_supported_reaction
add_entry_comment_reaction now id comment_id kind s =
    if not (is_supported_reaction kind)
    then (s, failed (String.◌++◌ "unsupported reaction: " kind))
    else at_entry id
        (λ row s. elim (comment_row row.id comment_id s) [
          | none ↦ (s, failed (String.◌++◌ "comment not found: " comment_id))
          | some c ↦ (
            touch_entry row.id now (record s {
              comment_reactions = s.comment_reactions ++ reacted c.id kind s ∷ [];
              next_reaction = suc s.next_reaction;
            }),
            ok c.id,
          )
        ])
        s

unfoldable pub add_entry_label : (now id label : String) → Store → Store × Answer ℕ
unfolding is_blank_label label_entry touch_entry
add_entry_label now id label s =
    at_entry id
      (λ row s.
        if is_blank_label label
        then (s, failed "label name is required")
        else (touch_entry row.id now (label_entry row.id label s), ok row.id))
      s

-- touched only where a row was deleted
unfoldable pub remove_entry_label : (now id label : String) → Store → Store × Answer ℕ
unfolding has_label touch_entry is_label
remove_entry_label now id label s =
    at_entry id
      (λ row s. (
        if has_label row.id label s
            then touch_entry row.id now (record s {
              entry_labels = keep (λ p. not (is_label row.id label p)) s.entry_labels;
            })
            else s,
        ok row.id,
      ))
      s
