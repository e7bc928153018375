-- ===== src/Tracker/Read.antt =====
-- tracking/tracking_local.py: what is read of an entry. Reactions are grouped by kind; their users
-- stand in the order in which they reacted.
use Prim.Native.String
use Prim.Native.Nat.{Ordering}
use specseed.Prelude.{
  ℕ, String, Bool, true, false, ◌&&◌, not, Option, none, some, List, [], ◌∷◌, ◌++◌, map, keep, any,
  find?, str_eq, ◌==◌, if◌then◌else◌,
}
use specseed.Prelude.Text.{decimal}
use specseed.Entities.{Comment, Reaction}
use specseed.StateMachine.{contains}
use specseed.Tracker.Tables.{Store, EntryRow, CommentRow, ReactionRow, entry_row}

-- the order of texts
unfoldable pub str_le : String → String → Bool
str_le s t = elim (String.compare s t) [ Ordering.gt ↦ false | _ ↦ true ]

unfoldable pub insert_name : String → List String → List String
unfolding str_le
insert_name n [] = n ∷ []
insert_name n (m ∷ ms) = if str_le n m then n ∷ m ∷ ms else m ∷ insert_name n ms

-- `ORDER BY name`
unfoldable pub sort_names : List String → List String
unfolding insert_name
sort_names [] = []
sort_names (n ∷ ns) = insert_name n (sort_names ns)

abbrev pub names_of : ℕ → List (ℕ × String) → List String
names_of id [] = []
names_of id (p ∷ ps) = let rest = names_of id ps in if p.0 == id then p.1 ∷ rest else rest

-- `_labels_for_entry`, the names
unfoldable pub labels_for_entry : ℕ → Store → List String
unfolding sort_names
labels_for_entry id s = sort_names (names_of id s.entry_labels)

abbrev user_names : Option String → List String
user_names none = []
user_names (some u) = if str_eq u "" then [] else u ∷ []

-- one more row in the groups, which stand by kind
unfoldable pub group_row : ReactionRow → List Reaction → List Reaction
unfolding str_le str_eq
group_row r [] = record { kind = r.kind; users = user_names r.user } ∷ []
group_row r (g ∷ gs) =
    let later = group_row r gs in
    if str_eq r.kind g.kind
    then record { kind = g.kind; users = user_names r.user ++ g.users } ∷ gs
    else if str_le r.kind g.kind
    then record { kind = r.kind; users = user_names r.user } ∷ g ∷ gs
    else g ∷ later

unfoldable pub grouped : ℕ → List ReactionRow → List Reaction
unfolding group_row
grouped parent [] = []
grouped parent (r ∷ rs) =
    let rest = grouped parent rs in if r.parent == parent then group_row r rest else rest

-- `_reactions_for_comment`
abbrev pub reactions_for_comment : ℕ → Store → List Reaction
reactions_for_comment id s = grouped id s.comment_reactions

-- `_reactions_for_entry`
abbrev pub reactions_for_entry : ℕ → Store → List Reaction
reactions_for_entry id s = grouped id s.entry_reactions

unfoldable pub comment_from_row : Store → CommentRow → Comment
unfolding grouped decimal
comment_from_row s c = record {
  id = decimal c.id;
  author = c.author;
  body = some c.body;
  reactions = reactions_for_comment c.id s;
}

pub record Summary : Type 0 where
  pub id : ℕ
  pub title : String
  pub labels : List String
  pub is_open : Bool
  pub author : Option String
  pub assignees : List String
  pub created_at : String
  pub updated_at : String

unfoldable pub summary_from_row : Store → EntryRow → Summary
unfolding labels_for_entry
summary_from_row s r = record {
  id = r.id;
  title = r.title;
  labels = labels_for_entry r.id s;
  is_open = r.is_open;
  author = r.author;
  assignees = r.assignees;
  created_at = r.created_at;
  updated_at = r.updated_at;
}

pub record Details : Type 0 where
  pub summary : Summary
  pub body : Option String
  pub comments : List Comment
  pub reactions : List Reaction

unfoldable pub details_from_row : Store → EntryRow → Details
unfolding summary_from_row comment_from_row grouped
details_from_row s r = record {
  summary = summary_from_row s r;
  body = r.body;
  comments = map (comment_from_row s) (keep (λ c. c.entry_id == r.id) s.comments);
  reactions = reactions_for_entry r.id s;
}

-- none where the entry is missing
unfoldable pub get_entry : String → Store → Option Details
unfolding entry_row details_from_row
get_entry id s = elim (entry_row id s) [ none ↦ none | some r ↦ some (details_from_row s r) ]

unfoldable pub get_entry_labels : String → Store → Option (List String)
unfolding entry_row labels_for_entry
get_entry_labels id s = elim (entry_row id s) [
  | none ↦ none
  | some r ↦ some (labels_for_entry r.id s)
]

unfoldable pub is_entry_open : String → Store → Option Bool
unfolding entry_row
is_entry_open id s = elim (entry_row id s) [ none ↦ none | some r ↦ some r.is_open ]

abbrev passes : {A : Type 0} → (A → Bool) → Option A → Bool
passes p none = true
passes p (some a) = p a

abbrev same : Bool → Bool → Bool
same true b = b
same false b = not b

unfoldable pub is_wanted :
    (is_open : Option Bool) (labels : List String) (assignee updated_since : Option String)
    → Summary
    → Bool
unfolding str_le str_eq
is_wanted is_open labels assignee updated_since e =
    passes (same e.is_open) is_open
    && not (any (λ l. not (contains l e.labels)) labels)
    && passes (λ a. contains a e.assignees) assignee
    && passes (λ t. str_le t e.updated_at) updated_since

unfoldable pub list_entries :
    (is_open : Option Bool) (labels : List String) (assignee updated_since : Option String)
    → Store
    → List Summary
unfolding is_wanted summary_from_row
list_entries is_open labels assignee updated_since s =
    keep (is_wanted is_open labels assignee updated_since) (map (summary_from_row s) s.entries)

-- `entry_id_for_comment`
unfoldable pub entry_id_for_comment : ℕ → Store → Option ℕ
entry_id_for_comment id s = elim (find? (λ c. c.id == id) s.comments) [
  | none ↦ none
  | some c ↦ some c.entry_id
]
