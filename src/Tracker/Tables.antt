-- ===== src/Tracker/Tables.antt =====
-- tracking/tracking_local.py, `_init_db` and the rows by id. AUTOINCREMENT ids come from counters;
-- both tables of reactions share one here, as nothing compares their ids. The code asks for a row by
-- an id that may be a text; a row has the id whose digits the text is.
use specseed.Prelude.{ℕ, String, Bool, ◌&&◌, Option, List, find?, any, str_eq, ◌==◌}
use specseed.Prelude.Text.{decimal}

pub record EntryRow : Type 0 where
  pub id : ℕ
  pub title : String
  pub body : Option String
  pub is_open : Bool
  pub author : Option String
  pub assignees : List String
  pub created_at : String
  pub updated_at : String

pub record LabelRow : Type 0 where
  pub name : String
  pub color : Option String
  pub description : Option String

pub record CommentRow : Type 0 where
  pub id : ℕ
  pub entry_id : ℕ
  pub body : String
  pub author : Option String
  pub created_at : String
  pub updated_at : String

-- a row of comment_reactions or of entry_reactions; the parent is the comment or the entry
pub record ReactionRow : Type 0 where
  pub id : ℕ
  pub parent : ℕ
  pub kind : String
  pub user : Option String

pub record Store : Type 0 where
  -- who writes: `self.author`
  pub author : String
  pub entries : List EntryRow
  pub labels : List LabelRow
  pub entry_labels : List (ℕ × String)
  pub pinned : List ℕ
  pub comments : List CommentRow
  pub comment_reactions : List ReactionRow
  pub entry_reactions : List ReactionRow
  pub next_entry : ℕ
  pub next_comment : ℕ
  pub next_reaction : ℕ

-- `_entry_row`
unfoldable pub entry_row : String → Store → Option EntryRow
unfolding decimal str_eq
entry_row id s = find? (λ r. str_eq (decimal r.id) id) s.entries

-- `_comment_row`
unfoldable pub comment_row : ℕ → String → Store → Option CommentRow
unfolding decimal str_eq
comment_row entry_id id s =
    find? (λ c. c.entry_id == entry_id && str_eq (decimal c.id) id) s.comments

unfoldable pub is_label : ℕ → String → ℕ × String → Bool
unfolding str_eq
is_label id label p = p.0 == id && str_eq p.1 label

unfoldable pub has_label : ℕ → String → Store → Bool
unfolding is_label
has_label id label s = any (is_label id label) s.entry_labels
