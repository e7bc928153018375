-- ===== src/Advance/Writes.antt =====
-- executing/advance.py: the context of a run, the writes to the tracker, and a fresh approval token.
-- The tracker is a local one (tracking_local.py). The results of its writes are not looked at, as in
-- the code, but where a new post's id is wanted.
use specseed.Prelude.{
  ℕ, suc, String, Bool, true, false, ◌||◌, not, Option, none, some, List, [], ◌∷◌, str_eq,
  if◌then◌else◌,
}
use specseed.Prelude.Text.{cat, starts_with, has_part}
use specseed.Config.{Config}
use specseed.Entities.{Entity, tier, status, status_from_labels}
use specseed.Identity.{platform_comment}
use specseed.Token.{format_apr}
use specseed.Tracker
use specseed.Tracker.{Store, Answer, ok, failed}
use specseed.Tracker.Read.{Details, get_entry}
use specseed.Advance.Wording.{draft_body}

-- the parts of ExecutionContext, and the keys of the configuration, that advance.py reads. The
-- confidence bar is in hundredths.
pub record Ctx : Type 0 where
  pub config : Config
  -- config["specseed_primary_branch"] or "main"
  pub primary_branch : String
  -- permissions.can_post_issues(), which is True
  pub can_write : Bool
  -- not permissions.can_merge_to_primary()
  pub merge_gated : Bool
  pub confidence_threshold : ℕ
  pub max_attempts : ℕ
  pub now : String

-- the tracker, and the file of the token counter
pub record World : Type 0 where
  pub remote : Store
  pub apr_counter : ℕ

-- class WorkTransition
pub record WorkTransition : Type 0 where
  pub detail : Option String
  pub merge : Bool
  pub prepare : Bool

abbrev pub just : String → WorkTransition
just detail = record { detail = some detail; merge = false; prepare = false }

abbrev pub nothing : WorkTransition
nothing = record { detail = none; merge = false; prepare = false }

-- executing/approvals.py, `next_apr_id`
unfoldable pub next_apr_id : World → World × String
unfolding format_apr
next_apr_id w = (record w { apr_counter = suc w.apr_counter }, format_apr (suc w.apr_counter))

abbrev status_of : Option Details → Option String
status_of none = none
status_of (some d) = status_from_labels d.summary.labels

-- `remote_status`
unfoldable pub remote_status : (post_id : String) → World → Option String
unfolding get_entry status_from_labels
remote_status post_id w = status_of (get_entry post_id w.remote)

abbrev pub differs : Option String → Option String → Bool
differs none _ = false
differs (some current) none = true
differs (some current) (some s) = not (str_eq current s)

-- `_is_stale`
unfoldable pub is_stale : Entity → World → Bool
unfolding remote_status status str_eq
is_stale entity w = differs (remote_status entity.post_id w) (status entity)

abbrev tier_or_issue : Option String → String
tier_or_issue none = "issue"
tier_or_issue (some t) = if str_eq t "" then "issue" else t

-- `_status_label`
unfoldable pub status_label : Option String → (status : String) → String
unfolding cat str_eq
status_label tier status = cat (tier_or_issue tier ∷ ":status:" ∷ status ∷ [])

-- a label in one of the two forms of a status label
unfoldable pub names_status : String → Bool
unfolding starts_with has_part
names_status name = starts_with "status:" name || has_part ":status:" name

-- the loop of `_set_status`
unfoldable pub remove_status : (now post_id label : String) → Store → Store
unfolding names_status
remove_status now post_id l s =
    if names_status l then (Tracker.remove_entry_label now post_id l s).0 else s

unfoldable pub remove_statuses : (now post_id : String) → List String → Store → Store
unfolding remove_status
remove_statuses now post_id [] s = s
remove_statuses now post_id (l ∷ ls) s =
    remove_statuses now post_id ls (remove_status now post_id l s)

unfoldable pub swap_status : (now post_id : String) → List String → String → Store → Store
unfolding remove_statuses
swap_status now post_id labels label s =
    (Tracker.add_entry_label now post_id label (remove_statuses now post_id labels s)).0

-- `_set_status`
unfoldable pub set_status : Ctx → Entity → (new_status : String) → World → World
unfolding swap_status status_label tier
set_status ctx entity new_status w = record w {
  remote =
      swap_status ctx.now entity.post_id entity.labels (status_label (tier entity) new_status)
        w.remote;
}

-- `_comment`
unfoldable pub comment : Ctx → (post_id body : String) → World → World
unfolding platform_comment
comment ctx post_id body w = record w {
  remote =
      (Tracker.add_entry_comment ctx.now post_id (platform_comment body ctx.config) w.remote).0;
}

-- `_close`
unfoldable pub close : Ctx → (post_id : String) → World → World
close ctx post_id w = record w { remote = (Tracker.set_entry_closed ctx.now post_id w.remote).0 }

abbrev pub draft_labels : List String
draft_labels = "spec-change:adapt" ∷ "draft" ∷ "management" ∷ []

abbrev new_id : Answer ℕ → Option ℕ
new_id (ok id) = some id
new_id (failed e) = none

-- a draft post: the world with it, and its id where it was made
unfoldable pub add_draft : Ctx → (title body : String) → World → World × Option ℕ
add_draft ctx title body w =
    let (remote, answer) = Tracker.add_entry ctx.now title (some body) draft_labels [] w.remote in
    (record w { remote = remote }, new_id answer)

-- `_draft_adapt_post`
unfoldable pub draft_adapt_post : Ctx → (title reason summary : String) → World → World × Option ℕ
unfolding add_draft draft_body
draft_adapt_post ctx title reason summary w = add_draft ctx title (draft_body reason summary) w
