-- ===== src/Approval/Examples.antt =====
-- The theorems on approvals at one entity with a platform request and an approver's answer.
use specseed.Prelude.{String, ◌≡◌, refl, true, none, some, List, [], ◌∷◌, ◌++◌, All, str_eq}
use specseed.Prelude.Text.{casefold, cut_at}
use specseed.Config.{Config}
use specseed.Entities.{Entity, Comment, Reaction, issue}
use specseed.Approval.{
  approved_by, rejected_by, merge_approved_by, is_approver, gate_reaction_users, is_request,
  comment_reaction_users,
}
use specseed.Approval.Sound.{Allowed, approvals-Allowed}

abbrev team : Config
team = record {
  platform_username = some "robot";
  approvals = none;
  approver_usernames = "ann" ∷ [];
  permission_approvers = [];
  bot_usernames = [];
  bot_username = [];
  allow_any_approver = none;
  recovery_enabled = none;
  max_retries = none;
}

abbrev said : String → String → List Reaction → Comment
said author body reactions = record {
  id = "1";
  author = some author;
  body = some body;
  reactions = reactions;
}

abbrev request : Comment
request =
    said "robot" "specseed: Approve? <!-- specseed:approval-request APR-0001 -->"
      (record { kind = "thumbs_up"; users = "ann" ∷ [] } ∷ [])

abbrev thread : List Comment
thread = said "ann" "approve: APR-0001" [] ∷ []

abbrev item : Entity
item = record {
  cls = issue;
  post_id = "7";
  title = some "Parser";
  labels = [];
  parent_id = none;
  depends_on = [];
  pending_approval_ids = "APR-0001" ∷ [];
  reactions = [];
  comments = [];
}

approvals-Allowed_example :
    All (Allowed team) (approved_by item team (some (thread ++ request ∷ [])))
    × All (Allowed team) (rejected_by item team (some (thread ++ request ∷ [])))
    × All (Allowed team) (merge_approved_by item team (some (thread ++ request ∷ [])))
approvals-Allowed_example = approvals-Allowed item team (some (thread ++ request ∷ []))

ann_may : is_approver team "Ann" ≡ true
unfolding is_approver str_eq casefold
ann_may = refl

-- the approver's reaction on the request counts
ann_approves :
    gate_reaction_users item "thumbs_up" team (some (thread ++ request ∷ [])) ≡ "ann" ∷ []
unfolding gate_reaction_users comment_reaction_users is_request is_approver str_eq casefold cut_at
ann_approves = refl
