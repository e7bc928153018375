-- ===== src/Sync/Examples.antt =====
-- The theorems on the sync at one queue with a pending row and a row in progress.
use specseed.Prelude.{
  String, ℕ, ◌≡◌, refl, inl, inr, true, false, not, none, some, List, [], ◌∷◌, In, arith, keep,
  count, str_eq,
}
use specseed.Config.{Config}
use specseed.Payload
use specseed.Payload.{text}
use specseed.Identity.{platform_comment, platform_username, needs_comment_prefix}
use specseed.Queue.{Db, Task, Status, pending, in_progress, control, status_eq, post_is}
use specseed.Queue.Invariant.{IsWellFormed}
use specseed.Cancellation.{empty, is_cancelled}
use specseed.Tasks.{Change, TaskSpec, columns, row, spec_key}
use specseed.Sync.{World, no_changes, teardown_post, supersede, replace_with, step, ignore}
use specseed.Sync.Supersede.{doomed, supersede_lem}
use specseed.Sync.Step.{replace_with-one, step-own_comment}
use specseed.Sync.Teardown.{teardown_post-gone, teardown_post-kept, teardown_post-cancels}

abbrev entry_row : ℕ → Status → String → Task
entry_row id status post = record {
  task_id = id;
  action = "handle_entry_updated";
  post_id = some post;
  payload = [];
  status = status;
  attempts = 0;
  created_at = 10;
  last_attempted_at = none;
  not_before = none;
  lane = control;
  priority = 50;
}

abbrev queue : Db
queue = record {
  tasks = entry_row 1 pending "7" ∷ entry_row 2 in_progress "7" ∷ entry_row 3 pending "8" ∷ [];
  seq = 3;
  errors = [];
  error_seq = 0;
}

queue-IsWellFormed : IsWellFormed queue
queue-IsWellFormed = record {
  ids = (omega arith, (omega arith, (omega arith, omega arith)));
  error_ids = tt;
}

abbrev world : World
world = record { db = queue; registry = empty; summary = no_changes; seen_keys = [] }

abbrev no_comments : String → List String
no_comments post = []

abbrev edit : TaskSpec
edit = record { action = "handle_entry_updated"; post_id = some "7"; payload = [] }

supersede_example :
    (supersede edit queue).1.tasks ≡ keep (λ r. not (doomed "7" (spec_key edit) r)) queue.tasks
supersede_example = supersede_lem edit "7" queue queue-IsWellFormed refl

replace_with-one_example :
    count (doomed "7" (spec_key edit)) (replace_with 100 edit world).db.tasks ≡ 1
replace_with-one_example = replace_with-one 100 edit "7" world queue-IsWellFormed refl

is_of_seven : (id : ℕ) (s : Status) → post_is "7" (entry_row id s "7") ≡ true
unfolding str_eq
is_of_seven id s = refl

two_stays :
    In (entry_row 2 in_progress "7") (teardown_post 100 no_comments "7" "delete" world).db.tasks
two_stays =
    teardown_post-kept 100 no_comments "7" "delete" world queue-IsWellFormed
      (entry_row 2 in_progress "7") (inr (inl refl)) refl

teardown_post-gone_example : status_eq in_progress pending ≡ false
teardown_post-gone_example =
    teardown_post-gone 100 no_comments "7" "delete" world queue-IsWellFormed
      (entry_row 2 in_progress "7") (inr (inl refl)) two_stays (is_of_seven 2 in_progress)

teardown_post-cancels_example :
    is_cancelled 2 (teardown_post 100 no_comments "7" "delete" world).registry ≡ true
teardown_post-cancels_example =
    teardown_post-cancels 100 no_comments "7" "delete" world queue-IsWellFormed
      (entry_row 2 in_progress "7") (inr (inl refl)) (is_of_seven 2 in_progress) refl

abbrev solo : Config
solo = record {
  platform_username = none;
  approvals = none;
  approver_usernames = [];
  permission_approvers = [];
  bot_usernames = [];
  bot_username = [];
  allow_any_approver = none;
  recovery_enabled = none;
  max_retries = none;
}

abbrev echoed : Change
echoed = record {
  action = "create";
  resource_type = "comment";
  resource_id = "70";
  parent_id = some "7";
  field = none;
  old = row [];
  new = row (("author", text "ann") ∷ ("body", text (platform_comment "Started." solo)) ∷ []);
  at = none;
}

author_column : Payload.get "author" (columns echoed.new) ≡ text "ann"
unfolding Payload.get str_eq
author_column = refl

body_column : Payload.get "body" (columns echoed.new) ≡ text (platform_comment "Started." solo)
unfolding Payload.get str_eq
body_column = refl

marks : needs_comment_prefix solo ≡ true
unfolding needs_comment_prefix
marks = refl

never : needs_comment_prefix solo ≡ false → platform_username solo ≡ some "ann"
never e = absurd (cc (e, marks))

step-own_comment_example : step 100 (platform_username solo) no_comments echoed world ≡ ignore world
step-own_comment_example =
    step-own_comment 100 solo no_comments echoed world "Started." "ann" refl (inl refl)
      author_column body_column never

abbrev deletion : Change
deletion = record {
  action = "delete";
  resource_type = "entry";
  resource_id = "7";
  parent_id = none;
  field = none;
  old = row [];
  new = row [];
  at = none;
}
