-- ===== src/Dispatch/Examples.antt =====
-- executing/dispatch.py: an event about an issue that is ready to be implemented.
use specseed.Prelude.{ℕ, ◌≡◌, refl, true, false, none, some, [], ◌∷◌, str_eq, arith, if◌then◌else◌}
use specseed.Config.{Config}
use specseed.Entities.{Entity, issue}
use specseed.Queue
use specseed.Queue.{Db, Task, pending, control}
use specseed.Tracker.{Store, EntryRow}
use specseed.Advance.Writes.{Ctx, World}
use specseed.Dispatch.Work.{Mirror, Setting, run_work, owning_post, or_no_post}
use specseed.Dispatch.Jobs.{OneJob}
use specseed.Dispatch.Admission.{Effect}
use specseed.Dispatch.Events.{run_work-Effect, run_work-OneJob}

abbrev config : Config
config = record {
  platform_username = some "bot";
  approvals = none;
  approver_usernames = "ann" ∷ [];
  permission_approvers = [];
  bot_usernames = [];
  bot_username = [];
  allow_any_approver = none;
  recovery_enabled = none;
  max_retries = none;
}

abbrev ctx : Ctx
ctx = record {
  config = config;
  primary_branch = "main";
  can_write = true;
  merge_gated = true;
  confidence_threshold = 95;
  max_attempts = 2;
  now = "t1";
}

abbrev row : ℕ → EntryRow
row id = record {
  id = id;
  title = "work";
  body = none;
  is_open = true;
  author = some "ann";
  assignees = "bot" ∷ [];
  created_at = "t0";
  updated_at = "t0";
}

abbrev store : Store
store = record {
  author = "bot";
  entries = row 7 ∷ row 9 ∷ [];
  labels = [];
  entry_labels = (7, "issue:status:todo") ∷ (9, "issue:status:done") ∷ [];
  pinned = [];
  comments = [];
  comment_reactions = [];
  entry_reactions = [];
  next_entry = 10;
  next_comment = 1;
  next_reaction = 1;
}

abbrev world : World
world = record { remote = store; apr_counter = 0 }

abbrev item : Entity
item = record {
  cls = issue;
  post_id = "7";
  title = some "work";
  labels = "issue:status:todo" ∷ [];
  parent_id = none;
  depends_on = [];
  pending_approval_ids = [];
  reactions = [];
  comments = [];
}

abbrev mirror : Mirror
mirror = record {
  load = λ id. if str_eq id "7" then some item else none;
  conversation = λ id. [];
  assignees = λ id. "bot" ∷ [];
  entry_id_for_comment = λ id. some "7";
}

abbrev setting : Setting
setting = record {
  ctx = ctx;
  mirror = mirror;
  auto_assign = false;
  auto_implement = true;
  poll_interval = 45;
  review_required = λ e. true;
  manual_required = λ e. false;
  hitl_required = λ e. false;
  resolve_spec_change_request = λ e w. none;
  now = 100;
}

abbrev event : Task
event = record {
  task_id = 1;
  action = "handle_reaction_added";
  post_id = some "21";
  payload = [];
  status = pending;
  attempts = 0;
  created_at = 10;
  last_attempted_at = none;
  not_before = none;
  lane = control;
  priority = 50;
}

loads_item : mirror.load (owning_post mirror event.action (or_no_post event.post_id)) ≡ some item
unfolding owning_post str_eq
loads_item = refl

none-OneJob : OneJob "work_run" Queue.empty
unfolding OneJob
none-OneJob post_id f = omega arith

run_work-Effect_example :
    Effect setting item event.action world Queue.empty (run_work setting event world Queue.empty).db
run_work-Effect_example = run_work-Effect setting event world Queue.empty item loads_item

run_work-OneJob_example : OneJob "work_run" (run_work setting event world Queue.empty).db
run_work-OneJob_example = run_work-OneJob "work_run" setting event world Queue.empty none-OneJob
