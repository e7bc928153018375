-- ===== src/Recovery/Examples.antt =====
-- The theorems on recovery at one failing task.
use specseed.Prelude.{
  ℕ, ◌≡◌, ◌≤◌, ◌<◌, ◌↔◌, ◌+◌, arith, refl, Bool, true, false, ◌&&◌, Option, none, if◌then◌else◌,
  some, [], ◌∷◌, str_eq,
}
use specseed.Prelude.Text.{has_part}
use specseed.Config.{Config}
use specseed.Payload.{flag}
use specseed.Queue.{Db, Task, failed, work, requeued, get_task}
use specseed.Queue.Rows.{over}
use specseed.Recovery.{
  Remote, Post, ok, Failure, on_failure, enabled, max_retries, retry_delay_s, retry_cancelled,
  platform_error_action, find_error_post, is_open,
}
use specseed.Recovery.Retry.{may_retry, on_failure_lem}
use specseed.Recovery.Report.{retry_cancelled-on_failure}

abbrev solo : Config
solo = record {
  platform_username = none;
  approvals = none;
  approver_usernames = [];
  permission_approvers = [];
  bot_usernames = [];
  bot_username = [];
  allow_any_approver = none;
  recovery_enabled = none;
  max_retries = none;
}

abbrev failing : ℕ → Task
failing attempts = record {
  task_id = 1;
  action = "implement";
  post_id = some "7";
  payload = [];
  status = failed;
  attempts = attempts;
  created_at = 10;
  last_attempted_at = some 50;
  not_before = none;
  lane = work;
  priority = 50;
}

abbrev queue : Db
queue = record { tasks = failing 1 ∷ []; seq = 1; errors = []; error_seq = 0 }

abbrev died : Failure
died = record { error = "agent died"; retryable = true }

abbrev error_post : Bool → Post
error_post shown = record {
  id = "9";
  body = "Something went wrong. <!-- specseed:platform-error task=1 -->";
  is_open = flag shown;
}

abbrev tracker : Bool → Remote
tracker shown = record {
  list_entries = ok (ok (error_post shown) ∷ []);
  add_entry = ok (error_post true);
}

abbrev no_posts : Remote
no_posts = record { list_entries = ok []; add_entry = ok (error_post true) }

abbrev tracked : Bool → Option Remote
tracked shown = some (tracker shown)

on_failure_example :
    ((on_failure 100 solo (tracked true) (failing 1) died queue).retried
      ≡ may_retry solo (tracked true) (failing 1) died)
    × (get_task 1 (on_failure 100 solo (tracked true) (failing 1) died queue).db ≡ (
        if may_retry solo (tracked true) (failing 1) died && true
        then over (requeued (some (100 + retry_delay_s 1))) (get_task 1 queue)
        else get_task 1 queue))
on_failure_example = on_failure_lem 100 solo (tracked true) (failing 1) died queue 1 (omega arith)

-- the first failure of the task is tried again
tried_again : may_retry solo (tracked true) (failing 1) died ≡ true
unfolding str_eq has_part enabled max_retries find_error_post is_open
tried_again = refl

on : enabled solo ≡ true
unfolding enabled
on = refl

left : 2 ≤ max_retries solo
unfolding max_retries
left = omega arith

retry_cancelled_example : (retry_cancelled (tracked false) (failing 2) ≡ true) ↔ (
    (1 < 2)
    × (str_eq "implement" platform_error_action ≡ false)
    × ((on_failure 100 solo (tracked false) (failing 2) died queue).retried ≡ false))
retry_cancelled_example =
    retry_cancelled-on_failure 100 solo (tracked false) (failing 2) died queue on refl left

closed_by_human : retry_cancelled (tracked false) (failing 2) ≡ true
unfolding retry_cancelled str_eq has_part
closed_by_human = refl
