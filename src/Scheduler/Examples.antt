-- ===== src/Scheduler/Examples.antt =====
-- The theorems on the scheduler at one running scheduler.
use specseed.Prelude.{
  some_injective, subst, str_eq, ◌+◌, ◌≡◌, ◌≤◌, refl, true, false, none, some, List, [], ◌∷◌, arith,
}
use specseed.Config.{Config}
use specseed.Queue.{
  Db, Task, Status, pending, in_progress, control, work, claim_next, claimed, pending_count,
  get_task, status_eq,
}
use specseed.Queue.Attempts
use specseed.Queue.Invariant.{IsWellFormed, claim_op, apply}
use specseed.Cancellation.{empty}
use specseed.Scheduler.{
  Scheduler, HandlerOutcome, running, paused, request_stop, work_turn, control_turn, finish_task,
  process_control, reconcile_control_file,
}
use specseed.Scheduler.Operator.{
  Input, command, desired, receive_all, IsStopped, request_stop-final, reconcile_control_file-once,
}
use specseed.Scheduler.Lanes.{work_turn-some}
use specseed.Scheduler.Finish.{finished, finish_task_lem}
use specseed.Recovery.{max_retries}
use specseed.Scheduler.Attempts.{
  History, begin, operate, finish_own, retried, one_if, History-bounded,
}

abbrev solo : Config
solo = record {
  platform_username = none;
  approvals = none;
  approver_usernames = [];
  permission_approvers = [];
  bot_usernames = [];
  bot_username = [];
  allow_any_approver = none;
  recovery_enabled = none;
  max_retries = none;
}

abbrev job : Status → Task
job status = record {
  task_id = 1;
  action = "implement";
  post_id = some "7";
  payload = [];
  status = status;
  attempts = 1;
  created_at = 10;
  last_attempted_at = some 50;
  not_before = none;
  lane = work;
  priority = 50;
}

abbrev queue : Status → Db
queue status = record { tasks = job status ∷ []; seq = 1; errors = []; error_seq = 0 }

queue-IsWellFormed : (status : Status) → IsWellFormed (queue status)
queue-IsWellFormed status = record { ids = (omega arith, omega arith); error_ids = tt }

abbrev busy : Status → Scheduler
busy status = record {
  state = running;
  stop_set = false;
  alive = true;
  next_poll_at = 0;
  last_desired = none;
  current_task_id = some 1;
  current_control_task_id = none;
  quota_paused_until = 0;
  db = queue status;
  registry = empty;
}

abbrev crashed : HandlerOutcome
crashed = record {
  success = false;
  requeue = false;
  error = some "agent died";
  retryable = true;
  requeue_after_s = none;
  quota = false;
  quota_until = none;
}

row_there : get_task 1 (queue in_progress) ≡ some (job in_progress)
unfolding get_task
row_there = refl

finish_task_example :
    (get_task 1
        (finish_task 5 100 solo none (job in_progress) (some crashed) (busy in_progress)).0.db
      ≡ some (
          finished 100 solo none
            (job in_progress)
            (some crashed)
            (queue in_progress)
            (job in_progress)))
    × (status_eq
          (finished 100 solo none
            (job in_progress)
            (some crashed)
            (queue in_progress)
            (job in_progress)).status
          in_progress
        ≡ false)
finish_task_example =
    finish_task_lem 100 solo none (job in_progress) 5 (some crashed) (busy in_progress)
      (job in_progress) (queue-IsWellFormed in_progress) row_there

abbrev inputs : List Input
inputs = command "start" ∷ desired (some running) ∷ []

request_stop-final_example :
    IsStopped (receive_all inputs (request_stop (busy pending)))
    × (work_turn 5 100 (receive_all inputs (request_stop (busy pending)))
        ≡ (none, receive_all inputs (request_stop (busy pending))))
    × (control_turn 100 (receive_all inputs (request_stop (busy pending)))
        ≡ (none, receive_all inputs (request_stop (busy pending))))
request_stop-final_example = request_stop-final 5 100 inputs (busy pending)

reconcile_example :
    reconcile_control_file
      (some paused)
      (process_control ("start" ∷ []) (reconcile_control_file (some paused) (busy pending)))
    ≡ process_control ("start" ∷ []) (reconcile_control_file (some paused) (busy pending))
reconcile_example = reconcile_control_file-once paused ("start" ∷ []) (busy pending)

turn_claims : (work_turn 5 100 (busy pending)).0 ≡ some (claimed 100 (job pending))
unfolding work_turn
turn_claims = refl

work_turn-some_example :
    (running ≡ running)
    × (false ≡ false)
    × (pending_count (some control) (some 100) (queue pending) ≡ 0)
    × (0 ≤ 5)
    × ((claim_next work 100 (queue pending)).0 ≡ some (claimed 100 (job pending)))
    × ((work_turn 5 100 (busy pending)).1.db ≡ (claim_next work 100 (queue pending)).1)
work_turn-some_example = work_turn-some 5 100 (busy pending) (claimed 100 (job pending)) turn_claims

abbrev after_claim : Scheduler
after_claim = record (busy pending) { db = apply (claim_op work 100) (queue pending) }

-- the row waits, and is claimed
started : History solo 1 0 after_claim
unfolding get_task
started =
    operate 0 (busy pending) (claim_op work 100)
      (begin (busy pending) (queue-IsWellFormed pending) (omega arith) idle)
  where
    idle : (u : Task) → get_task 1 (queue pending) ≡ some u → Attempts.busy u ≡ 0
    idle u e = subst (λ (x : Task). Attempts.busy x ≡ 0) (some_injective (job pending) u e) refl

claimed_there : get_task 1 after_claim.db ≡ some (claimed 100 (job pending))
unfolding get_task apply claim_next
claimed_there = refl

abbrev after_failure : Scheduler
after_failure =
    (finish_task 7 120 solo none (claimed 100 (job pending)) (some crashed) after_claim).0

failed_once : retried 7 120 solo none (claimed 100 (job pending)) (some crashed) after_claim ≡ true
unfolding retried finish_task get_task apply claim_next str_eq
failed_once = refl

-- its run fails, and it is put back
once : History solo 1 1 after_failure
once =
    subst (λ b. History solo 1 (0 + one_if b) after_failure) failed_once
      (finish_own 0 7 120 after_claim none (claimed 100 (job pending)) (some crashed) started refl
        claimed_there refl)

History-bounded_example : 1 ≤ max_retries solo
History-bounded_example = History-bounded solo 1 1 after_failure once
