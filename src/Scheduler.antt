-- ===== src/Scheduler.antt =====
-- executing/scheduler.py: the state that the two loop threads and the operator share, and what each
-- does to it. The clocks are arguments: `mono` is time.monotonic, `wall` the time of day, both in
-- seconds. What `dispatch` makes of a task is a HandlerOutcome (none where the worker left none).
-- The reloading of the configuration, the log and the heartbeat are not modelled.
pub mod Operator
pub mod Lanes
pub mod Finish
pub mod Tables
pub mod Attempts
mod Examples
use specseed.Prelude.{
  ℕ, suc, ◌+◌, ◌-◌, max, String, Bool, true, false, ◌&&◌, ◌||◌, not, Option, none, some, List, [],
  ◌∷◌, str_eq, leb, ltb, ◌==◌, if◌then◌else◌,
}
use specseed.Config.{Config}
use specseed.Queue
use specseed.Queue.{Db, Task, Lane, control, work, claim_next, pending_count, complete}
use specseed.Cancellation
use specseed.Cancellation.{Registry, cancel}
use specseed.Recovery.{Remote, Call, Failure, Reaction, on_failure, on_recovered}

pub data State : Type 0 where
  running paused stopped : State

abbrev pub state_eq : State → State → Bool
state_eq running running = true
state_eq paused paused = true
state_eq stopped stopped = true
state_eq _ _ = false

-- `alive`: the two loop threads
pub record Scheduler : Type 0 where
  pub state : State
  pub stop_set : Bool
  pub alive : Bool
  pub next_poll_at : ℕ
  pub last_desired : Option State
  pub current_task_id : Option ℕ
  pub current_control_task_id : Option ℕ
  pub quota_paused_until : ℕ
  pub db : Db
  pub registry : Registry

unfoldable pub start : Scheduler → Scheduler
start s =
    if s.alive
    then s
    else record s { stop_set = false; next_poll_at = 0; state = running; alive = true }

abbrev pub cancel_current : Option ℕ → Registry → Registry
cancel_current none reg = reg
cancel_current (some id) reg = cancel id reg

unfoldable pub request_stop : Scheduler → Scheduler
unfolding cancel
request_stop s = record s {
  state = stopped;
  stop_set = true;
  registry = cancel_current s.current_control_task_id (cancel_current s.current_task_id s.registry);
}

unfoldable pub pause : Scheduler → Scheduler
pause s = if state_eq s.state stopped then s else record s { state = paused }

unfoldable pub resume : Scheduler → Scheduler
resume s = if state_eq s.state stopped then s else record s { state = running; next_poll_at = 0 }

-- a state that is wanted: each has its method
unfoldable pub steer : State → Scheduler → Scheduler
unfolding pause resume request_stop
steer running s = resume s
steer paused s = pause s
steer stopped s = request_stop s

abbrev same_desired : Option State → State → Bool
same_desired none d = false
same_desired (some e) d = state_eq e d

-- `_reconcile_control_file`, with what `read_desired` answers
unfoldable pub reconcile_control_file : Option State → Scheduler → Scheduler
unfolding steer
reconcile_control_file none s = s
reconcile_control_file (some d) s =
    if same_desired s.last_desired d then s else steer d (record s { last_desired = some d })

-- the commands of the CONTROL post that steer: any other verb only answers
unfoldable pub obey : String → Scheduler → Scheduler
unfolding pause resume request_stop str_eq
obey verb s =
    if str_eq verb "pause"
    then pause s
    else if str_eq verb "start"
    then resume s
    else if str_eq verb "stop"
    then request_stop s
    else s

unfoldable pub process_control : List String → Scheduler → Scheduler
unfolding obey
process_control [] s = s
process_control (v ∷ vs) s = process_control vs (obey v s)

-- `_quota_circuit_open`: the answer, and the state that it leaves
unfoldable pub quota_circuit_open : ℕ → Scheduler → Bool × Scheduler
quota_circuit_open mono s =
    if s.quota_paused_until == 0
    then (false, s)
    else if leb s.quota_paused_until mono
    then (false, record s { quota_paused_until = 0; next_poll_at = 0 })
    else (true, s)

abbrev pub default_park_s : ℕ
default_park_s = 900

abbrev pub min_park_s : ℕ
min_park_s = 60

-- `_quota_park`: the instant of the hint (none where there is no hint, or one that cannot be read)
unfoldable pub quota_park : ℕ → Option ℕ → ℕ × ℕ
quota_park wall none = (default_park_s, wall + default_park_s)
quota_park wall (some reset) = (max min_park_s (reset - wall), reset)

unfoldable pub open_quota_circuit : (mono wall : ℕ) → ℕ → Option ℕ → Scheduler → Scheduler
unfolding quota_park Queue.requeue
open_quota_circuit mono wall id until s =
    let (park, at) = quota_park wall until in
    record s { db = Queue.requeue id (some at) s.db; quota_paused_until = mono + park }

-- the time of `_requeue_with_delay`
abbrev pub delayed_to : ℕ → Option ℕ → Option ℕ
delayed_to wall none = none
delayed_to wall (some d) = if d == 0 then none else some (wall + d)

pub record HandlerOutcome : Type 0 where
  pub success : Bool
  pub requeue : Bool
  pub error : Option String
  pub retryable : Bool
  pub requeue_after_s : Option ℕ
  pub quota : Bool
  pub quota_until : Option ℕ

-- `getattr(outcome, "error", None) or "unknown error"`
abbrev error_text : Option String → String
error_text none = "unknown error"
error_text (some e) = if str_eq e "" then "unknown error" else e

abbrev pub failure_of : HandlerOutcome → Failure
failure_of o = record { error = error_text o.error; retryable = o.retryable }

-- the two branches of `_recover`, for a success and for a failure
unfoldable pub recover_if :
    Bool → ℕ → Config → Option Remote → Task → HandlerOutcome → Db → Db × List Call
unfolding on_recovered on_failure
recover_if true wall config remote t o db =
    (db, if ltb 1 t.attempts then on_recovered remote t else [])
recover_if false wall config remote t o db =
    let r = on_failure wall config remote t (failure_of o) db in (r.db, r.calls)

-- `_recover`, with the calls that it makes to the tracker
unfoldable pub recover : ℕ → Config → Option Remote → Task → HandlerOutcome → Db → Db × List Call
unfolding recover_if
recover wall config remote t o db = recover_if o.success wall config remote t o db

-- `_finish_task`
unfoldable pub finish_task :
    (mono wall : ℕ)
    → Config
    → Option Remote
    → Task
    → Option HandlerOutcome
    → Scheduler
    → Scheduler × List Call
unfolding open_quota_circuit recover complete Queue.requeue
finish_task mono wall config remote t none s =
    (record s { db = Queue.requeue t.task_id none s.db }, [])
finish_task mono wall config remote t (some o) s =
    if o.requeue
    then (if o.quota then (open_quota_circuit mono wall t.task_id o.quota_until s, []) else (
      record s { db = Queue.requeue t.task_id (delayed_to wall o.requeue_after_s) s.db },
      [],
    ))
    else let (db, calls) =
        recover wall config remote t o (complete wall t.task_id o.success o.error s.db) in
      (record s { db = db }, calls)

-- the work lane: its tests, and the claim
unfoldable pub may_claim_work : ℕ → Bool → Scheduler → Bool
unfolding pending_count
may_claim_work wall parked s =
    state_eq s.state running && not parked && pending_count (some control) (some wall) s.db == 0

-- one turn of `_work_loop` up to the call of `_process_task`: the row that it is called with
unfoldable pub work_turn : (mono wall : ℕ) → Scheduler → Option Task × Scheduler
unfolding quota_circuit_open may_claim_work claim_next
work_turn mono wall s =
    let (parked, s') = quota_circuit_open mono s in
    let claimed = claim_next work wall s'.db in
    if s.stop_set
    then (none, s)
    else if not (state_eq s.state running)
    then (none, s)
    else if may_claim_work wall parked s'
    then (claimed.0, record s' { db = claimed.1 })
    else (none, s')

-- one claim of the drain in `_control_loop`
unfoldable pub control_turn : (wall : ℕ) → Scheduler → Option Task × Scheduler
unfolding claim_next
control_turn wall s =
    let claimed = claim_next control wall s.db in
    if s.stop_set
    then (none, s)
    else if state_eq s.state running
    then (claimed.0, record s { db = claimed.1 })
    else (none, s)

-- the beginning and the end of `_process_task` and of `_process_control_task` around the handler
unfoldable pub begin_task : Lane → Task → Scheduler → Scheduler
unfolding Cancellation.register
begin_task work t s = record s {
  registry = (Cancellation.register t.task_id s.registry).1;
  current_task_id = some t.task_id;
}
begin_task control t s = record s {
  registry = (Cancellation.register t.task_id s.registry).1;
  current_control_task_id = some t.task_id;
}

unfoldable pub end_task : Lane → Task → Scheduler → Scheduler
unfolding Cancellation.clear
end_task work t s = record s {
  registry = Cancellation.clear t.task_id s.registry;
  current_task_id = none;
}
end_task control t s = record s {
  registry = Cancellation.clear t.task_id s.registry;
  current_control_task_id = none;
}
