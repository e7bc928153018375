-- ===== src/Dispatch.antt =====
-- executing/dispatch.py: what an event about a work item asks for, and how the heavy jobs get on the
-- work lane. The wording of the details, which go to the log, is left out. An event is a row of the
-- queue (`Task`); its action and its post are read. The id of an entity is never empty.
pub mod Work
pub mod Jobs
pub mod Intents
pub mod Admission
pub mod Events
mod Examples
use specseed.Prelude.{
  ℕ, String, Bool, true, false, ◌&&◌, ◌||◌, not, Option, none, some, List, [], ◌∷◌, any, str_eq,
  if◌then◌else◌,
}
use specseed.Prelude.Text.{strip_prefix, starts_with}
use specseed.Payload.{Payload, text, flag}
use specseed.StateMachine.{contains}
use specseed.Entities.{Entity, tier, status}
use specseed.Queue.{
  Db, Task, Status, pending, in_progress, status_eq, Enqueued, accepted, rejected, tasks_for,
  enqueue,
}
use specseed.Scheduler.{HandlerOutcome}
use specseed.Advance.Writes.{WorkTransition}
use specseed.Advance.RollUp.{is_text}

-- the intents that `decide_intent` gives
pub data Intent : Type 0 where
  spec_change implement review ask nothing : Intent

abbrev pub intent_name : Intent → String
intent_name spec_change = "spec_change"
intent_name implement = "implement"
intent_name review = "review"
intent_name ask = "ask"
intent_name nothing = "none"

abbrev pub is_implement : Intent → Bool
is_implement implement = true
is_implement _ = false

abbrev pub succeeded : HandlerOutcome
succeeded = record {
  success = true;
  requeue = false;
  error = none;
  retryable = false;
  requeue_after_s = none;
  quota = false;
  quota_until = none;
}

-- work_lane.py
abbrev pub work_run : String
work_run = "work_run"

abbrev pub work_gate_action : String
work_gate_action = "work_gate_action"

-- priorities.py
abbrev pub work_default : ℕ
work_default = 50

abbrev pub work_merge : ℕ
work_merge = 60

abbrev route_or : Option String → Option String → Option String
route_or none later = later
route_or (some r) later = if str_eq r "" then later else some r

-- `_spec_change_route`
unfoldable pub spec_change_route : List String → Option String
unfolding starts_with strip_prefix str_eq
spec_change_route [] = none
spec_change_route (l ∷ ls) =
    let later = spec_change_route ls in
    if starts_with "spec-change:status:" l
    then later
    else route_or (strip_prefix "spec-change:" l) later

-- `_spec_change_status`
unfoldable pub spec_change_status : List String → Option String
unfolding strip_prefix
spec_change_status [] = none
spec_change_status (l ∷ ls) =
    let later = spec_change_status ls in
    elim (strip_prefix "spec-change:status:" l) [ none ↦ later | some s ↦ some s ]

-- `_spec_change_actionable`
unfoldable pub spec_change_actionable : Option String → (action : String) → Bool
unfolding str_eq
spec_change_actionable none action = true
spec_change_actionable (some s) action =
    if str_eq s "done" || str_eq s "rejected"
    then false
    else if str_eq s "awaiting_input" || str_eq s "awaiting_approval"
    then str_eq action "handle_comment_added" || str_eq action "handle_comment_updated"
    else true

-- `_has_pending_spec_change_run`
unfoldable pub has_pending_spec_change_run : Db → (post_id : String) → Bool
unfolding tasks_for str_eq
has_pending_spec_change_run db post_id =
    not (str_eq post_id "")
    && any
        (λ t.
          status_eq t.status pending
          && (str_eq t.action "run_spec_change_script" || str_eq t.action "propose_spec_change"))
        (tasks_for post_id db)

abbrev pub is_active : Status → Bool
is_active s = status_eq s pending || status_eq s in_progress

abbrev pub is_job : (action : String) → Task → Bool
is_job action t = str_eq t.action action && is_active t.status

-- `_has_pending_work_job`
unfoldable pub has_pending_work_job : Db → (post_id action : String) → Bool
unfolding tasks_for str_eq
has_pending_work_job db post_id action =
    not (str_eq post_id "") && any (is_job action) (tasks_for post_id db)

-- the tables after an INSERT that the code does not expect to fail
abbrev pub stored : Db → Enqueued → Db
stored db (accepted id db') = db'
stored db (rejected e) = db

-- a job on the work lane, unless the post has one already
unfoldable pub schedule :
    (now : ℕ) (post_id action : String) (payload : Payload) (priority : ℕ) → Db → Db
unfolding has_pending_work_job enqueue
schedule now post_id action payload priority db =
    if has_pending_work_job db post_id action
    then db
    else stored db (enqueue now action (some post_id) payload "work" priority db)

-- `_schedule_work_run`
unfoldable pub schedule_work_run : (now : ℕ) → Entity → Intent → Db → Db
unfolding schedule
schedule_work_run now entity intent db =
    schedule now entity.post_id work_run
      (("intent", text (intent_name intent)) ∷ ("post_id", text entity.post_id) ∷ []) work_default
      db

-- `_schedule_gate_action`
unfoldable pub schedule_gate_action : (now : ℕ) → Entity → WorkTransition → Db → Db
unfolding schedule
schedule_gate_action now entity transition db =
    if transition.prepare || transition.merge
    then schedule now entity.post_id work_gate_action
        (("post_id", text entity.post_id)
          ∷ ("prepare", flag transition.prepare)
          ∷ ("merge", flag transition.merge)
          ∷ [])
        work_merge db
    else db

-- a status that an issue may be started from
abbrev pub startable : Option String → Bool
startable none = true
startable (some s) = str_eq s "todo"

-- `decide_intent` of an entity that is there
unfoldable pub decide_intent : Entity → (next_states : List String) → (action : String) → Intent
unfolding spec_change_route spec_change_status spec_change_actionable tier status str_eq
decide_intent entity next_states action =
    if contains "draft" entity.labels then nothing else elim (spec_change_route entity.labels) [
      | some route ↦
          if spec_change_actionable (spec_change_status entity.labels) action
          then spec_change
          else nothing
      | none ↦
          if contains "ask" entity.labels
          then (if str_eq action "handle_label_added" || str_eq action "handle_comment_added"
              then ask
              else nothing)
          else if is_text "issue" (tier entity)
              && startable (status entity)
              && contains "in_progress" next_states
          then implement
          else if is_text "in_review" (status entity)
          then review
          else nothing
    ]
