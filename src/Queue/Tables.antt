-- ===== src/Queue/Tables.antt =====
-- db/database.py: the rows of the two tables, and what enqueue may answer.
use specseed.Prelude.{
  ℕ, String, Bool, true, false, Option, none, some, List, [], str_eq, if◌then◌else◌,
}
use specseed.Payload.{Payload}

pub data Status : Type 0 where
  pending in_progress success failed : Status

pub data Lane : Type 0 where
  control work : Lane

abbrev pub status_eq : Status → Status → Bool
status_eq pending pending = true
status_eq in_progress in_progress = true
status_eq success success = true
status_eq failed failed = true
status_eq _ _ = false

abbrev pub lane_eq : Lane → Lane → Bool
lane_eq control control = true
lane_eq work work = true
lane_eq _ _ = false

-- `lane not in LANES`: the lane that a text names
unfoldable pub lane_of : String → Option Lane
lane_of name =
    if str_eq name "control" then some control else if str_eq name "work" then some work else none

abbrev pub default_priority : ℕ
default_priority = 50

-- a row of `tasks`
pub record Task : Type 0 where
  pub task_id : ℕ
  pub action : String
  pub post_id : Option String
  pub payload : Payload
  pub status : Status
  pub attempts : ℕ
  pub created_at : ℕ
  pub last_attempted_at : Option ℕ
  pub not_before : Option ℕ
  pub lane : Lane
  pub priority : ℕ

-- a row of `task_errors`
pub record TaskError : Type 0 where
  pub error_id : ℕ
  pub task_id : ℕ
  pub message : String
  pub executed_at : ℕ

-- `seq` and `error_seq` are the last ids given: AUTOINCREMENT never gives one again
pub record Db : Type 0 where
  pub tasks : List Task
  pub seq : ℕ
  pub errors : List TaskError
  pub error_seq : ℕ

abbrev pub empty : Db
empty = record { tasks = []; seq = 0; errors = []; error_seq = 0 }

-- the ValueErrors of `enqueue`
pub data EnqueueError : Type 0 where
  action_required unknown_lane : EnqueueError

pub data Enqueued : Type 0 where
  rejected : EnqueueError → Enqueued
  accepted : ℕ → Db → Enqueued
