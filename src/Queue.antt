-- ===== src/Queue.antt =====
-- db/database.py: the local work queue. A `Db` is the contents of its two tables, each method a
-- function of the contents before it (and of the clock, where the method reads it). Rows stand in
-- insertion order, which is the order of their ids. Every method is one transaction, run whole
-- under the process lock. Timestamps are seconds: the ISO texts of one fixed format, which SQL
-- compares as texts, are in the order of the instants.
mod Tables
unfoldable pub use Tables.*
mod Select
pub mod Rows
pub mod Invariant
pub mod Claim
pub mod Counts
pub mod Ownership
pub mod Errors
pub mod Readback
pub mod Attempts
mod Examples
use specseed.Prelude.{
  ℕ, suc, ◌+◌, String, Bool, true, false, ◌&&◌, ◌||◌, Option, none, some, List, [], ◌∷◌, ◌++◌, map,
  ltb, leb, ◌==◌, str_eq, if◌then◌else◌, keep, count, find?, any,
}
use specseed.Prelude.Text.{strip}
use specseed.Payload.{Payload}

unfoldable pub is_blank : String → Bool
unfolding strip str_eq
is_blank s = str_eq (strip s) ""

abbrev pub new_task :
    (id now : ℕ) (action : String) (post_id : Option String) (payload : Payload) (lane : Lane)
    (priority : ℕ)
    → Task
new_task id now action post_id payload lane priority = record {
  task_id = id;
  action = action;
  post_id = post_id;
  payload = payload;
  status = pending;
  attempts = 0;
  created_at = now;
  last_attempted_at = none;
  not_before = none;
  lane = lane;
  priority = priority;
}

-- the INSERT of `enqueue`
unfoldable pub insert_task :
    (now : ℕ) (action : String) (post_id : Option String) (payload : Payload) (lane : Lane)
    (priority : ℕ)
    → Db
    → ℕ × Db
insert_task now action post_id payload lane priority db =
    let id = db.seq + 1 in
    (
      id,
      record db {
        tasks = db.tasks ++ new_task id now action post_id payload lane priority ∷ [];
        seq = id;
      },
    )

-- the check of the lane, then the INSERT
unfoldable pub insert_in :
    (now : ℕ) (action : String) (post_id : Option String) (payload : Payload) (lane : Option Lane)
    (priority : ℕ)
    → Db
    → Enqueued
insert_in now action post_id payload none priority db = rejected unknown_lane
insert_in now action post_id payload (some lane) priority db =
    let r = insert_task now action post_id payload lane priority db in accepted r.0 r.1

unfoldable pub enqueue :
    (now : ℕ) (action : String) (post_id : Option String) (payload : Payload) (lane : String)
    (priority : ℕ)
    → Db
    → Enqueued
unfolding insert_in insert_task is_blank lane_of
enqueue now action post_id payload lane priority db =
    if is_blank action
    then rejected action_required
    else insert_in now action post_id payload (lane_of lane) priority db

-- `UPDATE tasks SET … WHERE task_id = ?`
unfoldable pub update_task : ℕ → (Task → Task) → List Task → List Task
update_task id f [] = []
update_task id f (t ∷ ts) = (if t.task_id == id then f t else t) ∷ update_task id f ts

-- `not_before IS NULL OR not_before <= ?`
unfoldable pub due : ℕ → Task → Bool
due now t = elim t.not_before [ none ↦ true | some at ↦ leb at now ]

-- the WHERE clause of `claim_next`
unfoldable pub claimable : Lane → ℕ → Task → Bool
unfolding due
claimable lane now t = status_eq t.status pending && lane_eq t.lane lane && due now t

-- `ORDER BY priority DESC, task_id ASC`
unfoldable pub goes_before : Task → Task → Bool
goes_before a b = ltb b.priority a.priority || (a.priority == b.priority && ltb a.task_id b.task_id)

abbrev pub first_of : Task → Option Task → Task
first_of t none = t
first_of t (some u) = if goes_before u t then u else t

-- the first row in that order among those that pass the test (`LIMIT 1`)
unfoldable pub select : (Task → Bool) → List Task → Option Task
unfolding goes_before
select ok [] = none
select ok (t ∷ ts) = let rest = select ok ts in if ok t then some (first_of t rest) else rest

unfoldable pub get_task : ℕ → Db → Option Task
get_task id db = find? (λ t. t.task_id == id) db.tasks

abbrev pub claimed : ℕ → Task → Task
claimed now t = record t {
  status = in_progress;
  attempts = t.attempts + 1;
  last_attempted_at = some now;
}

-- the UPDATE of the row that was found, which is then read back
unfoldable pub claim_row : ℕ → Option Task → Db → Option Task × Db
unfolding update_task get_task
claim_row now none db = (none, db)
claim_row now (some t) db =
    let after = record db { tasks = update_task t.task_id (claimed now) db.tasks } in
    (get_task t.task_id after, after)

unfoldable pub claim_next : Lane → ℕ → Db → Option Task × Db
unfolding select claimable claim_row
claim_next lane now db = claim_row now (select (claimable lane now) db.tasks) db

abbrev pub completed : ℕ → Bool → Task → Task
completed now ok t = record t {
  status = if ok then success else failed;
  last_attempted_at = some now;
}

-- the row of `task_errors` for a failure that has a message
unfoldable pub record_error : ℕ → ℕ → Option String → Db → Db
record_error now id none db = db
record_error now id (some message) db = record db {
  errors =
      db.errors
      ++ record { error_id = db.error_seq + 1; task_id = id; message = message; executed_at = now }
        ∷ [];
  error_seq = db.error_seq + 1;
}

unfoldable pub complete : ℕ → ℕ → Bool → Option String → Db → Db
unfolding update_task record_error
complete now id ok error db =
    let after = record db { tasks = update_task id (completed now ok) db.tasks } in
    if ok then after else record_error now id error after

abbrev pub requeued : Option ℕ → Task → Task
requeued not_before t = record t { status = pending; not_before = not_before }

unfoldable pub requeue : ℕ → Option ℕ → Db → Db
unfolding update_task
requeue id not_before db = record db { tasks = update_task id (requeued not_before) db.tasks }

unfoldable pub remove : ℕ → Db → Db
remove id db = record db { tasks = keep (λ t. if t.task_id == id then false else true) db.tasks }

abbrev pub reclaimed : Task → Task
reclaimed t = if status_eq t.status in_progress then record t { status = pending } else t

-- the ids come first, then the update (which changes nothing where there are none)
unfoldable pub reset_in_progress : Db → List ℕ × Db
reset_in_progress db = (
  map (λ t. t.task_id) (keep (λ t. status_eq t.status in_progress) db.tasks),
  record db { tasks = map reclaimed db.tasks },
)

abbrev pub post_is : String → Task → Bool
post_is post t = elim t.post_id [ none ↦ false | some p ↦ str_eq p post ]

unfoldable pub tasks_for : String → Db → List Task
tasks_for post db = keep (post_is post) db.tasks

-- the WHERE clause of `_count_status`
unfoldable pub counted : List Status → Option Lane → Option ℕ → Task → Bool
unfolding due
counted statuses lane ready_at t =
    any (status_eq t.status) statuses
    && elim lane [ none ↦ true | some l ↦ lane_eq t.lane l ]
    && elim ready_at [ none ↦ true | some now ↦ due now t ]

-- `ready_at` is the clock where `ready_now` is set
unfoldable pub count_status : List Status → Option Lane → Option ℕ → Db → ℕ
unfolding counted
count_status statuses lane ready_at db = count (counted statuses lane ready_at) db.tasks

unfoldable pub pending_count : Option Lane → Option ℕ → Db → ℕ
unfolding count_status
pending_count lane ready_at db = count_status (pending ∷ []) lane ready_at db

unfoldable pub active_count : Option Lane → Db → ℕ
unfolding count_status
active_count lane db = count_status (pending ∷ in_progress ∷ []) lane none db

unfoldable pub is_empty : Db → Bool
unfolding active_count
is_empty db = active_count none db == 0

unfoldable pub errors_for : ℕ → Db → List TaskError
errors_for id db = keep (λ e. e.task_id == id) db.errors
