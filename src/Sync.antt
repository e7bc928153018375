-- ===== src/Sync.antt =====
-- scheduling/sync_to_db.py: the changes that a sync of the local mirror reports become rows of the
-- queue. `World` is what the loop changes: the queue, the cancellation registry, the summary and
-- the keys of this run. The clock is read once for a run. `comments_of` gives the ids of an
-- entry's comments in the local mirror (none where the entry cannot be read).
mod Build
unfoldable pub use Build.*
pub mod Supersede
pub mod Step
pub mod Gather
pub mod Keeps
pub mod Interrupt
pub mod Teardown
mod Examples
use Prim.Native.String
use specseed.Prelude.{
  ℕ, suc, ◌+◌, String, Bool, true, false, ◌&&◌, ◌||◌, not, Option, none, some, List, [], ◌∷◌, ◌++◌,
  any, ◌==◌, str_eq, if◌then◌else◌, length,
}
use specseed.Prelude.Text.{strip, casefold}
use specseed.Payload
use specseed.Payload.{Payload, Value, null, flag, num, text}
use specseed.Queue
use specseed.Queue.{
  Db, Task, pending, in_progress, control, status_eq, insert_task, tasks_for, remove,
  default_priority,
}
use specseed.Cancellation
use specseed.Cancellation.{Registry, cancel}
use specseed.Identity.{is_platform_comment}
use specseed.Tasks.{
  Change, Datum, value, row, TaskSpec, Key, key_eq, resource_key, spec_key, columns, label_text,
  truthy, entry_created, timed, label_task, comment_added, comment_updated, reaction_added,
  reaction_removed, cleanup_for_post,
}

pub record Summary : Type 0 where
  pub enqueued : ℕ
  pub superseded : ℕ
  pub coalesced : ℕ
  pub cleanups : ℕ
  pub interrupts_todo : ℕ
  pub ignored : ℕ

abbrev pub no_changes : Summary
no_changes = record {
  enqueued = 0;
  superseded = 0;
  coalesced = 0;
  cleanups = 0;
  interrupts_todo = 0;
  ignored = 0;
}

pub record World : Type 0 where
  pub db : Db
  pub registry : Registry
  pub summary : Summary
  pub seen_keys : List Key

-- Task.enqueue: the control lane (no action of a task class is blank)
unfoldable pub enqueue_spec : ℕ → TaskSpec → ℕ → Db → Db
unfolding insert_task
enqueue_spec now t priority db =
    (insert_task now t.action t.post_id t.payload control priority db).1

abbrev pub row_key : Task → Key
row_key r = resource_key r.action r.post_id r.payload

-- the test that `_supersede` makes of a row
unfoldable pub replaces : Key → Task → Bool
unfolding resource_key key_eq
replaces key r = status_eq r.status pending && key_eq (row_key r) key

-- the loop of `_supersede`
unfoldable pub supersede_rows : Key → List Task → Db → ℕ × Db
unfolding replaces remove
supersede_rows key [] db = (0, db)
supersede_rows key (r ∷ rows) db =
    let dropped = supersede_rows key rows (remove r.task_id db) in
    let kept = supersede_rows key rows db in
    if replaces key r then (suc dropped.0, dropped.1) else kept

-- `_supersede` of a task's post and key
unfoldable pub supersede_in : Option String → Key → Db → ℕ × Db
unfolding supersede_rows tasks_for
supersede_in none key db = (0, db)
supersede_in (some post) key db = supersede_rows key (tasks_for post db) db

unfoldable pub supersede : TaskSpec → Db → ℕ × Db
unfolding supersede_in spec_key
supersede t db = supersede_in t.post_id (spec_key t) db

-- `_COMMENT_KEYED_ACTIONS`
unfoldable pub comment_keyed : String → Bool
unfolding str_eq
comment_keyed action =
    str_eq action "handle_reaction_added" || str_eq action "handle_reaction_removed"

abbrev has_row : ℕ → List Task → Bool
has_row id rows = any (λ r. r.task_id == id) rows

-- one key of the teardown: its rows that are allowed and not there yet
unfoldable pub gather : (all_actions : Bool) → List Task → List Task → List Task
unfolding comment_keyed
gather all_actions [] found = found
gather all_actions (r ∷ rows) found = gather all_actions rows (
    if (all_actions || comment_keyed r.action) && not (has_row r.task_id found)
    then found ++ r ∷ []
    else found)

unfoldable pub gather_comments : List String → Db → List Task → List Task
unfolding gather tasks_for
gather_comments [] db found = found
gather_comments (cid ∷ cids) db found =
    gather_comments cids db (gather false (tasks_for cid db) found)

-- the rows of a post and of the reactions on its comments
unfoldable pub teardown_rows : String → List String → Db → List Task
unfolding gather gather_comments tasks_for
teardown_rows post cids db = gather_comments cids db (gather true (tasks_for post db) [])

-- pending rows are removed
unfoldable pub drop_pending : List Task → Db → ℕ × Db
unfolding remove
drop_pending [] db = (0, db)
drop_pending (r ∷ rows) db =
    let dropped = drop_pending rows (remove r.task_id db) in
    let kept = drop_pending rows db in
    if status_eq r.status pending then (suc dropped.0, dropped.1) else kept

-- rows in progress are interrupted, and a cleanup is queued for each
unfoldable pub interrupt_rows : ℕ → String → String → List Task → Db × Registry → ℕ × Db × Registry
unfolding enqueue_spec cancel
interrupt_rows now post reason [] (db, reg) = (0, db, reg)
interrupt_rows now post reason (r ∷ rows) (db, reg) =
    let rest =
      interrupt_rows now post reason rows
        (enqueue_spec now (cleanup_for_post post reason r.task_id) 85 db, cancel r.task_id reg) in
    let other = interrupt_rows now post reason rows (db, reg) in
    if status_eq r.status in_progress then (suc rest.0, rest.1, rest.2) else other

-- `_teardown_post`
unfoldable pub teardown_post : ℕ → (String → List String) → String → String → World → World
unfolding teardown_rows drop_pending interrupt_rows
teardown_post now comments_of post action w =
    let rows = teardown_rows post (comments_of post) w.db in
    let (removed, db) = drop_pending rows w.db in
    let (interrupted, db', reg) =
      interrupt_rows now post (String.◌++◌ "entry_" action) rows (db, w.registry) in
    record w {
      db = db';
      registry = reg;
      summary = record (w.summary) {
        superseded = w.summary.superseded + removed;
        interrupts_todo = w.summary.interrupts_todo + interrupted;
        cleanups = w.summary.cleanups + interrupted;
      };
    }

abbrev pub ignore : World → World
ignore w = record w { summary = record (w.summary) { ignored = w.summary.ignored + 1 } }

-- supersede, then enqueue
unfoldable pub replace_with : ℕ → TaskSpec → World → World
unfolding supersede enqueue_spec
replace_with now t w =
    let (removed, db) = supersede t w.db in
    record w {
      db = enqueue_spec now t default_priority db;
      summary = record (w.summary) {
        superseded = w.summary.superseded + removed;
        enqueued = w.summary.enqueued + 1;
      };
    }

abbrev pub seen : Key → World → Bool
seen key w = any (λ k. key_eq k key) w.seen_keys

-- the coalescing of entry edits within the run
unfoldable pub queue_task : ℕ → Option TaskSpec → World → World
unfolding replace_with spec_key key_eq str_eq
queue_task now none w = ignore w
queue_task now (some t) w =
    if str_eq t.action "handle_entry_updated"
    then (if seen (spec_key t) w
        then record w { summary = record (w.summary) { coalesced = w.summary.coalesced + 1 } }
        else replace_with now t (record w { seen_keys = spec_key t ∷ w.seen_keys }))
    else replace_with now t w

-- the body of the loop over the changes
unfoldable pub step : ℕ → Option String → (String → List String) → Change → World → World
unfolding is_entry_teardown teardown_post is_platform_comment_change build_task queue_task
step now bot comments_of c w =
    if is_entry_teardown c
    then teardown_post now comments_of c.resource_id c.action w
    else if is_platform_comment_change bot c
    then ignore w
    else queue_task now (build_task c) w

unfoldable pub sync : ℕ → Option String → (String → List String) → List Change → World → World
unfolding step
sync now bot comments_of [] w = w
sync now bot comments_of (c ∷ cs) w = sync now bot comments_of cs (step now bot comments_of c w)

-- `sync_to_db` after the mirror reported its changes
unfoldable pub sync_to_db :
    ℕ → Option String → (String → List String) → List Change → Db → Registry → World
unfolding sync
sync_to_db now bot comments_of changes db reg =
    sync now bot comments_of changes
      (record { db = db; registry = reg; summary = no_changes; seen_keys = [] })
