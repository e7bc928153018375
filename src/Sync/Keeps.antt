-- ===== src/Sync/Keeps.antt =====
-- The whole sync (sync_to_db.py) and the tables of the queue it works on.
use Prim.Native.String
use specseed.Prelude.{
  ℕ, String, inl, inr, Bool, true, false, Option, none, some, List, [], ◌∷◌, str_eq, if◌then◌else◌,
  Bool-cases,
}
use specseed.Queue.{Db, Task, control, in_progress, status_eq}
use specseed.Queue.Invariant.{IsWellFormed, insert_task-IsWellFormed}
use specseed.Cancellation.{Registry, cancel}
use specseed.Tasks.{Change, TaskSpec, cleanup_for_post, spec_key}
use specseed.Sync.{
  World, enqueue_spec, interrupt_rows, drop_pending, teardown_post, teardown_rows, replace_with,
  queue_task, seen, step, sync, supersede, is_entry_teardown, is_platform_comment_change,
  build_task,
}
use specseed.Sync.Supersede.{supersede-IsWellFormed}
use specseed.Sync.Teardown.{drop_pending-IsWellFormed}

enqueue_spec-IsWellFormed :
    (now : ℕ) (t : TaskSpec) (priority : ℕ) (db : Db)
    → IsWellFormed db
    → IsWellFormed (enqueue_spec now t priority db)
unfolding enqueue_spec
enqueue_spec-IsWellFormed now t priority db w =
    insert_task-IsWellFormed db w now t.action t.post_id t.payload control priority

interrupt_rows-IsWellFormed :
    (now : ℕ) (post reason : String) (rows : List Task) (db : Db) (reg : Registry)
    → IsWellFormed db
    → IsWellFormed (interrupt_rows now post reason rows (db, reg)).1
unfolding interrupt_rows
interrupt_rows-IsWellFormed now post reason [] db reg w = w
interrupt_rows-IsWellFormed now post reason (r ∷ rows) db reg w =
    elim (Bool-cases (status_eq r.status in_progress)) [
      | inl e ↦
          let c = cleanup_for_post post reason r.task_id in
          rw e (
            interrupt_rows-IsWellFormed now post reason rows (enqueue_spec now c 85 db)
              (cancel r.task_id reg) (enqueue_spec-IsWellFormed now c 85 db w))
      | inr e ↦ rw e (interrupt_rows-IsWellFormed now post reason rows db reg w)
    ]

module _ (now : ℕ) (bot : Option String) (comments_of : String → List String) where
  teardown_post-IsWellFormed :
      (post action : String) (w : World)
      → IsWellFormed w.db
      → IsWellFormed (teardown_post now comments_of post action w).db
  unfolding teardown_post
  teardown_post-IsWellFormed post action w k =
      let rows = teardown_rows post (comments_of post) w.db in
      interrupt_rows-IsWellFormed now post (String.◌++◌ "entry_" action) rows
        (drop_pending rows w.db).1 w.registry (drop_pending-IsWellFormed rows w.db k)

  replace_with-IsWellFormed :
      (t : TaskSpec) (w : World) → IsWellFormed w.db → IsWellFormed (replace_with now t w).db
  unfolding replace_with
  replace_with-IsWellFormed t w k =
      enqueue_spec-IsWellFormed now t 50 (supersede t w.db).1 (supersede-IsWellFormed t w.db k)

  either :
      (b : Bool) (x y : World)
      → IsWellFormed x.db
      → IsWellFormed y.db
      → IsWellFormed (if b then x else y).db
  either true x y k l = k
  either false x y k l = l

  queue_task-IsWellFormed :
      (o : Option TaskSpec) (w : World) → IsWellFormed w.db → IsWellFormed (queue_task now o w).db
  unfolding queue_task
  queue_task-IsWellFormed none w k = k
  queue_task-IsWellFormed (some t) w k =
      either (str_eq t.action "handle_entry_updated") _ _
        (either (seen (spec_key t) w) _ _ k
          (replace_with-IsWellFormed t (record w { seen_keys = spec_key t ∷ w.seen_keys }) k))
        (replace_with-IsWellFormed t w k)

  step-IsWellFormed :
      (c : Change) (w : World) → IsWellFormed w.db → IsWellFormed (step now bot comments_of c w).db
  unfolding step
  step-IsWellFormed c w k =
      either (is_entry_teardown c) _ _ (teardown_post-IsWellFormed c.resource_id c.action w k) (
        either (is_platform_comment_change bot c) _ _ k
          (queue_task-IsWellFormed (build_task c) w k))

  -- the tables after any changes
  sync-IsWellFormed :
      (changes : List Change) (w : World)
      → IsWellFormed w.db
      → IsWellFormed (sync now bot comments_of changes w).db
  unfolding sync
  sync-IsWellFormed [] w k = k
  sync-IsWellFormed (c ∷ cs) w k =
      sync-IsWellFormed cs (step now bot comments_of c w) (step-IsWellFormed c w k)
