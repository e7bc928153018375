-- ===== src/Sync/Interrupt.antt =====
-- The interruption of the rows in progress: which rows there are then, and who is told to stop.
use specseed.Prelude.{
  ℕ, ◌+◌, ◌<◌, ◌≡◌, subst, inl, inr, ◌⊎◌, String, true, List, [], ◌∷◌, arith, In, Bool-cases,
}
use specseed.Queue.{Db, Task, status_eq, in_progress, insert_task, new_task, control}
use specseed.Cancellation.{Registry, cancel, is_cancelled}
use specseed.Cancellation.Signals.{is_cancelled-cancel, is_cancelled-cancel_self}
use specseed.Tasks.{cleanup_for_post}
use specseed.Sync.{interrupt_rows, enqueue_spec}
use specseed.Sync.Gather.{In-append, In-append_left}

-- one interruption
abbrev told : ℕ → String → String → Task → Db → Db
told now post reason x db = enqueue_spec now (cleanup_for_post post reason x.task_id) 85 db

-- the row that it adds
abbrev told_row : ℕ → String → String → Task → Db → Task
told_row now post reason x db =
    let c = cleanup_for_post post reason x.task_id in
    new_task (db.seq + 1) now c.action c.post_id c.payload control 85

-- rows that only grow at the end
pub interrupt-grows :
    (now : ℕ) (post reason : String) (rows : List Task) (db : Db) (reg : Registry) (r : Task)
    → In r db.tasks
    → In r (interrupt_rows now post reason rows (db, reg)).1.tasks
unfolding interrupt_rows enqueue_spec insert_task
interrupt-grows now post reason [] db reg r m = m
interrupt-grows now post reason (x ∷ rows) db reg r m =
    elim (Bool-cases (status_eq x.status in_progress)) [
      | inl e ↦ rw e (
          interrupt-grows now post reason rows (told now post reason x db) (cancel x.task_id reg) r
            (In-append_left r db.tasks _ m))
      | inr e ↦ rw e (interrupt-grows now post reason rows db reg r m)
    ]

-- the rows that are new have new ids
pub interrupt-In :
    (now : ℕ) (post reason : String) (rows : List Task) (db : Db) (reg : Registry) (r : Task)
    → In r (interrupt_rows now post reason rows (db, reg)).1.tasks
    → In r db.tasks ⊎ (db.seq < r.task_id)
unfolding interrupt_rows enqueue_spec insert_task
interrupt-In now post reason [] db reg r m = inl m
interrupt-In now post reason (x ∷ rows) db reg r m =
    elim (Bool-cases (status_eq x.status in_progress)) [
      | inl e ↦ first (
          interrupt-In now post reason rows (told now post reason x db) (cancel x.task_id reg) r
            (rw e at m))
      | inr e ↦ interrupt-In now post reason rows db reg r (rw e at m)
    ]
  where
    added :
        In r db.tasks ⊎ In r (told_row now post reason x db ∷ [])
        → In r db.tasks ⊎ (db.seq < r.task_id)
    added (inl a) = inl a
    added (inr (inl b)) = inr (rw b (omega arith))
    added (inr (inr b)) = absurd b

    first :
        In r (told now post reason x db).tasks ⊎ (db.seq + 1 < r.task_id)
        → In r db.tasks ⊎ (db.seq < r.task_id)
    first (inl a) = added (In-append r db.tasks _ a)
    first (inr b) = inr (omega (arith, b))

-- who was told to stop stays told
pub interrupt-keeps :
    (now : ℕ) (post reason : String) (rows : List Task) (db : Db) (reg : Registry) (key : ℕ)
    → is_cancelled key reg ≡ true
    → is_cancelled key (interrupt_rows now post reason rows (db, reg)).2 ≡ true
unfolding interrupt_rows
interrupt-keeps now post reason [] db reg key h = h
interrupt-keeps now post reason (x ∷ rows) db reg key h =
    elim (Bool-cases (status_eq x.status in_progress)) [
      | inl e ↦ rw e (
          interrupt-keeps now post reason rows (told now post reason x db) (cancel x.task_id reg)
            key (is_cancelled-cancel key x.task_id reg h))
      | inr e ↦ rw e (interrupt-keeps now post reason rows db reg key h)
    ]

pub interrupt-cancels :
    (now : ℕ) (post reason : String) (rows : List Task) (db : Db) (reg : Registry) (r : Task)
    → In r rows
    → status_eq r.status in_progress ≡ true
    → is_cancelled r.task_id (interrupt_rows now post reason rows (db, reg)).2 ≡ true
unfolding interrupt_rows
interrupt-cancels now post reason [] db reg r m h = elim m [ ]
interrupt-cancels now post reason (x ∷ rows) db reg r (inl q) h =
    subst
      (λ y. is_cancelled r.task_id (interrupt_rows now post reason (y ∷ rows) (db, reg)).2 ≡ true) q
      (rw h (
        interrupt-keeps now post reason rows (told now post reason r db) (cancel r.task_id reg)
          r.task_id (is_cancelled-cancel_self r.task_id reg)))
interrupt-cancels now post reason (x ∷ rows) db reg r (inr m) h =
    elim (Bool-cases (status_eq x.status in_progress)) [
      | inl e ↦ rw e (
          interrupt-cancels now post reason rows (told now post reason x db) (cancel x.task_id reg)
            r m h)
      | inr e ↦ rw e (interrupt-cancels now post reason rows db reg r m h)
    ]
