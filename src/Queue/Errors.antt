-- ===== src/Queue/Errors.antt =====
-- The rows of `task_errors` under the operations of the queue (queue.py).
use specseed.Prelude.{
  ℕ, ◌+◌, ◌≡◌, refl, sym, ap, ◌∙◌, inl, inr, Bool, true, false, Option, none, some, List, [], ◌∷◌,
  ◌++◌, arith, Bool-cases, append-nil, append_assoc, String, keep, ◌==◌, ==_refl, if◌then◌else◌,
}
use specseed.Payload.{Payload}
use specseed.Queue.{
  Db, Task, TaskError, Lane, claim_next, claim_row, select, claimable, insert_task, insert_in,
  enqueue, complete, record_error, requeue, remove, reset_in_progress, is_blank, lane_of,
  errors_for,
}
use specseed.Queue.Invariant.{
  Op, enqueue_op, claim_op, complete_op, requeue_op, remove_op, reset_op, apply, run, after_enqueue,
}

-- the error rows of the second tables begin with those of the first
pub record Extends (db db' : Db) : Type 0 where
  pub added : List TaskError
  pub extended : db'.errors ≡ db.errors ++ added

same : (db db' : Db) → db'.errors ≡ db.errors → Extends db db'
same db db' e = record { added = []; extended = e ∙ sym (append-nil db.errors) }

insert_in-errors :
    (now : ℕ) (action : String) (post : Option String) (payload : Payload) (lane : Option Lane)
    (priority : ℕ) (db : Db)
    → (after_enqueue (insert_in now action post payload lane priority db) db).errors ≡ db.errors
unfolding insert_in insert_task
insert_in-errors now action post payload none priority db = refl
insert_in-errors now action post payload (some lane) priority db = refl

enqueue-errors :
    (now : ℕ) (action : String) (post : Option String) (payload : Payload) (lane : String)
    (priority : ℕ) (db : Db)
    → (after_enqueue (enqueue now action post payload lane priority db) db).errors ≡ db.errors
unfolding enqueue
enqueue-errors now action post payload lane priority db = elim (Bool-cases (is_blank action)) [
  | inl e ↦ rw e
  | inr e ↦ rw e (insert_in-errors now action post payload (lane_of lane) priority db)
]

claim_row-errors : (now : ℕ) (o : Option Task) (db : Db) → (claim_row now o db).1.errors ≡ db.errors
unfolding claim_row
claim_row-errors now none db = refl
claim_row-errors now (some t) db = refl

complete-Extends :
    (now id : ℕ) (ok : Bool) (error : Option String) (db : Db)
    → Extends db (complete now id ok error db)
unfolding complete record_error
complete-Extends now id true error db = same db _ refl
complete-Extends now id false none db = same db _ refl
complete-Extends now id false (some m) db = record { added = _ ∷ []; extended = refl }

-- Every operation keeps the error rows that were there, in order, and adds at most at the end.
apply-Extends : (op : Op) (db : Db) → Extends db (apply op db)
unfolding apply claim_next requeue remove reset_in_progress
apply-Extends (enqueue_op now action post payload lane priority) db =
    same db _ (enqueue-errors now action post payload lane priority db)
apply-Extends (claim_op lane now) db =
    same db _ (claim_row-errors now (select (claimable lane now) db.tasks) db)
apply-Extends (complete_op now id ok error) db = complete-Extends now id ok error db
apply-Extends (requeue_op id at) db = same db _ refl
apply-Extends (remove_op id) db = same db _ refl
apply-Extends reset_op db = same db _ refl

-- Whatever operations follow, removals of tasks included, the error rows that were recorded stay
-- in place, unchanged, in front of those recorded later.
pub run-Extends : (ops : List Op) (db : Db) → Extends db (run ops db)
unfolding run
run-Extends [] db = same db db refl
run-Extends (op ∷ ops) db =
    let first = apply-Extends op db in
    let rest = run-Extends ops (apply op db) in
    record {
      added = first.added ++ rest.added;
      extended =
          rest.extended
          ∙ ap (λ es. es ++ rest.added) first.extended
          ∙ append_assoc db.errors first.added rest.added;
    }

keep-snoc :
    (p : TaskError → Bool) (es : List TaskError) (e : TaskError)
    → p e ≡ true
    → keep p (es ++ e ∷ []) ≡ keep p es ++ e ∷ []
keep-snoc p [] e h = rw h
keep-snoc p (x ∷ es) e h = ground (arith, keep-snoc p es e h)

-- The errors of a task after `complete` with a failure and a message are those before with one
-- more at the end, of that message and time; after a success, or a failure with no message, they
-- are those before.
pub errors_for-complete :
    (now id : ℕ) (ok : Bool) (error : Option String) (db : Db)
    → errors_for id (complete now id ok error db) ≡ (
        if ok then errors_for id db else elim error [
          | none ↦ errors_for id db
          | some m ↦
              errors_for id db
              ++ record {
                error_id = db.error_seq + 1;
                task_id = id;
                message = m;
                executed_at = now;
              }
                ∷ []
        ])
unfolding errors_for complete record_error
errors_for-complete now id true error db = refl
errors_for-complete now id false none db = refl
errors_for-complete now id false (some m) db =
    keep-snoc (λ e. e.task_id == id) db.errors _ (==_refl id)
