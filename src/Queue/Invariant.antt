-- ===== src/Queue/Invariant.antt =====
-- What holds of the queue's two tables between operations, whatever the operations are.
use specseed.Prelude.{
  ℕ, ◌+◌, ◌≤◌, refl, inl, inr, Bool, true, false, Option, none, some, List, [], ◌∷◌, String, arith,
  All, All-append, Bool-cases,
}
use specseed.Payload.{Payload}
use specseed.Queue.{
  Db, Task, TaskError, Lane, Enqueued, rejected, accepted, empty, lane_of, is_blank, new_task,
  insert_task, insert_in, enqueue, claim_row, record_error, claim_next, complete, requeue, remove,
  reset_in_progress, claimed, completed, requeued, reclaimed, select, claimable, update_task,
}
use specseed.Queue.Rows.{Ids, KeepsId, other_than, Ids-append, Ids-keep, Ids-map, Ids-update_task}

-- Ids are unique, ascending and never above the counter that the next one is taken from.
pub record IsWellFormed (db : Db) : Type 0 where
  pub ids : Ids 0 db.seq db.tasks
  pub error_ids : All (λ (e : TaskError). e.error_id ≤ db.error_seq) db.errors

pub data Op : Type 0 where
  enqueue_op : ℕ → String → Option String → Payload → String → ℕ → Op
  claim_op : Lane → ℕ → Op
  complete_op : ℕ → ℕ → Bool → Option String → Op
  requeue_op : ℕ → Option ℕ → Op
  remove_op : ℕ → Op
  reset_op : Op

abbrev pub after_enqueue : Enqueued → Db → Db
after_enqueue (rejected e) db = db
after_enqueue (accepted id after) db = after

-- the tables after one operation
unfoldable pub apply : Op → Db → Db
apply (enqueue_op now action post payload lane priority) db =
    after_enqueue (enqueue now action post payload lane priority db) db
apply (claim_op lane now) db = (claim_next lane now db).1
apply (complete_op now id ok error) db = complete now id ok error db
apply (requeue_op id not_before) db = requeue id not_before db
apply (remove_op id) db = remove id db
apply reset_op db = (reset_in_progress db).1

unfoldable pub run : List Op → Db → Db
run [] db = db
run (op ∷ ops) db = run ops (apply op db)

claimed-id : (now : ℕ) → KeepsId (claimed now)
claimed-id now t = refl

reclaimed-id : KeepsId reclaimed
reclaimed-id t = ground arith

errors_below :
    (n m : ℕ) (es : List TaskError)
    → n ≤ m
    → All (λ (e : TaskError). e.error_id ≤ n) es
    → All (λ (e : TaskError). e.error_id ≤ m) es
errors_below n m [] l h = tt
errors_below n m (e ∷ es) l h = (omega arith, errors_below n m es l h.1)

module _ (db : Db) (w : IsWellFormed db) where
  pub insert_task-IsWellFormed :
      (now : ℕ) (action : String) (post : Option String) (payload : Payload) (lane : Lane)
      (priority : ℕ)
      → IsWellFormed (insert_task now action post payload lane priority db).1
  unfolding insert_task
  insert_task-IsWellFormed now action post payload lane priority = record {
    ids =
        Ids-append 0 db.seq (db.seq + 1) db.tasks
          (new_task (db.seq + 1) now action post payload lane priority) w.ids (omega arith)
          (omega arith);
    error_ids = w.error_ids;
  }

  insert_in-IsWellFormed :
      (now : ℕ) (action : String) (post : Option String) (payload : Payload) (lane : Option Lane)
      (priority : ℕ)
      → IsWellFormed (after_enqueue (insert_in now action post payload lane priority db) db)
  unfolding insert_in
  insert_in-IsWellFormed now action post payload none priority = w
  insert_in-IsWellFormed now action post payload (some lane) priority =
      insert_task-IsWellFormed now action post payload lane priority

  enqueue-IsWellFormed :
      (now : ℕ) (action : String) (post : Option String) (payload : Payload) (lane : String)
      (priority : ℕ)
      → IsWellFormed (after_enqueue (enqueue now action post payload lane priority db) db)
  unfolding enqueue
  enqueue-IsWellFormed now action post payload lane priority = elim (Bool-cases (is_blank action)) [
    | inl e ↦ rw e w
    | inr e ↦ rw e (insert_in-IsWellFormed now action post payload (lane_of lane) priority)
  ]

  claim_row-IsWellFormed : (now : ℕ) (o : Option Task) → IsWellFormed (claim_row now o db).1
  unfolding claim_row
  claim_row-IsWellFormed now none = w
  claim_row-IsWellFormed now (some t) = record {
    ids = Ids-update_task t.task_id (claimed now) (λ u. refl) 0 db.seq db.tasks w.ids;
    error_ids = w.error_ids;
  }

  pub claim_next-IsWellFormed : (lane : Lane) (now : ℕ) → IsWellFormed (claim_next lane now db).1
  unfolding claim_next
  claim_next-IsWellFormed lane now =
      claim_row-IsWellFormed now (select (claimable lane now) db.tasks)

  pub requeue-IsWellFormed : (id : ℕ) (at : Option ℕ) → IsWellFormed (requeue id at db)
  unfolding requeue
  requeue-IsWellFormed id at = record {
    ids = Ids-update_task id (requeued at) (λ u. refl) 0 db.seq db.tasks w.ids;
    error_ids = w.error_ids;
  }

  pub remove-IsWellFormed : (id : ℕ) → IsWellFormed (remove id db)
  unfolding remove
  remove-IsWellFormed id = record {
    ids = Ids-keep (other_than id) 0 db.seq db.tasks w.ids;
    error_ids = w.error_ids;
  }

  reset_in_progress-IsWellFormed : IsWellFormed (reset_in_progress db).1
  unfolding reset_in_progress
  reset_in_progress-IsWellFormed = record {
    ids = Ids-map reclaimed reclaimed-id 0 db.seq db.tasks w.ids;
    error_ids = w.error_ids;
  }

record_error-IsWellFormed :
    (db : Db)
    → IsWellFormed db
    → (now id : ℕ) (error : Option String) → IsWellFormed (record_error now id error db)
unfolding record_error
record_error-IsWellFormed db w now id none = w
record_error-IsWellFormed db w now id (some m) = record {
  ids = w.ids;
  error_ids =
      All-append (λ (e : TaskError). e.error_id ≤ db.error_seq + 1) db.errors _
        (errors_below db.error_seq (db.error_seq + 1) db.errors (omega arith) w.error_ids)
        (omega arith, tt);
}

pub complete-IsWellFormed :
    (db : Db)
    → IsWellFormed db
    → (now id : ℕ) (ok : Bool) (error : Option String) → IsWellFormed (complete now id ok error db)
unfolding complete
complete-IsWellFormed db w now id ok error = by_result ok
  where
    updated :
        (b : Bool) → IsWellFormed (record db { tasks = update_task id (completed now b) db.tasks })
    updated b = record {
      ids = Ids-update_task id (completed now b) (λ u. refl) 0 db.seq db.tasks w.ids;
      error_ids = w.error_ids;
    }

    by_result : (b : Bool) → IsWellFormed (complete now id b error db)
    by_result true = updated true
    by_result false = record_error-IsWellFormed _ (updated false) now id error

pub apply-IsWellFormed : (op : Op) (db : Db) → IsWellFormed db → IsWellFormed (apply op db)
unfolding apply
apply-IsWellFormed (enqueue_op now action post payload lane priority) db w =
    enqueue-IsWellFormed db w now action post payload lane priority
apply-IsWellFormed (claim_op lane now) db w = claim_next-IsWellFormed db w lane now
apply-IsWellFormed (complete_op now id ok error) db w = complete-IsWellFormed db w now id ok error
apply-IsWellFormed (requeue_op id at) db w = requeue-IsWellFormed db w id at
apply-IsWellFormed (remove_op id) db w = remove-IsWellFormed db w id
apply-IsWellFormed reset_op db w = reset_in_progress-IsWellFormed db w

pub empty-IsWellFormed : IsWellFormed empty
empty-IsWellFormed = record { ids = omega arith; error_ids = tt }

-- After any operations on well-formed tables (the empty ones are), the ids of the rows ascend without repetition and
-- none is above the counter from which the next id is taken; the error rows likewise stay at or
-- below their counter.
pub run-IsWellFormed : (ops : List Op) (db : Db) → IsWellFormed db → IsWellFormed (run ops db)
unfolding run
run-IsWellFormed [] db w = w
run-IsWellFormed (op ∷ ops) db w = run-IsWellFormed ops (apply op db) (apply-IsWellFormed op db w)
