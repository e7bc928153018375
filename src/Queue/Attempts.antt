-- ===== src/Queue/Attempts.antt =====
-- The attempts that a row counts (queue.py), through the operations of the queue.
use specseed.Prelude.{
  some_injective, ℕ, ◌+◌, ◌≤◌, ◌≡◌, refl, ◌∙◌, sym, ap, subst, inl, inr, Bool, true, false, Option,
  none, some, List, [], ◌∷◌, String, arith, find?, map, ◌==◌, ==→eq, if◌then◌else◌, Bool-cases,
  Option-cases,
}
use specseed.Payload.{Payload}
use specseed.Queue.{
  Db, Task, Lane, get_task, status_eq, in_progress, claimable, claim_next, enqueue, insert_in,
  insert_task, is_blank, lane_of, reclaimed, requeued, completed, reset_in_progress, claim_row,
  complete, record_error, requeue, remove, select,
}
use specseed.Queue.Rows.{over, has_id, find?-In, find?-append_other}
use specseed.Queue.Claim.{Outcome, claim_next_lem}
use specseed.Queue.Readback.{get_task-writes}
use specseed.Queue.Invariant.{
  IsWellFormed, Op, enqueue_op, claim_op, complete_op, requeue_op, remove_op, reset_op, apply,
  after_enqueue,
}

-- one for a row in progress
abbrev pub busy : Task → ℕ
busy u = if status_eq u.status in_progress then 1 else 0

-- the attempts made, without the one that runs, do not fall
abbrev pub Grows : Task → Task → Type 0
Grows u v = u.attempts + busy v ≤ v.attempts + busy u

-- a row that is there afterwards was there before, with no more attempts made
abbrev pub From : ℕ → Db → Db → Type 0
From id db db' =
    (v : Task) → get_task id db' ≡ some v → (u : Task) × (get_task id db ≡ some u) × Grows u v

pub From-refl : (id : ℕ) (db : Db) → From id db db
From-refl id db v e = (v, e, omega arith)

pub From-same : (id : ℕ) (db db' : Db) → get_task id db' ≡ get_task id db → From id db db'
From-same id db db' same = λ v e. (v, sym same ∙ e, omega arith)

-- the rows after a change of the row of one id
pub From-over :
    (id : ℕ) (b : Bool) (f : Task → Task) (db db' : Db)
    → get_task id db' ≡ (if b then over f (get_task id db) else get_task id db)
    → ((u : Task) → Grows u (f u))
    → From id db db'
From-over id false f db db' rows g = From-same id db db' rows
From-over id true f db db' rows g = λ v e. elim (Option-cases (get_task id db)) [
  | inl k ↦ absurd (cc (rows ∙ ap (over f) k, e))
  | inr (u, k) ↦ (u, k, subst (Grows u) (same u k v e) (g u))
]
  where
    same : (u : Task) → get_task id db ≡ some u → (v : Task) → get_task id db' ≡ some v → f u ≡ v
    same u k v e = some_injective (f u) v (sym (ap (over f) k) ∙ sym rows ∙ e)

requeued-Grows : (at : Option ℕ) (u : Task) → Grows u (requeued at u)
requeued-Grows at u = omega arith

completed-Grows : (now : ℕ) (ok : Bool) (u : Task) → Grows u (completed now ok u)
completed-Grows now true u = omega arith
completed-Grows now false u = omega arith

reclaimed-Grows : (u : Task) → Grows u (reclaimed u)
reclaimed-Grows u = grind arith

pub insert_task-From :
    (id now : ℕ) (action : String) (post : Option String) (payload : Payload) (lane : Lane)
    (priority : ℕ) (db : Db)
    → id ≤ db.seq
    → From id db (insert_task now action post payload lane priority db).1
unfolding insert_task get_task
insert_task-From id now action post payload lane priority db l =
    From-same id db (insert_task now action post payload lane priority db).1
      (find?-append_other id db.tasks _ (ground arith))

claimed-From :
    (id now : ℕ) (lane : Lane) (db : Db) (r : Option Task × Db)
    → IsWellFormed db
    → Outcome lane now db r
    → From id db r.1
unfolding claimable get_task
claimed-From id now lane db (none, db') w (same, h) v e = (v, rw same at e, omega arith)
claimed-From id now lane db (some c, db') w (t, q, o) v e = elim (Bool-cases (t.task_id == id)) [
  | inl k ↦ (
    t,
    rw (← ==→eq t.task_id id k) (find?-In 0 db.seq db.tasks t w.ids o.was_first.present),
    ground (arith, o.was_first.passes, o.others id, k, e),
  )
  | inr k ↦ (v, ground (arith, o.others id, k, e), omega arith)
]

find?-reclaimed :
    (id : ℕ) (ts : List Task)
    → find? (has_id id) (map reclaimed ts) ≡ over reclaimed (find? (has_id id) ts)
find?-reclaimed id [] = refl
find?-reclaimed id (t ∷ ts) = ground (arith, find?-reclaimed id ts)

-- no operation of the queue takes an id back
pub apply-seq : (op : Op) (db : Db) → db.seq ≤ (apply op db).seq
unfolding apply enqueue insert_in insert_task claim_next claim_row complete record_error requeue
    remove reset_in_progress
apply-seq (enqueue_op now action post payload lane priority) db =
    elim (Bool-cases (is_blank action)) [
      | inl e ↦ rw e (omega arith)
      | inr e ↦ rw e (in_lane (lane_of lane))
    ]
  where
    in_lane :
        (o : Option Lane)
        → db.seq ≤ (after_enqueue (insert_in now action post payload o priority db) db).seq
    in_lane none = omega arith
    in_lane (some k) = omega arith
apply-seq (claim_op lane now) db = by_row (select (claimable lane now) db.tasks)
  where
    by_row : (o : Option Task) → db.seq ≤ (claim_row now o db).1.seq
    by_row none = omega arith
    by_row (some t) = omega arith
apply-seq (complete_op now id true error) db = omega arith
apply-seq (complete_op now id false none) db = omega arith
apply-seq (complete_op now id false (some m)) db = omega arith
apply-seq (requeue_op id at) db = omega arith
apply-seq (remove_op id) db = omega arith
apply-seq reset_op db = omega arith

-- every operation of the queue keeps count
pub apply-From :
    (id : ℕ) (op : Op) (db : Db) → IsWellFormed db → id ≤ db.seq → From id db (apply op db)
unfolding apply insert_in enqueue
apply-From id (enqueue_op now action post payload lane priority) db w l =
    elim (Bool-cases (is_blank action)) [
      | inl e ↦ rw e (From-refl id db)
      | inr e ↦ rw e (in_lane (lane_of lane))
    ]
  where
    in_lane :
        (o : Option Lane)
        → From id db (after_enqueue (insert_in now action post payload o priority db) db)
    in_lane none = From-refl id db
    in_lane (some k) = insert_task-From id now action post payload k priority db l
apply-From id (claim_op lane now) db w l =
    claimed-From id now lane db (claim_next lane now db) w (claim_next_lem lane now db w)
apply-From id (complete_op now j ok error) db w l =
    From-over id (j == id) (completed now ok) db _ (get_task-writes now j id ok error none db).0
      (completed-Grows now ok)
apply-From id (requeue_op j at) db w l =
    From-over id (j == id) (requeued at) db _ (get_task-writes 0 j id true none at db).1
      (requeued-Grows at)
apply-From id (remove_op j) db w l =
    λ v e. (v, ground (arith, (get_task-writes 0 j id true none none db).2, e), omega arith)
apply-From id reset_op db w l =
    From-over id true reclaimed db _
      (unfold get_task reset_in_progress in find?-reclaimed id db.tasks) reclaimed-Grows
