-- ===== src/Queue/Ownership.antt =====
-- Who owns a claimed row of the queue (queue.py: claim_next, requeue, reclaim).
use specseed.Prelude.{
  ℕ, ◌≤◌, ◌≡◌, ◌≢◌, refl, inl, inr, Bool, true, false, Option, none, some, List, [], ◌∷◌, arith,
  All, All-In, All-append, All-keep, Bool-cases, ◌==◌, ==→eq, String,
}
use specseed.Payload.{Payload}
use specseed.Queue.{
  Db, Task, Lane, get_task, pending, status_eq, claim_next, claim_row, claimed, select, claimable,
  update_task, insert_task, insert_in, enqueue, complete, record_error, requeue, requeued, remove,
  completed, is_blank, lane_of,
}
use specseed.Queue.Select.{Selected, select-Selected}
use specseed.Queue.Rows.{other_than, has_id, Ids-In, find?-some}
use specseed.Queue.Claim.{Outcome, claim_next_lem}
use specseed.Queue.Invariant.{
  IsWellFormed, Op, enqueue_op, claim_op, complete_op, requeue_op, remove_op, reset_op, apply, run,
  run-IsWellFormed, after_enqueue, claim_next-IsWellFormed,
}

-- the operation neither requeues the row nor reclaims the rows in progress
abbrev pub Leaves : ℕ → Op → Type 0
Leaves id (requeue_op j at) = (j == id) ≡ false
Leaves id reset_op = ⊥
Leaves id _ = Unit

abbrev NotPending : ℕ → Task → Type 0
NotPending id t = (t.task_id == id) ≡ true → status_eq t.status pending ≡ false

-- the id was given out, and a row that has it is not pending
record IsHeld (id : ℕ) (db : Db) : Type 0 where
  given : id ≤ db.seq
  held : All (NotPending id) db.tasks

All-update_task :
    (P : Task → Type 0) (j : ℕ) (f : Task → Task)
    → ((t : Task) → (t.task_id == j) ≡ true → P t → P (f t))
    → (ts : List Task) → All P ts
    → All P (update_task j f ts)
unfolding update_task
All-update_task P j f k [] h = tt
All-update_task P j f k (t ∷ ts) h = elim (Bool-cases (t.task_id == j)) [
  | inl e ↦ rw e (k t e h.0, All-update_task P j f k ts h.1)
  | inr e ↦ rw e (h.0, All-update_task P j f k ts h.1)
]

module _ (id : ℕ) (db : Db) (h : IsHeld id db) where
  insert_in-IsHeld :
      (now : ℕ) (action : String) (post : Option String) (payload : Payload) (lane : Option Lane)
      (priority : ℕ)
      → IsHeld id (after_enqueue (insert_in now action post payload lane priority db) db)
  unfolding insert_in insert_task
  insert_in-IsHeld now action post payload none priority = h
  insert_in-IsHeld now action post payload (some lane) priority = record {
    given = omega (arith, h.given);
    held = All-append (NotPending id) db.tasks _ h.held (λ e. absurd (ground (arith, h.given)), tt);
  }

  enqueue-IsHeld :
      (now : ℕ) (action : String) (post : Option String) (payload : Payload) (lane : String)
      (priority : ℕ)
      → IsHeld id (after_enqueue (enqueue now action post payload lane priority db) db)
  unfolding enqueue
  enqueue-IsHeld now action post payload lane priority = elim (Bool-cases (is_blank action)) [
    | inl e ↦ rw e h
    | inr e ↦ rw e (insert_in-IsHeld now action post payload (lane_of lane) priority)
  ]

  claim_row-IsHeld : (now : ℕ) (o : Option Task) → IsHeld id (claim_row now o db).1
  unfolding claim_row
  claim_row-IsHeld now none = h
  claim_row-IsHeld now (some t) = record {
    given = h.given;
    held =
        All-update_task (NotPending id) t.task_id (claimed now) (λ u _ _ _. refl) db.tasks h.held;
  }

  record_error-IsHeld :
      (now j : ℕ) (error : Option String) → IsHeld id (record_error now j error db)
  unfolding record_error
  record_error-IsHeld now j none = h
  record_error-IsHeld now j (some m) = record { given = h.given; held = h.held }

  updated-IsHeld :
      (now j : ℕ) (ok : Bool)
      → IsHeld id (record db { tasks = update_task j (completed now ok) db.tasks })
  updated-IsHeld now j ok = record {
    given = h.given;
    held =
        All-update_task (NotPending id) j (completed now ok) (λ u _ _ _. ground arith) db.tasks
          h.held;
  }

complete-IsHeld :
    (id : ℕ) (db : Db)
    → IsHeld id db
    → (now j : ℕ) (ok : Bool) (error : Option String) → IsHeld id (complete now j ok error db)
unfolding complete
complete-IsHeld id db h now j true error = updated-IsHeld id db h now j true
complete-IsHeld id db h now j false error =
    record_error-IsHeld id _ (updated-IsHeld id db h now j false) now j error

apply-IsHeld : (id : ℕ) (op : Op) (db : Db) → Leaves id op → IsHeld id db → IsHeld id (apply op db)
unfolding apply claim_next requeue remove
apply-IsHeld id (enqueue_op now action post payload lane priority) db l h =
    enqueue-IsHeld id db h now action post payload lane priority
apply-IsHeld id (claim_op lane now) db l h =
    claim_row-IsHeld id db h now (select (claimable lane now) db.tasks)
apply-IsHeld id (complete_op now j ok error) db l h = complete-IsHeld id db h now j ok error
apply-IsHeld id (requeue_op j at) db l h = record {
  given = h.given;
  held =
      All-update_task (NotPending id) j (requeued at) (λ t e _ i. absurd (ground (arith, l)))
        db.tasks h.held;
}
apply-IsHeld id (remove_op j) db l h = record {
  given = h.given;
  held = All-keep (NotPending id) (other_than j) db.tasks h.held;
}
apply-IsHeld id reset_op db l h = absurd l

run-IsHeld :
    (id : ℕ) (ops : List Op) (db : Db) → All (Leaves id) ops → IsHeld id db → IsHeld id (run ops db)
unfolding run
run-IsHeld id [] db l h = h
run-IsHeld id (op ∷ ops) db l h = run-IsHeld id ops (apply op db) l.1 (apply-IsHeld id op db l.0 h)

claimed_held :
    (now : ℕ) (t : Task) (ts : List Task)
    → All (NotPending t.task_id) (update_task t.task_id (claimed now) ts)
unfolding update_task
claimed_held now t [] = tt
claimed_held now t (u ∷ ts) = elim (Bool-cases (u.task_id == t.task_id)) [
  | inl e ↦ rw e (λ _. refl, claimed_held now t ts)
  | inr e ↦ rw e (λ k. absurd (cc), claimed_held now t ts)
]

claim_row-IsHeld_own :
    (lane : Lane) (now : ℕ) (db : Db)
    → IsWellFormed db
    → (o : Option Task) (c : Task) → Selected (claimable lane now) db.tasks o
    → (claim_row now o db).0 ≡ some c
    → IsHeld c.task_id (claim_row now o db).1
unfolding claim_row get_task
claim_row-IsHeld_own lane now db w none c h e = cc
claim_row-IsHeld_own lane now db w (some t) c h e =
    let found = find?-some (has_id t.task_id) (update_task t.task_id (claimed now) db.tasks) c e in
    rw (==→eq c.task_id t.task_id found.1) (record {
      given = (Ids-In 0 db.seq db.tasks t w.ids h.present).1;
      held = claimed_held now t db.tasks;
    })

not_again :
    (id : ℕ) (lane : Lane) (now : ℕ) (db : Db) (r : Option Task × Db) (u : Task)
    → IsHeld id db
    → Outcome lane now db r
    → r.0 ≡ some u
    → u.task_id ≢ id
unfolding claimable
not_again id lane now db (none, db') u h o e = cc
not_again id lane now db (some c, db') u h (t, q, o) e = λ same. ground (
  arith,
  q,
  e,
  same,
  o.was_first.passes,
  All-In (NotPending id) t db.tasks h.held o.was_first.present,
)

-- Once a claim gave a row, no later claim, in either lane and at any time, gives a row of that id,
-- whatever enqueues, claims, completions, removals and requeues of other rows come between. The
-- tables are well formed before the first claim.
pub claim_next_once :
    (lane lane' : Lane) (now now' : ℕ) (db : Db) (ops : List Op) (c u : Task)
    → IsWellFormed db
    → (claim_next lane now db).0 ≡ some c
    → All (Leaves c.task_id) ops
    → (claim_next lane' now' (run ops (claim_next lane now db).1)).0 ≡ some u
    → u.task_id ≢ c.task_id
claim_next_once lane lane' now now' db ops c u w e l k =
    let db' = (claim_next lane now db).1 in
    not_again c.task_id lane' now' (run ops db') (claim_next lane' now' (run ops db')) u
      (run-IsHeld c.task_id ops db' l (
        unfold claim_next in
        claim_row-IsHeld_own lane now db w (select (claimable lane now) db.tasks) c
          (select-Selected (claimable lane now) db.tasks) e))
      (claim_next_lem lane' now' (run ops db')
        (run-IsWellFormed ops db' (claim_next-IsWellFormed db w lane now)))
      k
