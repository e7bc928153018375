-- ===== src/Queue/Readback.antt =====
-- What the rows read after each write of the queue: enqueue, complete, requeue and remove.
use specseed.Prelude.{
  ℕ, ◌<◌, ◌+◌, ◌≡◌, ◌≢◌, refl, inl, inr, Bool, true, false, Option, none, some, List, [], ◌∷◌,
  arith, All, All-In, Bool-cases, String, ◌==◌, ==→eq, if◌then◌else◌,
}
use specseed.Payload.{Payload}
use specseed.Queue.{
  Db, Task, Lane, Enqueued, rejected, accepted, action_required, unknown_lane, new_task,
  insert_task, insert_in, enqueue, is_blank, lane_of, get_task, complete, completed, record_error,
  requeue, requeued, remove, update_task, claim_next, claimable,
}
use specseed.Queue.Rows.{
  over, find?-above, find?-append, find?-append_other, find?-update_task, find?-remove,
}
use specseed.Queue.Claim.{Outcome, claim_next_lem}
use specseed.Queue.Invariant.{IsWellFormed, requeue-IsWellFormed}

-- what an accepted enqueue promises of the id and of every row
pub record IsInserted (t : Task) (db db' : Db) : Type 0 where
  pub fresh : get_task t.task_id db ≡ none
  pub rows : (j : ℕ) → get_task j db' ≡ (if t.task_id == j then some t else get_task j db)

insert_task-IsInserted :
    (now : ℕ) (action : String) (post : Option String) (payload : Payload) (lane : Lane)
    (priority : ℕ) (db : Db)
    → IsWellFormed db
    → IsInserted
        (new_task (db.seq + 1) now action post payload lane priority)
        db
        (insert_task now action post payload lane priority db).1
unfolding insert_task get_task
insert_task-IsInserted now action post payload lane priority db w =
    let id = db.seq + 1 in
    let t = new_task id now action post payload lane priority in
    let absent = find?-above 0 db.seq db.tasks id w.ids (omega arith) in
    record {
      fresh = absent;
      rows = λ j. elim (Bool-cases (id == j)) [
        | inl e ↦ rw e (rw (← ==→eq id j e) (find?-append id db.tasks t absent refl))
        | inr e ↦ rw e (find?-append_other j db.tasks t e)
      ];
    }

abbrev pub EnqueueOutcome :
    (now : ℕ) (action : String) (post_id : Option String) (payload : Payload) (priority : ℕ)
    → Bool
    → Option Lane
    → Db
    → Enqueued
    → Type 0
EnqueueOutcome now action post payload priority true lane db r = r ≡ rejected action_required
EnqueueOutcome now action post payload priority false none db r = r ≡ rejected unknown_lane
EnqueueOutcome now action post payload priority false (some lane) db r =
    (db' : Db) × (r ≡ accepted (db.seq + 1) db')
    × IsInserted (new_task (db.seq + 1) now action post payload lane priority) db db'

-- On well-formed tables `enqueue` rejects a blank action first, then an unknown lane. Otherwise it
-- returns the next id, which no row had, and exactly that row is added: pending, with no attempt,
-- in the named lane; every other id reads as before.
pub enqueue_lem :
    (now : ℕ) (action : String) (post : Option String) (payload : Payload) (lane : String)
    (priority : ℕ) (db : Db)
    → IsWellFormed db
    → EnqueueOutcome now action post payload priority
        (is_blank action)
        (lane_of lane)
        db
        (enqueue now action post payload lane priority db)
unfolding enqueue
enqueue_lem now action post payload lane priority db w = by_lane (is_blank action) (lane_of lane)
  where
    by_lane :
        (b : Bool) (l : Option Lane)
        → EnqueueOutcome now action post payload priority b l db (
            if b then rejected action_required else insert_in now action post payload l priority db)
    by_lane true l = refl
    by_lane false none = refl
    by_lane false (some l) = (
      (insert_task now action post payload l priority db).1,
      refl,
      insert_task-IsInserted now action post payload l priority db w,
    )

complete-tasks :
    (now id : ℕ) (ok : Bool) (error : Option String) (db : Db)
    → (complete now id ok error db).tasks ≡ update_task id (completed now ok) db.tasks
unfolding complete record_error
complete-tasks now id true error db = refl
complete-tasks now id false none db = refl
complete-tasks now id false (some m) db = refl

-- After `complete`, `requeue` and `remove` of an id, the row of that id reads completed, requeued
-- and absent (and absent where it was absent); the row of any other id reads as before.
pub get_task-writes :
    (now id j : ℕ) (ok : Bool) (error : Option String) (at : Option ℕ) (db : Db)
    → (get_task j (complete now id ok error db)
        ≡ (if id == j then over (completed now ok) (get_task j db) else get_task j db))
      × (get_task j (requeue id at db)
          ≡ (if id == j then over (requeued at) (get_task j db) else get_task j db))
      × (get_task j (remove id db) ≡ (if id == j then none else get_task j db))
unfolding get_task requeue remove
get_task-writes now id j ok error at db = (
  rw (complete-tasks now id ok error db)
      (find?-update_task id j (completed now ok) db.tasks (λ _. refl)),
  find?-update_task id j (requeued at) db.tasks (λ _. refl),
  find?-remove id j db.tasks,
)

abbrev Delayed : ℕ → ℕ → Task → Type 0
Delayed id at t = (t.task_id == id) ≡ true → t.not_before ≡ some at

requeued-Delayed :
    (id at : ℕ) (ts : List Task) → All (Delayed id at) (update_task id (requeued (some at)) ts)
unfolding update_task
requeued-Delayed id at [] = tt
requeued-Delayed id at (t ∷ ts) = elim (Bool-cases (t.task_id == id)) [
  | inl e ↦ rw e (λ _. refl, requeued-Delayed id at ts)
  | inr e ↦ rw e (λ k. absurd (cc), requeued-Delayed id at ts)
]

not_early :
    (id at : ℕ) (lane : Lane) (now : ℕ) (db : Db) (r : Option Task × Db) (u : Task)
    → now < at
    → All (Delayed id at) db.tasks
    → Outcome lane now db r
    → r.0 ≡ some u
    → u.task_id ≢ id
unfolding claimable
not_early id at lane now db (none, db') u l h o e = cc
not_early id at lane now db (some c, db') u l h (t, q, o) e = λ same.
    ground (
      arith,
      q,
      e,
      same,
      o.was_first.passes,
      All-In (Delayed id at) t db.tasks h o.was_first.present,
    )

-- A task that was requeued with a time is not claimed before that time, in either lane.
pub requeue-claim_next :
    (id at now : ℕ) (lane : Lane) (db : Db) (u : Task)
    → IsWellFormed db
    → now < at
    → (claim_next lane now (requeue id (some at) db)).0 ≡ some u
    → u.task_id ≢ id
requeue-claim_next id at now lane db u w l e =
    let db' = requeue id (some at) db in
    not_early id at lane now db' (claim_next lane now db') u l
      (unfold requeue in requeued-Delayed id at db.tasks)
      (claim_next_lem lane now db' (requeue-IsWellFormed db w id (some at))) e
