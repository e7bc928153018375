-- ===== src/Queue/Claim.antt =====
-- What `claim_next` gives: the first due row of its lane, moved to in_progress, and no row twice.
use specseed.Prelude.{
  ℕ, ◌≡◌, refl, fun_ext, inl, inr, ◌↔◌, false, Option, none, some, [], ◌∷◌, arith, In, All,
  Bool-cases, count, find?, ◌==◌, ==_refl, ==→eq, if◌then◌else◌,
}
use specseed.Queue.{
  Db, Task, Lane, pending, claim_next, claim_row, claimed, select, claimable, get_task, update_task,
  pending_count, counted,
}
use specseed.Queue.Select.{IsFirst, Selected, select-Selected, count_none, count_some}
use specseed.Queue.Rows.{has_id, find?-In, find?-update_task}
use specseed.Queue.Invariant.{IsWellFormed}

-- the outcome of a claim that found the row t
pub record Claims (lane : Lane) (now : ℕ) (db : Db) (t : Task) (db' : Db) : Type 0 where
  pub was_first : IsFirst (claimable lane now) db.tasks t
  pub others :
      (j : ℕ) → get_task j db' ≡ (if t.task_id == j then some (claimed now t) else get_task j db)
  pub errors_kept : db'.errors ≡ db.errors

abbrev pub Outcome : Lane → ℕ → Db → Option Task × Db → Type 0
Outcome lane now db (none, db') = (db' ≡ db) × All (λ u. claimable lane now u ≡ false) db.tasks
Outcome lane now db (some c, db') = (t : Task) × (c ≡ claimed now t) × Claims lane now db t db'

-- Reading any row after the UPDATE of a claim.
row_after :
    (now : ℕ) (t : Task) (db : Db)
    → IsWellFormed db
    → In t db.tasks
    → (j : ℕ)
    → find? (has_id j) (update_task t.task_id (claimed now) db.tasks)
      ≡ (if t.task_id == j then some (claimed now t) else find? (has_id j) db.tasks)
row_after now t db w m j =
    rw (find?-update_task t.task_id j (claimed now) db.tasks (λ _. refl))
      elim (Bool-cases (t.task_id == j)) [
        | inl e ↦ rw e (rw (← ==→eq t.task_id j e) (rw (find?-In 0 db.seq db.tasks t w.ids m)))
        | inr e ↦ rw e
      ]

claim_row-Outcome :
    (lane : Lane) (now : ℕ) (db : Db)
    → IsWellFormed db
    → (o : Option Task) → Selected (claimable lane now) db.tasks o
    → Outcome lane now db (claim_row now o db)
unfolding claim_row get_task
claim_row-Outcome lane now db w none h = (refl, h)
claim_row-Outcome lane now db w (some t) h =
    rw (row_after now t db w h.present t.task_id, ==_refl t.task_id)
      (
        t,
        refl,
        record { was_first = h; others = row_after now t db w h.present; errors_kept = refl },
      )

-- On well-formed tables a claim in a lane gives the first of the lane's due pending rows by
-- priority, then by id, moved to in_progress with one more attempt and the time of the claim, and
-- every other row, and every error, reads as before. Where no row of the lane is pending and due
-- it gives nothing and changes nothing.
pub claim_next_lem :
    (lane : Lane) (now : ℕ) (db : Db)
    → IsWellFormed db
    → Outcome lane now db (claim_next lane now db)
unfolding claim_next
claim_next_lem lane now db w =
    claim_row-Outcome lane now db w (select (claimable lane now) db.tasks)
      (select-Selected (claimable lane now) db.tasks)

-- the test of `pending_count` with `ready_now` is that of the claim
counted-claimable :
    (lane : Lane) (now : ℕ) (t : Task)
    → counted (pending ∷ []) (some lane) (some now) t ≡ claimable lane now t
unfolding counted claimable
counted-claimable lane now t = ground arith

pending_count-count :
    (lane : Lane) (now : ℕ) (db : Db)
    → pending_count (some lane) (some now) db ≡ count (claimable lane now) db.tasks
unfolding pending_count
pending_count-count lane now db = rw (fun_ext (counted-claimable lane now))

idle_iff :
    (lane : Lane) (now : ℕ) (db : Db) (r : Option Task × Db)
    → Outcome lane now db r
    → (count (claimable lane now) db.tasks ≡ 0) ↔ (r.0 ≡ none)
idle_iff lane now db (none, db') h = (λ _. refl, λ _. count_none (claimable lane now) db.tasks h.1)
idle_iff lane now db (some c, db') (t, e, h) = (
  λ z. absurd (
      omega
        (arith, count_some (claimable lane now) t db.tasks h.was_first.present h.was_first.passes)),
  λ z. cc,
)

-- On well-formed tables, a lane has zero rows pending and ready at a time exactly when a claim in
-- it at that time finds nothing.
pub pending_count-claim_next :
    (lane : Lane) (now : ℕ) (db : Db)
    → IsWellFormed db
    → (pending_count (some lane) (some now) db ≡ 0) ↔ ((claim_next lane now db).0 ≡ none)
pending_count-claim_next lane now db w =
    rw (pending_count-count lane now db)
      (idle_iff lane now db (claim_next lane now db) (claim_next_lem lane now db w))
