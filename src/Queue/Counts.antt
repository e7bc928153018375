-- ===== src/Queue/Counts.antt =====
-- How the operations move rows between the counts of pending and active tasks.
use specseed.Prelude.{
  ℕ, ◌+◌, ◌≤◌, ◌≡◌, refl, sym, subst, inl, inr, Bool, true, false, Option, none, some, List, [],
  ◌∷◌, arith, In, All, count, map, ==_refl,
}
use specseed.Queue.{
  Db, Task, Lane, pending, in_progress, status_eq, claim_next, claim_row, claimed, select,
  claimable, update_task, pending_count, active_count, counted, reset_in_progress, reclaimed,
}
use specseed.Queue.Select.{Selected, select-Selected}
use specseed.Queue.Rows.{Ids, Ids-In}
use specseed.Queue.Invariant.{IsWellFormed}

abbrev one_if : Bool → ℕ
one_if true = 1
one_if false = 0

-- an id that no row has: an update of it changes nothing
count-update_task_absent :
    (p : Task → Bool) (f : Task → Task) (id lo hi : ℕ) (ts : List Task)
    → Ids lo hi ts
    → id ≤ lo
    → count p (update_task id f ts) ≡ count p ts
unfolding update_task
count-update_task_absent p f id lo hi [] h l = refl
count-update_task_absent p f id lo hi (t ∷ ts) h l =
    ground (arith, count-update_task_absent p f id t.task_id hi ts h.1 (omega arith))

-- with unique ids an update changes the count of a test by what it does to its one row
count-update_task :
    (p : Task → Bool) (f : Task → Task) (lo hi : ℕ) (ts : List Task) (t : Task)
    → Ids lo hi ts
    → In t ts
    → count p (update_task t.task_id f ts) + one_if (p t) ≡ count p ts + one_if (p (f t))
unfolding update_task
count-update_task p f lo hi [] t h m = elim m [ ]
count-update_task p f lo hi (x ∷ ts) t h (inl e) =
    subst
      (λ u.
        count p (update_task u.task_id f (x ∷ ts)) + one_if (p u)
        ≡ count p (x ∷ ts) + one_if (p (f u)))
      (sym e)
      (rw (==_refl x.task_id)
        (ground (arith, count-update_task_absent p f x.task_id x.task_id hi ts h.1 (omega arith))))
count-update_task p f lo hi (x ∷ ts) t h (inr m) =
    ground (arith, Ids-In x.task_id hi ts t h.1 m, count-update_task p f x.task_id hi ts t h.1 m)

abbrev pub tally : Option Task → ℕ
tally none = 0
tally (some t) = 1

claim_row-counts :
    (lane : Lane) (now : ℕ) (db : Db)
    → IsWellFormed db
    → (o : Option Task) → Selected (claimable lane now) db.tasks o
    → (active_count (some lane) (claim_row now o db).1 ≡ active_count (some lane) db)
      × (pending_count (some lane) none (claim_row now o db).1 + tally o
          ≡ pending_count (some lane) none db)
unfolding claim_row active_count pending_count claimable
claim_row-counts lane now db w none h = (refl, omega arith)
claim_row-counts lane now db w (some t) h = (
  ground (
    arith,
    h.passes,
    count-update_task (counted (pending ∷ in_progress ∷ []) (some lane) none) (claimed now) 0 db.seq
        db.tasks t w.ids h.present,
  ),
  ground (
    arith,
    h.passes,
    count-update_task (counted (pending ∷ []) (some lane) none) (claimed now) 0 db.seq db.tasks t
        w.ids h.present,
  ),
)

-- On well-formed tables a claim leaves the lane's active count as it was, and its pending count
-- falls by one if there was a row to claim.
pub claim_next-counts :
    (lane : Lane) (now : ℕ) (db : Db)
    → IsWellFormed db
    → (active_count (some lane) (claim_next lane now db).1 ≡ active_count (some lane) db)
      × (pending_count (some lane) none (claim_next lane now db).1
            + tally (select (claimable lane now) db.tasks)
          ≡ pending_count (some lane) none db)
unfolding claim_next
claim_next-counts lane now db w =
    claim_row-counts lane now db w (select (claimable lane now) db.tasks)
      (select-Selected (claimable lane now) db.tasks)

reclaim_counts :
    (lane : Option Lane) (ts : List Task)
    → count (counted (pending ∷ []) lane none) (map reclaimed ts)
      ≡ count (counted (pending ∷ in_progress ∷ []) lane none) ts
unfolding counted
reclaim_counts lane [] = refl
reclaim_counts lane (t ∷ ts) = ground (arith, reclaim_counts lane ts)

reclaim_none :
    (ts : List Task) → All (λ t. status_eq t.status in_progress ≡ false) (map reclaimed ts)
reclaim_none [] = tt
reclaim_none (t ∷ ts) = (ground arith, reclaim_none ts)

-- After the startup reclaim no row is in progress, and every row that was pending or in progress
-- is pending: each lane's pending count, and the whole queue's, is its active count before.
pub reset_in_progress_lem :
    (lane : Option Lane) (db : Db)
    → All (λ t. status_eq t.status in_progress ≡ false) (reset_in_progress db).1.tasks
      × (pending_count lane none (reset_in_progress db).1 ≡ active_count lane db)
unfolding reset_in_progress pending_count active_count
reset_in_progress_lem lane db = (reclaim_none db.tasks, reclaim_counts lane db.tasks)
