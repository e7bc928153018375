-- ===== src/Scheduler/Finish.antt =====
-- About what the scheduler does when a task's handler returns or raises.
use specseed.Prelude.{
  ℕ, ◌+◌, ◌≤◌, ◌≡◌, refl, ◌∙◌, Bool, true, false, ◌&&◌, Option, none, some, List, arith, ◌==◌,
  ==_refl, if◌then◌else◌, String,
}
use specseed.Config.{Config}
use specseed.Queue.{
  Db, Task, get_task, complete, completed, requeue, requeued, record_error, status_eq, in_progress,
}
use specseed.Queue.Rows.{find?-some, Ids-In}
use specseed.Queue.Invariant.{IsWellFormed}
use specseed.Queue.Readback.{get_task-writes}
use specseed.Recovery.{Call, Remote, on_failure, retry_delay_s, attempts_of}
use specseed.Recovery.Retry.{on_failure-rows}
use specseed.Scheduler.{
  Scheduler, HandlerOutcome, finish_task, recover, recover_if, open_quota_circuit, quota_park,
  delayed_to, failure_of,
}

-- is the failure that the outcome reports tried again
abbrev pub tried_again : ℕ → Config → Option Remote → Task → HandlerOutcome → Db → Bool
tried_again wall config remote t o db =
    (on_failure wall config remote t (failure_of o)
      (complete wall t.task_id false o.error db)).retried

abbrev after_failure : ℕ → Task → Bool → Task → Task
after_failure at t again u = if again then requeued (some at) u else u

-- the row of the task after `finish_task`, from the row before
unfoldable pub finished :
    ℕ → Config → Option Remote → Task → Option HandlerOutcome → Db → Task → Task
unfolding quota_park on_failure complete retry_delay_s
finished wall config remote t none db u = requeued none u
finished wall config remote t (some o) db u =
    if o.requeue
    then (if o.quota
        then requeued (some (quota_park wall o.quota_until).1) u
        else requeued (delayed_to wall o.requeue_after_s) u)
    else if o.success
    then completed wall true u
    else after_failure (wall + retry_delay_s (attempts_of t)) t
        (tried_again wall config remote t o db) (completed wall false u)

pick {ℓ} :
    {A : Type ℓ} (f : A → Option Task) (b : Bool) (x y : A) (u v : Task)
    → f x ≡ some u
    → f y ≡ some v
    → f (if b then x else y) ≡ some (if b then u else v)
pick f true x y u v e k = e
pick f false x y u v e k = k

abbrev Idle : Task → Type 0
Idle u = status_eq u.status in_progress ≡ false

pick-Idle : (b : Bool) (u v : Task) → Idle u → Idle v → Idle (if b then u else v)
pick-Idle true u v k l = k
pick-Idle false u v k l = l

finished-Idle :
    (wall : ℕ) (config : Config) (remote : Option Remote) (t : Task) (o : Option HandlerOutcome)
    (db : Db) (u : Task)
    → Idle (finished wall config remote t o db u)
unfolding finished
finished-Idle wall config remote t none db u = refl
finished-Idle wall config remote t (some o) db u =
    pick-Idle o.requeue _ _ (pick-Idle o.quota (requeued _ u) (requeued _ u) refl refl) (
      pick-Idle o.success (completed wall true u) _ refl (
        pick-Idle (tried_again wall config remote t o db) (requeued _ (completed wall false u))
          (completed wall false u) refl refl))

module _ (wall : ℕ) (config : Config) (remote : Option Remote) (t : Task) where
  put_back :
      (at : Option ℕ) (db : Db) (u : Task)
      → get_task t.task_id db ≡ some u
      → get_task t.task_id (requeue t.task_id at db) ≡ some (requeued at u)
  put_back at db u e =
      (get_task-writes wall t.task_id t.task_id true none at db).1 ∙ rw (==_refl t.task_id, e) refl

  ended :
      (ok : Bool) (error : Option String) (db : Db) (u : Task)
      → get_task t.task_id db ≡ some u
      → get_task t.task_id (complete wall t.task_id ok error db) ≡ some (completed wall ok u)
  ended ok error db u e =
      (get_task-writes wall t.task_id t.task_id ok error none db).0 ∙ rw (==_refl t.task_id, e) refl

  pub complete-seq :
      (ok : Bool) (error : Option String) (db : Db)
      → (complete wall t.task_id ok error db).seq ≡ db.seq
  unfolding complete record_error
  complete-seq true error db = refl
  complete-seq false none db = refl
  complete-seq false (some m) db = refl

  pub known_id :
      (db : Db) (u : Task) → IsWellFormed db → get_task t.task_id db ≡ some u → t.task_id ≤ db.seq
  unfolding get_task
  known_id db u w e =
      let (m, same) = find?-some (λ r. r.task_id == t.task_id) db.tasks u e in
      ground (arith, same, Ids-In 0 db.seq db.tasks u w.ids m)

  failed_row :
      (o : HandlerOutcome) (db : Db) (u : Task)
      → IsWellFormed db
      → get_task t.task_id db ≡ some u
      → get_task t.task_id
          (on_failure wall config remote t
            (failure_of o)
            (complete wall t.task_id false o.error db)).db
        ≡ some (
            after_failure
              (wall + retry_delay_s (attempts_of t))
              t
              (tried_again wall config remote t o db)
              (completed wall false u))
  failed_row o db u w e =
      let after = complete wall t.task_id false o.error db in
      on_failure-rows wall config remote t (failure_of o) after t.task_id
        (omega (arith, known_id db u w e, complete-seq false o.error db))
      ∙ rw (ended false o.error db u e, ==_refl t.task_id)
          (by_retry (tried_again wall config remote t o db) (completed wall false u))
    where
      by_retry :
          (b : Bool) (v : Task)
          → (if b && true
              then some (requeued (some (wall + retry_delay_s (attempts_of t))) v)
              else some v)
            ≡ some (after_failure (wall + retry_delay_s (attempts_of t)) t b v)
      by_retry true v = refl
      by_retry false v = refl

  recovered_row :
      (ok : Bool) (o : HandlerOutcome) (db : Db) (u : Task)
      → IsWellFormed db
      → get_task t.task_id db ≡ some u
      → get_task t.task_id
          (recover_if ok wall config remote t o (complete wall t.task_id ok o.error db)).0
        ≡ some (
            if ok
            then completed wall true u
            else after_failure
                (wall + retry_delay_s (attempts_of t))
                t
                (tried_again wall config remote t o db)
                (completed wall false u))
  unfolding recover_if
  recovered_row true o db u w e = ended true o.error db u e
  recovered_row false o db u w e = failed_row o db u w e

  pub finish_task-row :
      (mono : ℕ) (o : Option HandlerOutcome) (s : Scheduler) (u : Task)
      → IsWellFormed s.db
      → get_task t.task_id s.db ≡ some u
      → get_task t.task_id (finish_task mono wall config remote t o s).0.db
        ≡ some (finished wall config remote t o s.db u)
  unfolding finish_task finished recover open_quota_circuit
  finish_task-row mono none s u w e = put_back none s.db u e
  finish_task-row mono (some o) s u w e =
      pick (λ (r : Scheduler × List Call). get_task t.task_id r.0.db) o.requeue _ _ _ _
        (pick (λ (r : Scheduler × List Call). get_task t.task_id r.0.db) o.quota _ _ _ _
          (put_back (some (quota_park wall o.quota_until).1) s.db u e)
          (put_back (delayed_to wall o.requeue_after_s) s.db u e))
        (recovered_row o.success o s.db u w e)

  -- On well-formed tables, when a task whose row is there is finished, its row reads as `finished`
  -- says (put back, completed, or failed and put back for a retry), and is in progress no more,
  -- whatever the handler's outcome is, none included.
  pub finish_task_lem :
      (mono : ℕ) (o : Option HandlerOutcome) (s : Scheduler) (u : Task)
      → IsWellFormed s.db
      → get_task t.task_id s.db ≡ some u
      → (get_task t.task_id (finish_task mono wall config remote t o s).0.db
          ≡ some (finished wall config remote t o s.db u))
        × (status_eq (finished wall config remote t o s.db u).status in_progress ≡ false)
  finish_task_lem mono o s u w e =
      (finish_task-row mono o s u w e, finished-Idle wall config remote t o s.db u)
