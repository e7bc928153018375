-- ===== src/Scheduler/Attempts.antt =====
-- How often the scheduler puts a task back after a failure (scheduler.py, recovery.py), whatever
-- happens to the queue and at the ends of the task's other runs.
use specseed.Prelude.{
  ℕ, ◌+◌, ◌≤◌, ◌≡◌, some_injective, ap, subst, refl, ◌∙◌, sym, Bool, true, false, ◌&&◌, not, Option,
  none, some, arith, ◌==◌, if◌then◌else◌,
}
use specseed.Config.{Config}
use specseed.Queue.{Db, Task, get_task, complete, status_eq, pending, in_progress}
use specseed.Queue.Invariant.{IsWellFormed, Op, apply, apply-IsWellFormed}
use specseed.Queue.Attempts.{busy, apply-From, apply-seq}
use specseed.Recovery.{Remote, max_retries}
use specseed.Recovery.Retry.{on_failure-retried}
use specseed.Scheduler.{Scheduler, HandlerOutcome, finish_task, failure_of}
use specseed.Scheduler.Finish.{tried_again, finished, finish_task_lem}
use specseed.Scheduler.Tables.{finish_task-Sound, finish_task-other}

-- the run ended in a failure after which the task is put back
abbrev granted : ℕ → Config → Option Remote → Task → Option HandlerOutcome → Db → Bool
granted wall config remote t none db = false
granted wall config remote t (some o) db =
    not o.requeue && not o.success && tried_again wall config remote t o db

abbrev pub one_if : Bool → ℕ
one_if b = if b then 1 else 0

abbrev pub is_pending : Option Task → Bool
is_pending none = false
is_pending (some u) = status_eq u.status pending

-- the run failed (no requeue, no success), and its row waits again afterwards
unfoldable pub retried :
    (mono wall : ℕ) → Config → Option Remote → Task → Option HandlerOutcome → Scheduler → Bool
unfolding finish_task
retried mono wall config remote t none s = false
retried mono wall config remote t (some o) s =
    not o.requeue
    && not o.success
    && is_pending (get_task t.task_id (finish_task mono wall config remote t (some o) s).0.db)

-- What can happen to the row of an id from when it does not run: operations of the queue, on any
-- rows; the end of a run of another task, or of one whose row is gone; and the end of a run of the
-- task itself. The number counts the failures after which it was put back.
pub data History (config : Config) (id : ℕ) : ℕ → Scheduler → Type 0 where
  begin :
      (s : Scheduler)
      → IsWellFormed s.db
      → id ≤ s.db.seq
      → ((u : Task) → get_task id s.db ≡ some u → busy u ≡ 0)
      → History config id 0 s
  operate :
      (n : ℕ) (s : Scheduler) (op : Op)
      → History config id n s
      → History config id n (record s { db = apply op s.db })
  finish_other :
      (n mono wall : ℕ) (s : Scheduler) (remote : Option Remote) (t : Task)
      (o : Option HandlerOutcome)
      → History config id n s
      → ((t.task_id == id) ≡ true → get_task id s.db ≡ none)
      → History config id n (finish_task mono wall config remote t o s).0
  finish_own :
      (n mono wall : ℕ) (s : Scheduler) (remote : Option Remote) (t : Task)
      (o : Option HandlerOutcome)
      → History config id n s
      → t.task_id ≡ id
      → get_task id s.db ≡ some t
      → busy t ≡ 1
      → History config id
          (n + one_if (retried mono wall config remote t o s))
          (finish_task mono wall config remote t o s).0

-- what the bound rests on
record Holds (config : Config) (id n : ℕ) (db : Db) : Type 0 where
  well_formed : IsWellFormed db
  given : id ≤ db.seq
  bounded : n ≤ max_retries config
  counted : (u : Task) → get_task id db ≡ some u → n + busy u ≤ u.attempts

operated :
    (config : Config) (id n : ℕ) (op : Op) (db : Db)
    → Holds config id n db
    → Holds config id n (apply op db)
operated config id n op db h = record {
  well_formed = apply-IsWellFormed op db h.well_formed;
  given = omega (arith, h.given, apply-seq op db);
  bounded = h.bounded;
  counted = λ v e.
      let (u, k, g) = apply-From id op db h.well_formed h.given v e in
      omega (arith, g, h.counted u k);
}

finished_other :
    (config : Config) (id n mono wall : ℕ) (s : Scheduler) (remote : Option Remote) (t : Task)
    (o : Option HandlerOutcome)
    → ((t.task_id == id) ≡ true → get_task id s.db ≡ none)
    → Holds config id n s.db
    → Holds config id n (finish_task mono wall config remote t o s).0.db
finished_other config id n mono wall s remote t o aside h =
    let sound = finish_task-Sound mono wall config remote t o s h.well_formed in
    record {
      well_formed = sound.0;
      given = omega (arith, h.given, sound.1);
      bounded = h.bounded;
      counted = λ v e.
          h.counted v (sym (finish_task-other mono wall config remote t id o s h.given aside) ∙ e);
    }

-- a run that was granted another try had attempts left
granted-left :
    (wall : ℕ) (config : Config) (remote : Option Remote) (t : Task) (o : Option HandlerOutcome)
    (db : Db)
    → granted wall config remote t o db ≡ true
    → t.attempts ≤ max_retries config
granted-left wall config remote t none db e = cc
granted-left wall config remote t (some o) db e = ground (
  arith,
  e,
  on_failure-retried wall config remote t (failure_of o) (complete wall t.task_id false o.error db),
)

retried-left :
    (config : Config) (mono wall : ℕ) (s : Scheduler) (remote : Option Remote) (t : Task)
    (o : Option HandlerOutcome)
    → IsWellFormed s.db
    → get_task t.task_id s.db ≡ some t
    → retried mono wall config remote t o s ≡ true
    → t.attempts ≤ max_retries config
unfolding retried
retried-left config mono wall s remote t none w row e = cc
retried-left config mono wall s remote t (some o) w row e =
    granted-left wall config remote t (some o) s.db
      (waits (ap is_pending (finish_task_lem wall config remote t mono (some o) s t w row).0))
  where
    waits :
        is_pending (get_task t.task_id (finish_task mono wall config remote t (some o) s).0.db)
          ≡ status_eq (finished wall config remote t (some o) s.db t).status pending
        → granted wall config remote t (some o) s.db ≡ true
    waits q = unfold finished in ground (arith, e, q)

finished-attempts :
    (wall : ℕ) (config : Config) (remote : Option Remote) (t : Task) (o : Option HandlerOutcome)
    (db : Db) (u : Task)
    → (finished wall config remote t o db u).attempts ≡ u.attempts
unfolding finished
finished-attempts wall config remote t none db u = refl
finished-attempts wall config remote t (some o) db u = ground arith

finished_own :
    (config : Config) (id n mono wall : ℕ) (s : Scheduler) (remote : Option Remote) (t : Task)
    (o : Option HandlerOutcome)
    → t.task_id ≡ id
    → get_task id s.db ≡ some t
    → busy t ≡ 1
    → Holds config id n s.db
    → Holds config id
        (n + one_if (retried mono wall config remote t o s))
        (finish_task mono wall config remote t o s).0.db
finished_own config id n mono wall s remote t o same row runs h =
    let sound = finish_task-Sound mono wall config remote t o s h.well_formed in
    let row' = subst (λ i. get_task i s.db ≡ some t) (sym same) row in
    let after = finish_task_lem wall config remote t mono o s t h.well_formed row' in
    let left = retried-left config mono wall s remote t o h.well_formed row' in
    let begun = h.counted t row in
    record {
      well_formed = sound.0;
      given = omega (arith, h.given, sound.1);
      bounded = ground (arith, left, begun, runs, h.bounded);
      counted = λ v e.
          let e' =
            subst (λ i. get_task i (finish_task mono wall config remote t o s).0.db ≡ some v)
              (sym same) e in
          let v' = some_injective (finished wall config remote t o s.db t) v (sym after.0 ∙ e') in
          counted_own v v' after.1;
    }
  where
    counted_own :
        (v : Task)
        → finished wall config remote t o s.db t ≡ v
        → status_eq (finished wall config remote t o s.db t).status in_progress ≡ false
        → n + one_if (retried mono wall config remote t o s) + busy v ≤ v.attempts
    counted_own v q idle =
        let g = retried mono wall config remote t o s in
        subst (λ (x : Task). n + one_if g + busy x ≤ x.attempts) q
          (ground
            (arith, idle, finished-attempts wall config remote t o s.db t, h.counted t row, runs))

History-Holds :
    (config : Config) (id n : ℕ) (s : Scheduler) → History config id n s → Holds config id n s.db
History-Holds config id _ _ (begin s w l idle) = record {
  well_formed = w;
  given = l;
  bounded = omega arith;
  counted = λ u e. ground (arith, idle u e);
}
History-Holds config id _ _ (operate n s op r) =
    operated config id n op s.db (History-Holds config id n s r)
History-Holds config id _ _ (finish_other n mono wall s remote t o r aside) =
    finished_other config id n mono wall s remote t o aside (History-Holds config id n s r)
History-Holds config id _ _ (finish_own n mono wall s remote t o r same row runs) =
    finished_own config id n mono wall s remote t o same row runs (History-Holds config id n s r)

-- From a moment on well-formed tables when a task does not run, its runs fail and leave it waiting
-- for another try at most `max_retries` times, whatever operations of the queue, ends of other runs
-- and other ends of its own runs (no outcome, a requeue, a quota wait) come between. Its returns to
-- the queue by those other ends are not counted, and this does not bound them.
pub History-bounded :
    (config : Config) (id n : ℕ) (s : Scheduler) → History config id n s → n ≤ max_retries config
History-bounded config id n s r = (History-Holds config id n s r).bounded
