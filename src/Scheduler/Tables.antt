-- ===== src/Scheduler/Tables.antt =====
-- What the end of a run leaves of the queue's tables (scheduler.py `_finish_task`, recovery.py).
use specseed.Prelude.{
  ℕ, ◌+◌, ◌≤◌, ◌≡◌, refl, ◌∙◌, Bool, true, false, ◌&&◌, not, Option, none, some, List, String,
  arith, str_eq, ◌==◌, if◌then◌else◌,
}
use specseed.Config.{Config}
use specseed.Queue.{
  Db, Task, get_task, complete, completed, requeue, requeued, record_error, insert_task,
}
use specseed.Queue.Rows.{over}
use specseed.Queue.Invariant.{
  IsWellFormed, insert_task-IsWellFormed, requeue-IsWellFormed, complete-IsWellFormed,
}
use specseed.Queue.Readback.{get_task-writes}
use specseed.Recovery.{
  Call, Remote, Post, Failure, Reaction, Sighting, on_failure, retry_delay_s, attempts_of,
  max_retries, enqueue_resolve, give_up, announce, schedule, react, engages, closed_by_human,
  exhausted, enabled, platform_error_action, sight_post, next_delay,
}
use specseed.Recovery.Retry.{on_failure-rows}
use specseed.Scheduler.{
  Scheduler, HandlerOutcome, finish_task, recover, recover_if, open_quota_circuit, quota_park,
  delayed_to, failure_of,
}
use specseed.Scheduler.Finish.{complete-seq}

pub either : {A : Type 0} (P : A → Type 0) (b : Bool) (x y : A) → P x → P y → P (if b then x else y)
either P true x y p q = p
either P false x y p q = q

-- the tables after a write, well formed and with no id taken back
abbrev pub Sound : Db → Db → Type 0
Sound db db' = IsWellFormed db' × (db.seq ≤ db'.seq)

module _ (now : ℕ) (t : Task) (db : Db) (w : IsWellFormed db) where
  enqueue_resolve-Sound : (post reason : String) → Sound db (enqueue_resolve now post t reason db)
  unfolding enqueue_resolve insert_task
  enqueue_resolve-Sound post reason =
      (unfold insert_task in insert_task-IsWellFormed db w now _ _ _ _ _, omega arith)

  give_up-Sound :
      (r : Bool) (o : Option Post) (created : Bool) (calls : List Call)
      → Sound db (give_up now t r o created calls db).db
  unfolding give_up
  give_up-Sound r none created calls = (w, omega arith)
  give_up-Sound r (some p) created calls = enqueue_resolve-Sound p.id _

  announce-Sound :
      (delay : ℕ) (o : Option Post) (created : Bool) (calls : List Call)
      → Sound db (announce now t delay o created calls db).db
  unfolding announce
  announce-Sound delay none created calls = (w, omega arith)
  announce-Sound delay (some p) created calls =
      either (Sound db) (engages t created) _ _ (enqueue_resolve-Sound p.id "new") (w, omega arith)

schedule-Sound :
    (now : ℕ) (t : Task) (delay : ℕ) (s : Sighting) (db : Db)
    → IsWellFormed db
    → Sound db (schedule now t delay s db).db
unfolding schedule requeue
schedule-Sound now t delay s db w =
    announce-Sound now t (requeue t.task_id (some (now + delay)) db)
      (requeue-IsWellFormed db w t.task_id (some (now + delay))) delay s.post s.created s.calls

on_failure-Sound :
    (now : ℕ) (config : Config) (remote : Option Remote) (t : Task) (f : Failure) (db : Db)
    → IsWellFormed db
    → Sound db (on_failure now config remote t f db).db
unfolding on_failure react
on_failure-Sound now config remote t f db w =
    let P = λ (r : Reaction). Sound db r.db in
    let s = sight_post remote t f (next_delay config t f) (max_retries config) in
    either P (str_eq t.action platform_error_action) _ _ (w, omega arith)
      (either P (not (enabled config)) _ _ (w, omega arith)
        (either P (closed_by_human s) _ _ (w, omega arith)
          (either P (exhausted config t f) _ _
            (give_up-Sound now t db w f.retryable s.post s.created s.calls)
            (schedule-Sound now t (retry_delay_s (attempts_of t)) s db w))))

complete-Sound :
    (now id : ℕ) (ok : Bool) (error : Option String) (db : Db)
    → IsWellFormed db
    → Sound db (complete now id ok error db)
unfolding complete record_error
complete-Sound now id true error db w = (complete-IsWellFormed db w now id true error, omega arith)
complete-Sound now id false none db w = (complete-IsWellFormed db w now id false none, omega arith)
complete-Sound now id false (some m) db w =
    (complete-IsWellFormed db w now id false (some m), omega arith)

module _ (mono wall : ℕ) (config : Config) (remote : Option Remote) (t : Task) where
  requeue-Sound : (at : Option ℕ) (db : Db) → IsWellFormed db → Sound db (requeue t.task_id at db)
  unfolding requeue
  requeue-Sound at db w = (requeue-IsWellFormed db w t.task_id at, omega arith)

  recover_if-Sound :
      (ok : Bool) (o : HandlerOutcome) (db : Db)
      → IsWellFormed db
      → Sound db (recover_if ok wall config remote t o db).0
  unfolding recover_if
  recover_if-Sound true o db w = (w, omega arith)
  recover_if-Sound false o db w = on_failure-Sound wall config remote t (failure_of o) db w

  -- the end of a run leaves the tables well formed
  pub finish_task-Sound :
      (o : Option HandlerOutcome) (s : Scheduler)
      → IsWellFormed s.db
      → Sound s.db (finish_task mono wall config remote t o s).0.db
  unfolding finish_task recover open_quota_circuit
  finish_task-Sound none s w = requeue-Sound none s.db w
  finish_task-Sound (some o) s w =
      let P = λ (r : Scheduler × List Call). Sound s.db r.0.db in
      let c = complete-Sound wall t.task_id o.success o.error s.db w in
      let r = recover_if-Sound o.success o (complete wall t.task_id o.success o.error s.db) c.0 in
      either P o.requeue _ _
        (either P o.quota _ _ (requeue-Sound (some (quota_park wall o.quota_until).1) s.db w)
          (requeue-Sound (delayed_to wall o.requeue_after_s) s.db w))
        (r.0, omega (arith, c.1, r.1))

  -- the row of an id whose run does not end, or that is gone
  abbrev pub Aside : ℕ → Db → Type 0
  Aside id db = (t.task_id == id) ≡ true → get_task id db ≡ none

  skip :
      (id : ℕ) (b : Bool) (f : Task → Task) (db : Db)
      → (b ≡ true → get_task id db ≡ none)
      → (if b then over f (get_task id db) else get_task id db) ≡ get_task id db
  skip id false f db a = refl
  skip id true f db a = rw (a refl) refl

  requeue-other :
      (id : ℕ) (at : Option ℕ) (db : Db)
      → Aside id db
      → get_task id (requeue t.task_id at db) ≡ get_task id db
  requeue-other id at db a =
      (get_task-writes wall t.task_id id true none at db).1
      ∙ skip id (t.task_id == id) (requeued at) db a

  complete-other :
      (id : ℕ) (ok : Bool) (error : Option String) (db : Db)
      → Aside id db
      → get_task id (complete wall t.task_id ok error db) ≡ get_task id db
  complete-other id ok error db a =
      (get_task-writes wall t.task_id id ok error none db).0
      ∙ skip id (t.task_id == id) (completed wall ok) db a

  recover_if-other :
      (id : ℕ) (ok : Bool) (o : HandlerOutcome) (db : Db)
      → id ≤ db.seq
      → Aside id db
      → get_task id (recover_if ok wall config remote t o db).0 ≡ get_task id db
  unfolding recover_if
  recover_if-other id true o db l a = refl
  recover_if-other id false o db l a =
      on_failure-rows wall config remote t (failure_of o) db id l
      ∙ skip id ((on_failure wall config remote t (failure_of o) db).retried && t.task_id == id) _
          db (λ e. a (ground (arith, e)))

  -- the end of a run of another task leaves a row as it is
  pub finish_task-other :
      (id : ℕ) (o : Option HandlerOutcome) (s : Scheduler)
      → id ≤ s.db.seq
      → Aside id s.db
      → get_task id (finish_task mono wall config remote t o s).0.db ≡ get_task id s.db
  unfolding finish_task recover open_quota_circuit
  finish_task-other id none s l a = requeue-other id none s.db a
  finish_task-other id (some o) s l a =
      let P = λ (r : Scheduler × List Call). get_task id r.0.db ≡ get_task id s.db in
      let after = complete wall t.task_id o.success o.error s.db in
      let c = complete-other id o.success o.error s.db a in
      either P o.requeue _ _
        (either P o.quota _ _ (requeue-other id (some (quota_park wall o.quota_until).1) s.db a)
          (requeue-other id (delayed_to wall o.requeue_after_s) s.db a))
        (recover_if-other id o.success o after
            (omega (arith, l, complete-seq wall config remote t o.success o.error s.db))
            (λ e. c ∙ a e)
          ∙ c)
