-- ===== src/Recovery/Retry.antt =====
-- About when a failed task is tried again.
use specseed.Prelude.{
  ℕ, ◌+◌, ◌≤◌, ◌≡◌, refl, ◌∙◌, inl, inr, Bool, true, false, ◌&&◌, not, Option, none, some, List,
  arith, str_eq, leb, ◌==◌, if◌then◌else◌, Bool-cases, String,
}
use specseed.Config.{Config}
use specseed.Queue.{insert_task, get_task, requeue, Db, Task, requeued}
use specseed.Queue.Rows.{over, find?-append_other, find?-update_task}
use specseed.Recovery.{
  Remote, Post, Reply, raised, failure, ok, Found, broke, absent, there, Failure, Reaction,
  Sighting, Call, enabled, max_retries, retry_delay_s, find_error_post, found_closed, sighting,
  sight_post, closed_by_human, exhausted, give_up, schedule, react, on_failure,
  platform_error_action, announce, nothing_done, enqueue_resolve, engages, attempts_of, next_delay,
  created_post,
}

-- a human closed the error post of the task
abbrev pub post_closed : Option Remote → Task → Bool
post_closed none t = false
post_closed (some remote) t = found_closed (find_error_post remote t.task_id)

made-open : (calls : List Call) (r : Reply Post) → closed_by_human (created_post calls r) ≡ false
made-open calls raised = refl
made-open calls failure = refl
made-open calls (ok p) = refl

sighting-closed :
    (found : Found) (calls : List Call) (r : Reply Post)
    → closed_by_human (sighting found calls r) ≡ found_closed found
sighting-closed broke calls r = refl
sighting-closed absent calls r = made-open calls r
sighting-closed (there p) calls r = refl

sight_post-closed :
    (remote : Option Remote) (t : Task) (f : Failure) (delay : Option ℕ) (retries : ℕ)
    → closed_by_human (sight_post remote t f delay retries) ≡ post_closed remote t
unfolding sight_post
sight_post-closed none t f delay retries = refl
sight_post-closed (some remote) t f delay retries =
    sighting-closed (find_error_post remote t.task_id) _ remote.add_entry

give_up-retried :
    (now : ℕ) (t : Task) (r : Bool) (o : Option Post) (created : Bool) (calls : List Call) (db : Db)
    → (give_up now t r o created calls db).retried ≡ false
unfolding give_up
give_up-retried now t r none created calls db = refl
give_up-retried now t r (some p) created calls db = refl

announce-retried :
    (now : ℕ) (t : Task) (delay : ℕ) (o : Option Post) (created : Bool) (calls : List Call)
    (db : Db)
    → (announce now t delay o created calls db).retried ≡ true
unfolding announce
announce-retried now t delay none created calls db = refl
announce-retried now t delay (some p) created calls db = refl

react-retried :
    (now : ℕ) (config : Config) (t : Task) (f : Failure) (s : Sighting) (db : Db)
    → (react now config t f s db).retried ≡ (not (closed_by_human s) && not (exhausted config t f))
unfolding react schedule
react-retried now config t f s db = elim (Bool-cases (closed_by_human s)) [
  | inl a ↦ rw a refl
  | inr a ↦ elim (Bool-cases (exhausted config t f)) [
    | inl e ↦ rw (a, e) (give_up-retried now t f.retryable s.post s.created s.calls db)
    | inr e ↦
        rw (a, e)
          (announce-retried now t (retry_delay_s (attempts_of t)) s.post s.created s.calls
            (requeue t.task_id (some (now + retry_delay_s (attempts_of t))) db))
  ]
]

left_to_try :
    (config : Config) (t : Task) (f : Failure)
    → not (exhausted config t f) ≡ (f.retryable && leb (attempts_of t) (max_retries config))
unfolding exhausted
left_to_try config t f = ground arith

guards :
    (own on closed left : Bool) (a b : Reaction)
    → a.retried ≡ false
    → b.retried ≡ (not closed && left)
    → (if own then a else if not on then a else b).retried ≡ (not own && on && not closed && left)
guards own on closed left a b h k = ground arith

-- when a failure is followed by another try
pub on_failure-retried :
    (now : ℕ) (config : Config) (remote : Option Remote) (t : Task) (f : Failure) (db : Db)
    → (on_failure now config remote t f db).retried ≡ (
        not (str_eq t.action platform_error_action)
        && enabled config
        && not (post_closed remote t)
        && (f.retryable && leb (attempts_of t) (max_retries config)))
unfolding on_failure
on_failure-retried now config remote t f db =
    let s = sight_post remote t f (next_delay config t f) (max_retries config) in
    guards (str_eq t.action platform_error_action) (enabled config) (post_closed remote t)
      (f.retryable && leb (attempts_of t) (max_retries config)) (nothing_done db)
      (react now config t f s db) refl
      (react-retried now config t f s db
        ∙ rw
            (
              sight_post-closed remote t f (next_delay config t f) (max_retries config),
              left_to_try config t f,
            )
            refl)

enqueue_resolve-rows :
    (now : ℕ) (post : String) (t : Task) (reason : String) (db : Db) (j : ℕ)
    → j ≤ db.seq
    → get_task j (enqueue_resolve now post t reason db) ≡ get_task j db
unfolding enqueue_resolve insert_task get_task
enqueue_resolve-rows now post t reason db j l = find?-append_other j db.tasks _ (ground arith)

give_up-rows :
    (now : ℕ) (t : Task) (r : Bool) (o : Option Post) (created : Bool) (calls : List Call) (db : Db)
    (j : ℕ)
    → j ≤ db.seq
    → get_task j (give_up now t r o created calls db).db ≡ get_task j db
unfolding give_up
give_up-rows now t r none created calls db j l = refl
give_up-rows now t r (some p) created calls db j l = enqueue_resolve-rows now p.id t _ db j l

announce-rows :
    (now : ℕ) (t : Task) (delay : ℕ) (o : Option Post) (created : Bool) (calls : List Call)
    (db : Db) (j : ℕ)
    → j ≤ db.seq
    → get_task j (announce now t delay o created calls db).db ≡ get_task j db
unfolding announce
announce-rows now t delay none created calls db j l = refl
announce-rows now t delay (some p) created calls db j l = elim (Bool-cases (engages t created)) [
  | inl e ↦ rw e (enqueue_resolve-rows now p.id t "new" db j l)
  | inr e ↦ rw e refl
]

-- what a row reads after the reaction
abbrev pub reread : ℕ → Task → Bool → ℕ → Db → Option Task
reread at t retried j db =
    if retried && t.task_id == j then over (requeued (some at)) (get_task j db) else get_task j db

requeue-rows :
    (id at j : ℕ) (db : Db)
    → get_task j (requeue id (some at) db)
      ≡ (if id == j then over (requeued (some at)) (get_task j db) else get_task j db)
unfolding requeue get_task
requeue-rows id at j db = find?-update_task id j (requeued (some at)) db.tasks (λ _. refl)

react-rows :
    (now : ℕ) (config : Config) (t : Task) (f : Failure) (s : Sighting) (db : Db) (j : ℕ)
    → j ≤ db.seq
    → get_task j (react now config t f s db).db
      ≡ reread (now + retry_delay_s (attempts_of t)) t (react now config t f s db).retried j db
unfolding react schedule requeue
react-rows now config t f s db j l = elim (Bool-cases (closed_by_human s)) [
  | inl a ↦ rw a refl
  | inr a ↦ elim (Bool-cases (exhausted config t f)) [
    | inl e ↦
        rw (a, e, give_up-retried now t f.retryable s.post s.created s.calls db)
          (give_up-rows now t f.retryable s.post s.created s.calls db j l)
    | inr e ↦
        let delay = retry_delay_s (attempts_of t) in
        let after = requeue t.task_id (some (now + delay)) db in
        rw (a, e, announce-retried now t delay s.post s.created s.calls after)
          (announce-rows now t delay s.post s.created s.calls after j l
            ∙ requeue-rows t.task_id (now + delay) j db)
  ]
]

pub on_failure-rows :
    (now : ℕ) (config : Config) (remote : Option Remote) (t : Task) (f : Failure) (db : Db) (j : ℕ)
    → j ≤ db.seq
    → get_task j (on_failure now config remote t f db).db
      ≡ reread
          (now + retry_delay_s (attempts_of t))
          t
          (on_failure now config remote t f db).retried
          j
          db
unfolding on_failure
on_failure-rows now config remote t f db j l =
    elim (Bool-cases (str_eq t.action platform_error_action)) [
      | inl a ↦ rw a refl
      | inr a ↦ elim (Bool-cases (enabled config)) [
        | inl e ↦
            rw (a, e)
              (react-rows now config t f
                (sight_post remote t f (next_delay config t f) (max_retries config)) db j l)
        | inr e ↦ rw (a, e) refl
      ]
    ]

-- a failed task may be tried again: it is not itself a recovery task, recovery is enabled, no human
-- closed its error post, the failure is retryable and attempts are left
abbrev pub may_retry : Config → Option Remote → Task → Failure → Bool
may_retry config remote t f =
    not (str_eq t.action platform_error_action)
    && enabled config
    && not (post_closed remote t)
    && (f.retryable && leb (attempts_of t) (max_retries config))

-- After a failure every row whose id was given out reads as before, but the task's own where it may be tried
-- again, that is where it is not itself a recovery task, recovery is enabled, its error post was not
-- closed, the failure is retryable and the attempts made are at most `max_retries`: that row is then
-- pending again, not due before the delay for its attempts has passed, and the caller is told so.
pub on_failure_lem :
    (now : ℕ) (config : Config) (remote : Option Remote) (t : Task) (f : Failure) (db : Db) (j : ℕ)
    → j ≤ db.seq
    → ((on_failure now config remote t f db).retried ≡ may_retry config remote t f)
      × (get_task j (on_failure now config remote t f db).db ≡ (
          if may_retry config remote t f && t.task_id == j
          then over (requeued (some (now + retry_delay_s (attempts_of t)))) (get_task j db)
          else get_task j db))
on_failure_lem now config remote t f db j l = (
  on_failure-retried now config remote t f db,
  on_failure-rows now config remote t f db j l
      ∙ rw (on_failure-retried now config remote t f db) refl,
)
