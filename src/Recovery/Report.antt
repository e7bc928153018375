-- ===== src/Recovery/Report.antt =====
-- What the tracker is told of a failure: one post for each task, and the human's switch.
use specseed.Prelude.{
  ℕ, zero, suc, ◌+◌, ◌≤◌, ◌<◌, ◌↔◌, ◌≡◌, refl, ◌∙◌, inl, inr, Bool, true, false, ◌&&◌, not, Option,
  none, some, List, [], ◌∷◌, ◌++◌, arith, str_eq, if◌then◌else◌, Bool-cases, String, count,
  count-append, min, ◌-◌,
}
use specseed.Config.{Config}
use specseed.Queue.{Db, Task, requeue}
use specseed.Recovery.{
  Remote, Post, Reply, raised, failure, ok, Found, broke, absent, there, Failure, Sighting, Note,
  Call, ensure_label, add_entry, add_entry_comment, set_entry_closed, comment_unless, enabled,
  max_retries, retry_delay_s, find_error_post, sighting, sight_post, closed_by_human, exhausted,
  give_up, announce, schedule, react, on_failure, platform_error_action, attempts_of, next_delay,
  retry_cancelled, created_post, backoff,
}
use specseed.Recovery.Retry.{post_closed, on_failure-retried}

abbrev pub is_add : Call → Bool
is_add (ensure_label l) = false
is_add (add_entry title note marker) = true
is_add (add_entry_comment post note) = false
is_add (set_entry_closed post) = false

abbrev pub is_absent : Found → Bool
is_absent broke = false
is_absent absent = true
is_absent (there p) = false

-- the tracker was asked and has no post for the task
abbrev pub no_post : Option Remote → Task → Bool
no_post none t = false
no_post (some remote) t = is_absent (find_error_post remote t.task_id)

abbrev pub one_if : Bool → ℕ
one_if b = if b then 1 else 0

comment-adds :
    (created : Bool) (post : String) (note : Note)
    → count is_add (comment_unless created post note) ≡ 0
comment-adds true post note = refl
comment-adds false post note = refl

with_comment :
    (calls : List Call) (created : Bool) (post : String) (note : Note)
    → count is_add (calls ++ comment_unless created post note) ≡ count is_add calls
with_comment calls created post note = omega (
  arith,
  count-append is_add calls (comment_unless created post note),
  comment-adds created post note,
)

give_up-adds :
    (now : ℕ) (t : Task) (r : Bool) (o : Option Post) (created : Bool) (calls : List Call) (db : Db)
    → count is_add (give_up now t r o created calls db).calls ≡ count is_add calls
unfolding give_up
give_up-adds now t r none created calls db = refl
give_up-adds now t r (some p) created calls db = with_comment calls created p.id _

announce-adds :
    (now : ℕ) (t : Task) (delay : ℕ) (o : Option Post) (created : Bool) (calls : List Call)
    (db : Db)
    → count is_add (announce now t delay o created calls db).calls ≡ count is_add calls
unfolding announce
announce-adds now t delay none created calls db = refl
announce-adds now t delay (some p) created calls db = with_comment calls created p.id _

react-adds :
    (now : ℕ) (config : Config) (t : Task) (f : Failure) (s : Sighting) (db : Db)
    → count is_add (react now config t f s db).calls ≡ count is_add s.calls
unfolding react schedule
react-adds now config t f s db = elim (Bool-cases (closed_by_human s)) [
  | inl a ↦ rw a refl
  | inr a ↦ elim (Bool-cases (exhausted config t f)) [
    | inl e ↦ rw (a, e) (give_up-adds now t f.retryable s.post s.created s.calls db)
    | inr e ↦
        rw (a, e)
          (announce-adds now t (retry_delay_s (attempts_of t)) s.post s.created s.calls
            (requeue t.task_id (some (now + retry_delay_s (attempts_of t))) db))
  ]
]

made-calls : (calls : List Call) (r : Reply Post) → (created_post calls r).calls ≡ calls
made-calls calls raised = refl
made-calls calls failure = refl
made-calls calls (ok p) = refl

sighting-adds :
    (found : Found) (title marker : String) (note : Note) (r : Reply Post) (label : String)
    → count is_add (sighting found (ensure_label label ∷ add_entry title note marker ∷ []) r).calls
      ≡ one_if (is_absent found)
sighting-adds broke title marker note r label = refl
sighting-adds absent title marker note r label =
    rw (made-calls (ensure_label label ∷ add_entry title note marker ∷ []) r) refl
sighting-adds (there p) title marker note r label = refl

sight_post-adds :
    (remote : Option Remote) (t : Task) (f : Failure) (delay : Option ℕ) (retries : ℕ)
    → count is_add (sight_post remote t f delay retries).calls ≡ one_if (no_post remote t)
unfolding sight_post
sight_post-adds none t f delay retries = refl
sight_post-adds (some remote) t f delay retries =
    sighting-adds (find_error_post remote t.task_id) _ _ _ remote.add_entry _

-- A failure asks for a new error post at most once, and does so exactly when it is not that of a
-- recovery task, recovery is enabled, and the tracker, asked, showed no post that bears the
-- task's marker.
pub on_failure-adds :
    (now : ℕ) (config : Config) (remote : Option Remote) (t : Task) (f : Failure) (db : Db)
    → count is_add (on_failure now config remote t f db).calls
      ≡ one_if (not (str_eq t.action platform_error_action) && enabled config && no_post remote t)
unfolding on_failure
on_failure-adds now config remote t f db =
    elim (Bool-cases (str_eq t.action platform_error_action)) [
      | inl a ↦ rw a refl
      | inr a ↦ elim (Bool-cases (enabled config)) [
        | inl e ↦
            let s = sight_post remote t f (next_delay config t f) (max_retries config) in
            rw (a, e)
              (react-adds now config t f s db
                ∙ sight_post-adds remote t f (next_delay config t f) (max_retries config))
        | inr e ↦ rw (a, e) refl
      ]
    ]

retry_cancelled-closed :
    (remote : Option Remote) (t : Task)
    → (retry_cancelled remote t ≡ true) ↔ (
        (1 < t.attempts)
        × (str_eq t.action platform_error_action ≡ false)
        × (post_closed remote t ≡ true))
unfolding retry_cancelled
retry_cancelled-closed none t = (λ h. absurd (cc h), λ (a, b, k). k)
retry_cancelled-closed (some remote) t = (
  λ h. (ground (arith, h), ground (arith, h), ground (arith, h)),
  λ (a, b, k). ground (arith, a, b, k),
)

-- Where recovery is enabled, the failure is retryable and attempts are left, the gate before a queued
-- try says that a human cancelled it exactly when it is not a first run, not that of a recovery task,
-- and a failure of the task now would not be tried again.
pub retry_cancelled-on_failure :
    (now : ℕ) (config : Config) (remote : Option Remote) (t : Task) (f : Failure) (db : Db)
    → enabled config ≡ true
    → f.retryable ≡ true
    → attempts_of t ≤ max_retries config
    → (retry_cancelled remote t ≡ true) ↔ (
        (1 < t.attempts)
        × (str_eq t.action platform_error_action ≡ false)
        × ((on_failure now config remote t f db).retried ≡ false))
retry_cancelled-on_failure now config remote t f db on able left =
    let e = on_failure-retried now config remote t f db in
    let c = retry_cancelled-closed remote t in
    (
      λ h. let (a, b, k) = c.0 h in (a, b, ground (arith, e, k)),
      λ (a, b, k). c.1 (a, b, ground (arith, e, on, able, left, b, k)),
    )

backoff_bounds : (i : ℕ) → (60 ≤ backoff i) × (backoff i ≤ 900)
backoff_bounds zero = (omega arith, omega arith)
backoff_bounds (suc zero) = (omega arith, omega arith)
backoff_bounds (suc (suc i)) = (omega arith, omega arith)

backoff_grows : (i j : ℕ) → i ≤ j → backoff i ≤ backoff j
backoff_grows zero j l = (backoff_bounds j).0
backoff_grows (suc zero) zero l = absurd (omega (arith, l))
backoff_grows (suc zero) (suc zero) l = omega arith
backoff_grows (suc zero) (suc (suc j)) l = omega arith
backoff_grows (suc (suc i)) zero l = absurd (omega (arith, l))
backoff_grows (suc (suc i)) (suc zero) l = absurd (omega (arith, l))
backoff_grows (suc (suc i)) (suc (suc j)) l = omega arith

-- The pauses never shrink from one attempt to the next and lie between one and fifteen minutes.
pub retry_delay_s_lem :
    (a b : ℕ)
    → a ≤ b
    → (60 ≤ retry_delay_s a) × (retry_delay_s a ≤ retry_delay_s b) × (retry_delay_s b ≤ 900)
unfolding retry_delay_s
retry_delay_s_lem a b l = (
  (backoff_bounds (min (a - 1) 2)).0,
  backoff_grows (min (a - 1) 2) (min (b - 1) 2) (omega (arith, l)),
  (backoff_bounds (min (b - 1) 2)).1,
)
