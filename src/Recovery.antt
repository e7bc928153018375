-- ===== src/Recovery.antt =====
-- executing/recovery.py: what happens after a task failed. The tracker is outside: `Remote` holds
-- what its calls answer (each may raise, or answer that it did not succeed), and the calls that
-- change it are listed in the result. What a comment says is a `Note`; its wording is not modelled.
mod Tracker
unfoldable pub use Tracker.*
pub mod Retry
pub mod Report
mod Examples
use Prim.Native.String
use specseed.Prelude.{
  ℕ, zero, suc, ◌+◌, ◌-◌, min, String, Bool, true, false, ◌&&◌, ◌||◌, not, Option, none, some, List,
  [], ◌∷◌, ◌++◌, str_eq, leb, ltb, ◌==◌, if◌then◌else◌,
}
use specseed.Prelude.Text.{strip, casefold, has_part, decimal}
use specseed.Config.{Config}
use specseed.Payload.{Payload, Value, null, flag, num, text, entity, of_text}
use specseed.Tasks.{truthy}
use specseed.Queue
use specseed.Queue.{Db, Task, work, insert_task, default_priority}

-- `_enqueue_resolve`: the work lane, at its default priority
unfoldable pub enqueue_resolve : ℕ → String → Task → String → Db → Db
unfolding insert_task
enqueue_resolve now post t reason db =
    (insert_task now platform_error_action (some post)
      (("origin_task_id", num t.task_id)
        ∷ ("origin_post_id", of_text t.post_id)
        ∷ ("origin_action", text t.action)
        ∷ ("reason", text reason)
        ∷ [])
      work default_priority db).1

-- HandlerOutcome, as far as a failure is concerned
pub record Failure : Type 0 where
  pub error : String
  pub retryable : Bool

-- summary, the tables and the calls
pub record Reaction : Type 0 where
  pub retried : Bool
  pub post_id : Option String
  pub agent : Bool
  pub db : Db
  pub calls : List Call

-- the post that the rest of `on_failure` works with: whether it is new
pub record Sighting : Type 0 where
  pub post : Option Post
  pub created : Bool
  pub calls : List Call

abbrev pub created_post : List Call → Reply Post → Sighting
created_post calls raised = record { post = none; created = false; calls = calls }
created_post calls failure = record { post = none; created = false; calls = calls }
created_post calls (ok p) = record { post = some p; created = true; calls = calls }

abbrev pub sighting : Found → List Call → Reply Post → Sighting
sighting broke calls made = record { post = none; created = false; calls = [] }
sighting absent calls made = created_post calls made
sighting (there p) calls made = record { post = some p; created = false; calls = [] }

-- the lookup, and the creation where there is no post
unfoldable pub sight_post : Option Remote → Task → Failure → Option ℕ → ℕ → Sighting
unfolding find_error_post marker_line
sight_post none t f delay retries = record { post = none; created = false; calls = [] }
sight_post (some remote) t f delay retries =
    sighting (find_error_post remote t.task_id)
      (ensure_label platform_error_label
        ∷ add_entry (error_post_title t) (error_body t f.error delay retries)
            (marker_line t.task_id)
        ∷ [])
      remote.add_entry

abbrev id_of : Option Post → Option String
id_of none = none
id_of (some p) = some p.id

abbrev pub closed_by_human : Sighting → Bool
closed_by_human s = elim s.post [ none ↦ false | some p ↦ not s.created && not (is_open p.is_open) ]

abbrev pub nothing_done : Db → Reaction
nothing_done db = record { retried = false; post_id = none; agent = false; db = db; calls = [] }

-- `int(task.get("attempts") or 1)`
abbrev pub attempts_of : Task → ℕ
attempts_of t = if t.attempts == 0 then 1 else t.attempts

abbrev pub comment_unless : Bool → String → Note → List Call
comment_unless created post note = if created then [] else add_entry_comment post note ∷ []

-- no retry is left, or none was allowed: with the post, whether it is new, and the calls so far
unfoldable pub give_up : ℕ → Task → Bool → Option Post → Bool → List Call → Db → Reaction
unfolding enqueue_resolve
give_up now t retryable none created calls db = record {
  retried = false;
  post_id = none;
  agent = false;
  db = db;
  calls = calls;
}
give_up now t retryable (some p) created calls db = record {
  retried = false;
  post_id = some p.id;
  agent = true;
  db = enqueue_resolve now p.id t (if retryable then "exhausted" else "fatal") db;
  calls =
      calls
      ++ comment_unless created p.id (if retryable then gave_up (attempts_of t) else not_retried);
}

unfoldable pub engages : Task → Bool → Bool
engages t created =
    attempts_of t == engage_after_failures || (created && ltb engage_after_failures (attempts_of t))

-- the agent and the comment, after the task was put back for its next try
unfoldable pub announce : ℕ → Task → ℕ → Option Post → Bool → List Call → Db → Reaction
unfolding enqueue_resolve engages
announce now t delay none created calls db = record {
  retried = true;
  post_id = none;
  agent = false;
  db = db;
  calls = calls;
}
announce now t delay (some p) created calls db = record {
  retried = true;
  post_id = some p.id;
  agent = engages t created;
  db = if engages t created then enqueue_resolve now p.id t "new" db else db;
  calls =
      calls
      ++ comment_unless created p.id
          (next_try (attempts_of t - 1) delay (now + delay) (engages t created));
}

-- the next try, `delay` seconds from now
unfoldable pub schedule : ℕ → Task → ℕ → Sighting → Db → Reaction
unfolding announce Queue.requeue
schedule now t delay s db =
    announce now t delay s.post s.created s.calls (Queue.requeue t.task_id (some (now + delay)) db)

unfoldable pub exhausted : Config → Task → Failure → Bool
unfolding max_retries
exhausted config t f = not f.retryable || ltb (max_retries config) (attempts_of t)

abbrev pub next_delay : Config → Task → Failure → Option ℕ
next_delay config t f = if exhausted config t f then none else some (retry_delay_s (attempts_of t))

-- what follows the lookup of the post
unfoldable pub react : ℕ → Config → Task → Failure → Sighting → Db → Reaction
unfolding exhausted give_up schedule retry_delay_s
react now config t f s db =
    if closed_by_human s
    then record { retried = false; post_id = id_of s.post; agent = false; db = db; calls = s.calls }
    else if exhausted config t f
    then give_up now t f.retryable s.post s.created s.calls db
    else schedule now t (retry_delay_s (attempts_of t)) s db

unfoldable pub on_failure : ℕ → Config → Option Remote → Task → Failure → Db → Reaction
unfolding str_eq enabled sight_post react
on_failure now config remote t f db =
    if str_eq t.action platform_error_action
    then nothing_done db
    else if not (enabled config)
    then nothing_done db
    else react now config t f (sight_post remote t f (next_delay config t f) (max_retries config))
        db

abbrev pub recovered_calls : Task → Found → List Call
recovered_calls t broke = []
recovered_calls t absent = []
recovered_calls t (there p) =
    if is_open p.is_open
    then add_entry_comment p.id (recovered (attempts_of t)) ∷ set_entry_closed p.id ∷ []
    else []

-- the calls of `on_recovered`
unfoldable pub on_recovered : Option Remote → Task → List Call
unfolding find_error_post is_open str_eq
on_recovered none t = []
on_recovered (some remote) t =
    if str_eq t.action platform_error_action
    then []
    else recovered_calls t (find_error_post remote t.task_id)
