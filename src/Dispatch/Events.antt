-- ===== src/Dispatch/Events.antt =====
-- executing/dispatch.py, `_run_work`: what any event leaves on the queue.
use specseed.Prelude.{
  some_injective, ◌≡◌, sym, subst, inl, inr, [], ◌∷◌, String, ◌||◌, Option, none, some, Bool-cases,
}
use specseed.Payload.{text, flag}
use specseed.Entities.{Entity}
use specseed.Queue.{Db, Task}
use specseed.Advance.Writes.{World, WorkTransition}
use specseed.Dispatch.{
  Intent, intent_name, schedule_gate_action, schedule_work_run, work_gate_action, work_run,
  work_merge, work_default,
}
use specseed.Dispatch.Work.{Setting, Step, over, run_entity, run_work, owning_post, or_no_post}
use specseed.Dispatch.Jobs.{OneJob, schedule-OneJob}
use specseed.Dispatch.Admission.{Effect, run_entity-Effect}

-- An event about an entity that the mirror has leaves the queue as it was, or puts one job on it,
-- unless the post has such a job: a git job, where the entity waits for approval, for its merge or
-- is blocked; the resolve agent, where the entity is an error post and the event a new comment; or
-- an agent. The implement agent is only sent for where the entity is an issue with no status or
-- `todo` that is no draft and no request, the state machine allows `in_progress`, the tracker has not
-- moved on, the agent is among the assignees after the assignment gate, the issue is approved or
-- needs no approval, and the dependency gate is clear. The review agent wants the status `in_review`
-- and a tracker that has not moved on, the specification agent an open request without a follow-up
-- on the queue, the answering agent the label `ask`.
pub run_work-Effect :
    (s : Setting) (task : Task) (w : World) (db : Db) (e : Entity)
    → s.mirror.load (owning_post s.mirror task.action (or_no_post task.post_id)) ≡ some e
    → Effect s e task.action w db (run_work s task w db).db
unfolding run_work
run_work-Effect s task w db e h =
    go (s.mirror.load (owning_post s.mirror task.action (or_no_post task.post_id))) h
  where
    go :
        (o : Option Entity)
        → o ≡ some e
        → Effect s e task.action w db
            (elim o as (λ _. Step) [
              | none ↦ over w db
              | some e ↦ run_entity s e task.action w db
            ]).db
    go none q = absurd (cc q)
    go (some d) q =
        subst (λ x. Effect s e task.action w db (run_entity s x task.action w db).db)
          (sym (some_injective d e q)) (run_entity-Effect s e task.action db w)

gate-OneJob :
    (a : String) (s : Setting) (e : Entity) (t : WorkTransition) (db : Db)
    → OneJob a db
    → OneJob a (schedule_gate_action s.now e t db)
unfolding schedule_gate_action
gate-OneJob a s e t db h = elim (Bool-cases (t.prepare || t.merge)) [
  | inl y ↦ rw y (
      schedule-OneJob a s.now e.post_id work_gate_action
        (("post_id", text e.post_id) ∷ ("prepare", flag t.prepare) ∷ ("merge", flag t.merge) ∷ [])
        work_merge db h)
  | inr n ↦ rw n h
]

agent-OneJob :
    (a : String) (s : Setting) (e : Entity) (i : Intent) (db : Db)
    → OneJob a db
    → OneJob a (schedule_work_run s.now e i db)
unfolding schedule_work_run
agent-OneJob a s e i db h =
    schedule-OneJob a s.now e.post_id work_run
      (("intent", text (intent_name i)) ∷ ("post_id", text e.post_id) ∷ []) work_default db h

Effect-OneJob :
    (a : String) (s : Setting) (e : Entity) (action : String) (w : World) (db after : Db)
    → Effect s e action w db after
    → OneJob a db
    → OneJob a after
unfolding Effect
Effect-OneJob a s e action w db after (inl q) h = rw q h
Effect-OneJob a s e action w db after (inr (inl (t, q, c))) h = rw q (gate-OneJob a s e t db h)
Effect-OneJob a s e action w db after (inr (inr (inl (q, l, c)))) h = rw q (
    schedule-OneJob a s.now e.post_id "handle_platform_error" (("reason", text "reply") ∷ [])
      work_default db h)
Effect-OneJob a s e action w db after (inr (inr (inr (i, q, c)))) h =
    rw q (agent-OneJob a s e i db h)

-- Where of an action at most one row per post waits or runs, that stays so whatever event is
-- handled: the jobs of the work lane do not pile up.
pub run_work-OneJob :
    (action : String) (s : Setting) (task : Task) (w : World) (db : Db)
    → OneJob action db
    → OneJob action (run_work s task w db).db
unfolding run_work
run_work-OneJob action s task w db h =
    go (s.mirror.load (owning_post s.mirror task.action (or_no_post task.post_id)))
  where
    go :
        (o : Option Entity)
        → OneJob action
            (elim o as (λ _. Step) [
              | none ↦ over w db
              | some e ↦ run_entity s e task.action w db
            ]).db
    go none = h
    go (some e) =
        Effect-OneJob action s e task.action w db _ (run_entity-Effect s e task.action db w) h
