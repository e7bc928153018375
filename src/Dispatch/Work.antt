-- ===== src/Dispatch/Work.antt =====
-- executing/dispatch.py, `_run_work`: the way of an event about a work item through the gates. The
-- brain acts on the tracker (advance.py), the heavy jobs are put on the queue. The mirror's answers
-- and the switches of the configuration are arguments; so is the settling of a spec-change request
-- (`resolve_spec_change_request`), which answers none where there is nothing to settle.
use specseed.Prelude.{
  ℕ, String, Bool, true, false, ◌&&◌, ◌||◌, not, Option, none, some, List, [], ◌∷◌, str_eq,
  if◌then◌else◌,
}
use specseed.Payload.{text}
use specseed.StateMachine.{contains, possible_next_states}
use specseed.Entities.{Entity, Comment, tier, status}
use specseed.Approval.{approved_by, rejected_by, merge_approved_by, is_empty}
use specseed.Queue.{Db, Task}
use specseed.Scheduler.{HandlerOutcome}
use specseed.Dependencies.{Decision, dependency_gate}
use specseed.Advance.Writes.{Ctx, World, WorkTransition, is_stale}
use specseed.Advance.RollUp.{is_text}
use specseed.Advance.Settle.{assigned_to_agent, auto_assign_to_agent, park_for_implement_approval}
use specseed.Advance.Cancelled.{block_on_cancelled_dep}
use specseed.Advance.Resolve.{Verdicts, resolve_approval, resolve_awaiting_merge}
use specseed.Advance.Unblock.{resolve_blocked}
use specseed.Dispatch.{
  Intent, spec_change, implement, review, nothing, succeeded, work_default, spec_change_route,
  spec_change_status, has_pending_spec_change_run, schedule, schedule_work_run,
  schedule_gate_action, decide_intent,
}

-- the local mirror, and what it knows of a post
pub record Mirror : Type 0 where
  pub load : (post_id : String) → Option Entity
  pub conversation : (post_id : String) → List Comment
  pub assignees : (post_id : String) → List String
  pub entry_id_for_comment : (comment_id : String) → Option String

-- the rest of what the handler reads
pub record Setting : Type 0 where
  pub ctx : Ctx
  pub mirror : Mirror
  -- permissions.auto_assign_agent(), permissions.auto_implement_issue()
  pub auto_assign : Bool
  pub auto_implement : Bool
  -- config["poll_interval_seconds"] or 45
  pub poll_interval : ℕ
  -- the gates that the state machine finds for the entity (Permissions/Required)
  pub review_required : Entity → Bool
  pub manual_required : Entity → Bool
  pub hitl_required : Entity → Bool
  pub resolve_spec_change_request : Entity → World → Option World
  pub now : ℕ

pub record Step : Type 0 where
  pub world : World
  pub db : Db
  pub outcome : HandlerOutcome

abbrev pub over : World → Db → Step
over w db = record { world = w; db = db; outcome = succeeded }

-- `evaluate_entity_state`: the verdicts and the next states
unfoldable pub verdicts : Setting → Entity → Verdicts
unfolding approved_by rejected_by merge_approved_by
verdicts s entity =
    let conversation = some (s.mirror.conversation entity.post_id) in
    record {
      approved = approved_by entity s.ctx.config conversation;
      merge_approved = merge_approved_by entity s.ctx.config conversation;
      rejected = rejected_by entity s.ctx.config conversation;
    }

abbrev tier_or : Option String → String
tier_or none = "entity"
tier_or (some t) = if str_eq t "" then "entity" else t

unfoldable pub next_states : Setting → Entity → List String
unfolding possible_next_states verdicts tier status str_eq
next_states s entity = possible_next_states (tier_or (tier entity)) (status entity) (record {
  approved = not (is_empty (verdicts s entity).approved);
  review_required = s.review_required entity;
  manual_required = s.manual_required entity;
  hitl_required = s.hitl_required entity;
})

-- the assignees after the assignment gate
unfoldable pub assigned : Setting → Entity → World → World × List String
unfolding assigned_to_agent auto_assign_to_agent
assigned s entity w =
    let before = s.mirror.assignees entity.post_id in
    if not (assigned_to_agent s.ctx before) && s.auto_assign
    then auto_assign_to_agent s.ctx entity before w
    else (w, before)

-- the dependency gate, then the job
unfoldable pub run_cleared : Setting → Entity → Intent → World → Db → Step
unfolding dependency_gate block_on_cancelled_dep has_pending_spec_change_run schedule_work_run
run_cleared s entity implement w db = elim (dependency_gate s.poll_interval s.mirror.load entity) [
  | Decision.blocked cancelled ↦ over (block_on_cancelled_dep s.ctx entity cancelled w).0 db
  | Decision.held deps interval ↦ record {
    world = w;
    db = db;
    outcome = record succeeded { requeue = true; requeue_after_s = some interval };
  }
  | Decision.clear ↦ over w (schedule_work_run s.now entity implement db)
]
run_cleared s entity spec_change w db =
    if has_pending_spec_change_run db entity.post_id
    then over w db
    else over w (schedule_work_run s.now entity spec_change db)
run_cleared s entity intent w db = over w (schedule_work_run s.now entity intent db)

-- the gates before an issue is implemented: who does it, and the human's sign-off
unfoldable pub run_implement : Setting → Entity → World → Db → Step
unfolding assigned assigned_to_agent park_for_implement_approval verdicts run_cleared
run_implement s entity w db =
    let (w', assignees) = assigned s entity w in
    if not (assigned_to_agent s.ctx assignees)
    then over w' db
    else if not s.auto_implement && is_empty (verdicts s entity).approved
    then over (park_for_implement_approval s.ctx entity w').0 db
    else run_cleared s entity implement w' db

-- from the intent on
unfoldable pub run_intent : Setting → Entity → Intent → World → Db → Step
unfolding is_stale run_implement run_cleared
run_intent s entity nothing w db = over w db
run_intent s entity implement w db =
    if is_stale entity w then over w db else run_implement s entity w db
run_intent s entity review w db =
    if is_stale entity w then over w db else run_cleared s entity review w db
run_intent s entity intent w db = run_cleared s entity intent w db

abbrev pub gated : Setting → Entity → World × WorkTransition → Db → Step
gated s entity (w, transition) db = over w (schedule_gate_action s.now entity transition db)

abbrev some_detail : Option String → Bool
some_detail none = false
some_detail (some d) = true

-- was something applied
abbrev pub applied : WorkTransition → Bool
applied t = some_detail t.detail || t.merge || t.prepare

-- the statuses that are resolved in code, of an entity that is no request
unfoldable pub run_status : Setting → Entity → (action : String) → World → Db → Step
unfolding status str_eq resolve_approval resolve_blocked resolve_awaiting_merge verdicts
    schedule_gate_action decide_intent next_states run_intent
run_status s entity action w db =
    let conversation = s.mirror.conversation entity.post_id in
    let intent = decide_intent entity (next_states s entity) action in
    if is_text "awaiting_approval" (status entity)
    then gated s entity (resolve_approval s.ctx entity (verdicts s entity) conversation action w) db
    else if is_text "blocked" (status entity)
    then (let (w', transition) = resolve_blocked s.ctx entity conversation action w in
        if applied transition
        then gated s entity (w', transition) db
        else run_intent s entity intent w' db)
    else if is_text "awaiting_merge" (status entity)
    then gated s entity (resolve_awaiting_merge s.ctx entity conversation action w) db
    else run_intent s entity intent w db

-- a request that waits for its approval is settled, where there is an approval
unfoldable pub run_request : Setting → Entity → (action : String) → World → Db → Step
unfolding spec_change_status str_eq decide_intent next_states run_intent
run_request s entity action w db =
    let intent = decide_intent entity (next_states s entity) action in
    if is_text "awaiting_approval" (spec_change_status entity.labels)
    then elim (s.resolve_spec_change_request entity w) [
      | none ↦ run_intent s entity intent w db
      | some w' ↦ over w' db
    ]
    else run_intent s entity intent w db

-- an error post: only a reply engages the resolve agent
unfoldable pub run_error_post : Setting → Entity → (action : String) → World → Db → Step
unfolding schedule str_eq
run_error_post s entity action w db =
    if str_eq action "handle_comment_added"
    then over w (
        schedule s.now entity.post_id "handle_platform_error" (("reason", text "reply") ∷ [])
          work_default db)
    else over w db

unfoldable pub run_entity : Setting → Entity → (action : String) → World → Db → Step
unfolding spec_change_route run_error_post run_request run_status
run_entity s entity action w db =
    if contains "platform_error" entity.labels
    then run_error_post s entity action w db
    else elim (spec_change_route entity.labels) [
      | none ↦ run_status s entity action w db
      | some route ↦ run_request s entity action w db
    ]

abbrev or_self : String → Option String → String
or_self post none = post
or_self post (some owner) = owner

-- the post that an event is about: for a reaction to a comment, that of the comment
unfoldable pub owning_post : Mirror → (action post_id : String) → String
unfolding str_eq
owning_post m action post_id =
    if str_eq action "handle_reaction_added" || str_eq action "handle_reaction_removed"
    then or_self post_id (m.entry_id_for_comment post_id)
    else post_id

abbrev pub or_no_post : Option String → String
or_no_post none = ""
or_no_post (some p) = p

-- `_run_work`
unfoldable pub run_work : Setting → Task → World → Db → Step
unfolding owning_post run_entity
run_work s task w db =
    elim (s.mirror.load (owning_post s.mirror task.action (or_no_post task.post_id))) [
      | none ↦ over w db
      | some entity ↦ run_entity s entity task.action w db
    ]
