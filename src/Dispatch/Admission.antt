-- ===== src/Dispatch/Admission.antt =====
-- executing/dispatch.py, `_run_work`: what one event puts on the queue, and under which conditions.
use specseed.Prelude.{
  if_cases, ◌≡◌, refl, inl, inr, ◌⊎◌, String, Bool, true, false, ◌&&◌, ◌||◌, not, Option, none,
  some, [], ◌∷◌, str_eq, str_eq_iff,
}
use specseed.Payload.{text}
use specseed.StateMachine.{contains}
use specseed.Entities.{Entity, status}
use specseed.Approval.{is_empty}
use specseed.Queue.{Db}
use specseed.Dependencies.{Decision, dependency_gate}
use specseed.Advance.Writes.{World, WorkTransition, is_stale}
use specseed.Advance.RollUp.{is_text}
use specseed.Advance.Settle.{assigned_to_agent}
use specseed.Advance.Resolve.{resolve_approval, resolve_awaiting_merge}
use specseed.Advance.Cancelled.{block_on_cancelled_dep}
use specseed.Advance.Unblock.{resolve_blocked}
use specseed.Dispatch.{
  Intent, spec_change, implement, review, ask, nothing, spec_change_route, spec_change_status,
  spec_change_actionable, has_pending_spec_change_run, schedule, schedule_work_run,
  schedule_gate_action, decide_intent, startable, work_default, succeeded,
}
use specseed.Dispatch.Work.{
  Setting, Step, over, verdicts, next_states, assigned, run_cleared, run_implement, run_intent,
  run_status, run_request, run_error_post, run_entity, applied,
}
use specseed.Dispatch.Intents.{Startable, Decides, decide_intent-Decides}

-- the gates that an issue has passed when its agent is sent for
pub record Cleared (s : Setting) (e : Entity) (w : World) : Type 0 where
  pub starts : Startable (next_states s e) e
  pub current : is_stale e w ≡ false
  pub mine : assigned_to_agent s.ctx (assigned s e w).1 ≡ true
  pub signed_off : (s.auto_implement || not (is_empty (verdicts s e).approved)) ≡ true
  pub clear : dependency_gate s.poll_interval s.mirror.load e ≡ Decision.clear

abbrev pub Admitted : Setting → Entity → String → World → Db → Intent → Type 0
Admitted s e action w db implement = Cleared s e w
Admitted s e action w db review = (is_text "in_review" (status e) ≡ true) × (is_stale e w ≡ false)
Admitted s e action w db spec_change =
    (spec_change_actionable (spec_change_status e.labels) action ≡ true)
    × (has_pending_spec_change_run db e.post_id ≡ false)
Admitted s e action w db ask = contains "ask" e.labels ≡ true
Admitted s e action w db nothing = ⊥

-- a status that is resolved in code
abbrev pub waits : Option String → Bool
waits st = is_text "awaiting_approval" st || is_text "blocked" st || is_text "awaiting_merge" st

-- the queue after an event
unfoldable pub Effect : Setting → Entity → (action : String) → World → Db → Db → Type 0
Effect s e action w db after =
    (after ≡ db)
    ⊎ ((t : WorkTransition) × (after ≡ schedule_gate_action s.now e t db)
        × (waits (status e) ≡ true))
    ⊎ ((after
          ≡ schedule s.now e.post_id "handle_platform_error" (("reason", text "reply") ∷ [])
              work_default db)
        × (contains "platform_error" e.labels ≡ true)
        × (str_eq action "handle_comment_added" ≡ true))
    ⊎ ((i : Intent) × (after ≡ schedule_work_run s.now e i db) × Admitted s e action w db i)

double_negative : (b : Bool) → not b ≡ false → b ≡ true
double_negative true h = refl
double_negative false h = absurd (cc h)

passed : (a b : Bool) → (not a && b) ≡ false → (a || not b) ≡ true
passed true b h = refl
passed false true h = absurd (cc h)
passed false false h = refl

waits_blocked : (st : Option String) → is_text "blocked" st ≡ true → waits st ≡ true
waits_blocked st h =
    middle (is_text "awaiting_approval" st) (is_text "blocked" st) (is_text "awaiting_merge" st) h
  where
    middle : (a b c : Bool) → b ≡ true → (a || b || c) ≡ true
    middle true b c h = refl
    middle false true c h = refl
    middle false false c h = absurd (cc h)

waits_merge : (st : Option String) → is_text "awaiting_merge" st ≡ true → waits st ≡ true
waits_merge st h =
    last (is_text "awaiting_approval" st) (is_text "blocked" st) (is_text "awaiting_merge" st) h
  where
    last : (a b c : Bool) → c ≡ true → (a || b || c) ≡ true
    last true b c h = refl
    last false true c h = refl
    last false false c h = h

-- a text is no other one
one_text :
    (a c : String) (st : Option String)
    → is_text a st ≡ true
    → is_text c st ≡ true
    → str_eq a c ≡ true
one_text a c none h k = absurd (cc h)
one_text a c (some t) h k = rw (← (str_eq_iff t a).0 h) k

blocked_lem : (str_eq "blocked" "todo" ≡ false) × (str_eq "blocked" "in_review" ≡ false)
unfolding str_eq
blocked_lem = (refl, refl)

no_start : (st : Option String) → is_text "blocked" st ≡ true → startable st ≡ true → ⊥
no_start none h k = absurd (cc h)
no_start (some t) h k = absurd (cc (one_text "blocked" "todo" (some t) h k, blocked_lem.0))

no_review : (st : Option String) → is_text "blocked" st ≡ true → is_text "in_review" st ≡ true → ⊥
no_review st h k = absurd (cc (one_text "blocked" "in_review" st h k, blocked_lem.1))

module _ (s : Setting) (e : Entity) (action : String) (db : Db) where
  abbrev Ends : World → Step → Type 0
  Ends w r = Effect s e action w db r.db

  same_lem : (w : World) → Effect s e action w db db
  unfolding Effect
  same_lem w = inl refl

  agent_lem :
      (w : World) (i : Intent)
      → Admitted s e action w db i
      → Effect s e action w db (schedule_work_run s.now e i db)
  unfolding Effect
  agent_lem w i h = inr (inr (inr (i, refl, h)))

  gate_lem :
      (w : World) (t : WorkTransition)
      → waits (status e) ≡ true
      → Effect s e action w db (schedule_gate_action s.now e t db)
  unfolding Effect
  gate_lem w t h = inr (inl (t, refl, h))

  error_lem :
      (w : World)
      → contains "platform_error" e.labels ≡ true
      → str_eq action "handle_comment_added" ≡ true
      → Effect s e action w db (
          schedule s.now e.post_id "handle_platform_error"
            (("reason", text "reply") ∷ [])
            work_default
            db)
  unfolding Effect
  error_lem w l c = inr (inr (inl (refl, l, c)))

  run_cleared-Effect :
      (w w' : World)
      → (dependency_gate s.poll_interval s.mirror.load e ≡ Decision.clear → Cleared s e w)
      → Effect s e action w db (run_cleared s e implement w' db).db
  unfolding run_cleared
  run_cleared-Effect w w' h = go (dependency_gate s.poll_interval s.mirror.load e) h
    where
      go :
          (d : Decision)
          → (d ≡ Decision.clear → Cleared s e w)
          → Ends w (elim d [
            | Decision.blocked cancelled ↦ over (block_on_cancelled_dep s.ctx e cancelled w').0 db
            | Decision.held deps interval ↦ record {
              world = w';
              db = db;
              outcome = record succeeded { requeue = true; requeue_after_s = some interval };
            }
            | Decision.clear ↦ over w' (schedule_work_run s.now e implement db)
          ])
      go (Decision.blocked c) h = same_lem w
      go (Decision.held ds n) h = same_lem w
      go Decision.clear h = agent_lem w implement (h refl)

  run_implement-Effect :
      (w : World)
      → Startable (next_states s e) e
      → is_stale e w ≡ false
      → Effect s e action w db (run_implement s e w db).db
  unfolding run_implement
  run_implement-Effect w st fresh =
      if_cases (Ends w) (not (assigned_to_agent s.ctx (assigned s e w).1)) _ _ (λ _. same_lem w)
        (λ m.
          if_cases (Ends w) (not s.auto_implement && is_empty (verdicts s e).approved) _ _
            (λ _. same_lem w)
            (λ a. run_cleared-Effect w (assigned s e w).0 (λ c. record {
              starts = st;
              current = fresh;
              mine = double_negative (assigned_to_agent s.ctx (assigned s e w).1) m;
              signed_off = passed s.auto_implement (is_empty (verdicts s e).approved) a;
              clear = c;
            })))

  run_intent-Effect :
      (w : World) (i : Intent)
      → Decides e (next_states s e) action i
      → Effect s e action w db (run_intent s e i w db).db
  unfolding run_intent run_cleared
  run_intent-Effect w nothing d = same_lem w
  run_intent-Effect w implement d =
      if_cases (Ends w) (is_stale e w) _ _ (λ _. same_lem w) (λ f. run_implement-Effect w d f)
  run_intent-Effect w review d =
      if_cases (Ends w) (is_stale e w) _ _ (λ _. same_lem w) (λ f. agent_lem w review (d, f))
  run_intent-Effect w ask d = agent_lem w ask d
  run_intent-Effect w spec_change d =
      if_cases (Ends w) (has_pending_spec_change_run db e.post_id) _ _ (λ _. same_lem w)
        (λ p. agent_lem w spec_change (d, p))

  decided-Effect :
      (w : World)
      → Effect s e action w db (run_intent s e (decide_intent e (next_states s e) action) w db).db
  decided-Effect w =
      run_intent-Effect w (decide_intent e (next_states s e) action)
        (decide_intent-Decides e (next_states s e) action)

  -- what does not start an issue does not speak of the tracker
  blocked-Effect :
      (w w' : World) (after : Db)
      → is_text "blocked" (status e) ≡ true
      → Effect s e action w' db after
      → Effect s e action w db after
  unfolding Effect
  blocked-Effect w w' after b (inl q) = inl q
  blocked-Effect w w' after b (inr (inl q)) = inr (inl q)
  blocked-Effect w w' after b (inr (inr (inl q))) = inr (inr (inl q))
  blocked-Effect w w' after b (inr (inr (inr (implement, q, c)))) =
      absurd (no_start (status e) b c.starts.ready)
  blocked-Effect w w' after b (inr (inr (inr (review, q, (v, f))))) =
      absurd (no_review (status e) b v)
  blocked-Effect w w' after b (inr (inr (inr (spec_change, q, c)))) =
      inr (inr (inr (spec_change, q, c)))
  blocked-Effect w w' after b (inr (inr (inr (ask, q, c)))) = inr (inr (inr (ask, q, c)))
  blocked-Effect w w' after b (inr (inr (inr (nothing, q, c)))) = absurd c

  run_status-Effect : (w : World) → Effect s e action w db (run_status s e action w db).db
  unfolding run_status
  run_status-Effect w =
      if_cases (Ends w) (is_text "awaiting_approval" (status e)) _ _
        (λ a.
          gate_lem w
            (resolve_approval s.ctx e (verdicts s e) (s.mirror.conversation e.post_id) action w).1
            (rw a refl))
        (λ _.
          if_cases (Ends w) (is_text "blocked" (status e)) _ _
            (λ b.
              let r = resolve_blocked s.ctx e (s.mirror.conversation e.post_id) action w in
              if_cases (Ends w) (applied r.1) _ _ (λ _. gate_lem w r.1 (waits_blocked (status e) b))
                (λ _. blocked-Effect w r.0 _ b (decided-Effect r.0)))
            (λ _.
              if_cases (Ends w) (is_text "awaiting_merge" (status e)) _ _
                (λ m.
                  gate_lem w
                    (resolve_awaiting_merge s.ctx e (s.mirror.conversation e.post_id) action w).1
                    (waits_merge (status e) m))
                (λ _. decided-Effect w)))

  run_request-Effect : (w : World) → Effect s e action w db (run_request s e action w db).db
  unfolding run_request
  run_request-Effect w =
      if_cases (Ends w) (is_text "awaiting_approval" (spec_change_status e.labels)) _ _
        (λ _. settled (s.resolve_spec_change_request e w)) (λ _. decided-Effect w)
    where
      settled :
          (o : Option World)
          → Ends w (elim o [
            | none ↦ run_intent s e (decide_intent e (next_states s e) action) w db
            | some w' ↦ over w' db
          ])
      settled none = decided-Effect w
      settled (some w') = same_lem w

  run_error_post-Effect :
      (w : World)
      → contains "platform_error" e.labels ≡ true
      → Effect s e action w db (run_error_post s e action w db).db
  unfolding run_error_post
  run_error_post-Effect w l =
      if_cases (Ends w) (str_eq action "handle_comment_added") _ _ (λ c. error_lem w l c)
        (λ _. same_lem w)

  pub run_entity-Effect : (w : World) → Effect s e action w db (run_entity s e action w db).db
  unfolding run_entity
  run_entity-Effect w =
      if_cases (Ends w) (contains "platform_error" e.labels) _ _ (λ l. run_error_post-Effect w l)
        (λ _. routed (spec_change_route e.labels))
    where
      routed :
          (r : Option String)
          → Ends w (elim r [
            | none ↦ run_status s e action w db
            | some route ↦ run_request s e action w db
          ])
      routed none = run_status-Effect w
      routed (some route) = run_request-Effect w
