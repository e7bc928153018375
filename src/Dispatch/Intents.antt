-- ===== src/Dispatch/Intents.antt =====
-- executing/dispatch.py, `decide_intent`: what an intent says of the entity.
use specseed.Prelude.{
  if_cases, ◌≡◌, refl, String, Bool, true, false, ◌&&◌, ◌||◌, Option, none, some, List, str_eq,
  if◌then◌else◌,
}
use specseed.StateMachine.{contains}
use specseed.Entities.{Entity, tier, status}
use specseed.Advance.RollUp.{is_text}
use specseed.Dispatch.{
  Intent, spec_change, implement, review, ask, nothing, spec_change_route, spec_change_status,
  spec_change_actionable, decide_intent, startable,
}

-- what an intent says of the entity
pub record Startable (ns : List String) (e : Entity) : Type 0 where
  pub issue : is_text "issue" (tier e) ≡ true
  pub ready : startable (status e) ≡ true
  pub allowed : contains "in_progress" ns ≡ true
  pub undrafted : contains "draft" e.labels ≡ false
  pub no_request : spec_change_route e.labels ≡ none

abbrev pub Decides : Entity → List String → String → Intent → Type 0
Decides e ns action implement = Startable ns e
Decides e ns action review = is_text "in_review" (status e) ≡ true
Decides e ns action spec_change = spec_change_actionable (spec_change_status e.labels) action ≡ true
Decides e ns action ask = contains "ask" e.labels ≡ true
Decides e ns action nothing = Unit

both : (b c d : Bool) → (b && c && d) ≡ true → (b ≡ true) × (c ≡ true) × (d ≡ true)
both true true true e = (refl, refl, refl)
both true true false e = absurd (cc e)
both true false d e = absurd (cc e)
both false c d e = absurd (cc e)

pub decide_intent-Decides :
    (e : Entity) (ns : List String) (action : String)
    → Decides e ns action (decide_intent e ns action)
unfolding decide_intent
decide_intent-Decides e ns action =
    if_cases (Decides e ns action) (contains "draft" e.labels) _ _ (λ _. tt)
      (λ d. routed (spec_change_route e.labels) refl d)
  where
    routed :
        (r : Option String)
        → spec_change_route e.labels ≡ r
        → contains "draft" e.labels ≡ false
        → Decides e ns action (elim r [
          | some route ↦
              if spec_change_actionable (spec_change_status e.labels) action
              then spec_change
              else nothing
          | none ↦
              if contains "ask" e.labels
              then (if str_eq action "handle_label_added" || str_eq action "handle_comment_added"
                  then ask
                  else nothing)
              else if is_text "issue" (tier e) && startable (status e) && contains "in_progress" ns
              then implement
              else if is_text "in_review" (status e)
              then review
              else nothing
        ])
    routed (some route) q d =
        if_cases (Decides e ns action) (spec_change_actionable (spec_change_status e.labels) action)
          _ _ (λ h. h) (λ _. tt)
    routed none q d =
        if_cases (Decides e ns action) (contains "ask" e.labels) _ _
          (λ a.
            if_cases (Decides e ns action)
              (str_eq action "handle_label_added" || str_eq action "handle_comment_added") _ _
              (λ _. a) (λ _. tt))
          (λ _.
            if_cases (Decides e ns action)
              (is_text "issue" (tier e) && startable (status e) && contains "in_progress" ns) _ _
              (λ h.
                let (i, r, n) =
                  both (is_text "issue" (tier e)) (startable (status e)) (contains "in_progress" ns)
                    h in
                record { issue = i; ready = r; allowed = n; undrafted = d; no_request = q })
              (λ _.
                if_cases (Decides e ns action) (is_text "in_review" (status e)) _ _ (λ h. h)
                  (λ _. tt)))
