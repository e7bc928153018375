-- ===== src/StateMachine.antt =====
-- state_machines/base.py, from a work item's state to its possible next states. The flags are what
-- `evaluate_entity_state` has found out of the entity, the configuration and the conversation.
pub mod Gates
pub mod Reach
pub mod Dedupe
mod Examples
use Prim.Native.String
use specseed.Prelude.{
  String, Bool, true, false, ◌||◌, List, [], ◌∷◌, ◌++◌, map, str_eq, if◌then◌else◌, Option, none,
  some,
}

-- class StateTransition
pub record Transition : Type 0 where
  pub to_state : String
  pub actor : String
  pub reason : String
  pub requires_approval : Bool

abbrev pub free : String → String → String → Transition
free to_state actor reason = record {
  to_state = to_state;
  actor = actor;
  reason = reason;
  requires_approval = false;
}

abbrev pub gated : String → String → String → Transition
gated to_state actor reason = record {
  to_state = to_state;
  actor = actor;
  reason = reason;
  requires_approval = true;
}

pub record Flags : Type 0 where
  pub approved : Bool
  pub review_required : Bool
  pub manual_required : Bool
  pub hitl_required : Bool

-- TERMINAL_STATES
unfoldable pub is_terminal : String → Bool
is_terminal state = str_eq state "done" || str_eq state "wont_do" || str_eq state "deprecated"

abbrev pub or_done : String → List Transition → List Transition
or_done reason_prefix [] = free "done" "agent" (String.◌++◌ reason_prefix "; no gates remain") ∷ []
or_done reason_prefix (t ∷ ts) = t ∷ ts

abbrev pub when : Bool → Transition → List Transition
when b t = if b then t ∷ [] else []

-- `_after_work_transitions`
unfoldable pub after_work_transitions :
    (review_required hitl_required manual_required : Bool) (reason_prefix : String)
    → List Transition
after_work_transitions review_required hitl_required manual_required reason_prefix =
    or_done reason_prefix (
      when manual_required
        (free "awaiting_manual_test" "agent" (String.◌++◌ reason_prefix "; QA is required"))
      ++ when review_required
          (free "in_review" "agent" (String.◌++◌ reason_prefix "; code review is required"))
      ++ when hitl_required (
          gated "awaiting_approval" "agent"
            (String.◌++◌ reason_prefix "; human sign-off is required")))

abbrev pub from_blocked : List Transition
from_blocked =
    free "todo" "human" "blocker cleared or approval released"
    ∷ free "wont_do" "human" "work intentionally cancelled"
    ∷ []

abbrev pub from_awaiting_approval : Bool → List Transition
from_awaiting_approval true =
    free "todo" "human" "approved action gate; runner may resume"
    ∷ free "done" "human" "approved completion gate"
    ∷ []
from_awaiting_approval false =
    gated "todo" "human" "approve an action gate"
    ∷ gated "done" "human" "approve a completion gate"
    ∷ gated "blocked" "human" "hold or reject the gate"
    ∷ free "in_progress" "human" "request changes on completed work"
    ∷ []

abbrev pub from_awaiting_merge : List Transition
from_awaiting_merge =
    gated "done" "human" "merge authorized or branch landed on primary"
    ∷ free "todo" "human" "rework requested instead of merging"
    ∷ free "blocked" "human" "merge cannot proceed"
    ∷ []

unfoldable pub from_awaiting_manual_test : Flags → List Transition
unfolding after_work_transitions
from_awaiting_manual_test f =
    after_work_transitions f.review_required f.hitl_required false "manual testing passed"
    ++ free "in_progress" "human" "manual testing found required changes"
      ∷ free "blocked" "human" "manual testing is blocked"
      ∷ []

abbrev pub from_in_review : List Transition
from_in_review =
    free "in_progress" "reviewer" "code review requested changes"
    ∷ gated "awaiting_approval" "reviewer" "review passed but needs human sign-off"
    ∷ free "done" "reviewer" "review passed and no human gate remains"
    ∷ []

unfoldable pub from_in_progress : Flags → List Transition
unfolding after_work_transitions
from_in_progress f =
    after_work_transitions f.review_required f.hitl_required f.manual_required
      "implementation finished"
    ++ free "blocked" "agent" "implementation cannot proceed" ∷ []

unfoldable pub from_todo : String → Flags → List Transition
from_todo tier f =
    free "in_progress" "agent" (String.◌++◌ "claim " (String.◌++◌ tier " for work"))
    ∷ (when f.hitl_required
          (gated "awaiting_approval" "agent" "HITL gate must be approved before work")
        ++ free "wont_do" "human" "cancel before implementation" ∷ [])

-- Python's repr of a text that holds no quote, backslash or control character
abbrev pub repr : String → String
repr s = String.◌++◌ "'" (String.◌++◌ s "'")

unfoldable pub from_unknown : String → List Transition
from_unknown state =
    free "todo" "agent" (String.◌++◌ "normalize unknown state " (repr state))
    ∷ free "blocked" "agent"
        (String.◌++◌ "unknown state " (String.◌++◌ (repr state) " needs triage"))
    ∷ []

-- `_transitions_for`, a branch for each test of the source, in its order
unfoldable pub transitions_for : (tier state : String) → Flags → List Transition
unfolding is_terminal from_awaiting_manual_test from_in_progress from_todo from_unknown
transitions_for tier state f =
    if is_terminal state
    then []
    else if str_eq state "blocked"
    then from_blocked
    else if str_eq state "awaiting_approval"
    then from_awaiting_approval f.approved
    else if str_eq state "awaiting_merge"
    then from_awaiting_merge
    else if str_eq state "awaiting_manual_test"
    then from_awaiting_manual_test f
    else if str_eq state "in_review"
    then from_in_review
    else if str_eq state "in_progress"
    then from_in_progress f
    else if str_eq state "todo"
    then from_todo tier f
    else from_unknown state

abbrev pub contains : String → List String → Bool
contains s [] = false
contains s (x ∷ xs) = str_eq x s || contains s xs

-- the loop of `_dedupe`, with the values seen so far
unfoldable pub dedupe_from : List String → List String → List String
dedupe_from seen [] = []
dedupe_from seen (v ∷ vs) =
    let fresh = dedupe_from (v ∷ seen) vs in
    let again = dedupe_from seen vs in if contains v seen then again else v ∷ fresh

-- `_dedupe`
unfoldable pub dedupe : List String → List String
unfolding dedupe_from
dedupe values = dedupe_from [] values

-- `entity.status or DEFAULT_STATE`
unfoldable pub current_state : Option String → String
current_state none = "todo"
current_state (some s) = if str_eq s "" then "todo" else s

-- `evaluate_entity_state(…).next_states`, from the status that the labels give
unfoldable pub possible_next_states : (tier : String) → Option String → Flags → List String
unfolding transitions_for dedupe current_state
possible_next_states tier status f =
    dedupe (map (λ t. t.to_state) (transitions_for tier (current_state status) f))
