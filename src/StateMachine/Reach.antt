-- ===== src/StateMachine/Reach.antt =====
-- The state machine as a step relation: where a work item can get to.
use specseed.Prelude.{
  String, ◌≡◌, refl, subst, inl, inr, Bool, true, false, List, [], ◌∷◌, ◌++◌, In, str_eq,
}
use specseed.StateMachine.{
  Transition, Flags, free, is_terminal, after_work_transitions, from_awaiting_manual_test,
  from_in_progress, from_todo, from_unknown, from_in_review, from_awaiting_approval,
  transitions_for,
}
use specseed.StateMachine.Gates.{by_state, transitions_for-empty}

-- the machine offers a move from s to t
pub data Step (tier : String) (f : Flags) : String → String → Type 0 where
  move :
      {s t : String} (m : Transition)
      → In m (transitions_for tier s f)
      → t ≡ m.to_state
      → Step tier f s t

pub data Reach (tier : String) (f : Flags) : String → String → Type 0 where
  here : {s : String} → Reach tier f s s
  next : {s t u : String} → Step tier f s t → Reach tier f t u → Reach tier f s u

module _ (tier : String) (f : Flags) where
  -- the first move, then the rest of the way
  via :
      (s : String) (m : Transition)
      → In m (transitions_for tier s f)
      → Reach tier f m.to_state "done"
      → Reach tier f s "done"
  via s m i r = next (move m i refl) r

  -- a first move of a list from which `done` is reached
  abbrev Way : List Transition → Type 0
  Way ts = (m : Transition) × In m ts × Reach tier f m.to_state "done"

  along : (s : String) → Way (transitions_for tier s f) → Reach tier f s "done"
  along s (m, i, r) = via s m i r

  approval-Way : (b : Bool) → Way (from_awaiting_approval b)
  approval-Way true = (_, inr (inl refl), here)
  approval-Way false = (_, inr (inl refl), here)

  review-Way : Way from_in_review
  review-Way = (_, inr (inr (inl refl)), here)

  approval-Reach : Reach tier f "awaiting_approval" "done"
  unfolding transitions_for str_eq
  approval-Reach = along "awaiting_approval" (approval-Way f.approved)

  review-Reach : Reach tier f "in_review" "done"
  unfolding transitions_for str_eq
  review-Reach = along "in_review" review-Way

  -- after finished work, whatever gates are required
  gates-Way :
      (review hitl : Bool) (prefix : String) (rest : List Transition)
      → Way (after_work_transitions review hitl false prefix ++ rest)
  unfolding after_work_transitions
  gates-Way true hitl prefix rest = (_, inl refl, review-Reach)
  gates-Way false true prefix rest = (_, inl refl, approval-Reach)
  gates-Way false false prefix rest = (_, inl refl, here)

  manual-Way : Way (from_awaiting_manual_test f)
  unfolding from_awaiting_manual_test
  manual-Way = gates-Way f.review_required f.hitl_required "manual testing passed" (
      free "in_progress" "human" "manual testing found required changes"
      ∷ free "blocked" "human" "manual testing is blocked"
      ∷ [])

  manual-Reach : Reach tier f "awaiting_manual_test" "done"
  unfolding transitions_for str_eq
  manual-Reach = along "awaiting_manual_test" manual-Way

  work-Way :
      (review hitl manual : Bool) (prefix : String) (rest : List Transition)
      → Way (after_work_transitions review hitl manual prefix ++ rest)
  unfolding after_work_transitions
  work-Way review hitl true prefix rest =
      (free "awaiting_manual_test" "agent" _, inl refl, manual-Reach)
  work-Way review hitl false prefix rest = gates-Way review hitl prefix rest

  progress-Way : Way (from_in_progress f)
  unfolding from_in_progress
  progress-Way =
      work-Way f.review_required f.hitl_required f.manual_required "implementation finished"
        (free "blocked" "agent" "implementation cannot proceed" ∷ [])

  progress-Reach : Reach tier f "in_progress" "done"
  unfolding transitions_for str_eq
  progress-Reach = along "in_progress" progress-Way

  todo-Reach : Reach tier f "todo" "done"
  unfolding transitions_for from_todo str_eq
  todo-Reach = along "todo" (_, inl refl, progress-Reach)

  first_move : (state : String) → is_terminal state ≡ false → Way (transitions_for tier state f)
  unfolding from_todo from_unknown
  first_move state n =
      by_state Way tier state f (λ e. absurd (cc)) (λ _. (_, inl refl, todo-Reach))
        (λ _. approval-Way f.approved) (λ _. (_, inl refl, here)) (λ _. manual-Way)
        (λ _. review-Way) (λ _. progress-Way) (_, inl refl, progress-Reach)
        (_, inl refl, todo-Reach)

  -- Under any requirements, and with the approval given or not, `done` can be reached from every
  -- state that is not terminal, a state that the code does not know included.
  pub done_reachable : (state : String) → is_terminal state ≡ false → Reach tier f state "done"
  done_reachable state n = along state (first_move state n)

  -- A terminal state is left by no move.
  pub terminal_stays : {s t : String} → Reach tier f s t → is_terminal s ≡ true → s ≡ t
  terminal_stays here e = refl
  terminal_stays {s} (next (move m i q) r) e =
      absurd (subst (In m) ((transitions_for-empty tier s f).1 e) i)
