-- ===== src/StateMachine/Gates.antt =====
-- Which moves the state machine offers, and which gates stand before `done`.
use specseed.Prelude.{
  String, ◌≡◌, ◌↔◌, ◌⊎◌, refl, inl, inr, Bool, true, false, List, [], arith, In, All, All-In,
  str_eq, if◌then◌else◌,
}
use specseed.StateMachine.{
  Transition, Flags, is_terminal, after_work_transitions, from_awaiting_manual_test,
  from_in_progress, from_todo, from_unknown, from_blocked, from_awaiting_approval,
  from_awaiting_merge, from_in_review, transitions_for,
}

-- Exactly the terminal states offer no move: every other state, known or not, offers one.
pub transitions_for-empty :
    (tier state : String) (f : Flags)
    → (transitions_for tier state f ≡ []) ↔ (is_terminal state ≡ true)
unfolding transitions_for from_awaiting_manual_test from_in_progress from_todo from_unknown
    after_work_transitions
transitions_for-empty tier state f = ground arith

abbrev pub goes_to : String → Transition → Bool
goes_to target t = str_eq t.to_state target

-- what a move to `done` needs, for each state that offers one
abbrev pub DoneAllowed : String → Flags → Transition → Type 0
DoneAllowed state f t =
    (t.requires_approval ≡ true)
    ⊎ ((str_eq state "awaiting_approval" ≡ true) × (f.approved ≡ true) × (t.actor ≡ "human"))
    ⊎ ((str_eq state "in_review" ≡ true) × (t.actor ≡ "reviewer"))
    ⊎ ((str_eq state "in_progress" ≡ true)
        × (f.manual_required ≡ false)
        × (f.review_required ≡ false)
        × (f.hitl_required ≡ false))
    ⊎ ((str_eq state "awaiting_manual_test" ≡ true)
        × (f.review_required ≡ false)
        × (f.hitl_required ≡ false))

branch :
    (P : List Transition → Type 0) (b : Bool) (xs ys : List Transition)
    → (b ≡ true → P xs)
    → P ys
    → P (if b then xs else ys)
branch P true xs ys h k = h refl
branch P false xs ys h k = k

-- A predicate on the moves holds if it holds in each branch of the source.
pub by_state :
    (P : List Transition → Type 0) (tier state : String) (f : Flags)
    → (is_terminal state ≡ true → P [])
    → (str_eq state "blocked" ≡ true → P from_blocked)
    → (str_eq state "awaiting_approval" ≡ true → P (from_awaiting_approval f.approved))
    → (str_eq state "awaiting_merge" ≡ true → P from_awaiting_merge)
    → (str_eq state "awaiting_manual_test" ≡ true → P (from_awaiting_manual_test f))
    → (str_eq state "in_review" ≡ true → P from_in_review)
    → (str_eq state "in_progress" ≡ true → P (from_in_progress f))
    → P (from_todo tier f)
    → P (from_unknown state)
    → P (transitions_for tier state f)
unfolding transitions_for
by_state P tier state f terminal blocked approval merge manual review progress todo unknown =
    branch P (is_terminal state) [] _ terminal (
      branch P (str_eq state "blocked") _ _ blocked (
        branch P (str_eq state "awaiting_approval") _ _ approval (
          branch P (str_eq state "awaiting_merge") _ _ merge (
            branch P (str_eq state "awaiting_manual_test") _ _ manual (
              branch P (str_eq state "in_review") _ _ review (
                branch P (str_eq state "in_progress") _ _ progress
                  (branch P (str_eq state "todo") _ _ (λ _. todo) unknown)))))))

approval-done :
    (f : Flags) (state : String)
    → str_eq state "awaiting_approval" ≡ true
    → All (λ t. goes_to "done" t ≡ true → DoneAllowed state f t) (from_awaiting_approval f.approved)
unfolding str_eq
approval-done f state e = ground arith

manual-done :
    (f : Flags) (state : String)
    → str_eq state "awaiting_manual_test" ≡ true
    → All (λ t. goes_to "done" t ≡ true → DoneAllowed state f t) (from_awaiting_manual_test f)
unfolding from_awaiting_manual_test after_work_transitions str_eq
manual-done f state e = ground arith

progress-done :
    (f : Flags) (state : String)
    → str_eq state "in_progress" ≡ true
    → All (λ t. goes_to "done" t ≡ true → DoneAllowed state f t) (from_in_progress f)
unfolding from_in_progress after_work_transitions str_eq
progress-done f state e = ground arith

todo-done :
    (f : Flags) (tier state : String)
    → All (λ t. goes_to "done" t ≡ true → DoneAllowed state f t) (from_todo tier f)
unfolding from_todo str_eq
todo-done f tier state = ground arith

All-done :
    (tier state : String) (f : Flags)
    → All (λ t. goes_to "done" t ≡ true → DoneAllowed state f t) (transitions_for tier state f)
unfolding from_unknown str_eq
All-done tier state f =
    by_state (All (λ t. goes_to "done" t ≡ true → DoneAllowed state f t)) tier state f (λ _. tt)
      (λ _. (λ h. absurd (cc), (λ h. absurd (cc), tt))) (approval-done f state)
      (λ _. (λ _. inl refl, (λ h. absurd (cc), (λ h. absurd (cc), tt)))) (manual-done f state)
      (λ e. (
        λ h. absurd (cc),
        (λ h. absurd (cc), (λ _. inr (inr (inl (unfold str_eq in e, refl))), tt)),
      ))
      (progress-done f state) (todo-done f tier state) (λ h. absurd (cc), (λ h. absurd (cc), tt))

-- A move to `done` is only offered where one of these holds: it needs an approval; the approval
-- gate was approved, and a human moves; a reviewer moves it out of review; work finished and no
-- gate (manual test, review, sign-off) is required; or manual testing passed and neither review
-- nor sign-off is required.
pub transitions_for-done :
    (tier state : String) (f : Flags) (t : Transition)
    → In t (transitions_for tier state f)
    → goes_to "done" t ≡ true
    → DoneAllowed state f t
transitions_for-done tier state f t m e =
    All-In (λ t. goes_to "done" t ≡ true → DoneAllowed state f t) t (transitions_for tier state f)
      (All-done tier state f) m e
