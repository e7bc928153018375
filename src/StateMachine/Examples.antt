-- ===== src/StateMachine/Examples.antt =====
-- Tests of the state machine, and its theorems at some states.
use specseed.Prelude.{String, ◌≡◌, refl, inl, true, false, List, [], ◌∷◌, In, str_eq}
use specseed.StateMachine.{
  Transition, Flags, free, transitions_for, is_terminal, dedupe, from_in_progress,
  after_work_transitions,
}
use specseed.StateMachine.Gates.{transitions_for-done, DoneAllowed, goes_to}
use specseed.StateMachine.Reach.{Reach, done_reachable}

abbrev no_gates : Flags
no_gates = record {
  approved = false;
  review_required = false;
  manual_required = false;
  hitl_required = false;
}

abbrev all_gates : Flags
all_gates = record {
  approved = false;
  review_required = true;
  manual_required = true;
  hitl_required = true;
}

abbrev finish : Transition
finish = free "done" "agent" "implementation finished; no gates remain"

progress_offers_done : In finish (transitions_for "issue" "in_progress" no_gates)
unfolding transitions_for from_in_progress after_work_transitions is_terminal str_eq
progress_offers_done = inl refl

finish_goes : goes_to "done" finish ≡ true
unfolding str_eq
finish_goes = refl

transitions_for-done_example : DoneAllowed "in_progress" no_gates finish
transitions_for-done_example =
    transitions_for-done "issue" "in_progress" no_gates finish progress_offers_done finish_goes

review_open : is_terminal "in_review" ≡ false
unfolding is_terminal str_eq
review_open = refl

done_reachable_example : Reach "ticket" all_gates "in_review" "done"
done_reachable_example = done_reachable "ticket" all_gates "in_review" review_open

done_closed : is_terminal "done" ≡ true
unfolding is_terminal str_eq
done_closed = refl

abbrev names : List String
names = "todo" ∷ "done" ∷ "todo" ∷ []

dedupe-names : dedupe names ≡ "todo" ∷ "done" ∷ []
unfolding dedupe str_eq
dedupe-names = refl
