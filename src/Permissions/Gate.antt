-- ===== src/Permissions/Gate.antt =====
-- About the work that a withheld permission gates (state_machines/base.py).
use specseed.Prelude.{
  String, ◌≡◌, refl, ◌∙◌, inl, inr, Bool, true, false, not, List, [], ◌∷◌, In, All, All-In, subst,
  any, arith, str_eq,
}
use specseed.StateMachine.{
  Transition, Flags, transitions_for, from_in_progress, after_work_transitions, is_terminal,
}
use specseed.StateMachine.Gates.{goes_to}
use specseed.Permissions.{Fields, permission_allowed}
use specseed.Permissions.Required.{
  Attributes, required_permission_keys, permission_gate_required, is_hitl_required,
}

any_of :
    (p : String → Bool) (x : String) (xs : List String) → In x xs → p x ≡ true → any p xs ≡ true
any_of p x [] m e = elim m [ ]
any_of p x (y ∷ ys) (inl q) e = rw (← q, e) refl
any_of p x (y ∷ ys) (inr m) e = ground (arith, any_of p x ys m e)

withheld :
    (a : Attributes) (labels : List String) (config : Fields) (key : String)
    → In key (required_permission_keys a labels)
    → permission_allowed config key ≡ false
    → is_hitl_required a labels config ≡ true
unfolding is_hitl_required permission_gate_required
withheld a labels config key m e = ground (
  arith,
  any_of (λ k. not (permission_allowed config k)) key (required_permission_keys a labels) m
      (rw e refl),
)

progress_open :
    (f : Flags) → f.hitl_required ≡ true → All (λ t. goes_to "done" t ≡ false) (from_in_progress f)
unfolding from_in_progress after_work_transitions str_eq
progress_open f h = ground (arith, h)

progress_moves :
    (tier : String) (f : Flags) → transitions_for tier "in_progress" f ≡ from_in_progress f
unfolding transitions_for is_terminal str_eq
progress_moves tier f = refl

-- While a work item that names a permission that the configuration withholds is in progress, no
-- move to `done` is offered: it goes through review, testing or an approval.
pub withheld-done :
    (a : Attributes) (labels : List String) (config : Fields) (key tier : String) (f : Flags)
    (t : Transition)
    → In key (required_permission_keys a labels)
    → permission_allowed config key ≡ false
    → f.hitl_required ≡ is_hitl_required a labels config
    → In t (transitions_for tier "in_progress" f)
    → goes_to "done" t ≡ false
withheld-done a labels config key tier f t m e h n =
    All-In (λ t. goes_to "done" t ≡ false) t (from_in_progress f)
      (progress_open f (h ∙ withheld a labels config key m e))
      (subst (In t) (progress_moves tier f) n)
