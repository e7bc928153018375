-- ===== src/Permissions/Examples.antt =====
-- The theorems on permissions at one configuration that withholds merges to the primary branch.
use specseed.Prelude.{String, ◌≡◌, refl, inl, true, false, some, List, [], ◌∷◌, In, str_eq}
use specseed.StateMachine.{
  Transition, Flags, gated, transitions_for, after_work_transitions, is_terminal, from_in_progress,
}
use specseed.StateMachine.Gates.{goes_to}
use specseed.Permissions.{
  flag, dict, Fields, end, field, Permissions, permissions, permission_allowed,
}
use specseed.Permissions.Required.{Attributes, required_permission_keys, is_hitl_required}
use specseed.Permissions.Gate.{withheld-done}

abbrev git : Fields
git = field "merge_to_primary" (flag false) end

abbrev closed : Fields
closed = field "permissions" (dict (field "git" (dict git) end)) end

abbrev view : Permissions
view = record {
  config = closed;
  remote_state = end;
  perms = field "git" (dict git) end;
  git = git;
  remote = end;
  platform = end;
  agents = end;
}

made : permissions closed end ≡ some view
unfolding permissions str_eq
made = refl

abbrev plain : Attributes
plain = record {
  review_required = false;
  manual_testing_required = false;
  approval_required = false;
  required_permissions = [];
}

abbrev labels : List String
labels = "Permission:git.merge_to_primary" ∷ []

abbrev flags : Flags
flags = record {
  approved = false;
  review_required = false;
  manual_required = false;
  hitl_required = true;
}

named : In "git.merge_to_primary" (required_permission_keys plain labels)
unfolding required_permission_keys str_eq
named = inl refl

not_allowed : permission_allowed closed "git.merge_to_primary" ≡ false
unfolding permission_allowed str_eq
not_allowed = refl

hitl : true ≡ is_hitl_required plain labels closed
unfolding is_hitl_required str_eq
hitl = refl

abbrev sign_off : Transition
sign_off = gated "awaiting_approval" "agent" "implementation finished; human sign-off is required"

offered : In sign_off (transitions_for "issue" "in_progress" flags)
unfolding transitions_for from_in_progress after_work_transitions is_terminal str_eq
offered = inl refl

withheld-done_example : goes_to "done" sign_off ≡ false
withheld-done_example =
    withheld-done plain labels closed "git.merge_to_primary" "issue" flags sign_off named
      not_allowed hitl offered
