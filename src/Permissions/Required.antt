-- ===== src/Permissions/Required.antt =====
-- state_machines/base.py: the gates that labels, attributes and the configuration require.
use specseed.Prelude.{
  String, Bool, false, ◌||◌, not, none, some, List, [], ◌∷◌, ◌++◌, any, str_eq, if◌then◌else◌,
}
use specseed.Prelude.Text.{casefold, starts_with}
use specseed.StateMachine.{contains}
use specseed.Token.{strip_prefix_fold}
use specseed.Permissions.{Json, dict, Fields, truthy, get, permission_allowed}

-- `_has_label`, with the wanted labels in lower case
unfoldable pub has_label : List String → List String → Bool
unfolding casefold str_eq
has_label wanted labels = any (λ l. contains (casefold l) wanted) labels

unfoldable pub has_label_prefix : List String → List String → Bool
unfolding casefold starts_with
has_label_prefix prefixes labels = any (λ l. any (λ p. starts_with p (casefold l)) prefixes) labels

abbrev pub key_after : String → String → List String
key_after prefix label = elim (strip_prefix_fold prefix label) [ none ↦ [] | some key ↦ key ∷ [] ]

-- the keys that labels name
unfoldable pub label_keys : List String → List String
unfolding strip_prefix_fold
label_keys [] = []
label_keys (l ∷ ls) =
    key_after "permission:" l
    ++ (key_after "requires-permission:" l ++ (key_after "requires_permission:" l ++ label_keys ls))

-- the attributes that an entity may carry besides its fields
pub record Attributes : Type 0 where
  pub review_required : Bool
  pub manual_testing_required : Bool
  pub approval_required : Bool
  pub required_permissions : List String

unfoldable pub required_permission_keys : Attributes → List String → List String
unfolding label_keys
required_permission_keys a labels = a.required_permissions ++ label_keys labels

unfoldable pub permission_gate_required : Attributes → List String → Fields → Bool
unfolding required_permission_keys permission_allowed
permission_gate_required a labels config =
    any (λ key. not (permission_allowed config key)) (required_permission_keys a labels)

abbrev dict_switch : String → Json → Bool
dict_switch key (dict fs) = truthy (get key fs)
dict_switch key v = false

unfoldable pub is_review_required : Attributes → List String → Fields → Bool
unfolding has_label truthy get
is_review_required a labels config =
    a.review_required
    || has_label ("review_required" ∷ "review-required" ∷ []) labels
    || dict_switch "enabled" (get "review" config)

unfoldable pub is_manual_testing_required : Attributes → List String → Fields → Bool
unfolding has_label truthy get
is_manual_testing_required a labels config =
    a.manual_testing_required
    || has_label ("manual-testing-required" ∷ "manual_test_required" ∷ "qa-required" ∷ []) labels
    || dict_switch "enabled"
        (if truthy (get "qa" config) then get "qa" config else get "manual_testing" config)

unfoldable pub is_hitl_required : Attributes → List String → Fields → Bool
unfolding has_label has_label_prefix permission_gate_required truthy get
is_hitl_required a labels config =
    a.approval_required
    || has_label ("approval-required" ∷ "hitl-required" ∷ []) labels
    || has_label_prefix ("hitl:" ∷ "gate:" ∷ []) labels
    || permission_gate_required a labels config
    || dict_switch "required" (get "hitl" config)
