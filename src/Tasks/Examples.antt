-- ===== src/Tasks/Examples.antt =====
-- Tests of the resource keys.
use specseed.Prelude.{◌≡◌, refl, true, some, [], ◌∷◌, str_eq}
use specseed.Payload.{text}
use specseed.Tasks.{resource_key, key_eq}

-- adding and removing one label are about the same resource
label_pair :
    key_eq
      (resource_key "handle_label_added" (some "7") (("label", text "bug") ∷ []))
      (resource_key "handle_label_removed" (some "7") (("label", text "bug") ∷ []))
    ≡ true
unfolding resource_key key_eq str_eq
label_pair = refl
