-- ===== src/Approval/Sound.antt =====
-- About whose reactions and comments count for a gate.
use specseed.Prelude.{
  String, ◌≡◌, ◌⊎◌, inl, inr, Bool, true, false, ◌&&◌, not, Option, none, some, List, [], ◌∷◌,
  arith, All, All-append, keep, map, Bool-cases, if◌then◌else◌, str_eq,
}
use specseed.Prelude.Text.{casefold}
use specseed.Config.{Config}
use specseed.Identity.{is_platform_comment, platform_username}
use specseed.Entities.{Entity, Comment}
use specseed.StateMachine.{contains}
use specseed.StateMachine.Dedupe.{All-dedupe}
use specseed.Approval.{
  is_approver, approval_ids_from_body, reject_ids_from_body, merge_ids_from_body, meets, commands,
  command_authors, gate_reaction_users, comment_reaction_users, reaction_users, request_comment,
  signalled, approved_by, rejected_by, merge_approved_by, conversation_items, live_gate_targets,
  body_of, gate_users, is_empty, is_named, approver_usernames, allow_any_approver, bot_usernames,
}

abbrev pub Allowed : Config → String → Type 0
Allowed config user = is_approver config user ≡ true

kept : (p : String → Bool) (xs : List String) → All (λ x. p x ≡ true) (keep p xs)
kept p [] = tt
kept p (x ∷ xs) = elim (Bool-cases (p x)) [ inl e ↦ rw e (e, kept p xs) | inr e ↦ rw e (kept p xs) ]

counts_allowed :
    (parse_ids : String → List String) (config : Config) (targets : List String) (c : Comment)
    → commands parse_ids config targets c ≡ true
    → (is_approver config (body_of c.author) ≡ true)
      × (is_platform_comment c.author c.body (platform_username config) ≡ false)
counts_allowed parse_ids config targets c h =
    conjuncts (not (str_eq (body_of c.body) "")) (not (str_eq (body_of c.author) ""))
      (is_approver config (body_of c.author))
      (is_platform_comment c.author c.body (platform_username config))
      (meets targets (map casefold (parse_ids (body_of c.body)))) (unfold commands in h)
  where
    conjuncts : (a b d e f : Bool) → (a && b && d && not e && f) ≡ true → (d ≡ true) × (e ≡ false)
    conjuncts a b d e f h = ground arith

-- the authors of the comments that count are approvers
authors-Allowed :
    (parse_ids : String → List String) (config : Config) (targets : List String) (cs : List Comment)
    → All
        (Allowed config)
        (map (λ c. body_of c.author) (keep (commands parse_ids config targets) cs))
authors-Allowed parse_ids config targets [] = tt
authors-Allowed parse_ids config targets (c ∷ cs) =
    elim (Bool-cases (commands parse_ids config targets c)) [
      | inl e ↦ rw e (
        (counts_allowed parse_ids config targets c e).0,
        authors-Allowed parse_ids config targets cs,
      )
      | inr e ↦ rw e (authors-Allowed parse_ids config targets cs)
    ]

gate_users-Allowed :
    (entity : Entity) (kind : String) (config : Config) (o : Option Comment)
    → All (Allowed config) (gate_users entity kind config o)
unfolding comment_reaction_users
gate_users-Allowed entity kind config none =
    All-dedupe (Allowed config) _ (kept (is_approver config) (reaction_users kind entity.reactions))
gate_users-Allowed entity kind config (some c) =
    All-dedupe (Allowed config) _ (kept (is_approver config) (reaction_users kind c.reactions))

signalled-Allowed :
    (parse_ids : String → List String) (kind : String) (entity : Entity) (config : Config)
    (conversation : Option (List Comment))
    → All (Allowed config) (signalled parse_ids kind entity config conversation)
unfolding signalled command_authors gate_reaction_users
signalled-Allowed parse_ids kind entity config conversation =
    let targets = live_gate_targets entity config conversation in
    let cs = conversation_items entity conversation in
    All-dedupe (Allowed config) _ (
      All-append (Allowed config)
        (map (λ c. body_of c.author) (keep (commands parse_ids config targets) cs)) _
        (authors-Allowed parse_ids config targets cs)
        (gate_users-Allowed entity kind config (request_comment config cs)))

-- Everyone in the lists of those who approved, rejected or merge-approved an entity may approve
-- under the configuration.
pub approvals-Allowed :
    (entity : Entity) (config : Config) (conversation : Option (List Comment))
    → All (Allowed config) (approved_by entity config conversation)
      × All (Allowed config) (rejected_by entity config conversation)
      × All (Allowed config) (merge_approved_by entity config conversation)
unfolding approved_by rejected_by merge_approved_by
approvals-Allowed entity config conversation = (
  signalled-Allowed approval_ids_from_body "thumbs_up" entity config conversation,
  signalled-Allowed reject_ids_from_body "thumbs_down" entity config conversation,
  signalled-Allowed merge_ids_from_body "heart" entity config conversation,
)

-- Where approvers are configured, only they approve. Where none is and any approver is allowed,
-- the configured bot names do not, in any case, and neither does a blank name. Where none is and
-- that is switched off, nobody does.
pub is_approver_lem :
    (config : Config) (author : String)
    → is_approver config author ≡ true
    → (contains (casefold author) (approver_usernames config) ≡ true)
      ⊎ ((approver_usernames config ≡ [])
          × (allow_any_approver config ≡ true)
          × (is_named author ≡ true)
          × (contains (casefold author) (bot_usernames config) ≡ false))
is_approver_lem config author h =
    split (approver_usernames config) (allow_any_approver config) (is_named author)
      (contains (casefold author) (bot_usernames config)) (unfold is_approver in h)
  where
    split :
        (allowed : List String) (any named bot : Bool)
        → (if not (is_empty allowed)
            then contains (casefold author) allowed
            else if any
            then named && not bot
            else false)
          ≡ true
        → (contains (casefold author) allowed ≡ true)
          ⊎ ((allowed ≡ []) × (any ≡ true) × (named ≡ true) × (bot ≡ false))
    split [] any named bot e = inr (ground arith)
    split (x ∷ xs) any named bot e = inl e
