-- ===== src/Approval.antt =====
-- state_machines/base.py, the approvals: which users may approve, the commands and the reactions
-- that count, and who approved, rejected or merge-approved an entity.
pub mod Sound
pub mod Requests
mod Examples
use Prim.Native.Char.{Char, code}
use Prim.Native.String
use specseed.Prelude.{
  String, Bool, true, false, ◌&&◌, ◌||◌, not, Option, none, some, List, [], ◌∷◌, ◌++◌, map, keep,
  any, ◌==◌, str_eq, if◌then◌else◌,
}
use specseed.Prelude.Text.{strip, casefold, split_on, is_space, cut_at}
use specseed.Config.{Config, Approvals}
use specseed.Identity.{platform_username, is_platform_comment}
use specseed.Entities.{Entity, Comment, Reaction}
use specseed.Token.{marker, strip_prefix_fold, starts_word, apr_ids_in_text, requested_apr_ids}
use specseed.StateMachine.{dedupe, contains}

unfoldable pub is_separator : Char → Bool
unfolding is_space
is_separator c = is_space c || code c == 44

abbrev ids_of_tail : Option String → List String
ids_of_tail none = []
ids_of_tail (some tail) = if starts_word tail then [] else split_on is_separator (strip tail)

-- `<verb> <id> [<id> …]`: the verb in any case, then no word character, then the ids
unfoldable pub command_ids : (verb : String) → String → List String
unfolding strip strip_prefix_fold starts_word split_on is_separator
command_ids verb body = ids_of_tail (strip_prefix_fold verb (strip body))

unfoldable pub approval_ids_from_body : String → List String
unfolding command_ids
approval_ids_from_body body = command_ids "approve" body

unfoldable pub reject_ids_from_body : String → List String
unfolding command_ids
reject_ids_from_body body = command_ids "reject" body

unfoldable pub merge_ids_from_body : String → List String
unfolding command_ids
merge_ids_from_body body = command_ids "merge" body

unfoldable pub is_named : String → Bool
unfolding strip str_eq
is_named name = not (str_eq (strip name) "")

abbrev from_approvals : (Approvals → List String) → Option Approvals → List String
from_approvals f none = []
from_approvals f (some a) = f a

-- the set is a list here: the code only asks what it contains and whether it is empty
unfoldable pub approver_usernames : Config → List String
unfolding is_named casefold
approver_usernames config = map casefold (
    keep is_named (
      from_approvals (λ a. a.approver_usernames) config.approvals
      ++ (config.approver_usernames ++ config.permission_approvers)))

abbrev one : Option String → List String
one none = []
one (some s) = s ∷ []

unfoldable pub bot_usernames : Config → List String
unfolding platform_username is_named casefold
bot_usernames config =
    map casefold (one (platform_username config))
    ++ map casefold (
        keep is_named (
          config.bot_usernames
          ++ (config.bot_username
              ++ (from_approvals (λ a. a.bot_usernames) config.approvals
                  ++ from_approvals (λ a. a.bot_username) config.approvals))))

abbrev own_setting : Option Approvals → Option Bool
own_setting none = none
own_setting (some a) = a.allow_any_approver

abbrev setting_or : Option Bool → Bool → Bool
setting_or none d = d
setting_or (some b) d = b

-- `_allow_any_approver`
unfoldable pub allow_any_approver : Config → Bool
allow_any_approver config =
    setting_or (own_setting config.approvals) (setting_or config.allow_any_approver true)

abbrev pub is_empty : List String → Bool
is_empty [] = true
is_empty (x ∷ xs) = false

-- `_approver_predicate`
unfoldable pub is_approver : Config → String → Bool
unfolding approver_usernames allow_any_approver bot_usernames casefold is_named
is_approver config author =
    if not (is_empty (approver_usernames config))
    then contains (casefold author) (approver_usernames config)
    else if allow_any_approver config
    then is_named author && not (contains (casefold author) (bot_usernames config))
    else false

abbrev pub not_blank : String → Bool
not_blank s = not (str_eq s "")

unfoldable pub approval_target_ids : Entity → List String
unfolding casefold str_eq
approval_target_ids entity =
    map casefold (keep not_blank (entity.post_id ∷ entity.pending_approval_ids))

-- `_conversation_items`
abbrev pub conversation_items : Entity → Option (List Comment) → List Comment
conversation_items entity none = entity.comments
conversation_items entity (some cs) = cs

abbrev pub given : Option (List Comment) → List Comment
given none = []
given (some cs) = cs

-- the users of the reactions of a kind, empty names left out
unfoldable pub reaction_users : String → List Reaction → List String
unfolding str_eq
reaction_users kind [] = []
reaction_users kind (r ∷ rs) =
    (if str_eq r.kind kind then keep not_blank r.users else []) ++ reaction_users kind rs

unfoldable pub comment_reaction_users : Comment → String → Config → List String
unfolding reaction_users is_approver dedupe
comment_reaction_users comment kind config =
    dedupe (keep (is_approver config) (reaction_users kind comment.reactions))

abbrev has_marker : Option String → Bool
has_marker none = false
has_marker (some body) = elim (cut_at marker body) [ none ↦ false | some _ ↦ true ]

unfoldable pub is_request : Config → Comment → Bool
unfolding platform_username is_platform_comment cut_at
is_request config c =
    has_marker c.body && is_platform_comment c.author c.body (platform_username config)

-- `_request_comment`: the last one that asks
unfoldable pub request_comment : Config → List Comment → Option Comment
unfolding is_request
request_comment config [] = none
request_comment config (c ∷ cs) =
    let later = request_comment config cs in
    elim later [ some d ↦ some d | none ↦ if is_request config c then some c else none ]

abbrev pub gate_users : Entity → String → Config → Option Comment → List String
gate_users entity kind config (some request) = comment_reaction_users request kind config
gate_users entity kind config none =
    dedupe (keep (is_approver config) (reaction_users kind entity.reactions))

-- `_gate_reaction_users`
unfoldable pub gate_reaction_users : Entity → String → Config → Option (List Comment) → List String
unfolding request_comment comment_reaction_users reaction_users is_approver dedupe
gate_reaction_users entity kind config conversation =
    gate_users entity kind config (request_comment config (conversation_items entity conversation))

abbrev pub body_of : Option String → String
body_of none = ""
body_of (some s) = s

-- the tokens that the platform's own comments mention
unfoldable pub mentioned_ids : Config → List Comment → List String
unfolding platform_username is_platform_comment apr_ids_in_text
mentioned_ids config [] = []
mentioned_ids config (c ∷ cs) =
    (if not (str_eq (body_of c.body) "")
        && is_platform_comment c.author c.body (platform_username config)
      then apr_ids_in_text (body_of c.body)
      else [])
    ++ mentioned_ids config cs

-- `_live_gate_targets`
unfoldable pub live_gate_targets : Entity → Config → Option (List Comment) → List String
unfolding approval_target_ids requested_apr_ids mentioned_ids casefold
live_gate_targets entity config conversation =
    approval_target_ids entity
    ++ (map casefold (requested_apr_ids (given conversation))
        ++ map casefold (mentioned_ids config (given conversation)))

abbrev pub meets : List String → List String → Bool
meets targets ids = any (λ id. contains id targets) ids

-- a comment that counts as a command: not the platform's, by an approver, that names a target
unfoldable pub commands : (String → List String) → Config → List String → Comment → Bool
unfolding is_approver platform_username is_platform_comment casefold str_eq
commands parse_ids config targets c =
    let body = body_of c.body in
    let author = body_of c.author in
    not (str_eq body "")
    && not (str_eq author "")
    && is_approver config author
    && not (is_platform_comment c.author c.body (platform_username config))
    && meets targets (map casefold (parse_ids body))

-- `_command_authors`
unfoldable pub command_authors :
    (String → List String) → Entity → Config → Option (List Comment) → List String
unfolding commands live_gate_targets
command_authors parse_ids entity config conversation =
    map (λ c. body_of c.author)
      (keep (commands parse_ids config (live_gate_targets entity config conversation))
        (conversation_items entity conversation))

-- `command_authors_for`: the same against the ids of one gate
unfoldable pub command_authors_for :
    (String → List String) → List Comment → Config → List String → List String
unfolding commands dedupe
command_authors_for parse_ids conversation config target_ids = dedupe (
    map (λ c. body_of c.author)
      (keep (commands parse_ids config (map casefold (keep not_blank target_ids))) conversation))

unfoldable pub signalled :
    (String → List String) → String → Entity → Config → Option (List Comment) → List String
unfolding command_authors gate_reaction_users dedupe
signalled parse_ids kind entity config conversation = dedupe (
    command_authors parse_ids entity config conversation
    ++ gate_reaction_users entity kind config conversation)

unfoldable pub approved_by : Entity → Config → Option (List Comment) → List String
unfolding signalled approval_ids_from_body
approved_by = signalled approval_ids_from_body "thumbs_up"

unfoldable pub rejected_by : Entity → Config → Option (List Comment) → List String
unfolding signalled reject_ids_from_body
rejected_by = signalled reject_ids_from_body "thumbs_down"

unfoldable pub merge_approved_by : Entity → Config → Option (List Comment) → List String
unfolding signalled merge_ids_from_body
merge_approved_by = signalled merge_ids_from_body "heart"
