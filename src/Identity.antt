-- ===== src/Identity.antt =====
-- platform_identity.py: who the platform is on the tracker, and which comments are its own.
pub mod Loop
mod Examples
use Prim.Native.String
use specseed.Prelude.{
  String, Bool, true, false, ◌&&◌, ◌||◌, not, Option, none, some, List, [], ◌∷◌, str_eq,
  if◌then◌else◌,
}
use specseed.Prelude.Text.{strip, lstrip, starts_with}
use specseed.Config.{Config, Approvals}

abbrev pub comment_prefix : String
comment_prefix = "specseed: "

-- a name that is stripped, and None where that leaves nothing
unfoldable pub filled : String → Option String
unfolding strip str_eq
filled name = let s = strip name in if str_eq s "" then none else some s

unfoldable pub platform_username : Config → Option String
unfolding filled
platform_username config = elim config.platform_username [ none ↦ none | some name ↦ filled name ]

abbrev approvers_of : Option Approvals → List String
approvers_of none = []
approvers_of (some a) = a.approver_usernames

abbrev first_name : List String → String
first_name [] = "user"
first_name (name ∷ names) = strip name

unfoldable pub human_username : Config → String
unfolding strip
human_username config = first_name (approvers_of config.approvals)

unfoldable pub agent_assignee : Config → String
unfolding platform_username human_username
agent_assignee config = elim (platform_username config) [
  | none ↦ human_username config
  | some bot ↦ bot
]

unfoldable pub needs_comment_prefix : Config → Bool
unfolding platform_username human_username str_eq
needs_comment_prefix config = elim (platform_username config) [
  | none ↦ true
  | some bot ↦ str_eq bot (human_username config)
]

-- `platform_comment` with a configuration
unfoldable pub platform_comment : String → Config → String
unfolding needs_comment_prefix starts_with
platform_comment body config =
    if not (needs_comment_prefix config)
    then body
    else if starts_with comment_prefix body
    then body
    else String.◌++◌ comment_prefix body

-- the author test: both names are there and not empty, and equal without the space around them
unfoldable pub by_platform : (author username : Option String) → Bool
unfolding strip str_eq
by_platform (some author) (some username) =
    not (str_eq username "") && not (str_eq author "") && str_eq (strip author) (strip username)
by_platform _ _ = false

abbrev prefixed : Option String → Bool
prefixed none = false
prefixed (some body) = starts_with comment_prefix (lstrip body)

unfoldable pub is_platform_comment : (author body username : Option String) → Bool
unfolding by_platform starts_with lstrip
is_platform_comment author body username = by_platform author username || prefixed body
