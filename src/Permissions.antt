-- ===== src/Permissions.antt =====
-- executing/permissions.py, and the lookup of a permission in state_machines/base.py.
-- A configuration is a JSON value. A section that is neither a dict nor empty is refused when the
-- view is made; the code raises when it reads such a section.
pub mod Required
pub mod Lookup
pub mod Gate
mod Examples
use Prim.Native.Char.{Char, code}
use Prim.Native.String
use specseed.Prelude.{
  ℕ, String, Bool, true, false, ◌&&◌, ◌||◌, not, Option, none, some, List, [], ◌∷◌, ◌++◌, any,
  str_eq, ◌==◌, if◌then◌else◌,
}
use specseed.Prelude.Text.{casefold, split_on, starts_with}
use specseed.StateMachine.{contains}
use specseed.Token.{strip_prefix_fold}

mutual
  pub data Json : Type 0 where
    null : Json
    flag : Bool → Json
    num : ℕ → Json
    text : String → Json
    list : Items → Json
    dict : Fields → Json

  pub data Items : Type 0 where
    nil : Items
    item : Json → Items → Items

  pub data Fields : Type 0 where
    end : Fields
    field : String → Json → Fields → Fields

-- bool(v)
unfoldable pub truthy : Json → Bool
unfolding str_eq
truthy null = false
truthy (flag b) = b
truthy (num n) = not (n == 0)
truthy (text s) = not (str_eq s "")
truthy (list nil) = false
truthy (list (item x xs)) = true
truthy (dict end) = false
truthy (dict (field k v fs)) = true

-- dict.get(key)
unfoldable pub get : String → Fields → Json
unfolding str_eq
get key end = null
get key (field k v fs) = if str_eq k key then v else get key fs

abbrev has_key : String → Fields → Bool
has_key key end = false
has_key key (field k v fs) = str_eq k key || has_key key fs

-- bool(dict.get(key, default))
unfoldable pub switch : Bool → String → Fields → Bool
unfolding truthy get str_eq
switch default key fs = if has_key key fs then truthy (get key fs) else default

-- `value or {}`, none where that is no dict
unfoldable pub section : Json → Option Fields
unfolding truthy
section (dict fs) = some fs
section v = if truthy v then none else some end

-- the fields of Permissions
pub record Permissions : Type 0 where
  pub config : Fields
  pub remote_state : Fields
  pub perms : Fields
  pub git : Fields
  pub remote : Fields
  pub platform : Fields
  pub agents : Fields

abbrev all_sections :
    Fields → Fields → Fields → (git remote platform agents : Option Fields) → Option Permissions
all_sections config state perms (some git) (some remote) (some platform) (some agents) =
    some (record {
      config = config;
      remote_state = state;
      perms = perms;
      git = git;
      remote = remote;
      platform = platform;
      agents = agents;
    })
all_sections config state perms _ _ _ _ = none

abbrev with_perms : Fields → Fields → Option Fields → Option Permissions
with_perms config state none = none
with_perms config state (some perms) =
    all_sections config state perms (section (get "git" perms)) (section (get "remote" perms))
      (section (get "platform" perms)) (section (get "agents" perms))

-- `__init__`
unfoldable pub permissions : Fields → Fields → Option Permissions
unfolding section get
permissions config state = with_perms config state (section (get "permissions" config))

unfoldable pub remote_enabled : Permissions → Bool
unfolding truthy get
remote_enabled p = truthy (get "enabled" p.remote_state)

unfoldable pub can_merge_to_primary : Permissions → Bool
unfolding truthy get
can_merge_to_primary p = truthy (get "merge_to_primary" p.git)

unfoldable pub remote_switch : String → Permissions → Bool
unfolding remote_enabled
remote_switch key p = if not (remote_enabled p) then true else truthy (get key p.remote)

abbrev pub can_post_control : Permissions → Bool
can_post_control p = remote_switch "post_control" p

abbrev pub can_push_branches : Permissions → Bool
can_push_branches p = remote_switch "push_branches" p

abbrev pub can_push_primary : Permissions → Bool
can_push_primary p = remote_switch "push_primary" p

abbrev pub auto_assign_agent : Permissions → Bool
auto_assign_agent p = switch true "auto_assign_agent" p.platform

abbrev pub auto_implement_issue : Permissions → Bool
auto_implement_issue p = switch true "auto_implement_issue" p.platform

abbrev pub auto_proceed_to_next_sprint : Permissions → Bool
auto_proceed_to_next_sprint p = switch false "auto_proceed_to_next_sprint_if_available" p.platform

abbrev pub agent_levels : List String
agent_levels = "block" ∷ "surface" ∷ "auto" ∷ "require_human_approval" ∷ []

-- DEFAULT_AGENT_GATES.get(category, "block")
unfoldable pub default_gate : String → String
unfolding str_eq
default_gate category =
    if str_eq category "network"
    then "surface"
    else if str_eq category "secrets"
    then "surface"
    else "block"

abbrev level_or : String → Json → String
level_or other (text level) = if contains level agent_levels then level else other
level_or other _ = other

unfoldable pub agent_gate : String → Permissions → String
unfolding get default_gate str_eq
agent_gate category p = level_or (default_gate category) (get category p.agents)

abbrev is_separator : Char → Bool
is_separator c = code c == 46 || code c == 47

-- the parts of a dotted key
unfoldable pub parts : String → List String
unfolding split_on
parts key = split_on is_separator key

-- down the dicts along the parts; none where one of them is no dict
unfoldable pub walk : List String → Json → Option Json
unfolding get
walk [] v = some v
walk (p ∷ ps) (dict fs) = walk ps (get p fs)
walk (p ∷ ps) v = none

abbrev pub or_look : Option Json → Bool → Bool
or_look (some v) later = truthy v
or_look none later = later

abbrev pub allowed_at : List String → Permissions → Bool
allowed_at [] p = false
allowed_at (k ∷ ks) p =
    or_look (walk (k ∷ ks) (dict p.config)) (or_look (walk (k ∷ ks) (dict p.perms)) false)

unfoldable pub allowed : String → Permissions → Bool
unfolding parts walk truthy
allowed key p = allowed_at (parts key) p

-- the second root of `_permission_allowed`, where it is a dict
abbrev pub look_in : List String → Json → Bool
look_in ks (dict fs) = or_look (walk ks (dict fs)) false
look_in ks v = false

abbrev pub permission_allowed_at : List String → Fields → Bool
permission_allowed_at [] config = false
permission_allowed_at (k ∷ ks) config =
    or_look (walk (k ∷ ks) (dict config)) (look_in (k ∷ ks) (get "permissions" config))

-- `_permission_allowed`
unfoldable pub permission_allowed : Fields → String → Bool
unfolding parts walk truthy get
permission_allowed config key = permission_allowed_at (parts key) config
