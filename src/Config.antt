-- ===== src/Config.antt =====
-- The keys of configuration.json that the modelled code reads, as configure.py writes them: an
-- absent key is `none` or an empty list. Where the code takes one name or a list of names, this
-- is the list.
use specseed.Prelude.{String, Bool, Option, List, ℕ}

pub record Approvals : Type 0 where
  pub approver_usernames : List String
  pub bot_usernames : List String
  pub bot_username : List String
  pub allow_any_approver : Option Bool

pub record Config : Type 0 where
  pub platform_username : Option String
  -- config["approvals"], where it is a dict
  pub approvals : Option Approvals
  -- config["approver_usernames"]
  pub approver_usernames : List String
  -- config["permissions"]["approvals"]["approver_usernames"]
  pub permission_approvers : List String
  pub bot_usernames : List String
  pub bot_username : List String
  pub allow_any_approver : Option Bool
  -- config["recovery"]
  pub recovery_enabled : Option Bool
  pub max_retries : Option ℕ
