-- ===== src/Recovery/Tracker.antt =====
-- executing/recovery.py: the configuration, the delays, and what the tracker is asked and answers.
use Prim.Native.String
use specseed.Prelude.{
  ℕ, zero, suc, ◌+◌, ◌-◌, min, String, Bool, true, false, ◌||◌, not, Option, none, some, List, [],
  ◌∷◌, str_eq, leb, if◌then◌else◌,
}
use specseed.Prelude.Text.{strip, casefold, has_part, decimal}
use specseed.Config.{Config}
use specseed.Payload.{Value, text}
use specseed.Tasks.{truthy}
use specseed.Queue.{Task}

abbrev pub platform_error_action : String
platform_error_action = "handle_platform_error"

abbrev pub platform_error_label : String
platform_error_label = "platform_error"

abbrev pub default_max_retries : ℕ
default_max_retries = 5

abbrev pub engage_after_failures : ℕ
engage_after_failures = 3

-- `recovery_config`: the two keys, with their defaults
unfoldable pub enabled : Config → Bool
enabled config = elim config.recovery_enabled [ none ↦ true | some b ↦ b ]

unfoldable pub max_retries : Config → ℕ
max_retries config = elim config.max_retries [ none ↦ default_max_retries | some n ↦ n ]

-- RETRY_BACKOFF_S[i]
abbrev pub backoff : ℕ → ℕ
backoff zero = 60
backoff (suc zero) = 300
backoff (suc (suc n)) = 900

unfoldable pub retry_delay_s : ℕ → ℕ
retry_delay_s attempts = backoff (min (attempts - 1) 2)

-- seconds until the agent engages: the delays before the attempt number that engages it
abbrev pub delays_before : ℕ → ℕ
delays_before zero = 0
delays_before (suc n) = delays_before n + retry_delay_s (suc n)

unfoldable pub agent_eta_s : ℕ → ℕ
unfolding retry_delay_s
agent_eta_s retries = delays_before (min engage_after_failures (retries + 1) - 1)

abbrev pub error_post_title : Task → String
error_post_title t = String.◌++◌ "Platform error: " (
    String.◌++◌ (if str_eq t.action "" then "task" else t.action) (elim t.post_id [
      | none ↦ ""
      | some p ↦ if str_eq p "" then "" else String.◌++◌ " (post " (String.◌++◌ p ")")
    ]))

unfoldable pub marker_line : ℕ → String
unfolding decimal
marker_line id = String.◌++◌ "<!-- specseed:platform-error task=" (String.◌++◌ (decimal id) " -->")

-- an answer of the tracker
pub data Reply (A : Type 0) : Type 0 where
  raised : Reply A
  failure : Reply A
  ok : A → Reply A

pub record Post : Type 0 where
  pub id : String
  pub body : String
  pub is_open : Value

-- the details of the entries that carry the label, and the entry that `add_entry` makes
pub record Remote : Type 0 where
  pub list_entries : Reply (List (Reply Post))
  pub add_entry : Reply Post

-- what is said in a post or in a comment
pub data Note : Type 0 where
  error_body : Task → String → Option ℕ → ℕ → Note
  gave_up : ℕ → Note
  not_retried : Note
  next_try : ℕ → ℕ → ℕ → Bool → Note
  recovered : ℕ → Note

-- the calls that change the tracker
pub data Call : Type 0 where
  ensure_label : String → Call
  add_entry : String → Note → String → Call
  add_entry_comment : String → Note → Call
  set_entry_closed : String → Call

pub data Found : Type 0 where
  broke : Found
  absent : Found
  there : Post → Found

unfoldable pub find_in : String → List (Reply Post) → Found
find_in marker [] = absent
find_in marker (raised ∷ rest) = broke
find_in marker (failure ∷ rest) = find_in marker rest
find_in marker (ok p ∷ rest) =
    let later = find_in marker rest in if has_part marker p.body then there p else later

abbrev pub found_in : String → Reply (List (Reply Post)) → Found
found_in marker raised = broke
found_in marker failure = absent
found_in marker (ok posts) = find_in marker posts

unfoldable pub find_error_post : Remote → ℕ → Found
unfolding find_in marker_line has_part
find_error_post remote id = found_in (marker_line id) remote.list_entries

-- `_is_open`
unfoldable pub is_open : Value → Bool
unfolding strip casefold str_eq truthy
is_open (text s) =
    let folded = casefold (strip s) in
    not (str_eq folded "0" || str_eq folded "false" || str_eq folded "")
is_open v = truthy v

-- the test of a post that was found
abbrev pub found_closed : Found → Bool
found_closed broke = false
found_closed absent = false
found_closed (there p) = not (is_open p.is_open)

unfoldable pub retry_cancelled : Option Remote → Task → Bool
unfolding find_error_post is_open str_eq
retry_cancelled none t = false
retry_cancelled (some remote) t =
    if leb t.attempts 1
    then false
    else if str_eq t.action platform_error_action
    then false
    else found_closed (find_error_post remote t.task_id)
