-- ===== src/Control.antt =====
-- executing/control.py: the operator's commands on the CONTROL post. Ids of comments are numbers, as
-- the trackers give them. The post is what `find_control_entry` answers, none where there is none.
pub mod Poll
pub mod Words
pub mod Order
pub mod Obeyed
mod Examples
use Prim.Native.String
use specseed.Prelude.{
  ℕ, String, Bool, true, false, ◌&&◌, ◌||◌, not, Option, none, some, List, [], ◌∷◌, str_eq, ltb,
  leb, keep, map, if◌then◌else◌,
}
use specseed.Prelude.Text.{strip, casefold, is_space}
use specseed.Config.{Config}
use specseed.StateMachine.{contains}
use specseed.Approval.{approver_usernames}

pub record Comment : Type 0 where
  pub id : ℕ
  pub author : Option String
  pub body : Option String

pub record ControlCommand : Type 0 where
  pub verb : String
  pub author : Option String
  pub comment_id : ℕ

abbrev pub verbs : List String
verbs = "status" ∷ "start" ∷ "pause" ∷ "stop" ∷ []

-- `s.split()[0]` of a text that does not begin with space
unfoldable pub first_word : String → String
unfolding is_space
first_word String.[] = ""
first_word (String.◌∷◌ c s) =
    let rest = first_word s in if is_space c then "" else String.◌∷◌ c rest

-- `_first_token`: the empty text where there is none, which is no verb
unfoldable pub first_token : Option String → String
unfolding first_word strip casefold
first_token none = ""
first_token (some body) = casefold (first_word (strip body))

abbrev pub folded_in : Option String → List String → Bool
folded_in none names = false
folded_in (some a) names = contains (casefold a) names

abbrev pub is_bot : Option String → Option String → Bool
is_bot (some bot) (some a) = str_eq (casefold a) (casefold bot)
is_bot _ _ = false

-- the tests that a comment passes to be a command
unfoldable pub is_command : List String → Option String → Comment → Bool
unfolding first_token casefold str_eq
is_command allowed bot c =
    not (is_bot bot c.author) && contains (first_token c.body) verbs && folded_in c.author allowed

-- `comments.sort(key=_key)`, which is stable
unfoldable pub insert : Comment → List Comment → List Comment
insert c [] = c ∷ []
insert c (d ∷ ds) = let rest = insert c ds in if leb c.id d.id then c ∷ d ∷ ds else d ∷ rest

unfoldable pub sort : List Comment → List Comment
unfolding insert
sort [] = []
sort (c ∷ cs) = insert c (sort cs)

abbrev pub command_of : Comment → ControlCommand
command_of c = record { verb = first_token c.body; author = c.author; comment_id = c.id }

unfoldable pub commands_in : List String → Option String → List Comment → List ControlCommand
unfolding is_command
commands_in allowed bot [] = []
commands_in allowed bot (c ∷ cs) =
    let rest = commands_in allowed bot cs in
    if is_command allowed bot c then command_of c ∷ rest else rest

-- `parse_control_commands` with the names of those who may
unfoldable pub parse_control_commands :
    List String → Option String → List Comment → List ControlCommand
unfolding commands_in sort casefold
parse_control_commands allowed bot comments = commands_in (map casefold allowed) bot (sort comments)

-- the channel's state: the highest id that it has seen
abbrev pub after_cursor : Option ℕ → ControlCommand → Bool
after_cursor none c = true
after_cursor (some k) c = ltb k c.comment_id

-- the second loop of `poll`
unfoldable pub advance : Option ℕ → List ControlCommand → Option ℕ
advance cursor [] = cursor
advance cursor (c ∷ cs) = advance (if after_cursor cursor c then some c.comment_id else cursor) cs

abbrev pub poll_from : Option ℕ → List ControlCommand → List ControlCommand × Option ℕ
poll_from cursor commands = (keep (after_cursor cursor) commands, advance cursor commands)

-- `ControlChannel.poll`: the new commands and the cursor
unfoldable pub poll :
    Config → Option String → Option (List Comment) → Option ℕ → List ControlCommand × Option ℕ
unfolding parse_control_commands advance approver_usernames
poll config bot none cursor = ([], cursor)
poll config bot (some comments) cursor =
    poll_from cursor (parse_control_commands (approver_usernames config) bot comments)
