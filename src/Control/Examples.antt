-- ===== src/Control/Examples.antt =====
-- The theorems on the CONTROL post at one thread.
use specseed.Prelude.{String, ℕ, ◌≡◌, ◌<◌, ◌↔◌, refl, inl, none, some, List, [], ◌∷◌, In, str_eq}
use specseed.Config.{Config}
use specseed.Control.{Comment, ControlCommand, poll}
use specseed.Control.Poll.{poll-poll}
use specseed.Control.Order.{Ascending, by_comment}
use specseed.Control.Obeyed.{Obeyed, told, Later, poll_lem}

abbrev team : Config
team = record {
  platform_username = none;
  approvals = none;
  approver_usernames = "Ann" ∷ [];
  permission_approvers = [];
  bot_usernames = [];
  bot_username = [];
  allow_any_approver = none;
  recovery_enabled = none;
  max_retries = none;
}

abbrev says : ℕ → String → String → Comment
says id author body = record { id = id; author = some author; body = some body }

abbrev pausing : List Comment
pausing = says 4 "ann" " PAUSE now" ∷ says 2 "eve" "stop" ∷ []

abbrev pause_command : ControlCommand
pause_command = record { verb = "pause"; author = some "ann"; comment_id = 4 }

abbrev start_command : ControlCommand
start_command = record { verb = "start"; author = some "ann"; comment_id = 5 }

first_poll : poll team none (some pausing) none ≡ (pause_command ∷ [], some 4)
unfolding poll str_eq
first_poll = refl

pause_given : In pause_command (poll team none (some pausing) none).0
unfolding poll str_eq
pause_given = inl refl

start_given :
    In start_command
      (poll team none
        (some (says 5 "ann" "start" ∷ pausing))
        (poll team none (some pausing) none).1).0
unfolding poll str_eq
start_given = inl refl

poll-poll_example : 4 < 5
poll-poll_example =
    poll-poll team team none none (some pausing) (some (says 5 "ann" "start" ∷ pausing)) none
      pause_command start_command pause_given start_given

poll_example :
    Ascending by_comment (poll team none (some pausing) (some 3)).0
    × ((k : ControlCommand)
        → In k (poll team none (some pausing) (some 3)).0 ↔ (
            (x : Comment) × In x pausing × Obeyed team none x × Later (some 3) x.id × (k ≡ told x)))
poll_example = poll_lem team none pausing (some 3)
