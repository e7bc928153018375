-- ===== src/Runners/Examples.antt =====
-- executing/quota.py and executing/agent_runner.py on messages, chains and configurations.
use specseed.Prelude.{
  ◌≤◌, ◌≡◌, refl, String, true, false, Option, none, some, [], ◌∷◌, arith, find?, str_eq,
}
use specseed.Prelude.Text.{is_space, lower, lstrip, casefold}
use specseed.Scheduler.{quota_park}
use specseed.Runners.Match.{
  search, literal, spaces, number, digits, word, is_digit, is_word, starts_word, starts_digit,
}
use specseed.Runners.Quota.{
  QuotaInfo, Raises, returned, min_park_s, quota_signal, signal_in, parse_reset, in_re, at_re,
  clock_to_dt, half_of_day,
}
use specseed.Runners.Bounds.{Bounded, quota_signal-quota_park}
use specseed.Runners.{
  AgentRunner, claude_runner, codex_runner, Ran, Chains, RunnerConfig, chain_for,
  build_runner_chains, run,
}
use specseed.Runners.Loop.{attempts, ends, signs, Resumed}
use specseed.Runners.Chain.{Outcome, run-Outcome}
use specseed.Runners.Configured.{BuildOutcome, build_runner_chains-Outcome}

abbrev limit : String
limit = "x 429, resets at 8:27 PM"

abbrev evening : QuotaInfo
evening = record { matched = "429"; park_seconds = 72620; reset_at = some 73620 }

limit_read : quota_signal limit 1000 ≡ returned (some evening)
unfolding quota_signal signal_in parse_reset search in_re at_re clock_to_dt half_of_day literal
    spaces number digits word is_digit is_word starts_word starts_digit is_space lower lstrip
    casefold
limit_read = refl

-- "secs" is no unit of the pattern
secs_unread :
    quota_signal "quota: retry after 30 secs" 1000
    ≡ returned (some (record { matched = "quota"; park_seconds = 900; reset_at = none }))
unfolding quota_signal signal_in parse_reset search in_re at_re clock_to_dt half_of_day literal
    spaces number digits word is_digit is_word starts_word starts_digit is_space lower lstrip
    casefold str_eq
secs_unread = refl

-- a reset that datetime cannot hold
far_raises : quota_signal "rate limit, retry in 99999999999 hours" 1000 ≡ Raises.overflow_error
unfolding quota_signal signal_in parse_reset search in_re at_re clock_to_dt half_of_day literal
    spaces number digits word is_digit is_word starts_word starts_digit is_space lower lstrip
    casefold str_eq
far_raises = refl

quota_signal-quota_park_example :
    Bounded 1000 (some 73620) 72620
    × (min_park_s ≤ (quota_park 2000 (some 73620)).0)
    × ((quota_park 2000 (some 73620)).0 ≤ 72620)
quota_signal-quota_park_example =
    quota_signal-quota_park limit 1000 2000 evening limit_read (omega arith)

abbrev failing : AgentRunner → Option String → Ran
failing (claude_runner _ _) _ = record {
  ok = false;
  killed = false;
  stdout = limit;
  error = none;
  ended_at = 1000;
}
failing (codex_runner _ _ _ _) _ = record {
  ok = true;
  killed = false;
  stdout = "done";
  error = none;
  ended_at = 2000;
}

abbrev chains : Chains
chains =
    ("implementation", claude_runner "opus" none ∷ codex_runner "gpt" "low" "read-only" none ∷ [])
    ∷ []

run-Outcome_example :
    Outcome "review"
      (attempts failing (some "s1") (chain_for "review" chains))
      (signs (attempts failing (some "s1") (chain_for "review" chains)))
      (find? ends (attempts failing (some "s1") (chain_for "review" chains)))
      (run failing "review" (some "s1") chains).0
    × Resumed (some "s1") (run failing "review" (some "s1") chains).1
run-Outcome_example = run-Outcome failing "review" (some "s1") chains

abbrev config : RunnerConfig
config =
    (
      "review",
      some (
          record {
            provider = some "Codex";
            provider_data_dir = none;
            model = none;
            effort = none;
            sandbox = none;
          }
          ∷ []),
    )
    ∷ []

build_runner_chains-Outcome_example : BuildOutcome config (build_runner_chains config)
build_runner_chains-Outcome_example = build_runner_chains-Outcome config
