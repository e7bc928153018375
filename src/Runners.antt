-- ===== src/Runners.antt =====
-- executing/agent_runner.py: the runners of the agents' command lines, and the chains of them that
-- stand in for one another. What a command does is an argument (`Invoke`): its exit, its output and
-- the time when it is over. Session ids, reports and the live feed of the output are not modelled.
mod Specs
pub mod Match
pub mod Quota
pub mod Bounds
pub mod Loop
pub mod Limits
pub mod Chain
pub mod Configured
mod Examples
unfoldable pub use Specs.*
use specseed.Prelude.{
  ℕ, String, Bool, true, false, ◌&&◌, ◌||◌, not, Option, none, some, List, [], ◌∷◌, ◌++◌, str_eq,
  leb, ltb, if◌then◌else◌,
}
use specseed.Prelude.Text.{cat, casefold}
use specseed.Runners.Quota.{QuotaInfo, Raises, returned, overflow_error, quota_signal}

-- what a command did, and when it was over
pub record Ran : Type 0 where
  pub ok : Bool
  pub killed : Bool
  pub stdout : String
  pub error : Option String
  pub ended_at : ℕ

abbrev pub Invoke : Type 0
Invoke = AgentRunner → (resume_id : Option String) → Ran

-- class AgentResult
pub record AgentResult : Type 0 where
  pub ok : Bool
  pub killed : Bool
  pub stdout : String
  pub error : Option String
  pub quota_exhausted : Bool
  pub quota_reset_hint : Option ℕ

abbrev pub result_of : Ran → AgentResult
result_of ran = record {
  ok = ran.ok;
  killed = ran.killed;
  stdout = ran.stdout;
  error = ran.error;
  quota_exhausted = false;
  quota_reset_hint = none;
}

unfoldable pub sniff : Ran → Raises (Option QuotaInfo)
unfolding quota_signal cat
sniff ran = quota_signal (cat (or_default "" ran.error ∷ "\n" ∷ ran.stdout ∷ [])) ran.ended_at

-- the signs, if all of them are there
abbrev pub all_signs : List (Option QuotaInfo) → Option (List QuotaInfo)
all_signs [] = some []
all_signs (none ∷ hits) = none
all_signs (some q ∷ hits) = elim (all_signs hits) [ none ↦ none | some qs ↦ some (q ∷ qs) ]

-- max(…, key=park_seconds): the first of the greatest
unfoldable pub longest : QuotaInfo → List QuotaInfo → QuotaInfo
longest q [] = q
longest q (p ∷ ps) = longest (if ltb q.park_seconds p.park_seconds then p else q) ps

abbrev pub blocked : AgentResult → Option (List QuotaInfo) → AgentResult
blocked last none = last
blocked last (some []) = last
blocked last (some (q ∷ qs)) = record last {
  quota_exhausted = true;
  quota_reset_hint = (longest q qs).reset_at;
}

-- what is left to say once the chain is through
unfoldable pub exhausted :
    (function : String) → Option AgentResult → List (Option QuotaInfo) → AgentResult
unfolding longest cat
exhausted function none hits = record {
  ok = false;
  killed = false;
  stdout = "";
  error = some (cat ("no runner configured for '" ∷ function ∷ "'" ∷ []));
  quota_exhausted = false;
  quota_reset_hint = none;
}
exhausted function (some last) hits = blocked last (all_signs hits)

abbrev pub Call : Type 0
Call = AgentRunner × Option String

abbrev pub called :
    AgentRunner → Option String → Raises AgentResult × List Call → Raises AgentResult × List Call
called r resume_id (outcome, calls) = (outcome, (r, resume_id) ∷ calls)

-- the loop of `run`, with the calls that it makes; only the first runner is resumed
unfoldable pub run_from :
    Invoke
    → (function : String) (resume_id : Option String) → List AgentRunner
    → (last : Option AgentResult) (hits : List (Option QuotaInfo)) → Raises AgentResult × List Call
unfolding sniff exhausted
run_from invoke function resume_id [] last hits = (returned (exhausted function last hits), [])
run_from invoke function resume_id (r ∷ rs) last hits =
    let ran = invoke r resume_id in
    called r resume_id (elim (ran.killed || ran.ok) [
      | true ↦ (returned (result_of ran), [])
      | false ↦ elim (sniff ran) [
        | overflow_error ↦ (overflow_error, [])
        | returned sig ↦ run_from invoke function none rs (some (result_of ran)) (hits ++ sig ∷ [])
      ]
    ])

-- `RunnerChains.run`
unfoldable pub run :
    Invoke
    → (function : String) (resume_id : Option String) → Chains
    → Raises AgentResult × List Call
unfolding run_from chain_for
run invoke function resume_id chains =
    run_from invoke function resume_id (chain_for function chains) none []
