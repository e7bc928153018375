-- ===== src/Runners/Chain.antt =====
-- executing/agent_runner.py, `RunnerChains.run`: who is asked, and what the chain answers.
use specseed.Prelude.{
  ◌≡◌, refl, String, Bool, true, false, Option, none, some, List, [], ◌∷◌, find?, if◌then◌else◌,
}
use specseed.Prelude.Text.{cat}
use specseed.Runners.Quota.{QuotaInfo, Raises, returned, overflow_error}
use specseed.Runners.{Ran, Invoke, AgentResult, Chains, result_of, sniff, exhausted, run, chain_for}
use specseed.Runners.Loop.{
  attempts, ends, joined, signs, last_of, answered, Resumed, run_from_lem, calls-Resumed,
}
use specseed.Runners.Limits.{Spent, blocked-Spent}

abbrev pub Final : (function : String) → List Ran → List (Option QuotaInfo) → AgentResult → Type 0
Final function [] ss res =
    (res.ok ≡ false)
    × (res.error ≡ some (cat ("no runner configured for '" ∷ function ∷ "'" ∷ [])))
    × (res.quota_exhausted ≡ false)
Final function (ran ∷ rans) ss res = Spent (last_of ran rans) ss res

abbrev pub Outcome :
    (function : String)
    → List Ran
    → Raises (List (Option QuotaInfo))
    → Option Ran
    → Raises AgentResult
    → Type 0
Outcome function rans overflow_error found out = out ≡ overflow_error
Outcome function rans (returned ss) (some ran) out = out ≡ returned (result_of ran)
Outcome function rans (returned ss) none out =
    (res : AgentResult) × (out ≡ returned res) × Final function rans ss res

-- without an end each failure has its answer
signs-cons :
    (ran : Ran) (rans : List Ran) (ss : List (Option QuotaInfo))
    → signs (ran ∷ rans) ≡ returned ss
    → find? ends (ran ∷ rans) ≡ none
    → (s : Option QuotaInfo) × (rest : List (Option QuotaInfo)) × (ss ≡ s ∷ rest)
signs-cons ran rans ss e f = go (ends ran) (sniff ran) (signs rans) e f
  where
    go :
        (b : Bool) (s : Raises (Option QuotaInfo)) (later : Raises (List (Option QuotaInfo)))
        → (if b then returned [] else joined s later) ≡ returned ss
        → (if b then some ran else find? ends rans) ≡ none
        → (s : Option QuotaInfo) × (rest : List (Option QuotaInfo)) × (ss ≡ s ∷ rest)
    go true s later e f = absurd (cc f)
    go false overflow_error later e f = absurd (cc e)
    go false (returned s) overflow_error e f = absurd (cc e)
    go false (returned s) (returned rest) e f = (s, rest, cc e)

answered-Outcome :
    (function : String) (rans : List Ran) (s : Raises (List (Option QuotaInfo)))
    (found : Option Ran)
    → signs rans ≡ s
    → find? ends rans ≡ found
    → Outcome function rans s found (answered function none rans [] s found)
unfolding exhausted
answered-Outcome function rans overflow_error found e f = refl
answered-Outcome function rans (returned ss) (some ran) e f = refl
answered-Outcome function [] (returned ss) none e f = (_, refl, (refl, refl, refl))
answered-Outcome function (ran ∷ rans) (returned ss) none e f =
    let (s, rest, m) = signs-cons ran rans ss e f in
    (_, refl, rw m (blocked-Spent (last_of ran rans) s rest))

-- A run of a chain answers as its runners do in order, the first one resumed and the others not.
-- The first that succeeds or is stopped on purpose gives its result as the answer. Where none does,
-- the answer is the failure of the last one; it is marked as a used-up quota exactly if each failure
-- bore a sign of a limit, with the reset of a sign that parks longest. A chain of no runners fails
-- with that message. A sign whose reset is beyond the range of datetime raises instead.
pub run-Outcome :
    (invoke : Invoke) (function : String) (resume_id : Option String) (chains : Chains)
    → Outcome function
        (attempts invoke resume_id (chain_for function chains))
        (signs (attempts invoke resume_id (chain_for function chains)))
        (find? ends (attempts invoke resume_id (chain_for function chains)))
        (run invoke function resume_id chains).0
      × Resumed resume_id (run invoke function resume_id chains).1
unfolding run
run-Outcome invoke function resume_id chains = (
  rw (run_from_lem invoke function resume_id (chain_for function chains) none []) (
      answered-Outcome function (attempts invoke resume_id (chain_for function chains)) _ _ refl
        refl),
  calls-Resumed invoke function resume_id (chain_for function chains),
)
