-- ===== src/Runners/Loop.antt =====
-- executing/agent_runner.py, the loop of `RunnerChains.run` beside a list of what the runners do.
use specseed.Prelude.{
  ◌≡◌, refl, ap, ◌∙◌, String, Bool, true, false, ◌||◌, Option, none, some, List, [], ◌∷◌, ◌++◌,
  append-nil, append_assoc, All, find?, if◌then◌else◌,
}
use specseed.Runners.Quota.{QuotaInfo, Raises, returned, overflow_error}
use specseed.Runners.{
  AgentRunner, Ran, Invoke, AgentResult, Call, result_of, sniff, exhausted, called, run_from,
}

-- what the runners of a chain would do one after the other, only the first of them resumed
abbrev pub attempts : Invoke → Option String → List AgentRunner → List Ran
attempts invoke resume_id [] = []
attempts invoke resume_id (r ∷ rs) = invoke r resume_id ∷ attempts invoke none rs

-- success, or a stop on purpose
abbrev pub ends : Ran → Bool
ends ran = ran.killed || ran.ok

abbrev pub joined :
    Raises (Option QuotaInfo) → Raises (List (Option QuotaInfo)) → Raises (List (Option QuotaInfo))
joined overflow_error later = overflow_error
joined (returned s) overflow_error = overflow_error
joined (returned s) (returned ss) = returned (s ∷ ss)

-- the signs of a limit in the failures before the end
abbrev pub signs : List Ran → Raises (List (Option QuotaInfo))
signs [] = returned []
signs (ran ∷ rans) = if ends ran then returned [] else joined (sniff ran) (signs rans)

abbrev pub last_of : Ran → List Ran → Ran
last_of ran [] = ran
last_of ran (r ∷ rans) = last_of r rans

abbrev last_or : Option AgentResult → List Ran → Option AgentResult
last_or last [] = last
last_or last (r ∷ rans) = some (result_of (last_of r rans))

abbrev pub answer :
    (function : String)
    → Option AgentResult
    → List Ran
    → List (Option QuotaInfo)
    → Option Ran
    → AgentResult
answer function last rans hits none = exhausted function (last_or last rans) hits
answer function last rans hits (some ran) = result_of ran

abbrev pub answered :
    String
    → Option AgentResult
    → List Ran
    → List (Option QuotaInfo)
    → Raises (List (Option QuotaInfo))
    → Option Ran
    → Raises AgentResult
answered function last rans hits overflow_error found = overflow_error
answered function last rans hits (returned ss) found =
    returned (answer function last rans (hits ++ ss) found)

last_or-some :
    (ran : Ran) (rans : List Ran)
    → last_or (some (result_of ran)) rans ≡ some (result_of (last_of ran rans))
last_or-some ran [] = refl
last_or-some ran (r ∷ rans) = refl

answer-shift :
    (function : String) (last : Option AgentResult) (ran : Ran) (rans : List Ran)
    (hits : List (Option QuotaInfo)) (found : Option Ran)
    → answer function (some (result_of ran)) rans hits found
      ≡ answer function last (ran ∷ rans) hits found
answer-shift function last ran rans hits none = rw (last_or-some ran rans)
answer-shift function last ran rans hits (some r) = refl

answered-shift :
    (function : String) (last : Option AgentResult) (ran : Ran) (rans : List Ran)
    (hits : List (Option QuotaInfo)) (sig : Option QuotaInfo)
    (ss : Raises (List (Option QuotaInfo))) (found : Option Ran)
    → answered function (some (result_of ran)) rans (hits ++ sig ∷ []) ss found
      ≡ answered function last (ran ∷ rans) hits (joined (returned sig) ss) found
answered-shift function last ran rans hits sig overflow_error found = refl
answered-shift function last ran rans hits sig (returned ss) found =
    rw (append_assoc hits (sig ∷ []) ss)
      (ap returned (answer-shift function last ran rans (hits ++ sig ∷ ss) found))

-- the first call goes on with the old conversation, a fallback with none
abbrev pub Resumed : Option String → List Call → Type 0
Resumed resume_id [] = Unit
Resumed resume_id (c ∷ cs) = (c.1 ≡ resume_id) × All (λ d. d.1 ≡ none) cs

abbrev Fresh : List Call → Type 0
Fresh = All (λ d. d.1 ≡ none)

module _ (invoke : Invoke) (function : String) where
  -- what the loop does once a runner is back
  abbrev after :
      (ran : Ran)
      → List AgentRunner
      → List (Option QuotaInfo)
      → Bool
      → Raises (Option QuotaInfo)
      → Raises AgentResult × List Call
  after ran rs hits true s = (returned (result_of ran), [])
  after ran rs hits false overflow_error = (overflow_error, [])
  after ran rs hits false (returned sig) =
      run_from invoke function none rs (some (result_of ran)) (hits ++ sig ∷ [])

  run_from-after :
      (resume_id : Option String) (r : AgentRunner) (rs : List AgentRunner)
      (last : Option AgentResult) (hits : List (Option QuotaInfo))
      → run_from invoke function resume_id (r ∷ rs) last hits
        ≡ called r resume_id (
            after
              (invoke r resume_id)
              rs
              hits
              (ends (invoke r resume_id))
              (sniff (invoke r resume_id)))
  unfolding run_from
  run_from-after resume_id r rs last hits =
      go (ends (invoke r resume_id)) (sniff (invoke r resume_id))
    where
      go :
          (b : Bool) (s : Raises (Option QuotaInfo))
          → called r resume_id (elim b [
            | true ↦ (returned (result_of (invoke r resume_id)), [])
            | false ↦ elim s [
              | overflow_error ↦ (overflow_error, [])
              | returned sig ↦
                  run_from invoke function none rs
                    (some (result_of (invoke r resume_id)))
                    (hits ++ sig ∷ [])
            ]
          ])
            ≡ called r resume_id (after (invoke r resume_id) rs hits b s)
      go true s = refl
      go false overflow_error = refl
      go false (returned sig) = refl

  run_from-nil :
      (resume_id : Option String) (last : Option AgentResult) (hits : List (Option QuotaInfo))
      → run_from invoke function resume_id [] last hits
        ≡ (returned (exhausted function last hits), [])
  unfolding run_from
  run_from-nil resume_id last hits = refl

  after_lem :
      (last : Option AgentResult) (ran : Ran) (rs : List AgentRunner)
      (hits : List (Option QuotaInfo)) (b : Bool) (s : Raises (Option QuotaInfo))
      → ((last : Option AgentResult) (hits : List (Option QuotaInfo))
          → (run_from invoke function none rs last hits).0
            ≡ answered function last
                (attempts invoke none rs)
                hits
                (signs (attempts invoke none rs))
                (find? ends (attempts invoke none rs)))
      → (after ran rs hits b s).0
        ≡ answered function last
            (ran ∷ attempts invoke none rs)
            hits
            (if b then returned [] else joined s (signs (attempts invoke none rs)))
            (if b then some ran else find? ends (attempts invoke none rs))
  after_lem last ran rs hits true s ih = refl
  after_lem last ran rs hits false overflow_error ih = refl
  after_lem last ran rs hits false (returned sig) ih =
      ih (some (result_of ran)) (hits ++ sig ∷ [])
      ∙ answered-shift function last ran (attempts invoke none rs) hits sig
          (signs (attempts invoke none rs)) (find? ends (attempts invoke none rs))

  pub run_from_lem :
      (resume_id : Option String) (rs : List AgentRunner) (last : Option AgentResult)
      (hits : List (Option QuotaInfo))
      → (run_from invoke function resume_id rs last hits).0
        ≡ answered function last
            (attempts invoke resume_id rs)
            hits
            (signs (attempts invoke resume_id rs))
            (find? ends (attempts invoke resume_id rs))
  run_from_lem resume_id [] last hits = rw (run_from-nil resume_id last hits, append-nil hits)
  run_from_lem resume_id (r ∷ rs) last hits =
      rw (run_from-after resume_id r rs last hits)
        (after_lem last (invoke r resume_id) rs hits _ _ (run_from_lem none rs))

  after-Fresh :
      (ran : Ran) (rs : List AgentRunner) (hits : List (Option QuotaInfo)) (b : Bool)
      (s : Raises (Option QuotaInfo))
      → ((last : Option AgentResult) (hits : List (Option QuotaInfo))
          → Fresh (run_from invoke function none rs last hits).1)
      → Fresh (after ran rs hits b s).1
  after-Fresh ran rs hits true s ih = tt
  after-Fresh ran rs hits false overflow_error ih = tt
  after-Fresh ran rs hits false (returned sig) ih = ih _ _

  run_from-Fresh :
      (rs : List AgentRunner) (last : Option AgentResult) (hits : List (Option QuotaInfo))
      → Fresh (run_from invoke function none rs last hits).1
  run_from-Fresh [] last hits = rw (run_from-nil none last hits) tt
  run_from-Fresh (r ∷ rs) last hits =
      rw (run_from-after none r rs last hits)
        (refl, after-Fresh (invoke r none) rs hits _ _ (run_from-Fresh rs))

  pub calls-Resumed :
      (resume_id : Option String) (rs : List AgentRunner)
      → Resumed resume_id (run_from invoke function resume_id rs none []).1
  calls-Resumed resume_id [] = rw (run_from-nil resume_id none []) tt
  calls-Resumed resume_id (r ∷ rs) =
      rw (run_from-after resume_id r rs none [])
        (refl, after-Fresh (invoke r resume_id) rs [] _ _ (run_from-Fresh rs))
