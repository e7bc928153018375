-- ===== src/Runners/Configured.antt =====
-- executing/agent_runner.py, `build_runner_chains`: which configurations give chains, and that each
-- function then has a runner.
use specseed.Prelude.{
  ◌≡◌, ◌≢◌, refl, subst, inl, inr, String, false, List, [], ◌∷◌, In, Bool-cases, str_eq, str_eq_iff,
  str_eq_refl,
}
use specseed.Runners.{
  Spec, AgentRunner, Chains, Built, built, value_error, RunnerConfig, runner_from_spec,
  runner_functions, specs_at, specs_for, or_else, runners_from, chains_of, build_runner_chains,
  chain_at, first_chain, chain_for, ◌>>=◌,
}

-- a spec that a function uses, and that cannot be built
abbrev pub Unusable : RunnerConfig → List String → String → Type 0
Unusable config fns e =
    (fn : String) × In fn fns
    × (spec : Spec) × In spec (specs_for fn config)
    × (runner_from_spec spec ≡ value_error e)

or_else-nonempty : {A : Type 0} (xs ys : List A) → ys ≢ [] → or_else xs ys ≢ []
or_else-nonempty [] ys n = n
or_else-nonempty (x ∷ xs) ys n = λ e. cc e

or_else_left : {A : Type 0} (xs ys : List A) → xs ≢ [] → or_else xs ys ≡ xs
or_else_left [] ys n = absurd (n refl)
or_else_left (x ∷ xs) ys n = refl

specs_for-nonempty : (fn : String) (config : RunnerConfig) → specs_for fn config ≢ []
unfolding specs_for
specs_for-nonempty fn config =
    or_else-nonempty (specs_at fn config) _
      (or_else-nonempty (specs_at "implementation" config) _ (λ e. cc e))

abbrev RunnersOutcome : List Spec → Built (List AgentRunner) → Type 0
RunnersOutcome ss (built rs) = ss ≢ [] → rs ≢ []
RunnersOutcome ss (value_error e) = (s : Spec) × In s ss × (runner_from_spec s ≡ value_error e)

runners_from-Outcome : (ss : List Spec) → RunnersOutcome ss (runners_from ss)
unfolding runners_from
runners_from-Outcome [] = λ n _. n refl
runners_from-Outcome (s ∷ ss) =
    go (runner_from_spec s) (runners_from ss) refl (runners_from-Outcome ss)
  where
    go :
        (r : Built AgentRunner) (rs : Built (List AgentRunner))
        → runner_from_spec s ≡ r
        → RunnersOutcome ss rs
        → RunnersOutcome (s ∷ ss) (r >>= λ x. rs >>= λ xs. built (x ∷ xs))
    go (value_error e) rs p o = (s, inl refl, p)
    go (built r) (value_error e) p o = (o.0, inr o.1, o.2)
    go (built r) (built rs) p o = λ _ e. cc e

abbrev ChainsOutcome : RunnerConfig → List String → Built Chains → Type 0
ChainsOutcome config fns (built chains) =
    (fn : String) → In fn fns → runners_from (specs_for fn config) ≡ built (chain_at fn chains)
ChainsOutcome config fns (value_error e) = Unusable config fns e

chains_of-Outcome :
    (fns : List String) (config : RunnerConfig) → ChainsOutcome config fns (chains_of fns config)
unfolding chains_of chain_at
chains_of-Outcome [] config = λ fn i. elim i [ ]
chains_of-Outcome (k ∷ fns) config =
    go (runners_from (specs_for k config)) (chains_of fns config) refl
      (runners_from-Outcome (specs_for k config)) (chains_of-Outcome fns config)
  where
    later : (fn : String) → str_eq k fn ≡ false → In fn (k ∷ fns) → In fn fns
    later fn e (inl q) = absurd (cc (str_eq_refl k, q, e))
    later fn e (inr i) = i

    go :
        (c : Built (List AgentRunner)) (cs : Built Chains)
        → runners_from (specs_for k config) ≡ c
        → RunnersOutcome (specs_for k config) c
        → ChainsOutcome config fns cs
        → ChainsOutcome config (k ∷ fns) (c >>= λ x. cs >>= λ xs. built ((k, x) ∷ xs))
    go (value_error e) cs p r o = (k, inl refl, r.0, r.1, r.2)
    go (built c) (value_error e) p r o = (o.0, inr o.1, o.2, o.3, o.4)
    go (built c) (built cs) p r o = λ fn i. elim (Bool-cases (str_eq k fn)) [
      | inl e ↦ rw e (rw (← (str_eq_iff k fn).0 e) p)
      | inr e ↦ rw e (o fn (later fn e i))
    ]

module _ (config : RunnerConfig) (chains : Chains)
    (o : ChainsOutcome config runner_functions (built chains)) where
  chain_at-nonempty : (fn : String) → In fn runner_functions → chain_at fn chains ≢ []
  chain_at-nonempty fn i =
      subst (RunnersOutcome (specs_for fn config)) (o fn i)
        (runners_from-Outcome (specs_for fn config)) (specs_for-nonempty fn config)

  chain_for-nonempty : (fn : String) → chain_for fn chains ≢ []
  unfolding chain_for
  chain_for-nonempty fn = or_else-nonempty (chain_at fn chains) _ (
      rw
        (or_else_left (chain_at "implementation" chains) (first_chain chains)
          (chain_at-nonempty "implementation" (inr (inl refl))))
        (chain_at-nonempty "implementation" (inr (inl refl))))

  chain_for-chain_at :
      (fn : String) → In fn runner_functions → chain_for fn chains ≡ chain_at fn chains
  unfolding chain_for
  chain_for-chain_at fn i = or_else_left (chain_at fn chains) _ (chain_at-nonempty fn i)

abbrev pub BuildOutcome : RunnerConfig → Built Chains → Type 0
BuildOutcome config (built chains) =
    ((fn : String)
      → In fn runner_functions
      → runners_from (specs_for fn config) ≡ built (chain_for fn chains))
    × ((fn : String) → chain_for fn chains ≢ [])
BuildOutcome config (value_error e) = Unusable config runner_functions e

-- The chains of a configuration either are built, and then each known function has the runners of
-- its own specs, else of the specs of `implementation`, else of the default spec, and no function,
-- known or not, is left without a runner; or the configuration is refused, with the error of a spec
-- that a known function would have used.
pub build_runner_chains-Outcome :
    (config : RunnerConfig) → BuildOutcome config (build_runner_chains config)
unfolding build_runner_chains
build_runner_chains-Outcome config =
    go (chains_of runner_functions config) (chains_of-Outcome runner_functions config)
  where
    go : (b : Built Chains) → ChainsOutcome config runner_functions b → BuildOutcome config b
    go (value_error e) o = o
    go (built chains) o = (
      λ fn i. rw (chain_for-chain_at config chains o fn i) (o fn i),
      chain_for-nonempty config chains o,
    )
