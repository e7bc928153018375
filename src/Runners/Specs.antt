-- ===== src/Runners/Specs.antt =====
-- executing/agent_runner.py: the specs of the configuration, the runners that they stand for, and
-- the chains of runners for each function.
use specseed.Prelude.{String, ◌||◌, Option, none, some, List, [], ◌∷◌, str_eq, if◌then◌else◌}
use specseed.Prelude.Text.{cat, casefold}

-- a spec of the configuration; an absent key is `none`
pub record Spec : Type 0 where
  pub provider : Option String
  pub provider_data_dir : Option String
  pub model : Option String
  pub effort : Option String
  pub sandbox : Option String

-- the arguments that a spec sets; the others keep their defaults
pub data AgentRunner : Type 0 where
  claude_runner : (model : String) (config_dir : Option String) → AgentRunner
  codex_runner : (model effort sandbox : String) (config_dir : Option String) → AgentRunner

pub data Built (A : Type 0) : Type 0 where
  built : A → Built A
  value_error : String → Built A

infixl 5 ◌>>=◌
abbrev pub ◌>>=◌ : {A B : Type 0} → Built A → (A → Built B) → Built B
built a >>= f = f a
value_error e >>= f = value_error e

-- `if value:`: an empty text is none
abbrev pub given : Option String → Option String
given none = none
given (some s) = if str_eq s "" then none else some s

abbrev pub or_default : String → Option String → String
or_default d none = d
or_default d (some s) = s

-- `runner_from_spec`
unfoldable pub runner_from_spec : Spec → Built AgentRunner
unfolding casefold str_eq cat
runner_from_spec spec =
    let provider = casefold (or_default "claude" (given spec.provider)) in
    if str_eq provider "codex"
    then built (
        codex_runner (or_default "gpt-5.4-mini" (given spec.model))
          (or_default "medium" (given spec.effort))
          (or_default "workspace-write" (given spec.sandbox)) (given spec.provider_data_dir))
    else if str_eq provider "claude" || str_eq provider "claude-code"
    then built (
        claude_runner (or_default "claude-opus-4-8" (given spec.model))
          (given spec.provider_data_dir))
    else value_error (cat ("unsupported runner provider: '" ∷ provider ∷ "'" ∷ []))

-- `build_command` of both runners
unfoldable pub build_command : AgentRunner → (resume_id : Option String) → List String
unfolding cat str_eq
build_command (claude_runner model config_dir) resume_id =
    "claude"
    ∷ "-p"
    ∷ "--model"
    ∷ model
    ∷ "--permission-mode"
    ∷ "acceptEdits"
    ∷ "--allowedTools"
    ∷ "Read,Edit,Bash"
    ∷ "--max-turns"
    ∷ "200"
    ∷ "--verbose"
    ∷ "--output-format"
    ∷ "stream-json"
    ∷ resumed (given resume_id)
  where
    resumed : Option String → List String
    resumed none = []
    resumed (some id) = "--resume" ∷ id ∷ []
build_command (codex_runner model effort sandbox config_dir) resume_id =
    "codex"
    ∷ "exec"
    ∷ "--model"
    ∷ model
    ∷ "-c"
    ∷ cat ("model_reasoning_effort=\"" ∷ effort ∷ "\"" ∷ [])
    ∷ "--sandbox"
    ∷ sandbox
    ∷ "-c"
    ∷ "approval_policy=\"never\""
    ∷ "--skip-git-repo-check"
    ∷ "-"
    ∷ []

-- `RUNNER_FUNCTIONS`
abbrev pub runner_functions : List String
runner_functions =
    "spec" ∷ "implementation" ∷ "review" ∷ "ask" ∷ "merge_conflicts" ∷ "resolve_platform_errors"
    ∷ []

-- `default_runner_spec`
abbrev pub default_runner_spec : Spec
default_runner_spec = record {
  provider = some "claude";
  provider_data_dir = some "~/.claude";
  model = some "opus";
  effort = some "high";
  sandbox = none;
}

-- config["runner"]: what stands under a function, none where it is no list
abbrev pub RunnerConfig : Type 0
RunnerConfig = List (String × Option (List Spec))

abbrev pub Chains : Type 0
Chains = List (String × List AgentRunner)

-- the list under a function, empty where there is none
unfoldable pub specs_at : String → RunnerConfig → List Spec
unfolding str_eq
specs_at fn [] = []
specs_at fn ((k, none) ∷ rest) = let later = specs_at fn rest in if str_eq k fn then [] else later
specs_at fn ((k, some specs) ∷ rest) =
    let later = specs_at fn rest in if str_eq k fn then specs else later

abbrev pub or_else {ℓ} : {A : Type ℓ} → List A → List A → List A
or_else [] ys = ys
or_else (x ∷ xs) ys = x ∷ xs

-- the specs that the chain of a function is made of
unfoldable pub specs_for : String → RunnerConfig → List Spec
unfolding specs_at
specs_for fn config =
    or_else (specs_at fn config)
      (or_else (specs_at "implementation" config) (default_runner_spec ∷ []))

unfoldable pub runners_from : List Spec → Built (List AgentRunner)
unfolding runner_from_spec
runners_from [] = built []
runners_from (s ∷ ss) = do r ← runner_from_spec s; rs ← runners_from ss; built (r ∷ rs)

unfoldable pub chains_of : List String → RunnerConfig → Built Chains
unfolding runners_from specs_for
chains_of [] config = built []
chains_of (fn ∷ fns) config = do
  chain ← runners_from (specs_for fn config)
  chains ← chains_of fns config
  built ((fn, chain) ∷ chains)

-- `build_runner_chains`
unfoldable pub build_runner_chains : RunnerConfig → Built Chains
unfolding chains_of
build_runner_chains config = chains_of runner_functions config

-- `self.chains.get(function)`, empty where there is none
unfoldable pub chain_at : String → Chains → List AgentRunner
unfolding str_eq
chain_at fn [] = []
chain_at fn ((k, chain) ∷ rest) =
    let later = chain_at fn rest in if str_eq k fn then chain else later

abbrev pub first_chain : Chains → List AgentRunner
first_chain [] = []
first_chain ((k, chain) ∷ rest) = or_else chain (first_chain rest)

-- `chain_for`
unfoldable pub chain_for : String → Chains → List AgentRunner
unfolding chain_at
chain_for fn chains =
    or_else (chain_at fn chains) (or_else (chain_at "implementation" chains) (first_chain chains))
