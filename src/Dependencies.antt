-- ===== src/Dependencies.antt =====
-- executing/dispatch.py, the dependency gate: what an issue waits for before it is implemented.
-- `load` is what the local mirror answers for an id, none where it has no such entity.
pub mod Clear
mod Examples
use Prim.Native.Char.{code}
use Prim.Native.String
use specseed.Prelude.{
  ℕ, String, Bool, true, false, ◌&&◌, ◌||◌, not, Option, none, some, List, [], ◌∷◌, ◌++◌, str_eq,
  leb, if◌then◌else◌,
}
use specseed.StateMachine.{contains}
use specseed.Entities.{Entity, status}

-- str.isdigit on ASCII, of a text that may be empty
unfoldable pub digits_only : String → Bool
digits_only String.[] = true
digits_only (String.◌∷◌ c s) = leb 48 (code c) && leb (code c) 57 && digits_only s

unfoldable pub is_digit : String → Bool
unfolding digits_only str_eq
is_digit s = not (str_eq s "") && digits_only s

-- `_dep_status`
unfoldable pub dep_status : (String → Option Entity) → String → Option String
unfolding status
dep_status load dep = elim (load dep) [ none ↦ none | some e ↦ status e ]

-- the three lists that `_classify_deps` keeps
pub record Split : Type 0 where
  pub cancelled : List (String × String)
  pub pending : List (String × String)
  pub seen : List String

abbrev pub nothing : Split
nothing = record { cancelled = []; pending = []; seen = [] }

abbrev is_cancelled : String → Bool
is_cancelled s = str_eq s "wont_do" || str_eq s "deprecated"

-- `status or "unknown"`
abbrev or_unknown : String → String
or_unknown s = if str_eq s "" then "unknown" else s

-- a dependency of this status, not seen before
unfoldable pub note : String → Option String → Split → Split
unfolding str_eq
note dep none a = record a { pending = a.pending ++ (dep, "unknown") ∷ []; seen = dep ∷ a.seen }
note dep (some s) a =
    if str_eq s "done"
    then record a { seen = dep ∷ a.seen }
    else if is_cancelled s
    then record a { cancelled = a.cancelled ++ (dep, s) ∷ []; seen = dep ∷ a.seen }
    else record a { pending = a.pending ++ (dep, or_unknown s) ∷ []; seen = dep ∷ a.seen }

-- `_check`
unfoldable pub check : (String → Option Entity) → String → Split → Split
unfolding is_digit dep_status note
check load dep a =
    if not (is_digit dep) || contains dep a.seen then a else note dep (dep_status load dep) a

unfoldable pub check_all : (String → Option Entity) → List String → Split → Split
unfolding check
check_all load [] a = a
check_all load (d ∷ ds) a = check_all load ds (check load d a)

abbrev deps_of : Option Entity → List String
deps_of none = []
deps_of (some e) = e.depends_on

-- the dependencies of the parent, where its id is a number
unfoldable pub parent_deps : (String → Option Entity) → Option String → List String
unfolding is_digit
parent_deps load none = []
parent_deps load (some p) = if is_digit p then deps_of (load p) else []

-- `_classify_deps`
unfoldable pub classify_deps : (String → Option Entity) → Entity → Split
unfolding check_all parent_deps
classify_deps load entity =
    check_all load (parent_deps load entity.parent_id) (check_all load entity.depends_on nothing)

-- what the gate decides: to block, to hold until the next poll, or to go on
pub data Decision : Type 0 where
  blocked : List (String × String) → Decision
  held : List (String × String) → ℕ → Decision
  clear : Decision

abbrev pub decide : ℕ → List (String × String) → List (String × String) → Decision
decide interval [] [] = clear
decide interval [] (p ∷ ps) = held (p ∷ ps) interval
decide interval (c ∷ cs) pending = blocked (c ∷ cs)

unfoldable pub dependency_gate : ℕ → (String → Option Entity) → Entity → Decision
unfolding classify_deps
dependency_gate interval load entity =
    let split = classify_deps load entity in decide interval split.cancelled split.pending
