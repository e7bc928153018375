-- ===== src/Dependencies/Examples.antt =====
-- The dependency gate at an issue that waits for two others.
use specseed.Prelude.{
  String, ◌≡◌, ◌↔◌, refl, Option, none, some, List, [], ◌∷◌, All, str_eq, if◌then◌else◌,
}
use specseed.Entities.{Entity, issue}
use specseed.Dependencies.{dependency_gate, clear, held, parent_deps}
use specseed.Dependencies.Clear.{IsDone, dependency_gate-clear}

abbrev work : String → List String → List String → Entity
work id labels depends_on = record {
  cls = issue;
  post_id = id;
  title = none;
  labels = labels;
  parent_id = some "3";
  depends_on = depends_on;
  pending_approval_ids = [];
  reactions = [];
  comments = [];
}

abbrev mirror : String → Option Entity
mirror id =
    if str_eq id "1"
    then some (work "1" ("status:done" ∷ []) [])
    else if str_eq id "2"
    then some (work "2" ("status:todo" ∷ []) [])
    else none

abbrev waiting : Entity
waiting = work "7" [] ("1" ∷ "2" ∷ "1" ∷ "FEAT-1" ∷ [])

dependency_gate_example : (dependency_gate 45 mirror waiting ≡ clear) ↔ (
    All (IsDone mirror) ("1" ∷ "2" ∷ "1" ∷ "FEAT-1" ∷ [])
    × All (IsDone mirror) (parent_deps mirror (some "3")))
dependency_gate_example = dependency_gate-clear 45 mirror waiting

holds : dependency_gate 45 mirror waiting ≡ held (("2", "todo") ∷ []) 45
unfolding dependency_gate str_eq
holds = refl
