-- ===== src/Advance/Settle.antt =====
-- executing/advance.py: the ends that a work item can come to, and the gates that are opened.
use specseed.Prelude.{
  ℕ, String, Bool, true, false, not, ◌&&◌, Option, none, some, List, [], ◌∷◌, ◌++◌, str_eq,
  if◌then◌else◌,
}
use specseed.Prelude.Text.{cat, has_part, decimal}
use specseed.Entities.{Entity, tier, status}
use specseed.Identity.{agent_assignee}
use specseed.StateMachine.{contains}
use specseed.Tracker
use specseed.Tracker.{Store, ok, failed}
use specseed.Tracker.Read.{Summary, list_entries, get_entry}
use specseed.Advance.Wording.{
  merge_gate_ready_comment, awaiting_merge_comment, combined_gate_comment, plain_gate_comment,
  implement_approval_comment,
}
use specseed.Advance.Writes.{
  Ctx, World, WorkTransition, just, next_apr_id, is_stale, set_status, comment, close,
}
use specseed.Advance.RollUp.{roll_up, is_text}

-- `_issue_has_branch`
unfoldable pub issue_has_branch : Entity → Bool
unfolding tier str_eq
issue_has_branch entity = is_text "issue" (tier entity)

-- ", ".join
abbrev pub joined : List String → String
joined [] = ""
joined (i ∷ []) = i
joined (i ∷ j ∷ is) = cat (i ∷ ", " ∷ joined (j ∷ is) ∷ [])

abbrev rolled : List String → String
rolled [] = "done (closed)"
rolled (i ∷ is) = cat ("done (closed); rolled up: " ∷ joined (i ∷ is) ∷ [])

-- `close_issue_done`
unfoldable pub close_issue_done : Ctx → Entity → World → World × String
unfolding set_status close roll_up cat
close_issue_done ctx entity w =
    let (w', closed) =
      roll_up ctx entity (close ctx entity.post_id (set_status ctx entity "done" w)) in
    (w', rolled closed)

-- `park_unmerged`
abbrev pub park_unmerged : Ctx → Entity → World → World
park_unmerged ctx entity w = set_status ctx entity "blocked" w

-- a status that is set only where the entity has another one
unfoldable pub move_to : Ctx → Entity → String → World → World
unfolding set_status status str_eq
move_to ctx entity s w = if is_text s (status entity) then w else set_status ctx entity s w

-- a gate: a fresh token, the status, and the comment that the approval is bound to
abbrev open_gate :
    Ctx
    → Entity
    → (status : String) (body : String → String) (detail : String → String) → World
    → World × String
open_gate ctx entity status body detail w =
    let (w', apr) = next_apr_id w in
    (comment ctx entity.post_id (body apr) (move_to ctx entity status w'), detail apr)

-- `open_merge_gate_ready`
unfoldable pub open_merge_gate_ready : Ctx → Entity → World → World × String
unfolding next_apr_id move_to comment merge_gate_ready_comment cat
open_merge_gate_ready ctx entity w =
    open_gate ctx entity "awaiting_approval" (merge_gate_ready_comment ctx.primary_branch)
      (λ apr. cat ("branch readied -> awaiting_approval (merge gate " ∷ apr ∷ ")" ∷ [])) w

-- `park_awaiting_merge`
unfoldable pub park_awaiting_merge : Ctx → Entity → World → World × String
unfolding next_apr_id move_to comment awaiting_merge_comment cat
park_awaiting_merge ctx entity w =
    open_gate ctx entity "awaiting_merge" (awaiting_merge_comment ctx.primary_branch)
      (λ apr. cat ("awaiting_merge (merge gate " ∷ apr ∷ ")" ∷ [])) w

-- `_settle_or_merge`
unfoldable pub settle_or_merge : Ctx → Entity → (reason : String) → World → World × WorkTransition
unfolding issue_has_branch close_issue_done cat
settle_or_merge ctx entity reason w =
    if not (issue_has_branch entity)
    then (let (w', detail) = close_issue_done ctx entity w in
        (w', just (cat (reason ∷ " -> " ∷ detail ∷ []))))
    else if ctx.merge_gated
    then (
      w,
      record {
        detail = some (cat (reason ∷ " -> readying merge" ∷ []));
        merge = false;
        prepare = true;
      },
    )
    else (
      w,
      record {
        detail = some (cat (reason ∷ " -> merging into primary" ∷ []));
        merge = true;
        prepare = false;
      },
    )

-- `_below_confidence_comment`
unfoldable pub below_confidence_comment : Ctx → Entity → (confidence : ℕ) → World → World × String
unfolding issue_has_branch next_apr_id combined_gate_comment plain_gate_comment
below_confidence_comment ctx entity confidence w =
    let (w', apr) = next_apr_id w in
    (
      w',
      if ctx.merge_gated && issue_has_branch entity
          then combined_gate_comment confidence ctx.confidence_threshold ctx.primary_branch apr
          else plain_gate_comment confidence ctx.confidence_threshold entity.post_id apr,
    )

-- `assigned_to_agent`
unfoldable pub assigned_to_agent : Ctx → (assignees : List String) → Bool
unfolding agent_assignee str_eq
assigned_to_agent ctx assignees =
    not (str_eq (agent_assignee ctx.config) "") && contains (agent_assignee ctx.config) assignees

-- `auto_assign_to_agent`: the tracker and the assignees after it
unfoldable pub auto_assign_to_agent :
    Ctx → Entity → (assignees : List String) → World → World × List String
unfolding agent_assignee str_eq
auto_assign_to_agent ctx entity assignees w =
    let agent = agent_assignee ctx.config in
    if str_eq agent ""
    then (w, assignees)
    else if not ctx.can_write
    then (w, assignees)
    else if contains agent assignees
    then (w, assignees)
    else (let (remote, answer) =
          Tracker.set_entry_assignees ctx.now entity.post_id (assignees ++ agent ∷ []) w.remote in
        (
          record w { remote = remote },
          elim answer [ ok _ ↦ assignees ++ agent ∷ [] | failed _ ↦ assignees ],
        ))

-- `park_for_implement_approval`
unfoldable pub park_for_implement_approval : Ctx → Entity → World → World × String
unfolding is_stale set_status next_apr_id comment implement_approval_comment
park_for_implement_approval ctx entity w =
    if not ctx.can_write
    then (w, "remote writes not permitted; not parking")
    else if is_stale entity w
    then (w, "stale event; remote already advanced")
    else (let (w', apr) = next_apr_id (set_status ctx entity "awaiting_approval" w) in
        (
          comment ctx entity.post_id (implement_approval_comment entity.post_id apr) w',
          "todo -> awaiting_approval (implement approval required)",
        ))

abbrev pub body_of : String → Store → Option String
body_of id s = elim (get_entry id s) [ none ↦ none | some d ↦ d.body ]

abbrev text_or_empty : Option String → String
text_or_empty none = ""
text_or_empty (some t) = t

unfoldable pub first_marked : (marker : String) → Store → List Summary → Option ℕ
unfolding get_entry has_part decimal str_eq
first_marked marker s [] = none
first_marked marker s (e ∷ es) =
    let later = first_marked marker s es in
    if contains "spec-change:adapt" e.labels
      && has_part marker (text_or_empty (body_of (decimal e.id) s))
    then some e.id
    else later

-- `_find_open_adapt_with_marker`
unfoldable pub find_open_adapt_with_marker : (marker : String) → World → Option ℕ
unfolding first_marked list_entries
find_open_adapt_with_marker marker w =
    first_marked marker w.remote (list_entries (some true) [] none none w.remote)
