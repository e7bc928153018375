-- ===== src/Advance/Resolve.antt =====
-- executing/advance.py: how a parked work item moves on a person's signal.
use specseed.Prelude.{
  String, Bool, true, false, ◌||◌, not, Option, none, some, List, [], ◌∷◌, ◌++◌, str_eq, ltb,
  if◌then◌else◌,
}
use specseed.Prelude.Text.{cat}
use specseed.Entities.{Entity, Comment, status}
use specseed.Approval.{is_empty}
use specseed.Advance.Wording.{
  merge_gate_marker, work_merge_gate_marker, reject_options, retrying, revising,
}
use specseed.Advance.Writes.{
  Ctx, World, WorkTransition, just, nothing, is_stale, set_status, comment,
}
use specseed.Advance.RollUp.{is_text}
use specseed.Advance.Settle.{settle_or_merge, park_awaiting_merge}
use specseed.Advance.Signals.{
  GateSignals, gate_signals, count_review_attempts, Directive, silent, retry, reject_bare, guidance,
  human_directive, options_already_posted,
}

-- `_COMMENT_ACTIONS`
unfoldable pub is_comment_action : String → Bool
unfolding str_eq
is_comment_action action =
    str_eq action "handle_comment_added" || str_eq action "handle_comment_updated"

abbrev pub moved : String → (merge prepare : Bool) → WorkTransition
moved detail merge prepare = record { detail = some detail; merge = merge; prepare = prepare }

abbrev pub first : List String → String
first [] = ""
first (i ∷ is) = i

-- the first of the merge approvers, else of the approvers
abbrev pub approver : (merge approve : List String) → String
approver merge approve = first (merge ++ approve)

abbrev pub some_of : List String → Bool
some_of xs = not (is_empty xs)

-- back to `todo` with a note
unfoldable pub rework : Ctx → Entity → (note detail : String) → World → World × WorkTransition
unfolding set_status comment
rework ctx entity note detail w =
    (comment ctx entity.post_id note (set_status ctx entity "todo" w), just detail)

-- `_resolve_pure_merge_gate`
unfoldable pub resolve_pure_merge_gate : Ctx → Entity → GateSignals → World → World × WorkTransition
unfolding comment park_awaiting_merge cat
resolve_pure_merge_gate ctx entity sig w =
    if some_of sig.approve || some_of sig.merge
    then (
      comment ctx entity.post_id
          (cat (
            "Merge approved by "
            ∷ approver sig.merge sig.approve
            ∷ "; readying and merging into `"
            ∷ ctx.primary_branch
            ∷ "`."
            ∷ []))
          w,
      moved (cat ("merge gate approved by " ∷ approver sig.merge sig.approve ∷ " -> merging" ∷ []))
          true true,
    )
    else if some_of sig.reject
    then (let (w', detail) = park_awaiting_merge ctx entity (
          comment ctx entity.post_id
            (cat (
              "Merge declined by "
              ∷ first sig.reject
              ∷ "; the branch is left for you to merge by hand."
              ∷ []))
            w) in
        (w', just (cat ("merge gate declined -> " ∷ detail ∷ []))))
    else (w, nothing)

abbrev pub directive_if : Bool → Ctx → List Comment → Directive
directive_if is_comment ctx conversation =
    if is_comment then human_directive ctx.config conversation else silent

-- a rejection without guidance: the options are posted once
unfoldable pub ask_options : Ctx → Entity → World → World × WorkTransition
unfolding options_already_posted comment
ask_options ctx entity w = if options_already_posted entity.post_id w then (w, nothing) else (
  comment ctx entity.post_id reject_options w,
  just "approval gate: rejected without guidance -> options prompt posted",
)

unfoldable pub follow :
    Ctx → Entity → Directive → (rejected : Bool) → World → World × WorkTransition
unfolding rework ask_options
follow ctx entity retry rejected w =
    rework ctx entity retrying "approval gate -> todo (retry, no feedback)" w
follow ctx entity (guidance t) rejected w =
    rework ctx entity revising "approval gate -> todo (revise with guidance)" w
follow ctx entity reject_bare rejected w = ask_options ctx entity w
follow ctx entity silent rejected w = if rejected then ask_options ctx entity w else (w, nothing)

-- `_resolve_directive`
unfoldable pub resolve_directive :
    Ctx → Entity → List Comment → (is_comment rejected : Bool) → World → World × WorkTransition
unfolding human_directive follow
resolve_directive ctx entity conversation is_comment rejected w =
    follow ctx entity (directive_if is_comment ctx conversation) rejected w

-- `_resolve_combined_gate`
unfoldable pub resolve_combined_gate :
    Ctx → Entity → GateSignals → List Comment → (is_comment : Bool) → World → World × WorkTransition
unfolding comment resolve_directive cat
resolve_combined_gate ctx entity sig conversation is_comment w =
    if some_of sig.merge
    then (
      comment ctx entity.post_id
          (cat (
            "Work approved by "
            ∷ first sig.merge
            ∷ "; readying and merging into `"
            ∷ ctx.primary_branch
            ∷ "`."
            ∷ []))
          w,
      moved (cat ("combined gate approved+merge by " ∷ first sig.merge ∷ " -> merging" ∷ [])) true
          true,
    )
    else if some_of sig.approve
    then (
      comment ctx entity.post_id
          (cat ("Work approved by " ∷ first sig.approve ∷ "; readying the merge." ∷ [])) w,
      moved
          (cat ("combined gate work-approved by " ∷ first sig.approve ∷ " -> readying merge" ∷ []))
          false true,
    )
    else resolve_directive ctx entity conversation is_comment (some_of sig.reject) w

-- who approved, merge-approved and rejected the entity, as the state machine found
pub record Verdicts : Type 0 where
  pub approved : List String
  pub merge_approved : List String
  pub rejected : List String

-- `_resolve_plain_gate`
unfoldable pub resolve_plain_gate :
    Ctx → Entity → Verdicts → List Comment → (is_comment : Bool) → World → World × WorkTransition
unfolding count_review_attempts settle_or_merge comment rework resolve_directive cat
resolve_plain_gate ctx entity v conversation is_comment w =
    let by = approver v.merge_approved v.approved in
    if some_of v.approved || some_of v.merge_approved
    then (if ltb 0 (count_review_attempts conversation)
        then (let (w', settle) =
              settle_or_merge ctx entity (cat ("approval gate approved by " ∷ by ∷ [])) w in
            (
              comment ctx entity.post_id (cat ("Approved by " ∷ by ∷ "; completing." ∷ [])) w',
              settle,
            ))
        else rework ctx entity (cat ("Approved by " ∷ by ∷ "; work may proceed." ∷ []))
            "approval gate -> todo (resume work)" w)
    else resolve_directive ctx entity conversation is_comment (some_of v.rejected) w

abbrev pub speaks : Option GateSignals → Bool
speaks none = false
speaks (some sig) = some_of sig.approve || some_of sig.merge || some_of sig.reject

abbrev pub at_gate :
    Ctx
    → Entity
    → (pure combined : Option GateSignals) → Verdicts
    → List Comment
    → Bool
    → World
    → World × WorkTransition
at_gate ctx entity (some pure) combined v conversation is_comment w =
    resolve_pure_merge_gate ctx entity pure w
at_gate ctx entity none (some combined) v conversation is_comment w =
    resolve_combined_gate ctx entity combined conversation is_comment w
at_gate ctx entity none none v conversation is_comment w =
    resolve_plain_gate ctx entity v conversation is_comment w

abbrev pub unless_some : Option GateSignals → Option GateSignals → Option GateSignals
unless_some none b = b
unless_some (some a) b = none

-- `resolve_approval`
unfoldable pub resolve_approval :
    Ctx → Entity → Verdicts → List Comment → (action : String) → World → World × WorkTransition
unfolding status gate_signals is_comment_action is_stale resolve_pure_merge_gate
    resolve_combined_gate resolve_plain_gate str_eq
resolve_approval ctx entity v conversation action w =
    let pure = gate_signals ctx.config entity.post_id conversation merge_gate_marker in
    let combined =
      unless_some pure
        (gate_signals ctx.config entity.post_id conversation work_merge_gate_marker) in
    if not (is_text "awaiting_approval" (status entity)) || not ctx.can_write
    then (w, nothing)
    else if not (
        speaks pure
        || speaks combined
        || some_of v.approved
        || some_of v.merge_approved
        || some_of v.rejected
        || is_comment_action action)
    then (w, nothing)
    else if is_stale entity w
    then (w, just "stale event; remote already advanced past awaiting_approval")
    else at_gate ctx entity pure combined v conversation (is_comment_action action) w

abbrev pub authorizes : Option GateSignals → Option String
authorizes none = none
authorizes (some sig) =
    if some_of sig.approve || some_of sig.merge then some (approver sig.merge sig.approve) else none

unfoldable pub redo :
    Ctx → Entity → (from : String) → (revise : String) → Directive → World → World × WorkTransition
unfolding rework cat
redo ctx entity from revise retry w =
    rework ctx entity retrying (cat (from ∷ " -> todo (retry)" ∷ [])) w
redo ctx entity from revise (guidance t) w =
    rework ctx entity revising (cat (from ∷ " -> todo (" ∷ revise ∷ ")" ∷ [])) w
redo ctx entity from revise reject_bare w = (w, nothing)
redo ctx entity from revise silent w = (w, nothing)

-- an approved merge goes ahead; else a comment may ask for rework
unfoldable pub confirm :
    Ctx
    → Entity
    → List Comment
    → (is_comment : Bool) → Option String
    → World
    → World × WorkTransition
unfolding comment human_directive redo cat
confirm ctx entity conversation is_comment (some by) w = (
  comment ctx entity.post_id
      (cat (
        "Merging into `" ∷ ctx.primary_branch ∷ "` (folding any new `" ∷ ctx.primary_branch
        ∷ "` changes first); authorized by " ∷ by ∷ ". If "
        ∷ "you already merged it, this just confirms it landed." ∷ []))
      w,
  moved (cat ("awaiting_merge approved by " ∷ by ∷ " -> merging" ∷ [])) true true,
)
confirm ctx entity conversation is_comment none w =
    redo ctx entity "awaiting_merge" "revise" (directive_if is_comment ctx conversation) w

-- `resolve_awaiting_merge`
unfoldable pub resolve_awaiting_merge :
    Ctx → Entity → List Comment → (action : String) → World → World × WorkTransition
unfolding status gate_signals is_comment_action is_stale confirm str_eq
resolve_awaiting_merge ctx entity conversation action w =
    let sig = gate_signals ctx.config entity.post_id conversation merge_gate_marker in
    if not (is_text "awaiting_merge" (status entity)) || not ctx.can_write
    then (w, nothing)
    else if not (speaks sig || is_comment_action action)
    then (w, nothing)
    else if is_stale entity w
    then (w, just "stale event; remote already advanced past awaiting_merge")
    else confirm ctx entity conversation (is_comment_action action) (authorizes sig) w
