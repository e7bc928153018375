-- ===== src/Advance/Unblock.antt =====
-- executing/advance.py, `resolve_blocked`: how a person moves a work item over a block.
use specseed.Prelude.{
  String, Bool, true, false, ◌||◌, not, Option, none, some, List, [], ◌∷◌, str_eq, if◌then◌else◌,
}
use specseed.Prelude.Text.{cat}
use specseed.Entities.{Entity, Comment, status}
use specseed.Approval.{
  command_authors_for, approval_ids_from_body, merge_ids_from_body, body_of, is_empty,
}
use specseed.Advance.Writes.{Ctx, World, WorkTransition, just, nothing, is_stale, comment}
use specseed.Advance.RollUp.{is_text}
use specseed.Advance.Settle.{close_issue_done, issue_has_branch}
use specseed.Advance.Signals.{
  Override, no_override, approve_over, merge_over, override_command, latest_human_comment,
  human_directive,
}
use specseed.Advance.Resolve.{is_comment_action, moved, redo}

abbrev pub authored : Option Comment → String
authored none = ""
authored (some c) = body_of c.author

abbrev pub commanded : Option Comment → (post_id : String) → Override
commanded none post_id = no_override
commanded (some c) post_id = override_command (body_of c.body) post_id

abbrev pub permitted : Ctx → Entity → List Comment → Override → Override
permitted ctx entity conversation no_override = no_override
permitted ctx entity conversation merge_over =
    if is_empty
      (command_authors_for merge_ids_from_body conversation ctx.config (entity.post_id ∷ []))
    then no_override
    else merge_over
permitted ctx entity conversation approve_over =
    if is_empty
      (command_authors_for approval_ids_from_body conversation ctx.config (entity.post_id ∷ []))
    then no_override
    else approve_over

-- the command in the latest comment of a person, where an approver gave such a command
unfoldable pub override : Ctx → Entity → List Comment → Override
unfolding latest_human_comment override_command command_authors_for approval_ids_from_body
    merge_ids_from_body
override ctx entity conversation =
    permitted ctx entity conversation
      (commanded (latest_human_comment ctx.config conversation) entity.post_id)

-- the work is forced on: an issue through its merge, another item to its end
unfoldable pub force :
    Ctx → Entity → (author : String) (merge : Bool) → World → World × WorkTransition
unfolding issue_has_branch close_issue_done comment cat
force ctx entity author merge w =
    if not (issue_has_branch entity)
    then (let (w', detail) = close_issue_done ctx entity w in
        (
          comment ctx entity.post_id
              (cat ("Approved by " ∷ author ∷ " over the block; completing." ∷ [])) w',
          just (cat ("blocked -> override by " ∷ author ∷ " -> " ∷ detail ∷ [])),
        ))
    else if merge || not ctx.merge_gated
    then (
      comment ctx entity.post_id
          (cat (
            "Approved by " ∷ author ∷ " over the block; readying and merging into `"
            ∷ ctx.primary_branch ∷ "`." ∷ []))
          w,
      moved (cat ("blocked -> override by " ∷ author ∷ " -> merging" ∷ [])) true true,
    )
    else (
      comment ctx entity.post_id
          (cat ("Approved by " ∷ author ∷ " over the block; readying the merge." ∷ [])) w,
      moved (cat ("blocked -> override by " ∷ author ∷ " -> readying merge" ∷ [])) false true,
    )

unfoldable pub move_over : Ctx → Entity → List Comment → Override → World → World × WorkTransition
unfolding latest_human_comment force human_directive redo
move_over ctx entity conversation merge_over w =
    force ctx entity (authored (latest_human_comment ctx.config conversation)) true w
move_over ctx entity conversation approve_over w =
    force ctx entity (authored (latest_human_comment ctx.config conversation)) false w
move_over ctx entity conversation no_override w =
    redo ctx entity "blocked" "revise with guidance" (human_directive ctx.config conversation) w

-- `resolve_blocked`
unfoldable pub resolve_blocked :
    Ctx → Entity → List Comment → (action : String) → World → World × WorkTransition
unfolding status is_comment_action is_stale override move_over str_eq
resolve_blocked ctx entity conversation action w =
    if not (is_text "blocked" (status entity))
    then (w, nothing)
    else if not (is_comment_action action)
    then (w, nothing)
    else if not ctx.can_write
    then (w, nothing)
    else if is_stale entity w
    then (w, just "stale event; remote already advanced past blocked")
    else move_over ctx entity conversation (override ctx entity conversation) w
