-- ===== src/Advance/Work.antt =====
-- executing/advance.py: what a successful run of an agent means for the work item. A report is the
-- JSON object that the agent leaves; where it has no verdict the code reads the reviewer's output,
-- which is an argument here. Confidence is in hundredths.
use specseed.Prelude.{
  ℕ, suc, String, Bool, false, ◌||◌, not, none, some, List, [], ◌∷◌, str_eq, leb, ltb,
  if◌then◌else◌,
}
use specseed.Prelude.Text.{cat, strip, casefold, decimal}
use specseed.Entities.{Entity, Comment}
use specseed.Advance.Wording.{
  sign_off_comment, implementer_recommends, not_completed, review_comment, reviewer_recommends,
  review_exhausted,
}
use specseed.Advance.Writes.{
  Ctx, World, WorkTransition, just, next_apr_id, is_stale, set_status, comment, draft_adapt_post,
}
use specseed.Advance.Settle.{settle_or_merge, below_confidence_comment}
use specseed.Advance.Signals.{count_review_attempts}

-- the keys of a report; an absent text is empty
pub record Report : Type 0 where
  pub status : String
  pub summary : String
  pub answer : String
  pub verdict : String
  pub confidence : ℕ
  pub recommend_spec_change : Bool

-- what `parse_review` and `_review_summary` read out of the output
pub record Scraped : Type 0 where
  pub verdict : String
  pub confidence : ℕ
  pub summary : String

abbrev or_text : String → String → String
or_text other s = if str_eq s "" then other else s

abbrev title_of : Entity → String
title_of entity = elim entity.title [ none ↦ "(untitled)" | some t ↦ or_text "(untitled)" t ]

-- `apply_ask_answer`
unfoldable pub apply_ask_answer : Ctx → Entity → Report → World → World × String
unfolding strip casefold comment cat str_eq
apply_ask_answer ctx entity report w =
    if not ctx.can_write
    then (w, "remote writes not permitted; ask answer not posted")
    else if str_eq (strip report.answer) ""
    then (w, "ask run produced no answer; nothing posted")
    else (
      comment ctx entity.post_id (strip report.answer) w,
      cat ("ask answer posted (" ∷ or_text "answered" (casefold (strip report.status)) ∷ ")" ∷ []),
    )

-- the implementer says that the specification is wrong
unfoldable pub implement_recommends : Ctx → Entity → Report → World → World
unfolding draft_adapt_post set_status comment implementer_recommends cat str_eq
implement_recommends ctx entity report w =
    let (w', id) =
      draft_adapt_post ctx
        (cat
          ("Spec adapt needed: issue " ∷ entity.post_id ∷ " - implementer flagged the spec" ∷ []))
        (cat (
          "The implementation agent could not satisfy issue **"
          ∷ entity.post_id
          ∷ "** ('"
          ∷ title_of entity
          ∷ "') as "
          ∷ "written and flagged the SPEC/issue scope as the problem, not a coding "
          ∷ "obstacle."
          ∷ []))
        (or_text "(no detail provided)" report.summary) w in
    comment ctx entity.post_id (implementer_recommends id) (set_status ctx entity "blocked" w')

unfoldable pub says_blocked : Report → Bool
unfolding casefold str_eq
says_blocked report =
    str_eq (casefold report.status) "blocked" || str_eq (casefold report.status) "needs_input"

unfoldable pub implement_stuck : Ctx → Entity → Report → World → World
unfolding set_status comment not_completed casefold str_eq
implement_stuck ctx entity report w = set_status ctx entity "blocked" (
    comment ctx entity.post_id
      (not_completed
        (if str_eq (casefold report.status) "blocked" then "blocked" else "a human decision")
        (or_text "(no detail provided)" report.summary))
      w)

-- `_advance_after_implement`; the two flags are those of the state machine
unfoldable pub advance_after_implement :
    Ctx → Entity → (review_required hitl_required : Bool) → Report → World → World × WorkTransition
unfolding implement_recommends says_blocked implement_stuck set_status next_apr_id comment
    sign_off_comment settle_or_merge
advance_after_implement ctx entity review_required hitl_required report w =
    if report.recommend_spec_change
    then (
      implement_recommends ctx entity report w,
      just "implement recommends spec-change -> blocked + draft adapt",
    )
    else if says_blocked report
    then (
      implement_stuck ctx entity report w,
      just (cat ("implement reported " ∷ casefold report.status ∷ " -> blocked" ∷ [])),
    )
    else if review_required
    then (set_status ctx entity "in_review" w, just "implement done -> in_review")
    else if hitl_required
    then (let (w', apr) = next_apr_id (set_status ctx entity "awaiting_approval" w) in
        (
          comment ctx entity.post_id (sign_off_comment entity.post_id apr) w',
          just "implement done -> awaiting_approval",
        ))
    else settle_or_merge ctx entity "implement done" w

-- the review that is judged: that of the report, else that of the output
unfoldable pub judged : Report → Scraped → Report
unfolding casefold str_eq
judged report scraped =
    if str_eq report.verdict ""
    then record report {
      verdict = scraped.verdict;
      confidence = scraped.confidence;
      summary = scraped.summary;
      recommend_spec_change = false;
    }
    else record report {
      verdict = casefold report.verdict;
      summary = or_text "(no review summary)" report.summary;
    }

-- the last attempt failed
unfoldable pub review_blocked :
    Ctx → Entity → Report → (attempt : ℕ) → World → World × WorkTransition
unfolding set_status draft_adapt_post comment reviewer_recommends review_exhausted cat decimal
review_blocked ctx entity review attempt w =
    if review.recommend_spec_change
    then (let (w', id) =
          draft_adapt_post ctx
            (cat (
              "Spec adapt needed: issue "
              ∷ entity.post_id
              ∷ " failed review "
              ∷ decimal attempt
              ∷ "x"
              ∷ []))
            (cat (
              "Automated code review could not get issue **"
              ∷ entity.post_id
              ∷ "** ('"
              ∷ title_of entity
              ∷ "') past its "
              ∷ "acceptance criteria after "
              ∷ decimal attempt
              ∷ " attempts (limit "
              ∷ decimal ctx.max_attempts
              ∷ "), and the reviewer "
              ∷ "flagged the SPEC/issue scope as the cause rather than a coding "
              ∷ "miss."
              ∷ []))
            review.summary (set_status ctx entity "blocked" w) in
        (
          comment ctx entity.post_id (reviewer_recommends ctx.max_attempts id) w',
          just "review exhausted + recommend_spec_change -> blocked + draft adapt",
        ))
    else (
      comment ctx entity.post_id (review_exhausted ctx.max_attempts entity.post_id)
          (set_status ctx entity "blocked" w),
      just "review exhausted -> blocked (human decision; no adapt)",
    )

-- what the verdict means, after the review was posted
unfoldable pub after_verdict :
    Ctx → Entity → Report → (attempt : ℕ) → World → World × WorkTransition
unfolding settle_or_merge set_status below_confidence_comment comment review_blocked decimal str_eq
after_verdict ctx entity review attempt w =
    if str_eq review.verdict "approve"
    then (if leb ctx.confidence_threshold review.confidence
        then settle_or_merge ctx entity "review passed" w
        else (let (w', body) =
              below_confidence_comment ctx entity review.confidence
                (set_status ctx entity "awaiting_approval" w) in
            (
              comment ctx entity.post_id body w',
              just "review approve below confidence bar -> awaiting_approval",
            )))
    else if ltb attempt ctx.max_attempts
    then (
      set_status ctx entity "todo" w,
      just (
          cat (
            "review requested changes -> todo (reimplement, attempt "
            ∷ decimal attempt
            ∷ ")"
            ∷ [])),
    )
    else review_blocked ctx entity review attempt w

-- `_advance_after_review`
unfoldable pub advance_after_review :
    Ctx → Entity → Report → Scraped → (conversation : List Comment) → World → World × WorkTransition
unfolding judged count_review_attempts comment review_comment after_verdict
advance_after_review ctx entity report scraped conversation w =
    let review = judged report scraped in
    let attempt = suc (count_review_attempts conversation) in
    after_verdict ctx entity review attempt (
      comment ctx entity.post_id
        (review_comment attempt ctx.max_attempts review.verdict review.confidence review.summary) w)

-- what the state machine and the run give
pub record Run : Type 0 where
  pub intent : String
  pub review_required : Bool
  pub hitl_required : Bool
  pub report : Report
  pub scraped : Scraped
  pub conversation : List Comment

-- `apply_post_work_transition`
unfoldable pub apply_post_work_transition : Ctx → Entity → Run → World → World × WorkTransition
unfolding is_stale advance_after_implement advance_after_review str_eq
apply_post_work_transition ctx entity run w =
    if not ctx.can_write
    then (w, just "remote writes not permitted; no transition applied")
    else if is_stale entity w
    then (w, just "stale event; remote already advanced")
    else if str_eq run.intent "implement"
    then advance_after_implement ctx entity run.review_required run.hitl_required run.report w
    else if str_eq run.intent "review"
    then advance_after_review ctx entity run.report run.scraped run.conversation w
    else (w, just "no transition for intent")
