-- ===== src/Advance/Merged.antt =====
-- About the label `issue:status:done`: which operations of executing/advance.py can put it on a post.
use specseed.Prelude.{
  ℕ, String, ◌≡◌, refl, sym, inl, inr, ◌⊎◌, Bool, true, false, not, some, [], In, str_eq,
  str_eq_iff, ltb, leb, if◌then◌else◌, Option-cases,
}
use specseed.Entities.{Entity, tier}
use specseed.Tracker.Labels.{Labelled}
use specseed.Tracker.Writes.{add_entry_label-before, add_entry_comment-labels, add_entry-before}
use specseed.Advance.Removal.{remove_statuses-before}
use specseed.Advance.Writes.{
  Ctx, World, WorkTransition, next_apr_id, status_label, set_status, swap_status, comment,
  add_draft, draft_adapt_post, draft_labels, is_stale,
}
use specseed.Advance.Settle.{issue_has_branch, settle_or_merge, below_confidence_comment}
use specseed.Advance.Work.{
  Report, Run, implement_recommends, says_blocked, implement_stuck, advance_after_implement, judged,
  review_blocked, after_verdict, advance_after_review, apply_post_work_transition,
}

abbrev pub done_label : String
done_label = "issue:status:done"

-- no post gains the label
unfoldable pub Kept : World → World → Type 0
Kept w v = (j : ℕ) → Labelled j done_label v.remote → Labelled j done_label w.remote

pub if_P : {A : Type 0} (P : A → Type 0) (b : Bool) (x y : A) → P x → P y → P (if b then x else y)
if_P P true x y p q = p
if_P P false x y p q = q

-- what is left of a status that is not `done`
abbrev pub Unfinished : String → Type 0
Unfinished st = str_eq (status_label (some "issue") st) done_label ≡ false

differ : (s t : String) → str_eq s t ≡ false → s ≡ t → ⊥
differ s t h e = cc ((str_eq_iff s t).1 e, h)

not_drafted : In done_label draft_labels → ⊥
unfolding str_eq
not_drafted (inl e) = differ done_label "spec-change:adapt" refl e
not_drafted (inr (inl e)) = differ done_label "draft" refl e
not_drafted (inr (inr (inl e))) = differ done_label "management" refl e
not_drafted (inr (inr (inr i))) = elim i [ ]

pub Kept-refl : (w : World) → Kept w w
unfolding Kept
Kept-refl w j h = h

module _ (ctx : Ctx) (entity : Entity) (issue : issue_has_branch entity ≡ true) (w : World) where
  pub Kept-comment : (id body : String) (v : World) → Kept w v → Kept w (comment ctx id body v)
  unfolding Kept comment
  Kept-comment id body v h j g = h j (rw (add_entry_comment-labels ctx.now id v.remote) at g)

  pub tier-issue : tier entity ≡ some "issue"
  unfolding issue_has_branch
  tier-issue = elim (Option-cases (tier entity)) [
    | inl e ↦ absurd (cc (rw e at issue))
    | inr (t, e) ↦ cc (e, (str_eq_iff t "issue").0 (rw e at issue))
  ]

  pub Kept-set_status :
      (st : String) (v : World) → Unfinished st → Kept w v → Kept w (set_status ctx entity st v)
  unfolding Kept set_status swap_status
  Kept-set_status st v u h j g = h j (
      remove_statuses-before ctx.now entity.post_id j entity.labels v.remote j done_label (
        old (
          add_entry_label-before ctx.now entity.post_id j (status_label (tier entity) st) _ j
            done_label g)))
    where
      old : {A : Type 0} → A ⊎ (done_label ≡ status_label (tier entity) st) → A
      old (inl i) = i
      old (inr q) = absurd (cc ((str_eq_iff _ _).1 (sym (rw tier-issue at q)), u))

  pub Kept-next_apr_id : (v : World) → Kept w v → Kept w (next_apr_id v).0
  unfolding Kept next_apr_id
  Kept-next_apr_id v h = h

  pub Kept-add_draft :
      (title body : String) (v : World) → Kept w v → Kept w (add_draft ctx title body v).0
  unfolding Kept add_draft
  Kept-add_draft title body v h j g =
      h j (old (add_entry-before ctx.now title (some body) draft_labels [] v.remote j done_label g))
    where
      old : {A : Type 0} → A ⊎ In done_label draft_labels → A
      old (inl i) = i
      old (inr q) = absurd (not_drafted q)

  Kept-draft :
      (title reason summary : String) (v : World)
      → Kept w v
      → Kept w (draft_adapt_post ctx title reason summary v).0
  unfolding draft_adapt_post
  Kept-draft title reason summary v h = Kept-add_draft title _ v h

  pub to_blocked : (v : World) → Kept w v → Kept w (set_status ctx entity "blocked" v)
  unfolding status_label str_eq
  to_blocked v h = Kept-set_status "blocked" v refl h

  pub to_approval : (v : World) → Kept w v → Kept w (set_status ctx entity "awaiting_approval" v)
  unfolding status_label str_eq
  to_approval v h = Kept-set_status "awaiting_approval" v refl h

  pub to_merge : (v : World) → Kept w v → Kept w (set_status ctx entity "awaiting_merge" v)
  unfolding status_label str_eq
  to_merge v h = Kept-set_status "awaiting_merge" v refl h

  to_review : (v : World) → Kept w v → Kept w (set_status ctx entity "in_review" v)
  unfolding status_label str_eq
  to_review v h = Kept-set_status "in_review" v refl h

  pub to_todo : (v : World) → Kept w v → Kept w (set_status ctx entity "todo" v)
  unfolding status_label str_eq
  to_todo v h = Kept-set_status "todo" v refl h

  abbrev pub Fine : World × WorkTransition → Type 0
  Fine r = Kept w r.0

  pub Kept-settle_or_merge :
      (reason : String) (v : World) → Kept w v → Kept w (settle_or_merge ctx entity reason v).0
  unfolding settle_or_merge
  Kept-settle_or_merge reason v h = rw issue (if_P Fine ctx.merge_gated _ _ h h)

  Kept-implement :
      (review hitl : Bool) (report : Report) (v : World)
      → Kept w v
      → Kept w (advance_after_implement ctx entity review hitl report v).0
  unfolding advance_after_implement implement_recommends implement_stuck
  Kept-implement review hitl report v h =
      if_P Fine report.recommend_spec_change _ _
        (Kept-comment _ _ _ (to_blocked _ (Kept-draft _ _ _ v h)))
        (if_P Fine (says_blocked report) _ _ (to_blocked _ (Kept-comment _ _ v h)) (
          if_P Fine review _ _ (to_review v h) (
            if_P Fine hitl _ _ (Kept-comment _ _ _ (Kept-next_apr_id _ (to_approval v h)))
              (Kept-settle_or_merge "implement done" v h))))

  Kept-review_blocked :
      (review : Report) (attempt : ℕ) (v : World)
      → Kept w v
      → Kept w (review_blocked ctx entity review attempt v).0
  unfolding review_blocked
  Kept-review_blocked review attempt v h =
      if_P Fine review.recommend_spec_change _ _
        (Kept-comment _ _ _ (Kept-draft _ _ _ _ (to_blocked v h)))
        (Kept-comment _ _ _ (to_blocked v h))

  Kept-verdict :
      (review : Report) (attempt : ℕ) (v : World)
      → Kept w v
      → Kept w (after_verdict ctx entity review attempt v).0
  unfolding after_verdict below_confidence_comment
  Kept-verdict review attempt v h =
      if_P Fine (str_eq review.verdict "approve") _ _
        (if_P Fine (leb ctx.confidence_threshold review.confidence) _ _
          (Kept-settle_or_merge "review passed" v h)
          (Kept-comment _ _ _ (Kept-next_apr_id _ (to_approval v h))))
        (if_P Fine (ltb attempt ctx.max_attempts) _ _ (to_todo v h)
          (Kept-review_blocked review attempt v h))

  pub Kept-work : (run : Run) → Kept w (apply_post_work_transition ctx entity run w).0
  unfolding apply_post_work_transition advance_after_review
  Kept-work run = if_P Fine (not ctx.can_write) _ _ (Kept-refl w) (
      if_P Fine (is_stale entity w) _ _ (Kept-refl w) (
        if_P Fine (str_eq run.intent "implement") _ _
          (Kept-implement run.review_required run.hitl_required run.report w (Kept-refl w))
          (if_P Fine (str_eq run.intent "review") _ _
            (Kept-verdict (judged run.report run.scraped) _ _ (Kept-comment _ _ w (Kept-refl w)))
            (Kept-refl w))))
