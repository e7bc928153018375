-- ===== src/Advance/Outcome.antt =====
-- About the status that a run of an agent leaves an issue in.
use specseed.Prelude.{
  ℕ, suc, String, ◌≡◌, refl, sym, ap, ◌∙◌, inl, inr, ◌⊎◌, Bool, true, false, ◌||◌, not, Option,
  none, some, [], In, str_eq, ltb, leb, if◌then◌else◌, Bool-cases,
}
use specseed.Entities.{Entity, is_work_tier, or_else, status_from_labels}
use specseed.Prelude.Text.{starts_with, has_part}
use specseed.Tracker.Labels.{Stored}
use specseed.Tracker.Writes.{
  add_entry_comment-labels, add_entry_comment-Stored, add_entry-before, add_entry-Stored,
  add_entry-after,
}
use specseed.Tracker.Read.{labels_for_entry}
use specseed.Advance.Status.{
  Sole, Sole-status, Current, set_status-Stored, set_status-Sole, status-get_entry,
}
use specseed.Advance.Writes.{
  Ctx, World, WorkTransition, next_apr_id, status_label, set_status, comment, add_draft,
  draft_adapt_post, draft_labels, is_stale, names_status, remote_status,
}
use specseed.Advance.Settle.{issue_has_branch, settle_or_merge, below_confidence_comment}
use specseed.Advance.Signals.{count_review_attempts}
use specseed.Advance.Work.{
  Report, Run, implement_recommends, says_blocked, implement_stuck, advance_after_implement, judged,
  review_blocked, after_verdict, advance_after_review, apply_post_work_transition,
}
use specseed.Advance.Merged.{if_P, tier-issue}

-- the status that a review leaves, none where it leaves the one there is
review_status : Ctx → Report → (attempt : ℕ) → Option String
review_status ctx review attempt =
    if str_eq review.verdict "approve"
    then (if leb ctx.confidence_threshold review.confidence then none else some "awaiting_approval")
    else if ltb attempt ctx.max_attempts
    then some "todo"
    else some "blocked"

implement_status : (review_required hitl_required : Bool) → Report → Option String
implement_status review_required hitl_required report =
    if report.recommend_spec_change || says_blocked report
    then some "blocked"
    else if review_required
    then some "in_review"
    else if hitl_required
    then some "awaiting_approval"
    else none

-- that of a run by its intent
pub run_status : Ctx → Run → Option String
run_status ctx run =
    if str_eq run.intent "implement"
    then implement_status run.review_required run.hitl_required run.report
    else if str_eq run.intent "review"
    then review_status ctx (judged run.report run.scraped)
        (suc (count_review_attempts run.conversation))
    else none

if_P2 :
    {A B : Type 0} (P : A → B → Type 0) (b : Bool) (x y : A) (u v : B)
    → (b ≡ true → P x u)
    → (b ≡ false → P y v)
    → P (if b then x else y) (if b then u else v)
if_P2 P true x y u v p q = p refl
if_P2 P false x y u v p q = q refl

if_no :
    {A : Type 0} (P : A → Type 0) (b : Bool) (x y : A) → b ≡ false → P y → P (if b then x else y)
if_no P true x y e q = absurd (cc)
if_no P false x y e q = q

-- none of the labels of a draft names a status
draft-names : (m : String) → In m draft_labels → names_status m ≡ false
unfolding names_status starts_with has_part
draft-names m (inl e) = rw e refl
draft-names m (inr (inl e)) = rw e refl
draft-names m (inr (inr (inl e))) = rw e refl
draft-names m (inr (inr (inr i))) = elim i [ ]

module _ (ctx : Ctx) (entity : Entity) (issue : issue_has_branch entity ≡ true) (k : ℕ) where
  -- the post is there and the snapshot of it is current
  Ready : World → Type 0
  Ready w = Stored entity.post_id k w.remote × Current entity k w

  -- the status is st
  At : String → World → Type 0
  At st w = Stored entity.post_id k w.remote × Sole k (status_label (some "issue") st) w

  At-set_status : (st : String) (w : World) → Ready w → At st (set_status ctx entity st w)
  unfolding At Ready is_work_tier str_eq
  At-set_status st w (p, c) = (
    set_status-Stored ctx entity st w k p,
    set_status-Sole ctx entity st "issue" w k p (tier-issue ctx entity issue w) refl c,
  )

  At-comment : (st body : String) (w : World) → At st w → At st (comment ctx entity.post_id body w)
  unfolding At comment
  At-comment st body w (p, (l, only)) = (
    add_entry_comment-Stored ctx.now entity.post_id w.remote k entity.post_id _ p,
    (
      rw (add_entry_comment-labels ctx.now entity.post_id w.remote) l,
      λ m g n. only m (rw (add_entry_comment-labels ctx.now entity.post_id w.remote) at g) n,
    ),
  )

  Ready-comment : (body : String) (w : World) → Ready w → Ready (comment ctx entity.post_id body w)
  unfolding Ready comment
  Ready-comment body w (p, c) = (
    add_entry_comment-Stored ctx.now entity.post_id w.remote k entity.post_id _ p,
    λ m g n. c m (rw (add_entry_comment-labels ctx.now entity.post_id w.remote) at g) n,
  )

  status-comment :
      (body : String) (w : World)
      → Stored entity.post_id k w.remote
      → remote_status entity.post_id (comment ctx entity.post_id body w)
        ≡ remote_status entity.post_id w
  status-comment body w p =
      status-get_entry entity.post_id k (comment ctx entity.post_id body w) (stays p)
      ∙ same
      ∙ sym (status-get_entry entity.post_id k w p)
    where
      stays :
          Stored entity.post_id k w.remote
          → Stored entity.post_id k (comment ctx entity.post_id body w).remote
      stays p =
          unfold comment in
          add_entry_comment-Stored ctx.now entity.post_id w.remote k entity.post_id _ p

      same :
          status_from_labels (labels_for_entry k (comment ctx entity.post_id body w).remote)
          ≡ status_from_labels (labels_for_entry k w.remote)
      same =
          unfold comment in
          unfold labels_for_entry in
          rw (add_entry_comment-labels ctx.now entity.post_id w.remote) refl

  old_or_draft : (m : String) {A : Type 0} → names_status m ≡ true → A ⊎ In m draft_labels → A
  old_or_draft m n (inl g) = g
  old_or_draft m n (inr i) = absurd (cc (draft-names m i, n))

  At-draft :
      (st title reason summary : String) (w : World)
      → At st w
      → At st (draft_adapt_post ctx title reason summary w).0
  unfolding At draft_adapt_post add_draft
  At-draft st title reason summary w (p, (l, only)) = (
    add_entry-Stored entity.post_id k ctx.now title _ draft_labels [] w.remote p,
    (
      add_entry-after ctx.now title _ draft_labels [] w.remote k _ l,
      λ m g n.
          only m
            (old_or_draft m n (add_entry-before ctx.now title _ draft_labels [] w.remote k m g)) n,
    ),
  )

  Ready-draft :
      (title reason summary : String) (w : World)
      → Ready w
      → Ready (draft_adapt_post ctx title reason summary w).0
  unfolding Ready draft_adapt_post add_draft
  Ready-draft title reason summary w (p, c) = (
    add_entry-Stored entity.post_id k ctx.now title _ draft_labels [] w.remote p,
    λ m g n.
        c m (old_or_draft m n (add_entry-before ctx.now title _ draft_labels [] w.remote k m g)) n,
  )

  At-next_apr_id : (st : String) (w : World) → At st w → At st (next_apr_id w).0
  unfolding At next_apr_id
  At-next_apr_id st w a = a

  At-status : (st : String) (w : World) → At st w → remote_status entity.post_id w ≡ some st
  unfolding At is_work_tier str_eq
  At-status st w (p, s) = Sole-status entity.post_id k "issue" st w p refl s

  abbrev pub Ends : (w : World) → World × WorkTransition → Option String → Type 0
  Ends w r o = remote_status entity.post_id r.0 ≡ or_else o (remote_status entity.post_id w)

  settle :
      (reason : String) (w v : World)
      → remote_status entity.post_id v ≡ remote_status entity.post_id w
      → Ends w (settle_or_merge ctx entity reason v) none
  unfolding settle_or_merge
  settle reason w v e = rw issue (if_P (λ r. Ends w r none) ctx.merge_gated _ _ e e)

  implement-Ends :
      (review hitl : Bool) (report : Report) (w : World)
      → Ready w
      → Ends w
          (advance_after_implement ctx entity review hitl report w)
          (implement_status review hitl report)
  unfolding advance_after_implement implement_status implement_recommends implement_stuck
  implement-Ends review hitl report w r = elim (Bool-cases report.recommend_spec_change) [
    | inl t ↦ rw t (
        At-status "blocked" _
          (At-comment "blocked" _ _ (At-set_status "blocked" _ (Ready-draft _ _ _ w r))))
    | inr t ↦ rw t (
        if_P2 (Ends w) (says_blocked report) _ _ _ _
          (λ _. At-status "blocked" _ (At-set_status "blocked" _ (Ready-comment _ w r)))
          (λ _.
            if_P2 (Ends w) review _ _ _ _
              (λ _. At-status "in_review" _ (At-set_status "in_review" w r))
              (λ _.
                if_P2 (Ends w) hitl _ _ _ _
                  (λ _. At-status "awaiting_approval" _ (
                    At-comment "awaiting_approval" _ _ (
                      At-next_apr_id "awaiting_approval" _
                        (At-set_status "awaiting_approval" w r))))
                  (λ _. settle "implement done" w w refl))))
  ]

  blocked-Ends :
      (review : Report) (attempt : ℕ) (w v : World)
      → Ready v
      → Ends w (review_blocked ctx entity review attempt v) (some "blocked")
  unfolding review_blocked
  blocked-Ends review attempt w v r =
      if_P (λ x. Ends w x (some "blocked")) review.recommend_spec_change _ _
        (At-status "blocked" _
          (At-comment "blocked" _ _ (At-draft "blocked" _ _ _ _ (At-set_status "blocked" v r))))
        (At-status "blocked" _ (At-comment "blocked" _ _ (At-set_status "blocked" v r)))

  verdict-Ends :
      (review : Report) (attempt : ℕ) (w v : World)
      → Ready v
      → remote_status entity.post_id v ≡ remote_status entity.post_id w
      → Ends w (after_verdict ctx entity review attempt v) (review_status ctx review attempt)
  unfolding after_verdict review_status below_confidence_comment
  verdict-Ends review attempt w v r e =
      if_P2 (Ends w) (str_eq review.verdict "approve") _ _ _ _
        (λ _.
          if_P2 (Ends w) (leb ctx.confidence_threshold review.confidence) _ _ _ _
            (λ _. settle "review passed" w v e)
            (λ _. At-status "awaiting_approval" _ (
              At-comment "awaiting_approval" _ _
                (At-next_apr_id "awaiting_approval" _ (At-set_status "awaiting_approval" v r)))))
        (λ _.
          if_P2 (Ends w) (ltb attempt ctx.max_attempts) _ _ _ _
            (λ _. At-status "todo" _ (At-set_status "todo" v r))
            (λ _. blocked-Ends review attempt w v r))

  Ready-Stored : (w : World) → Ready w → Stored entity.post_id k w.remote
  unfolding Ready
  Ready-Stored w r = r.0

  ready : (w : World) → Stored entity.post_id k w.remote → Current entity k w → Ready w
  unfolding Ready
  ready w p c = (p, c)

  review-Ends :
      (run : Run) (w : World)
      → Ready w
      → Ends w (advance_after_review ctx entity run.report run.scraped run.conversation w) (
          review_status ctx
            (judged run.report run.scraped)
            (suc (count_review_attempts run.conversation)))
  unfolding advance_after_review
  review-Ends run w r =
      verdict-Ends (judged run.report run.scraped) (suc (count_review_attempts run.conversation)) w
        _ (Ready-comment _ w r) (status-comment _ w (Ready-Stored w r))

-- Where writes are permitted, an issue's post is on the tracker, the snapshot misses no status label
-- of it and is not stale, a run leaves exactly the status that `run_status` says: after an implement
-- run `blocked` where the agent is stuck or doubts the specification, else the first gate that is on;
-- after a review nothing new where it approves with enough confidence, `awaiting_approval` where it
-- approves with less, `todo` while attempts are left, and `blocked` then. Where no gate is left, and
-- after any other run, the status stays.
pub apply_post_work_transition_lem :
    (ctx : Ctx) (entity : Entity) (run : Run) (w : World) (k : ℕ)
    → issue_has_branch entity ≡ true
    → ctx.can_write ≡ true
    → is_stale entity w ≡ false
    → Stored entity.post_id k w.remote
    → Current entity k w
    → remote_status entity.post_id (apply_post_work_transition ctx entity run w).0
      ≡ or_else (run_status ctx run) (remote_status entity.post_id w)
unfolding apply_post_work_transition run_status
apply_post_work_transition_lem ctx entity run w k issue can fresh p c =
    if_no (λ r. Ends ctx entity issue k w r (run_status ctx run)) (not ctx.can_write) _ _
      (ap not can)
      (if_no (λ r. Ends ctx entity issue k w r (run_status ctx run)) (is_stale entity w) _ _ fresh
        (if_P2 (Ends ctx entity issue k w) (str_eq run.intent "implement") _ _ _ _
          (λ _.
            implement-Ends ctx entity issue k run.review_required run.hitl_required run.report w
              (ready ctx entity issue k w p c))
          (λ _.
            if_P2 (Ends ctx entity issue k w) (str_eq run.intent "review") _ _ _ _
              (λ _. review-Ends ctx entity issue k run w (ready ctx entity issue k w p c))
              (λ _. refl))))
