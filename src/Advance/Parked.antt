-- ===== src/Advance/Parked.antt =====
-- About the label `issue:status:done`: what dispatch.py does to an issue beside its runs and gates
-- (executing/advance.py) does not put it on a post.
use specseed.Prelude.{String, ◌≡◌, inl, inr, true, not, List, [], ◌∷◌, str_eq, Option-cases}
use specseed.Prelude.Text.{strip}
use specseed.Entities.{Entity}
use specseed.StateMachine.{contains}
use specseed.Identity.{agent_assignee}
use specseed.Tracker.Writes.{set_entry_assignees-labels}
use specseed.Advance.Writes.{Ctx, World, set_status}
use specseed.Advance.Settle.{
  issue_has_branch, find_open_adapt_with_marker, auto_assign_to_agent, park_unmerged,
}
use specseed.Advance.Wording.{dep_cancelled_marker}
use specseed.Advance.Work.{Report, apply_ask_answer}
use specseed.Advance.Cancelled.{ensure_cancelled_dep_adapt, ensure_all, block_on_cancelled_dep}
use specseed.Advance.Merged.{Kept, Kept-refl, if_P, Kept-comment, Kept-add_draft, to_blocked}

module _ (ctx : Ctx) (entity : Entity) (issue : issue_has_branch entity ≡ true) (w : World) where
  Kept-ensure :
      (dep st : String) (v : World) → Kept w v → Kept w (ensure_cancelled_dep_adapt ctx dep st v).0
  unfolding ensure_cancelled_dep_adapt
  Kept-ensure dep st v h =
      elim (Option-cases (find_open_adapt_with_marker (dep_cancelled_marker dep) v)) [
        | inl e ↦ rw (ensure_cancelled_dep_adapt, e) (Kept-add_draft ctx entity issue w _ _ v h)
        | inr (id, e) ↦ rw (ensure_cancelled_dep_adapt, e) h
      ]

  Kept-ensure_all :
      (deps : List (String × String)) (v : World) → Kept w v → Kept w (ensure_all ctx deps v).0
  unfolding ensure_all
  Kept-ensure_all [] v h = h
  Kept-ensure_all ((dep, st) ∷ deps) v h =
      Kept-ensure_all deps (ensure_cancelled_dep_adapt ctx dep st v).0 (Kept-ensure dep st v h)

  pub Kept-cancelled :
      (deps : List (String × String)) → Kept w (block_on_cancelled_dep ctx entity deps w).0
  unfolding block_on_cancelled_dep
  Kept-cancelled deps =
      if_P {A = World × String} (λ r. Kept w r.0) ctx.can_write _ _
        (Kept-comment ctx entity issue w _ _ _ (
          Kept-ensure_all deps (set_status ctx entity "blocked" w)
            (to_blocked ctx entity issue w w (Kept-refl w))))
        (Kept-refl w)

  pub Kept-assign : (names : List String) → Kept w (auto_assign_to_agent ctx entity names w).0
  unfolding auto_assign_to_agent Kept
  Kept-assign names =
      let agent = agent_assignee ctx.config in
      let P = λ (r : World × List String). Kept w r.0 in
      if_P P (str_eq agent "") _ _ (Kept-refl w) (
        if_P P (not ctx.can_write) _ _ (Kept-refl w) (
          if_P P (contains agent names) _ _ (Kept-refl w)
            (λ j g. rw (set_entry_assignees-labels ctx.now entity.post_id w.remote _) at g)))

  pub Kept-answer : (report : Report) → Kept w (apply_ask_answer ctx entity report w).0
  unfolding apply_ask_answer
  Kept-answer report =
      let P = λ (r : World × String). Kept w r.0 in
      if_P P (not ctx.can_write) _ _ (Kept-refl w) (
        if_P P (str_eq (strip report.answer) "") _ _ (Kept-refl w)
          (Kept-comment ctx entity issue w _ _ w (Kept-refl w)))

  pub Kept-unmerged : Kept w (park_unmerged ctx entity w)
  Kept-unmerged = to_blocked ctx entity issue w w (Kept-refl w)
