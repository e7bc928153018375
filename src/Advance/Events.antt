-- ===== src/Advance/Events.antt =====
-- About sequences of events at one issue: runs of an agent and signals of people, in any order.
use specseed.Prelude.{
  ℕ, String, ◌≡◌, Bool, true, false, ◌||◌, not, Option, none, some, List, [], ◌∷◌, ltb,
}
use specseed.Entities.{Entity, Comment, status}
use specseed.Tracker.Labels.{Labelled}
use specseed.Advance.Writes.{Ctx, World, is_stale}
use specseed.Advance.RollUp.{is_text}
use specseed.Advance.Settle.{
  issue_has_branch, move_to, park_awaiting_merge, open_merge_gate_ready,
  park_for_implement_approval, park_unmerged, auto_assign_to_agent,
}
use specseed.Advance.Signals.{
  GateSignals, Directive, silent, retry, reject_bare, guidance, human_directive,
  options_already_posted, count_review_attempts, Override, no_override, approve_over, merge_over,
}
use specseed.Advance.Work.{Run, Report, apply_post_work_transition, apply_ask_answer}
use specseed.Advance.Resolve.{
  Verdicts, rework, resolve_pure_merge_gate, ask_options, follow, resolve_directive,
  resolve_combined_gate, resolve_plain_gate, resolve_approval, redo, resolve_awaiting_merge,
  some_of, is_comment_action, at_gate, directive_if, confirm,
}
use specseed.Advance.Unblock.{override, force, move_over, resolve_blocked}
use specseed.Advance.Cancelled.{block_on_cancelled_dep}
use specseed.Advance.Parked.{Kept-cancelled, Kept-assign, Kept-answer, Kept-unmerged}
use specseed.Advance.Merged.{
  Kept, Kept-refl, if_P, Kept-comment, Kept-next_apr_id, Kept-settle_or_merge, Kept-work, Fine,
  to_todo, to_merge, to_approval,
}

module _ (ctx : Ctx) (entity : Entity) (issue : issue_has_branch entity ≡ true) (w : World) where
  Kept-rework :
      (note detail : String) (v : World) → Kept w v → Kept w (rework ctx entity note detail v).0
  unfolding rework
  Kept-rework note detail v h =
      Kept-comment ctx entity issue w entity.post_id note _ (to_todo ctx entity issue w v h)

  Kept-ask_options : (v : World) → Kept w v → Kept w (ask_options ctx entity v).0
  unfolding ask_options
  Kept-ask_options v h =
      if_P (Fine ctx entity issue w) (options_already_posted entity.post_id v) _ _ h
        (Kept-comment ctx entity issue w _ _ v h)

  Kept-follow :
      (d : Directive) (rejected : Bool) (v : World)
      → Kept w v
      → Kept w (follow ctx entity d rejected v).0
  unfolding follow
  Kept-follow retry rejected v h = Kept-rework _ "" v h
  Kept-follow (guidance t) rejected v h = Kept-rework _ "" v h
  Kept-follow reject_bare rejected v h = Kept-ask_options v h
  Kept-follow silent rejected v h =
      if_P (Fine ctx entity issue w) rejected _ _ (Kept-ask_options v h) h

  Kept-park : (v : World) → Kept w v → Kept w (park_awaiting_merge ctx entity v).0
  unfolding park_awaiting_merge move_to
  Kept-park v h = Kept-comment ctx entity issue w _ _ _ (
      if_P (Kept w) (is_text "awaiting_merge" (status entity)) _ _
        (Kept-next_apr_id ctx entity issue w v h)
        (to_merge ctx entity issue w _ (Kept-next_apr_id ctx entity issue w v h)))

  Kept-pure :
      (sig : GateSignals) (v : World)
      → Kept w v
      → Kept w (resolve_pure_merge_gate ctx entity sig v).0
  unfolding resolve_pure_merge_gate
  Kept-pure sig v h =
      if_P (Fine ctx entity issue w) (some_of sig.approve || some_of sig.merge) _ _
        (Kept-comment ctx entity issue w _ _ v h)
        (if_P (Fine ctx entity issue w) (some_of sig.reject) _ _
          (Kept-park _ (Kept-comment ctx entity issue w _ _ v h)) h)

  Kept-combined :
      (sig : GateSignals) (cs : List Comment) (b : Bool) (v : World)
      → Kept w v
      → Kept w (resolve_combined_gate ctx entity sig cs b v).0
  unfolding resolve_combined_gate resolve_directive
  Kept-combined sig cs b v h =
      if_P (Fine ctx entity issue w) (some_of sig.merge) _ _
        (Kept-comment ctx entity issue w _ _ v h)
        (if_P (Fine ctx entity issue w) (some_of sig.approve) _ _
          (Kept-comment ctx entity issue w _ _ v h)
          (Kept-follow (directive_if b ctx cs) (some_of sig.reject) v h))

  Kept-plain :
      (s : Verdicts) (cs : List Comment) (b : Bool) (v : World)
      → Kept w v
      → Kept w (resolve_plain_gate ctx entity s cs b v).0
  unfolding resolve_plain_gate resolve_directive
  Kept-plain s cs b v h =
      if_P (Fine ctx entity issue w) (some_of s.approved || some_of s.merge_approved) _ _
        (if_P (Fine ctx entity issue w) (ltb 0 (count_review_attempts cs)) _ _
          (Kept-comment ctx entity issue w _ _ _ (Kept-settle_or_merge ctx entity issue w _ v h))
          (Kept-rework _ "" v h))
        (Kept-follow (directive_if b ctx cs) (some_of s.rejected) v h)

  Kept-at_gate :
      (pure combined : Option GateSignals) (s : Verdicts) (cs : List Comment) (b : Bool)
      → Kept w (at_gate ctx entity pure combined s cs b w).0
  Kept-at_gate (some pure) combined s cs b = Kept-pure pure w (Kept-refl w)
  Kept-at_gate none (some combined) s cs b = Kept-combined combined cs b w (Kept-refl w)
  Kept-at_gate none none s cs b = Kept-plain s cs b w (Kept-refl w)

  Kept-approval :
      (s : Verdicts) (cs : List Comment) (action : String)
      → Kept w (resolve_approval ctx entity s cs action w).0
  unfolding resolve_approval
  Kept-approval s cs action =
      if_P (Fine ctx entity issue w)
        (not (is_text "awaiting_approval" (status entity)) || not ctx.can_write) _ _ (Kept-refl w)
        (if_P (Fine ctx entity issue w) _ _ _ (Kept-refl w) (
          if_P (Fine ctx entity issue w) (is_stale entity w) _ _ (Kept-refl w)
            (Kept-at_gate _ _ s cs (is_comment_action action))))

  Kept-redo : (from revise : String) (d : Directive) → Kept w (redo ctx entity from revise d w).0
  unfolding redo
  Kept-redo from revise retry = Kept-rework _ "" w (Kept-refl w)
  Kept-redo from revise (guidance t) = Kept-rework _ "" w (Kept-refl w)
  Kept-redo from revise reject_bare = Kept-refl w
  Kept-redo from revise silent = Kept-refl w

  Kept-confirm :
      (cs : List Comment) (b : Bool) (by : Option String) → Kept w (confirm ctx entity cs b by w).0
  unfolding confirm
  Kept-confirm cs b (some by) = Kept-comment ctx entity issue w _ _ w (Kept-refl w)
  Kept-confirm cs b none = Kept-redo "awaiting_merge" "revise" (directive_if b ctx cs)

  Kept-awaiting :
      (cs : List Comment) (action : String)
      → Kept w (resolve_awaiting_merge ctx entity cs action w).0
  unfolding resolve_awaiting_merge
  Kept-awaiting cs action =
      if_P (Fine ctx entity issue w)
        (not (is_text "awaiting_merge" (status entity)) || not ctx.can_write) _ _ (Kept-refl w)
        (if_P (Fine ctx entity issue w) _ _ _ (Kept-refl w) (
          if_P (Fine ctx entity issue w) (is_stale entity w) _ _ (Kept-refl w)
            (Kept-confirm cs (is_comment_action action) _)))

  Kept-force : (author : String) (merge : Bool) → Kept w (force ctx entity author merge w).0
  unfolding force
  Kept-force author merge = rw issue (
      if_P (Fine ctx entity issue w) (merge || not ctx.merge_gated) _ _
        (Kept-comment ctx entity issue w _ _ w (Kept-refl w))
        (Kept-comment ctx entity issue w _ _ w (Kept-refl w)))

  Kept-move_over : (cs : List Comment) (o : Override) → Kept w (move_over ctx entity cs o w).0
  unfolding move_over
  Kept-move_over cs merge_over = Kept-force _ true
  Kept-move_over cs approve_over = Kept-force _ false
  Kept-move_over cs no_override =
      Kept-redo "blocked" "revise with guidance" (human_directive ctx.config cs)

  Kept-blocked :
      (cs : List Comment) (action : String) → Kept w (resolve_blocked ctx entity cs action w).0
  unfolding resolve_blocked
  Kept-blocked cs action =
      if_P (Fine ctx entity issue w) (not (is_text "blocked" (status entity))) _ _ (Kept-refl w) (
        if_P (Fine ctx entity issue w) (not (is_comment_action action)) _ _ (Kept-refl w) (
          if_P (Fine ctx entity issue w) (not ctx.can_write) _ _ (Kept-refl w) (
            if_P (Fine ctx entity issue w) (is_stale entity w) _ _ (Kept-refl w)
              (Kept-move_over cs (override ctx entity cs)))))

  Kept-implement_approval : Kept w (park_for_implement_approval ctx entity w).0
  unfolding park_for_implement_approval
  Kept-implement_approval =
      if_P {A = World × String} (λ r. Kept w r.0) (not ctx.can_write) _ _ (Kept-refl w)
        (if_P {A = World × String} (λ r. Kept w r.0) (is_stale entity w) _ _ (Kept-refl w)
          (Kept-comment ctx entity issue w _ _ _ (
            Kept-next_apr_id ctx entity issue w _
              (to_approval ctx entity issue w w (Kept-refl w)))))

  Kept-gate : Kept w (open_merge_gate_ready ctx entity w).0
  unfolding open_merge_gate_ready move_to
  Kept-gate = Kept-comment ctx entity issue w _ _ _ (
      if_P (Kept w) (is_text "awaiting_approval" (status entity)) _ _
        (Kept-next_apr_id ctx entity issue w w (Kept-refl w))
        (to_approval ctx entity issue w _ (Kept-next_apr_id ctx entity issue w w (Kept-refl w))))

-- what can happen at a work item, with the conversation and the action of the task
pub data Event : Type 0 where
  worked : Run → Event
  approval : Verdicts → List Comment → String → Event
  awaiting : List Comment → String → Event
  unblock : List Comment → String → Event
  implement_gate merge_gate unmerged : Event
  cancelled : List (String × String) → Event
  assigned : (assignees : List String) → Event
  answered : Report → Event

-- the operation of advance.py that dispatch.py or work_runner.py calls
unfoldable pub happen : Ctx → Entity → Event → World → World
happen ctx entity (worked run) w = (apply_post_work_transition ctx entity run w).0
happen ctx entity (approval s cs action) w = (resolve_approval ctx entity s cs action w).0
happen ctx entity (awaiting cs action) w = (resolve_awaiting_merge ctx entity cs action w).0
happen ctx entity (unblock cs action) w = (resolve_blocked ctx entity cs action w).0
happen ctx entity implement_gate w = (park_for_implement_approval ctx entity w).0
happen ctx entity merge_gate w = (open_merge_gate_ready ctx entity w).0
happen ctx entity unmerged w = park_unmerged ctx entity w
happen ctx entity (cancelled deps) w = (block_on_cancelled_dep ctx entity deps w).0
happen ctx entity (assigned names) w = (auto_assign_to_agent ctx entity names w).0
happen ctx entity (answered report) w = (apply_ask_answer ctx entity report w).0

-- each event meets the work item as the mirror has it then
unfoldable pub happen_all : Ctx → List (Entity × Event) → World → World
happen_all ctx [] w = w
happen_all ctx ((entity, e) ∷ es) w = happen_all ctx es (happen ctx entity e w)

-- all are issues
abbrev pub Issues : List (Entity × Event) → Type 0
Issues [] = Unit {0}
Issues ((entity, e) ∷ es) = (issue_has_branch entity ≡ true) × Issues es

happen-Kept :
    (ctx : Ctx) (entity : Entity) (e : Event) (w : World)
    → issue_has_branch entity ≡ true
    → Kept w (happen ctx entity e w)
unfolding happen
happen-Kept ctx entity (worked run) w issue = Kept-work ctx entity issue w run
happen-Kept ctx entity (approval s cs action) w issue = Kept-approval ctx entity issue w s cs action
happen-Kept ctx entity (awaiting cs action) w issue = Kept-awaiting ctx entity issue w cs action
happen-Kept ctx entity (unblock cs action) w issue = Kept-blocked ctx entity issue w cs action
happen-Kept ctx entity implement_gate w issue = Kept-implement_approval ctx entity issue w
happen-Kept ctx entity merge_gate w issue = Kept-gate ctx entity issue w
happen-Kept ctx entity unmerged w issue = Kept-unmerged ctx entity issue w
happen-Kept ctx entity (cancelled deps) w issue = Kept-cancelled ctx entity issue w deps
happen-Kept ctx entity (assigned names) w issue = Kept-assign ctx entity issue w names
happen-Kept ctx entity (answered report) w issue = Kept-answer ctx entity issue w report

-- However stale the snapshots are, and in any order, none of these operations of advance.py on
-- issues gives a post the label `issue:status:done`: the transition after a run, the answer to an
-- ask, the resolution of an approval, of a merge that waits and of a block, the gates before an
-- implementation and before a merge, the park of an issue that did not merge, the block on
-- cancelled dependencies, and the assignment to the agent.
pub happen_all-done :
    (ctx : Ctx) (es : List (Entity × Event)) (w : World) (j : ℕ)
    → Issues es
    → Labelled j "issue:status:done" (happen_all ctx es w).remote
    → Labelled j "issue:status:done" w.remote
unfolding happen_all Kept
happen_all-done ctx [] w j issues h = h
happen_all-done ctx ((entity, e) ∷ es) w j issues h =
    happen-Kept ctx entity e w issues.0 j
      (happen_all-done ctx es (happen ctx entity e w) j issues.1 h)
