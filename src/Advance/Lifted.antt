-- ===== src/Advance/Lifted.antt =====
-- About `resolve_blocked` of executing/advance.py: when a comment moves an issue over a block.
use specseed.Prelude.{
  some_injective, String, ◌≡◌, ◌↔◌, ◌∙◌, ◌||◌, ◌&&◌, not, refl, sym, ap, inl, inr, Bool, true,
  false, Option, none, some, List, Bool-cases, str_eq_iff, if◌then◌else◌, arith,
}
use specseed.Entities.{Entity, Comment, status}
use specseed.Advance.Writes.{Ctx, World, WorkTransition, is_stale}
use specseed.Advance.RollUp.{is_text}
use specseed.Advance.Settle.{issue_has_branch}
use specseed.Advance.Resolve.{is_comment_action, redo, rework}
use specseed.Advance.Signals.{
  Directive, silent, retry, reject_bare, guidance, Override, no_override, merge_over,
  human_directive, approve_over,
}
use specseed.Advance.Unblock.{override, force, move_over, resolve_blocked}
use specseed.Advance.Standing.{
  forced, merges, Standing, Merging, override-Standing, override-Merging,
}

module _ (ctx : Ctx) (entity : Entity) (issue : issue_has_branch entity ≡ true) (w : World) where
  force-moves :
      (author : String) (merge : Bool)
      → ((force ctx entity author merge w).1.prepare ≡ true)
        × ((force ctx entity author merge w).1.merge ≡ (merge || not ctx.merge_gated))
  unfolding force
  force-moves author merge = elim (Bool-cases (merge || not ctx.merge_gated)) [
    | inl e ↦ rw (issue, e) (refl, refl)
    | inr e ↦ rw (issue, e) (refl, refl)
  ]

  redo-stays :
      (from revise : String) (d : Directive)
      → ((redo ctx entity from revise d w).1.prepare ≡ false)
        × ((redo ctx entity from revise d w).1.merge ≡ false)
  unfolding redo rework
  redo-stays from revise retry = (refl, refl)
  redo-stays from revise (guidance t) = (refl, refl)
  redo-stays from revise reject_bare = (refl, refl)
  redo-stays from revise silent = (refl, refl)

  move_over-moves :
      (cs : List Comment) (o : Override)
      → ((move_over ctx entity cs o w).1.prepare ≡ forced o)
        × ((move_over ctx entity cs o w).1.merge ≡ (forced o && (merges o || not ctx.merge_gated)))
  unfolding move_over
  move_over-moves cs approve_over = force-moves _ false
  move_over-moves cs merge_over = force-moves _ true
  move_over-moves cs no_override =
      redo-stays "blocked" "revise with guidance" (human_directive ctx.config cs)

is_text_iff : (s : String) (o : Option String) → (is_text s o ≡ true) ↔ (o ≡ some s)
is_text_iff s none = (λ e. cc, λ e. cc)
is_text_iff s (some t) =
    (λ e. ap some ((str_eq_iff t s).0 e), λ e. (str_eq_iff t s).1 (some_injective t s e))

-- a value behind the four guards of `resolve_blocked`
guards :
    (f : World × WorkTransition → Bool) (blocked acts can stale : Bool)
    (n st m : World × WorkTransition)
    → f n ≡ false
    → f st ≡ false
    → f (
        if not blocked
        then n
        else if not acts
        then n
        else if not can
        then n
        else if stale
        then st
        else m)
      ≡ (blocked && acts && can && not stale && f m)
guards f false acts can stale n st m h k = h
guards f true false can stale n st m h k = h
guards f true true false stale n st m h k = h
guards f true true true true n st m h k = k
guards f true true true false n st m h k = refl

module _ (ctx : Ctx) (entity : Entity) (cs : List Comment) (action : String) (w : World) where
  abbrev over : Override
  over = override ctx entity cs

  resolve_blocked-moves :
      issue_has_branch entity ≡ true
      → ((resolve_blocked ctx entity cs action w).1.prepare ≡ (
          is_text "blocked" (status entity)
          && is_comment_action action
          && ctx.can_write
          && not (is_stale entity w)
          && forced over))
        × ((resolve_blocked ctx entity cs action w).1.merge ≡ (
            is_text "blocked" (status entity)
            && is_comment_action action
            && ctx.can_write
            && not (is_stale entity w)
            && (forced over && (merges over || not ctx.merge_gated))))
  unfolding resolve_blocked
  resolve_blocked-moves issue =
      let m = move_over-moves ctx entity issue w cs over in
      (
        guards (λ r. r.1.prepare) (is_text "blocked" (status entity)) (is_comment_action action)
              ctx.can_write (is_stale entity w) _ _ (move_over ctx entity cs over w) refl refl
            ∙ rw m.0 refl,
        guards (λ r. r.1.merge) (is_text "blocked" (status entity)) (is_comment_action action)
              ctx.can_write (is_stale entity w) _ _ (move_over ctx entity cs over w) refl refl
            ∙ rw m.1 refl,
      )

  -- the guards of the command
  pub record Reached : Type 0 where
    pub is_blocked : status entity ≡ some "blocked"
    pub by_comment : is_comment_action action ≡ true
    pub writes : ctx.can_write ≡ true
    pub current : is_stale entity w ≡ false

  read_guards :
      (b : Bool)
      → (is_text "blocked" (status entity)
          && is_comment_action action
          && ctx.can_write
          && not (is_stale entity w)
          && b)
        ≡ true
      → Reached × (b ≡ true)
  read_guards b e = (
    record {
      is_blocked = (is_text_iff "blocked" (status entity)).0 (ground (arith, e));
      by_comment = ground (arith, e);
      writes = ground (arith, e);
      current = ground (arith, e);
    },
    ground (arith, e),
  )

  pass_guards :
      (b : Bool)
      → Reached
      → b ≡ true
      → (is_text "blocked" (status entity)
          && is_comment_action action
          && ctx.can_write
          && not (is_stale entity w)
          && b)
        ≡ true
  pass_guards b r e =
      rw
        (
          (is_text_iff "blocked" (status entity)).1 r.is_blocked,
          r.by_comment,
          r.writes,
          r.current,
          e,
        )
        refl

  -- An issue that has a branch is forced on (its branch is to be readied) by `resolve_blocked` exactly
  -- when it is blocked, the event is a comment, the runtime may write, the snapshot is not stale, and
  -- the latest comment of a person is an approve or a merge command for the issue, whoever wrote it,
  -- where some comment of the conversation gives a command of that kind for it by someone who may
  -- approve. It is to be merged too exactly when, besides, the command is a merge command or the
  -- merge has no gate of its own.
  pub resolve_blocked_lem :
      issue_has_branch entity ≡ true
      → (((resolve_blocked ctx entity cs action w).1.prepare ≡ true)
          ↔ (Reached × Standing ctx entity cs))
        × (((resolve_blocked ctx entity cs action w).1.merge ≡ true)
            ↔ (Reached × Merging ctx entity cs))
  resolve_blocked_lem issue =
      let m = resolve_blocked-moves issue in
      let s = override-Standing ctx entity cs in
      let g = override-Merging ctx entity cs in
      (
        (
          λ e. let (r, f) = read_guards _ (sym m.0 ∙ e) in (r, s.0 f),
          λ (r, f). m.0 ∙ pass_guards _ r (s.1 f),
        ),
        (
          λ e. let (r, f) = read_guards _ (sym m.1 ∙ e) in (r, g.0 f),
          λ (r, f). m.1 ∙ pass_guards _ r (g.1 f),
        ),
      )
