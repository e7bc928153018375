-- ===== src/Advance/Cancelled.antt =====
-- executing/advance.py: work that depends on a cancelled post is blocked, with one draft post for
-- each cancelled dependency.
use specseed.Prelude.{
  String, Bool, true, false, not, Option, none, some, List, [], ◌∷◌, map, str_eq, if◌then◌else◌,
}
use specseed.Prelude.Text.{cat, decimal}
use specseed.Entities.{Entity, tier_from_labels}
use specseed.Entities.Links.{parse_depends_on, parse_parent}
use specseed.StateMachine.{contains}
use specseed.Tracker.{Store}
use specseed.Tracker.Read.{Summary, list_entries, get_entry}
use specseed.Advance.Wording.{dep_cancelled_marker}
use specseed.Advance.Writes.{Ctx, World, set_status, comment, add_draft}
use specseed.Advance.RollUp.{is_text}
use specseed.Advance.Settle.{find_open_adapt_with_marker, joined, body_of}

-- what the parent of a body says it depends on
abbrev deps_of_parent : Store → Option String → List String
deps_of_parent s none = []
deps_of_parent s (some p) = if str_eq p "" then [] else parse_depends_on (body_of p s)

unfoldable pub depends_on : String → Store → Summary → Bool
unfolding tier_from_labels parse_depends_on parse_parent get_entry decimal str_eq
depends_on dep s e =
    let body = body_of (decimal e.id) s in
    if not (is_text "issue" (tier_from_labels e.labels))
    then false
    else if contains dep (parse_depends_on body)
    then true
    else contains dep (deps_of_parent s (parse_parent body))

unfoldable pub dependents_in : String → Store → List Summary → List String
unfolding depends_on decimal
dependents_in dep s [] = []
dependents_in dep s (e ∷ es) =
    let rest = dependents_in dep s es in if depends_on dep s e then decimal e.id ∷ rest else rest

-- `_dependents_of`
unfoldable pub dependents_of : String → World → List String
unfolding dependents_in list_entries
dependents_of dep w = dependents_in dep w.remote (list_entries none [] none none w.remote)

abbrev listing : List String → String
listing [] = "- (none resolved yet)"
listing (d ∷ []) = cat ("- #" ∷ d ∷ [])
listing (d ∷ e ∷ ds) = cat ("- #" ∷ d ∷ "\n" ∷ listing (e ∷ ds) ∷ [])

unfoldable pub cancelled_dep_body : (dep status : String) → List String → String
unfolding cat
cancelled_dep_body dep status dependents = cat (
    "Dependency **#"
    ∷ dep
    ∷ "** was cancelled (`"
    ∷ status
    ∷ "`), but other work declared a hard dependency "
    ∷ "on it, so that work is parked `blocked` - its foundation will never land.\n\n"
    ∷ "Blocked by this cancellation:\n"
    ∷ listing dependents
    ∷ "\n\n"
    ∷ "Decide per item: **rework** it so it no longer needs #"
    ∷ dep
    ∷ ", let it **continue** without the "
    ∷ "dep (reply to unblock), or **cancel** it too. This is a **draft** `spec-change:adapt` - "
    ∷ "discuss, then drop the `draft` label to let the spec-change worker adapt the spec.\n\n"
    ∷ dep_cancelled_marker dep
    ∷ [])

-- `_ensure_cancelled_dep_adapt`
unfoldable pub ensure_cancelled_dep_adapt :
    Ctx → (dep status : String) → World → World × Option String
unfolding find_open_adapt_with_marker dependents_of cancelled_dep_body add_draft decimal
ensure_cancelled_dep_adapt ctx dep status w =
    elim (find_open_adapt_with_marker (dep_cancelled_marker dep) w) [
      | some id ↦ (w, some (decimal id))
      | none ↦
          let (w', made) =
            add_draft ctx
              (cat ("Spec adapt: dependency #" ∷ dep ∷ " cancelled, dependents blocked" ∷ []))
              (cancelled_dep_body dep status (dependents_of dep w)) w in
          (w', elim made [ none ↦ none | some id ↦ some (decimal id) ])
    ]

unfoldable pub ensure_all :
    Ctx → List (String × String) → World → World × List (String × String × Option String)
unfolding ensure_cancelled_dep_adapt
ensure_all ctx [] w = (w, [])
ensure_all ctx ((dep, status) ∷ rest) w =
    let (w', id) = ensure_cancelled_dep_adapt ctx dep status w in
    let (w'', refs) = ensure_all ctx rest w' in (w'', (dep, status, id) ∷ refs)

abbrev see : Option String → String
see none = ""
see (some id) = cat (" - see spec-adapt #" ∷ id ∷ [])

unfoldable pub blocked_lines : List (String × String × Option String) → String
unfolding cat
blocked_lines [] =
    "\nDecide via the spec-adapt: rework this, continue without the dep, or cancel it too."
blocked_lines ((dep, status, id) ∷ refs) =
    cat ("\n- depends on #" ∷ dep ∷ ", now `" ∷ status ∷ "`" ∷ see id ∷ blocked_lines refs ∷ [])

-- `block_on_cancelled_dep`
unfoldable pub block_on_cancelled_dep :
    Ctx → Entity → List (String × String) → World → World × String
unfolding set_status ensure_all blocked_lines comment
block_on_cancelled_dep ctx entity cancelled w =
    if ctx.can_write
    then (let (w', refs) = ensure_all ctx cancelled (set_status ctx entity "blocked" w) in
        (
          comment ctx entity.post_id
              (cat (
                "Blocked: a hard dependency was cancelled, so this work cannot proceed as planned:"
                ∷ blocked_lines refs
                ∷ []))
              w',
          cat ("blocked: cancelled dep(s) " ∷ joined (map (λ r. r.0) cancelled) ∷ []),
        ))
    else (w, "remote writes not permitted; not blocking on cancelled dep")
