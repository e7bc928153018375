-- ===== src/Advance/Standing.antt =====
-- About the command that moves an issue over a block (executing/advance.py): whose it has to be.
use specseed.Prelude.{
  String, ◌≡◌, ◌↔◌, ◌∙◌, ◌||◌, ◌&&◌, not, refl, sym, ap, ◌⊎◌, inl, inr, Bool, true, false, Option,
  List, [], ◌∷◌, map, keep, In, keep-In, In-keep, Bool-cases, Option-cases, if◌then◌else◌, arith,
}
use specseed.Prelude.Text.{casefold}
use specseed.Entities.{Entity, Comment}
use specseed.StateMachine.{dedupe}
use specseed.Approval.{
  command_authors_for, approval_ids_from_body, merge_ids_from_body, commands, not_blank, is_empty,
  body_of,
}
use specseed.Advance.Writes.{Ctx}
use specseed.Advance.Signals.{
  Override, no_override, merge_over, approve_over, override_command, latest_human_comment,
}
use specseed.Advance.Unblock.{override, permitted, commanded}
use specseed.Advance.Latest.{IsLatest, latest_human_comment-IsLatest, IsLatest-some}

-- the targets of a command on a post
abbrev pub targets : String → List String
targets post_id = map casefold (keep not_blank (post_id ∷ []))

-- somebody who may once gave such a command for the post
abbrev pub Given : (String → List String) → Ctx → Entity → List Comment → Type 0
Given ids ctx entity cs =
    (d : Comment) × In d cs × (commands ids ctx.config (targets entity.post_id) d ≡ true)

-- the command moves the post over the block
abbrev pub Forces : Ctx → Entity → List Comment → Override → Type 0
Forces ctx entity cs no_override = ⊥
Forces ctx entity cs approve_over = Given approval_ids_from_body ctx entity cs
Forces ctx entity cs merge_over = Given merge_ids_from_body ctx entity cs

authors-some :
    (x : Comment) (xs : List Comment)
    → In x xs
    → is_empty (dedupe (map (λ c. body_of c.author) xs)) ≡ false
unfolding dedupe
authors-some x [] i = elim i [ ]
authors-some x (y ∷ ys) i = refl

some-authors :
    (xs : List Comment)
    → is_empty (dedupe (map (λ c. body_of c.author) xs)) ≡ false
    → (x : Comment) × In x xs
unfolding dedupe
some-authors [] e = cc
some-authors (x ∷ xs) e = (x, inl refl)

-- the override forces the work on
abbrev pub forced : Override → Bool
forced no_override = false
forced approve_over = true
forced merge_over = true

-- the override asks for the merge
abbrev pub merges : Override → Bool
merges no_override = false
merges approve_over = false
merges merge_over = true

unless_blank :
    (blank : Bool) (o : Override)
    → forced o ≡ true
    → (forced (if blank then no_override else o) ≡ true) ↔ (blank ≡ false)
unless_blank true o f = (λ e. cc, λ e. cc)
unless_blank false o f = (λ e. refl, λ e. f)

module _ (ctx : Ctx) (entity : Entity) (cs : List Comment) where
  Given-authors :
      (ids : String → List String)
      → (is_empty (command_authors_for ids cs ctx.config (entity.post_id ∷ [])) ≡ false)
        ↔ Given ids ctx entity cs
  unfolding command_authors_for
  Given-authors ids =
      let test = commands ids ctx.config (targets entity.post_id) in
      (
        λ e.
            let (x, i) = some-authors (keep test cs) e in
            let (j, given) = In-keep test x cs i in (x, j, given),
        λ (d, i, given). authors-some d (keep test cs) (keep-In test d cs i given),
      )

  permitted-Forces :
      (o : Override) → (forced (permitted ctx entity cs o) ≡ true) ↔ Forces ctx entity cs o
  permitted-Forces no_override = (λ e. cc, λ f. absurd f)
  permitted-Forces approve_over =
      let g = Given-authors approval_ids_from_body in
      let a = unless_blank _ approve_over refl in (λ e. g.0 (a.0 e), λ f. a.1 (g.1 f))
  permitted-Forces merge_over =
      let g = Given-authors merge_ids_from_body in
      let a = unless_blank _ merge_over refl in (λ e. g.0 (a.0 e), λ f. a.1 (g.1 f))

-- the latest comment of a person is a command that moves the post over the block
abbrev pub Standing : Ctx → Entity → List Comment → Type 0
Standing ctx entity cs =
    (c : Comment) × IsLatest ctx.config cs c
    × Forces ctx entity cs (override_command (body_of c.body) entity.post_id)

pub override-Standing :
    (ctx : Ctx) (entity : Entity) (cs : List Comment)
    → (forced (override ctx entity cs) ≡ true) ↔ Standing ctx entity cs
unfolding override
override-Standing ctx entity cs = (forth, back)
  where
    latest : Option Comment
    latest = latest_human_comment ctx.config cs

    forth :
        forced (permitted ctx entity cs (commanded latest entity.post_id)) ≡ true
        → Standing ctx entity cs
    forth e = elim (Option-cases latest) [
      | inl k ↦ absurd (cc (rw k at e))
      | inr (c, k) ↦ (
        c,
        latest_human_comment-IsLatest ctx.config cs c k,
        (permitted-Forces ctx entity cs _).0 (rw k at e),
      )
    ]

    back :
        Standing ctx entity cs
        → forced (permitted ctx entity cs (commanded latest entity.post_id)) ≡ true
    back (c, l, f) = rw (IsLatest-some ctx.config cs c l) ((permitted-Forces ctx entity cs _).1 f)

-- such a command that lets the branch be merged at once
abbrev pub Merging : Ctx → Entity → List Comment → Type 0
Merging ctx entity cs =
    (c : Comment) × IsLatest ctx.config cs c
    × Forces ctx entity cs (override_command (body_of c.body) entity.post_id)
    × ((override_command (body_of c.body) entity.post_id ≡ merge_over) ⊎ (ctx.merge_gated ≡ false))

unless-same :
    (blank : Bool) (o : Override)
    → forced (if blank then no_override else o) ≡ true
    → (if blank then no_override else o) ≡ o
unless-same true o e = cc
unless-same false o e = refl

permitted-same :
    (ctx : Ctx) (entity : Entity) (cs : List Comment) (o : Override)
    → forced (permitted ctx entity cs o) ≡ true
    → permitted ctx entity cs o ≡ o
permitted-same ctx entity cs no_override e = refl
permitted-same ctx entity cs approve_over e = unless-same _ approve_over e
permitted-same ctx entity cs merge_over e = unless-same _ merge_over e

override-same :
    (ctx : Ctx) (entity : Entity) (cs : List Comment) (c : Comment)
    → IsLatest ctx.config cs c
    → forced (override ctx entity cs) ≡ true
    → override ctx entity cs ≡ override_command (body_of c.body) entity.post_id
unfolding override
override-same ctx entity cs c l e =
    let k = IsLatest-some ctx.config cs c l in rw k (permitted-same ctx entity cs _ (rw k at e))

merges_iff : (o : Override) → (merges o ≡ true) ↔ (o ≡ merge_over)
merges_iff no_override = (λ e. cc, λ e. cc)
merges_iff approve_over = (λ e. cc, λ e. cc)
merges_iff merge_over = (λ e. refl, λ e. refl)

pub override-Merging :
    (ctx : Ctx) (entity : Entity) (cs : List Comment)
    → ((forced (override ctx entity cs) && (merges (override ctx entity cs) || not ctx.merge_gated))
        ≡ true)
      ↔ Merging ctx entity cs
override-Merging ctx entity cs = (forth, back)
  where
    over : Override
    over = override ctx entity cs

    forth : (forced over && (merges over || not ctx.merge_gated)) ≡ true → Merging ctx entity cs
    forth e =
        let f : forced over ≡ true = ground (arith, e) in
        let (c, l, g) = (override-Standing ctx entity cs).0 f in
        let same = override-same ctx entity cs c l f in
        (
          c,
          l,
          g,
          elim (Bool-cases ctx.merge_gated) [
            | inl k ↦ inl ((merges_iff _).0 (sym (ap merges same) ∙ ground (arith, e, k)))
            | inr k ↦ inr k
          ],
        )

    back : Merging ctx entity cs → (forced over && (merges over || not ctx.merge_gated)) ≡ true
    back (c, l, g, m) =
        let f = (override-Standing ctx entity cs).1 (c, l, g) in
        let same = override-same ctx entity cs c l f in
        elim m [
          | inl k ↦ ground (arith, f, ap merges same ∙ (merges_iff _).1 k)
          | inr k ↦ ground (arith, f, k)
        ]
