-- ===== src/Sync/Step.antt =====
-- What one change does to the queue.
use specseed.Prelude.{
  ℕ, ◌+◌, ◌≡◌, refl, ap, ◌∙◌, inl, inr, ◌⊎◌, String, Bool, true, false, ◌&&◌, ◌||◌, not, Option,
  none, some, List, [], ◌∷◌, arith, keep, count, count-append, str_eq, str_eq_refl,
}
use specseed.Config.{Config}
use specseed.Payload
use specseed.Payload.{Payload, Value, text}
use specseed.Identity.{
  platform_username, needs_comment_prefix, platform_comment, is_platform_comment,
}
use specseed.Identity.Loop.{platform_comment-known}
use specseed.Queue.{Task, insert_task, post_is, control, default_priority, new_task}
use specseed.Queue.Invariant.{IsWellFormed}
use specseed.Tasks.{Change, TaskSpec, spec_key, resource_key, columns}
use specseed.Tasks.Keys.{key_eq_refl}
use specseed.Sync.{
  value_text, World, step, replace_with, supersede, enqueue_spec, is_entry_teardown,
  is_platform_comment_change, ignore, replaces,
}
use specseed.Sync.Supersede.{doomed, supersede_lem}

count-keep-not : (p : Task → Bool) (ts : List Task) → count p (keep (λ r. not (p r)) ts) ≡ 0
count-keep-not p [] = refl
count-keep-not p (t ∷ ts) = ground (arith, count-keep-not p ts)

-- the row that a task becomes
abbrev row_of : ℕ → ℕ → TaskSpec → Task
row_of id now t = new_task id now t.action t.post_id t.payload control default_priority

post_of_row :
    (id now : ℕ) (t : TaskSpec) (post : String)
    → t.post_id ≡ some post
    → post_is post (row_of id now t) ≡ true
post_of_row id now t post e = by_post t.post_id e
  where
    by_post :
        (o : Option String)
        → o ≡ some post
        → elim o as (λ _. Bool) [ none ↦ false | some p ↦ str_eq p post ] ≡ true
    by_post none q = cc
    by_post (some p) q = ground (arith, str_eq_refl post)

row_of-doomed :
    (id now : ℕ) (t : TaskSpec) (post : String)
    → t.post_id ≡ some post
    → doomed post (spec_key t) (row_of id now t) ≡ true
unfolding replaces spec_key
row_of-doomed id now t post e =
    rw (post_of_row id now t post e) (key_eq_refl (resource_key t.action t.post_id t.payload))

-- On well-formed tables, when a task of a post is put on the queue, exactly one pending row of that
-- post is about the task's resource afterwards, however many there were before.
pub replace_with-one :
    (now : ℕ) (t : TaskSpec) (post : String) (w : World)
    → IsWellFormed w.db
    → t.post_id ≡ some post
    → count (doomed post (spec_key t)) (replace_with now t w).db.tasks ≡ 1
unfolding replace_with enqueue_spec insert_task
replace_with-one now t post w wf e =
    let db = (supersede t w.db).1 in
    let p = doomed post (spec_key t) in
    let mine = row_of-doomed (db.seq + 1) now t post e in
    count-append p db.tasks (row_of (db.seq + 1) now t ∷ [])
    ∙ rw mine (rw (supersede_lem t post w.db wf e) (ground (arith, count-keep-not p w.db.tasks)))

comment_not_entry : (s : String) → s ≡ "comment" → str_eq s "entry" ≡ false
unfolding str_eq
comment_not_entry s e = ap (λ r. str_eq r "entry") e

abbrev posted_action : String → Bool
posted_action a = str_eq a "create" || str_eq a "update"

posted : (a : String) → (a ≡ "create") ⊎ (a ≡ "update") → posted_action a ≡ true
unfolding str_eq
posted a (inl e) = ap posted_action e
posted a (inr e) = ap posted_action e

and_true : {a b c : Bool} → a ≡ true → b ≡ true → c ≡ true → (a && b && c) ≡ true
and_true h i j = rw (h, i, j)

known_columns :
    (p : Payload) (author body : String) (bot : Option String)
    → Payload.get "author" p ≡ text author
    → Payload.get "body" p ≡ text body
    → is_platform_comment (some author) (some body) bot ≡ true
    → is_platform_comment
        (value_text (Payload.get "author" p))
        (value_text (Payload.get "body" p))
        bot
      ≡ true
known_columns p author body bot a b k = rw (a, b) k

-- A comment that the platform itself posted, with the body that `platform_comment` gives and, where
-- no prefix is needed, by the configured account, is ignored by the sync when its creation or its
-- edit comes back: the queue and the registry stay as they are, and no task is made for it.
pub step-own_comment :
    (now : ℕ) (config : Config) (comments_of : String → List String) (c : Change) (w : World)
    → (body author : String) → c.resource_type ≡ "comment"
    → (c.action ≡ "create") ⊎ (c.action ≡ "update")
    → Payload.get "author" (columns c.new) ≡ text author
    → Payload.get "body" (columns c.new) ≡ text (platform_comment body config)
    → (needs_comment_prefix config ≡ false → platform_username config ≡ some author)
    → step now (platform_username config) comments_of c w ≡ ignore w
unfolding step is_entry_teardown is_platform_comment_change
step-own_comment now config comments_of c w body author r a pa pb acct =
    rw
      (
        comment_not_entry c.resource_type r,
        and_true (ap (λ s. str_eq s "comment") r ∙ str_eq_refl "comment") (posted c.action a) (
            known_columns (columns c.new) author (platform_comment body config)
              (platform_username config) pa pb (platform_comment-known body author config acct)),
      )
      refl
