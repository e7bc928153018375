-- ===== src/Identity/Loop.antt =====
-- About the author check that keeps the platform from answering its own comments.
use Prim.Native.String
use Prim.Native.String.append
use Prim.Native.Char.{code}
use specseed.Prelude.{
  String, Bool, true, false, ◌≡◌, refl, inl, inr, ◌||◌, Option, none, some, arith, str_eq,
  str_eq_refl, Bool-cases, ==_refl,
}
use specseed.Prelude.Text.{strip, lstrip, starts_with, strip_prefix, is_space}
use specseed.Config.{Config}
use specseed.Identity.{
  comment_prefix, platform_username, needs_comment_prefix, platform_comment, by_platform,
  is_platform_comment, filled,
}

strip_prefix-append : (p s : String) → strip_prefix p (String.◌++◌ p s) ≡ some s
unfolding strip_prefix
strip_prefix-append String.[] s = rw append.nil
strip_prefix-append (String.◌∷◌ d p) s =
    rw (append.cons d p s, ==_refl (code d)) (strip_prefix-append p s)

pub starts_with-append : (p s : String) → starts_with p (String.◌++◌ p s) ≡ true
unfolding starts_with
starts_with-append p s = rw (starts_with, strip_prefix-append p s)

-- a text that begins with the prefix begins with no space
lstrip-prefixed : (s : String) → starts_with comment_prefix s ≡ true → lstrip s ≡ s
unfolding starts_with lstrip strip_prefix is_space
lstrip-prefixed String.[] h = refl
lstrip-prefixed (String.◌∷◌ c s) h = ground arith

prefixed-known :
    (s : String)
    → starts_with comment_prefix s ≡ true
    → starts_with comment_prefix (lstrip s) ≡ true
prefixed-known s h = rw (lstrip-prefixed s h) h

platform_comment-prefixed :
    (body : String) (config : Config)
    → needs_comment_prefix config ≡ true
    → starts_with comment_prefix (platform_comment body config) ≡ true
unfolding platform_comment
platform_comment-prefixed body config n = elim (Bool-cases (starts_with comment_prefix body)) [
  | inl e ↦ rw (n, e) e
  | inr e ↦ rw (n, e) (starts_with-append comment_prefix body)
]

or_true : (a : Bool) {b : Bool} → b ≡ true → (a || b) ≡ true
or_true true h = refl
or_true false h = h

-- a comment that needs no mark, or has it, is left alone
unmarked :
    (body : String) (config : Config)
    → (needs_comment_prefix config ≡ true → starts_with comment_prefix body ≡ true)
    → platform_comment body config ≡ body
unfolding platform_comment
unmarked body config h = ground (arith, h)

-- Marking a comment twice is marking it once.
pub platform_comment_idem :
    (body : String) (config : Config)
    → platform_comment (platform_comment body config) config ≡ platform_comment body config
platform_comment_idem body config =
    unmarked (platform_comment body config) config (platform_comment-prefixed body config)

by_text :
    (author body : String) (username : Option String)
    → starts_with comment_prefix body ≡ true
    → is_platform_comment (some author) (some body) username ≡ true
unfolding is_platform_comment
by_text author body username h =
    or_true (by_platform (some author) username) (prefixed-known body h)

bot_known : (name bot : String) → filled name ≡ some bot → by_platform (some bot) (some bot) ≡ true
unfolding filled by_platform
bot_known name bot h = elim (Bool-cases (str_eq (strip name) "")) [
  | inl e ↦ absurd (cc (rw e at h))
  | inr e ↦
      let same : strip name ≡ bot = cc (rw e at h) in
      rw (← same, e, str_eq_refl (strip (strip name)))
]

by_author :
    (author body : String) (config : Config)
    → platform_username config ≡ some author
    → is_platform_comment (some author) (some body) (platform_username config) ≡ true
unfolding is_platform_comment platform_username
by_author author body config h = rw h (rw (account config.platform_username h))
  where
    account :
        (o : Option String)
        → elim o as (λ _. Option String) [ none ↦ none | some name ↦ filled name ] ≡ some author
        → by_platform (some author) (some author) ≡ true
    account none e = cc
    account (some name) e = bot_known name author e

-- The comment that the platform posts is recognised as the platform's: by its text where the
-- prefix is needed, and else by the author, who is then the configured account.
pub platform_comment-known :
    (body author : String) (config : Config)
    → (needs_comment_prefix config ≡ false → platform_username config ≡ some author)
    → is_platform_comment
        (some author)
        (some (platform_comment body config))
        (platform_username config)
      ≡ true
platform_comment-known body author config posted = elim (Bool-cases (needs_comment_prefix config)) [
  | inl n ↦
      by_text author (platform_comment body config) (platform_username config)
        (platform_comment-prefixed body config n)
  | inr n ↦ by_author author (platform_comment body config) config (posted n)
]
