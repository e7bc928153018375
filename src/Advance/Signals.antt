-- ===== src/Advance/Signals.antt =====
-- executing/advance.py: what people say on a parked post - the signals on the live gate comment, and
-- the directive in the latest comment.
use Prim.Native.String
use specseed.Prelude.{
  ℕ, String, Bool, true, false, ◌&&◌, ◌||◌, not, Option, none, some, List, [], ◌∷◌, ◌++◌, keep, any,
  count, str_eq, if◌then◌else◌,
}
use specseed.Prelude.Text.{strip, casefold, split_on, has_part}
use specseed.Config.{Config}
use specseed.Entities.{Comment, or_else}
use specseed.Entities.Links.{skip_char}
use specseed.Identity.{platform_username, is_platform_comment}
use specseed.StateMachine.{dedupe, contains}
use specseed.Token.{strip_prefix_fold, starts_word, apr_ids_in_text, span_digits}
use specseed.Approval.{
  comment_reaction_users, command_authors_for, approval_ids_from_body, merge_ids_from_body,
  reject_ids_from_body, body_of, is_separator,
}
use specseed.Tracker.Read.{get_entry}
use specseed.Advance.Wording.{review_marker, options_marker}
use specseed.Advance.Writes.{World}

-- class _GateSignals
pub record GateSignals : Type 0 where
  pub approve : List String
  pub merge : List String
  pub reject : List String

unfoldable pub bears : (marker : String) → Comment → Bool
unfolding has_part
bears marker c = has_part marker (body_of c.body)

-- `_latest_marker_comment`: the last one that bears the marker
unfoldable pub latest_marker_comment : (marker : String) → List Comment → Option Comment
unfolding bears
latest_marker_comment marker [] = none
latest_marker_comment marker (c ∷ cs) =
    or_else (latest_marker_comment marker cs) (if bears marker c then some c else none)

abbrev first_of : List String → List String
first_of [] = []
first_of (i ∷ is) = i ∷ []

unfoldable pub signals_on : Config → (post_id : String) → List Comment → Comment → GateSignals
unfolding comment_reaction_users command_authors_for approval_ids_from_body merge_ids_from_body
    reject_ids_from_body apr_ids_in_text dedupe
signals_on config post_id conversation c =
    let targets = post_id ∷ first_of (apr_ids_in_text (body_of c.body)) in
    record {
      approve = dedupe (
          comment_reaction_users c "thumbs_up" config
          ++ command_authors_for approval_ids_from_body conversation config targets);
      merge = dedupe (
          comment_reaction_users c "heart" config
          ++ command_authors_for merge_ids_from_body conversation config targets);
      reject = dedupe (
          comment_reaction_users c "thumbs_down" config
          ++ command_authors_for reject_ids_from_body conversation config targets);
    }

-- `_gate_signals`
unfoldable pub gate_signals :
    Config → (post_id : String) → List Comment → (marker : String) → Option GateSignals
unfolding latest_marker_comment signals_on
gate_signals config post_id conversation marker = elim (latest_marker_comment marker conversation) [
  | none ↦ none
  | some c ↦ some (signals_on config post_id conversation c)
]

-- `_count_review_attempts`
unfoldable pub count_review_attempts : List Comment → ℕ
unfolding bears
count_review_attempts conversation = count (bears review_marker) conversation

unfoldable pub is_human : Config → Comment → Bool
unfolding strip platform_username is_platform_comment str_eq
is_human config c =
    not (str_eq (strip (body_of c.body)) "")
    && not (is_platform_comment c.author (some (body_of c.body)) (platform_username config))

-- `_latest_human_comment`
unfoldable pub latest_human_comment : Config → List Comment → Option Comment
unfolding is_human
latest_human_comment config [] = none
latest_human_comment config (c ∷ cs) =
    or_else (latest_human_comment config cs) (if is_human config c then some c else none)

abbrev no_rest : String × String → Bool
no_rest (ds, rest) = not (str_eq ds "") && str_eq rest ""

abbrev all_digits : String → Bool
all_digits s = no_rest (span_digits s)

abbrev behind : String → String → Option String
behind p s = strip_prefix_fold p s

abbrev rest_is_digits : Option String → Bool
rest_is_digits none = false
rest_is_digits (some r) = all_digits r

-- _ID_TOKEN_RE
unfoldable pub is_id_token : String → Bool
unfolding strip_prefix_fold span_digits str_eq
is_id_token s =
    rest_is_digits (behind "apr-" s)
    || rest_is_digits (behind "apr" s)
    || rest_is_digits (skip_char 35 s)
    || all_digits s

-- " ".join
abbrev spaced : List String → String
spaced [] = ""
spaced (w ∷ []) = w
spaced (w ∷ v ∷ ws) = String.◌++◌ w (String.◌++◌ " " (spaced (v ∷ ws)))

-- the text behind a verb that no word character follows
unfoldable pub tail_of : (verb : String) → String → Option String
unfolding strip_prefix_fold starts_word
tail_of verb s = elim (strip_prefix_fold verb s) [
  | none ↦ none
  | some tail ↦ if starts_word tail then none else some tail
]

-- `_reject_prose`
unfoldable pub reject_prose : String → Option String
unfolding tail_of strip split_on is_separator is_id_token
reject_prose body = elim (tail_of "reject" (strip body)) [
  | none ↦ none
  | some tail ↦
      some (strip (spaced (keep (λ w. not (is_id_token w)) (split_on is_separator (strip tail)))))
]

-- what `_human_directive` finds
pub data Directive : Type 0 where
  silent retry reject_bare : Directive
  guidance : String → Directive

abbrev has_tail : Option String → Bool
has_tail none = false
has_tail (some t) = true

unfoldable pub directive_of : String → Directive
unfolding tail_of reject_prose str_eq
directive_of s = if has_tail (tail_of "retry" s) then retry else elim (reject_prose s) [
  | some prose ↦ if str_eq prose "" then reject_bare else guidance prose
  | none ↦ if has_tail (tail_of "approve" s) then silent else guidance s
]

-- `_human_directive`
unfoldable pub human_directive : Config → List Comment → Directive
unfolding latest_human_comment directive_of strip
human_directive config conversation = elim (latest_human_comment config conversation) [
  | none ↦ silent
  | some c ↦ directive_of (strip (body_of c.body))
]

-- `_options_already_posted`
unfoldable pub options_already_posted : (post_id : String) → World → Bool
unfolding get_entry bears
options_already_posted post_id w = elim (get_entry post_id w.remote) [
  | none ↦ false
  | some d ↦ any (bears options_marker) d.comments
]

abbrev among : String → List String → Bool
among post_id ids = contains (casefold post_id) ids

abbrev folded : List String → List String
folded [] = []
folded (i ∷ is) = casefold i ∷ folded is

pub data Override : Type 0 where
  no_override approve_over merge_over : Override

-- `_override_command`
unfoldable pub override_command : String → (post_id : String) → Override
unfolding merge_ids_from_body approval_ids_from_body casefold
override_command body post_id =
    if among post_id (folded (merge_ids_from_body body))
    then merge_over
    else if among post_id (folded (approval_ids_from_body body))
    then approve_over
    else no_override
