-- ===== src/Advance/Wording.antt =====
-- executing/advance.py: the markers, and the texts of the comments and posts that are written. The
-- heart stands without its variation selector.
use Prim.Native.Nat.{◌/◌, ◌%◌}
use specseed.Prelude.{ℕ, String, [], ◌∷◌, Option, none, some, leb, if◌then◌else◌}
use specseed.Prelude.Text.{cat, decimal}
use specseed.Token.{marker}

abbrev pub review_marker : String
review_marker = "<!-- specseed:review-attempt -->"

abbrev pub options_marker : String
options_marker = "<!-- specseed:reject-options -->"

abbrev pub merge_gate_marker : String
merge_gate_marker = "<!-- specseed:merge-gate -->"

abbrev pub work_merge_gate_marker : String
work_merge_gate_marker = "<!-- specseed:work-merge-gate -->"

abbrev pub awaiting_merge_marker : String
awaiting_merge_marker = "<!-- specseed:awaiting-merge -->"

abbrev pub dep_cancelled_marker : String → String
dep_cancelled_marker dep = cat ("<!-- specseed:dep-cancelled #" ∷ dep ∷ " -->" ∷ [])

-- the hidden request marker with its token
abbrev pub request : String → String
request apr = cat ("<!-- " ∷ marker ∷ " " ∷ apr ∷ " -->" ∷ [])

-- a share in hundredths, as `{:.2f}` prints it
unfoldable pub two_places : ℕ → String
unfolding cat decimal
two_places n =
    cat (decimal (n / 100) ∷ (if leb 10 (n % 100) then "." else ".0") ∷ decimal (n % 100) ∷ [])

unfoldable pub merge_gate_ready_comment : (primary apr_id : String) → String
unfolding cat
merge_gate_ready_comment primary apr_id = cat (
    "**Merge ready.** I brought `"
    ∷ primary
    ∷ "` into this issue's branch and it merges "
    ∷ "clean, so it is safe to merge into `"
    ∷ primary
    ∷ "` now:\n\n"
    ∷ "- react 👍 on this comment (or comment `approve "
    ∷ apr_id
    ∷ "`) to merge into `"
    ∷ primary
    ∷ "`, or\n"
    ∷ "- react 👎 (or comment `reject "
    ∷ apr_id
    ∷ "`) to leave the branch unmerged for you to "
    ∷ "merge by hand.\n\n"
    ∷ "React on THIS comment, not the post. Until then this stays "
    ∷ "`awaiting_approval`.\n\n"
    ∷ merge_gate_marker
    ∷ "\n"
    ∷ request apr_id
    ∷ [])

unfoldable pub awaiting_merge_comment : (primary apr_id : String) → String
unfolding cat
awaiting_merge_comment primary apr_id = cat (
    "**Awaiting merge.** The work is accepted, but it is NOT on `"
    ∷ primary
    ∷ "` yet, so this issue "
    ∷ "is `awaiting_merge` (not done) and anything that depends on it "
    ∷ "stays blocked until it "
    ∷ "lands:\n\n"
    ∷ "- react 👍 on this comment (or comment `approve "
    ∷ apr_id
    ∷ "`) and I will merge the branch into "
    ∷ "`"
    ∷ primary
    ∷ "` for you, or\n"
    ∷ "- merge the branch yourself, then react 👍 / comment `approve "
    ∷ apr_id
    ∷ "` so I confirm it landed "
    ∷ "and close this.\n\n"
    ∷ "React on THIS comment, not the post.\n\n"
    ∷ awaiting_merge_marker
    ∷ "\n"
    ∷ merge_gate_marker
    ∷ "\n"
    ∷ request apr_id
    ∷ [])

abbrev below_bar : (confidence threshold : ℕ) → String
below_bar confidence threshold = cat (
    "Review approved but confidence "
    ∷ two_places confidence
    ∷ " is below the "
    ∷ two_places threshold
    ∷ " bar. Parked for "
    ∷ "human sign-off."
    ∷ [])

-- the combined gate
unfoldable pub combined_gate_comment : (confidence threshold : ℕ) (primary apr_id : String) → String
unfolding cat two_places
combined_gate_comment confidence threshold primary apr_id = cat (
    below_bar confidence threshold
    ∷ "\n\nMerging into `"
    ∷ primary
    ∷ "` is also gated, so you have three choices "
    ∷ "(react on THIS comment, not the post):\n\n"
    ∷ "- react ❤ (or comment `merge "
    ∷ apr_id
    ∷ "`) to approve AND merge into `"
    ∷ primary
    ∷ "` in one step,\n"
    ∷ "- react 👍 (or comment `approve "
    ∷ apr_id
    ∷ "`) to approve the work now and leave the "
    ∷ "merge as a follow-up gate, or\n"
    ∷ "- reply with what to change to revise, or comment `retry` to re-review.\n\n"
    ∷ work_merge_gate_marker
    ∷ "\n"
    ∷ request apr_id
    ∷ [])

unfoldable pub plain_gate_comment : (confidence threshold : ℕ) (post_id apr_id : String) → String
unfolding cat two_places
plain_gate_comment confidence threshold post_id apr_id = cat (
    below_bar confidence threshold
    ∷ " React 👍 on this comment (or comment `approve "
    ∷ post_id
    ∷ "`) to complete, reply with "
    ∷ "what to change to revise, or comment `retry` to re-review.\n\n"
    ∷ request apr_id
    ∷ [])

unfoldable pub sign_off_comment : (post_id apr_id : String) → String
unfolding cat
sign_off_comment post_id apr_id = cat (
    "Implementation finished; human sign-off required. React 👍 on this comment "
    ∷ "(or comment `approve "
    ∷ post_id
    ∷ "`) to complete.\n\n"
    ∷ request apr_id
    ∷ [])

unfoldable pub implement_approval_comment : (post_id apr_id : String) → String
unfolding cat
implement_approval_comment post_id apr_id = cat (
    "Implementation requires human approval (`auto_implement_issue` is off). React 👍 "
    ∷ "on this comment (or comment `approve "
    ∷ post_id
    ∷ "`) before work begins.\n\n"
    ∷ request apr_id
    ∷ [])

unfoldable pub draft_body : (reason summary : String) → String
unfolding cat
draft_body reason summary = cat (
    reason ∷ "\n\n" ∷ "Latest agent summary:\n\n" ∷ summary ∷ "\n\n"
    ∷ "This post is a **draft** `spec-change:adapt` request. Discuss what should "
    ∷ "change, then drop the `draft` label to let the spec-change worker adapt the "
    ∷ "spec. The issue is parked `blocked` until then." ∷ [])

-- `" #{0}".format(new_id) if new_id is not None else ""`
abbrev pub link_of : Option ℕ → String
link_of none = ""
link_of (some id) = cat (" #" ∷ decimal id ∷ [])

unfoldable pub implementer_recommends : Option ℕ → String
unfolding cat decimal
implementer_recommends id = cat (
    "Implementer recommends a spec change; opened draft spec-adapt post"
    ∷ link_of id
    ∷ " for "
    ∷ "discussion. Parked `blocked` (review skipped). Approve to accept anyway, or "
    ∷ "comment guidance to retry."
    ∷ [])

unfoldable pub not_completed : (word detail : String) → String
unfolding cat
not_completed word detail =
    cat ("Implementation could not complete - reported " ∷ word ∷ ":\n\n" ∷ detail ∷ [])

unfoldable pub review_comment :
    (attempt max_attempts : ℕ) (verdict : String) (confidence : ℕ) (summary : String) → String
unfolding cat decimal two_places
review_comment attempt max_attempts verdict confidence summary = cat (
    "**Code review** (attempt "
    ∷ decimal attempt
    ∷ "/"
    ∷ decimal max_attempts
    ∷ ") — verdict `"
    ∷ verdict
    ∷ "`, confidence "
    ∷ two_places confidence
    ∷ "\n\n"
    ∷ summary
    ∷ "\n\n"
    ∷ review_marker
    ∷ [])

unfoldable pub reviewer_recommends : ℕ → Option ℕ → String
unfolding cat decimal
reviewer_recommends max_attempts id = cat (
    "Review failed "
    ∷ decimal max_attempts
    ∷ " times and recommends a spec change; opened draft "
    ∷ "spec-adapt post"
    ∷ link_of id
    ∷ ". Parked `blocked`. Approve to accept anyway, or comment "
    ∷ "guidance to retry."
    ∷ [])

unfoldable pub review_exhausted : ℕ → (post_id : String) → String
unfolding cat decimal
review_exhausted max_attempts post_id = cat (
    "Review still requesting changes after "
    ∷ decimal max_attempts
    ∷ " attempts. Parked `blocked` for a human "
    ∷ "decision: comment `approve "
    ∷ post_id
    ∷ "` to accept as-is, reply with guidance to retry, or "
    ∷ "open a `spec-change:adapt` if the spec itself is wrong."
    ∷ [])

abbrev pub reject_options : String
reject_options = cat (
    "Rejected, but no guidance was given. Pick one:\n"
    ∷ "- **reply** with what to change - the implementation agent revises using " ∷ "your notes.\n"
    ∷ "- comment **`retry`** - the agent re-runs with no new feedback.\n\n"
    ∷ "Nothing runs until you reply.\n\n" ∷ options_marker ∷ [])

abbrev pub retrying : String
retrying = "Retrying implementation with no new feedback."

abbrev pub revising : String
revising = "Taking your comment as change guidance; re-running implementation."

unfoldable pub rolled_up : ℕ → (children tier status : String) → String
unfolding cat decimal
rolled_up n children tier status = cat (
    "All "
    ∷ decimal n
    ∷ " child "
    ∷ children
    ∷ " are finished; rolling this "
    ∷ tier
    ∷ " up to `"
    ∷ status
    ∷ "` and closing."
    ∷ [])
