-- ===== src/Token.antt =====
-- state_machines/approvals.py: the APR-NNNN tokens in a text, and those that a hidden marker asks
-- approval for. The regular expressions are matched at each position; two matches never overlap.
mod Examples
use Prim.Native.Char.{Char, code}
use Prim.Native.String
use specseed.Prelude.{
  ℕ, String, Bool, true, false, ◌&&◌, ◌||◌, not, Option, none, some, List, [], ◌∷◌, ◌++◌, leb, ltb,
  ◌==◌, if◌then◌else◌, str_eq,
}
use specseed.Prelude.Text.{lower, is_space, lstrip, strip_prefix, decimal}
use specseed.StateMachine.{dedupe, contains}
use specseed.Entities.{Comment}

abbrev pub marker : String
marker = "specseed:approval-request"

unfoldable pub is_digit : Char → Bool
is_digit c = leb 48 (code c) && leb (code c) 57

-- \w on ASCII
unfoldable pub is_word : Char → Bool
unfolding is_digit
is_word c =
    is_digit c
    || (leb 65 (code c) && leb (code c) 90)
    || (leb 97 (code c) && leb (code c) 122)
    || code c == 95

-- strip_prefix without regard to case, for a pattern in lower case
unfoldable pub strip_prefix_fold : String → String → Option String
unfolding lower
strip_prefix_fold String.[] s = some s
strip_prefix_fold (String.◌∷◌ d p) String.[] = none
strip_prefix_fold (String.◌∷◌ d p) (String.◌∷◌ c s) =
    let rest = strip_prefix_fold p s in if code (lower c) == code d then rest else none

unfoldable pub starts_word : String → Bool
unfolding is_word
starts_word String.[] = false
starts_word (String.◌∷◌ c s) = is_word c

unfoldable pub starts_space : String → Bool
unfolding is_space
starts_space String.[] = false
starts_space (String.◌∷◌ c s) = is_space c

-- the digits in front (\d*, which takes all there are), and the rest
unfoldable pub span_digits : String → String × String
unfolding is_digit
span_digits String.[] = ("", "")
span_digits (String.◌∷◌ c s) =
    let (ds, rest) = span_digits s in
    if is_digit c then (String.◌∷◌ c ds, rest) else ("", String.◌∷◌ c s)

-- what stands behind `APR-` and at least four digits: those digits and the rest
unfoldable pub apr_digits : String → Option (String × String)
unfolding strip_prefix_fold span_digits
apr_digits s = elim (strip_prefix_fold "apr-" s) [
  | none ↦ none
  | some r ↦
      let (ds, rest) = span_digits r in if leb 4 (String.count ds) then some (ds, rest) else none
]

-- `f"{int(ds):04d}"` for at least four digits: leading zeros go while more than four are left
unfoldable pub canonical : String → String
canonical String.[] = ""
canonical (String.◌∷◌ c s) =
    let shorter = canonical s in
    if code c == 48 && leb 4 (String.count s) then shorter else String.◌∷◌ c s

abbrev padded : String → String
padded ds =
    if leb 4 (String.count ds)
    then ds
    else if leb 3 (String.count ds)
    then String.◌++◌ "0" ds
    else if leb 2 (String.count ds)
    then String.◌++◌ "00" ds
    else String.◌++◌ "000" ds

unfoldable pub format_apr : ℕ → String
unfolding decimal
format_apr n = String.◌++◌ "APR-" (padded (decimal n))

abbrev whole : Option (String × String) → Option String
whole none = none
whole (some (ds, rest)) = if starts_word rest then none else some ds

-- APR_RE.finditer: a token begins where no word character stands before it
unfoldable pub scan_apr : Bool → String → List String
unfolding apr_digits starts_word canonical is_word
scan_apr inside String.[] = []
scan_apr inside (String.◌∷◌ c s) =
    let later = scan_apr (is_word c) s in
    elim (if inside then none else whole (apr_digits (String.◌∷◌ c s))) [
      | none ↦ later
      | some ds ↦ String.◌++◌ "APR-" (canonical ds) ∷ later
    ]

unfoldable pub apr_ids_in_text : String → List String
unfolding scan_apr dedupe
apr_ids_in_text text = dedupe (scan_apr false text)

abbrev opt_bind : Option String → (String → Option String) → Option String
opt_bind none f = none
opt_bind (some s) f = f s

abbrev closed_by : Option (String × String) → Option String
closed_by none = none
closed_by (some (ds, rest)) = elim (strip_prefix "-->" (lstrip rest)) [
  | none ↦ none
  | some _ ↦ some (String.◌++◌ "APR-" ds)
]

-- _REQUEST_MARKER_RE at one position: the token in upper case
unfoldable pub marker_at : String → Option String
unfolding strip_prefix_fold lstrip starts_space apr_digits strip_prefix
marker_at s = opt_bind (strip_prefix_fold "<!--" s) λ a.
    opt_bind (strip_prefix_fold marker (lstrip a))
      λ b. if starts_space b then closed_by (apr_digits (lstrip b)) else none

unfoldable pub scan_markers : String → List String
unfolding marker_at
scan_markers String.[] = []
scan_markers (String.◌∷◌ c s) =
    let later = scan_markers s in
    elim (marker_at (String.◌∷◌ c s)) [ none ↦ later | some token ↦ token ∷ later ]

abbrev text_of : Option String → String
text_of none = ""
text_of (some s) = s

unfoldable pub marked_ids : List Comment → List String
unfolding scan_markers
marked_ids [] = []
marked_ids (c ∷ cs) = scan_markers (text_of c.body) ++ marked_ids cs

unfoldable pub requested_apr_ids : List Comment → List String
unfolding marked_ids dedupe
requested_apr_ids conversation = dedupe (marked_ids conversation)
