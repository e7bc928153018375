-- ===== src/Entities/Links.antt =====
-- entities/entity_base.py and executing/relationships.py: the links in the body of a post, to its
-- parent and to what it depends on. The regular expressions are matched at each position; \s is
-- ASCII space, and digits are ASCII.
use Prim.Native.Char.{Char, code}
use Prim.Native.String
use specseed.Prelude.{
  ℕ, zero, suc, ◌-◌, String, Bool, false, ◌&&◌, ◌||◌, Option, none, some, List, [], ◌∷◌, ◌++◌,
  str_eq, leb, ◌==◌, if◌then◌else◌,
}
use specseed.Prelude.Text.{lstrip, cut_at}
use specseed.Token.{strip_prefix_fold, span_digits, is_word, starts_space}
use specseed.StateMachine.{contains}
use specseed.Entities.{or_else}

unfoldable pub is_letter : Char → Bool
is_letter c = (leb 65 (code c) && leb (code c) 90) || (leb 97 (code c) && leb (code c) 122)

-- [A-Za-z]* and the rest
unfoldable pub span_letters : String → String × String
unfolding is_letter
span_letters String.[] = ("", "")
span_letters (String.◌∷◌ c s) =
    let (ls, rest) = span_letters s in
    if is_letter c then (String.◌∷◌ c ls, rest) else ("", String.◌∷◌ c s)

-- the rest behind one character
abbrev pub skip_char : ℕ → String → Option String
skip_char n String.[] = none
skip_char n (String.◌∷◌ c s) = if code c == n then some s else none

abbrev pub filled : String → Option String
filled s = if str_eq s "" then none else some s

abbrev and_then : Option String → (String → Option String) → Option String
and_then none f = none
and_then (some s) f = f s

-- [A-Za-z]+-[0-9]+
unfoldable pub keyed_id : String → Option String
unfolding span_letters span_digits str_eq
keyed_id s =
    let (ls, rest) = span_letters s in
    and_then (filled ls) (λ _.
      and_then (skip_char 45 rest) (λ r.
        and_then (filled (span_digits r).0) (λ ds. some (String.◌++◌ ls (String.◌++◌ "-" ds)))))

-- _ID_TOKEN_RE at one position
unfoldable pub id_token : String → Option String
unfolding lstrip span_digits keyed_id str_eq
id_token s =
    and_then (skip_char 35 s)
      (λ r. or_else (filled (span_digits (lstrip r)).0) (keyed_id (lstrip r)))

-- the tokens of a segment that are new
unfoldable pub tokens_in : List String → String → List String
unfolding id_token
tokens_in seen String.[] = []
tokens_in seen (String.◌∷◌ c s) = elim (id_token (String.◌∷◌ c s)) [
  | none ↦ tokens_in seen s
  | some t ↦ if contains t seen then tokens_in seen s else t ∷ tokens_in (seen ++ t ∷ []) s
]

abbrev skip_colon : String → String
skip_colon s = elim (skip_char 58 s) [ none ↦ s | some r ↦ r ]

-- _DEPENDS_ON_RE at one position: what `(.+)` begins with
unfoldable pub depends_at : String → Option String
unfolding strip_prefix_fold starts_space lstrip
depends_at s = and_then (strip_prefix_fold "depends" s) (λ a.
    if starts_space a
    then and_then (strip_prefix_fold "on" (lstrip a)) (λ b. some (lstrip (skip_colon (lstrip b))))
    else none)

-- the line in front, and the rest
unfoldable pub line_of : String → String × String
line_of String.[] = ("", "")
line_of (String.◌∷◌ c s) =
    let (l, rest) = line_of s in
    if code c == 10 then ("", String.◌∷◌ c s) else (String.◌∷◌ c l, rest)

unfoldable pub before : String → String → String
unfolding cut_at
before stop s = elim (cut_at stop s) [ none ↦ s | some (a, b) ↦ a ]

-- the segments, one match behind the other: `skip` characters still belong to the last match
unfoldable pub segments : (skip : ℕ) → String → List String
unfolding depends_at line_of before
segments skip String.[] = []
segments (suc n) (String.◌∷◌ c s) = segments n s
segments zero (String.◌∷◌ c s) = elim (depends_at (String.◌∷◌ c s)) [
  | none ↦ segments zero s
  | some r ↦ before "-->" (line_of r).0 ∷ segments (String.count s - String.count (line_of r).1) s
]

unfoldable pub collect : List String → List String → List String
unfolding tokens_in
collect seen [] = seen
collect seen (g ∷ gs) = collect (seen ++ tokens_in seen g) gs

unfoldable pub parse_depends_on : Option String → List String
unfolding segments collect
parse_depends_on none = []
parse_depends_on (some body) = collect [] (segments 0 body)

-- the first match of a pattern that begins where no word character stands before it
unfoldable pub search_word : (String → Option String) → Bool → String → Option String
unfolding is_word
search_word p inside String.[] = none
search_word p inside (String.◌∷◌ c s) =
    let later = search_word p (is_word c) s in
    if inside then later else or_else (p (String.◌∷◌ c s)) later

-- _PARENT_RE at one position
unfoldable pub parent_at : String → Option String
unfolding strip_prefix_fold lstrip id_token
parent_at s =
    and_then
      (or_else (strip_prefix_fold "ticket" s)
        (or_else (strip_prefix_fold "epic" s) (strip_prefix_fold "parent" s)))
      (λ a. and_then (skip_char 58 (lstrip a)) (λ b. id_token (lstrip b)))

unfoldable pub parse_parent : Option String → Option String
unfolding search_word parent_at
parse_parent none = none
parse_parent (some body) = search_word parent_at false body

abbrev skip_hash : String → String
skip_hash s = elim (skip_char 35 s) [ none ↦ s | some r ↦ r ]

-- relationships.py, _PARENT_RE at one position
unfoldable pub link_at : String → String → Option String
unfolding strip_prefix_fold lstrip span_digits str_eq
link_at tier s =
    and_then (strip_prefix_fold tier s)
      (λ a. and_then (skip_char 58 a) (λ b. filled (span_digits (skip_hash (lstrip b))).0))

-- relationships.py, `parent_id`, for the tiers that have a pattern
unfoldable pub parent_id : Option String → (parent_tier : String) → Option String
unfolding search_word link_at str_eq
parent_id none parent_tier = none
parent_id (some body) parent_tier =
    if str_eq parent_tier "epic" || str_eq parent_tier "ticket"
    then search_word (link_at parent_tier) false body
    else none
