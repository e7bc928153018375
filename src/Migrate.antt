-- ===== src/Migrate.antt =====
-- migrating/migrate.py: the storage is brought up to the version of the engine, one hop at a time.
-- What a hop does to the files is not modelled: that it ran is recorded, and it may fail.
pub mod Order
pub mod Marker
pub mod Chain
mod Examples
use Prim.Native.Char.{Char, code}
use Prim.Native.String
use specseed.Prelude.{
  ℕ, suc, ◌+◌, ◌-◌, ◌*◌, String, Bool, true, false, ◌&&◌, ◌||◌, not, Option, none, some, List, [],
  ◌∷◌, ◌++◌, leb, ltb, ◌==◌, str_eq, if◌then◌else◌,
}
use specseed.Prelude.Text.{strip, words}

-- the hop modules: FROM and TO, and the numbers that they parse to
pub record Hop : Type 0 where
  pub name : String
  pub to : String
  pub lower : List ℕ
  pub upper : List ℕ

abbrev is_dot : Char → Bool
is_dot c = code c == 46

abbrev is_digit : Char → Bool
is_digit c = leb 48 (code c) && leb (code c) 57

-- the value of digits after the value of those before them
unfoldable pub digits : ℕ → String → Option ℕ
digits n String.[] = some n
digits n (String.◌∷◌ c s) =
    let rest = digits (n * 10 + (code c - 48)) s in if is_digit c then rest else none

-- int() of a text of digits; a text with a sign or an underscore, which int() also reads, is refused
unfoldable pub int_of : String → Option ℕ
unfolding strip digits str_eq
int_of s = let t = strip s in if str_eq t "" then none else digits 0 t

abbrev cons_part : Option ℕ → Option (List ℕ) → Option (List ℕ)
cons_part none rest = none
cons_part (some n) none = none
cons_part (some n) (some ns) = some (n ∷ ns)

abbrev parse_parts : List String → Option (List ℕ)
parse_parts [] = some []
parse_parts (p ∷ ps) = cons_part (int_of p) (parse_parts ps)

-- none where int() raises ValueError
unfoldable pub parse_version : String → Option (List ℕ)
unfolding strip words int_of
parse_version s = parse_parts (words is_dot (strip s))

-- Python's order of tuples
unfoldable pub version_lt : List ℕ → List ℕ → Bool
version_lt vs [] = false
version_lt [] (w ∷ ws) = true
version_lt (v ∷ vs) (w ∷ ws) = ltb v w || (v == w && version_lt vs ws)

-- the two places of the marker, as their texts (none where the file cannot be read), and the hops
-- that ran
pub record Storage : Type 0 where
  pub marker : Option String
  pub legacy_marker : Option String
  pub ran : List String

abbrev pub baseline_version : String
baseline_version = "0.3.0"

abbrev filled_or : String → Option String → String
filled_or other none = other
filled_or other (some s) = if str_eq (strip s) "" then other else strip s

unfoldable pub storage_version : Storage → String
unfolding strip str_eq
storage_version st = filled_or (filled_or baseline_version st.legacy_marker) st.marker

unfoldable pub write_storage_version : String → Storage → Storage
write_storage_version v st = record st { marker = some (String.◌++◌ v "\n") }

pub data Error : Type 0 where
  bad_version : String → Error
  predates : String → Hop → Error
  hop_failed : String → Error

pub data Climb : Type 0 where
  stuck : Error → Storage → Climb
  reached : List String → String → List ℕ → Storage → Climb

abbrev pub add_applied : String → Climb → Climb
add_applied name (stuck e st) = stuck e st
add_applied name (reached names c v st) = reached (name ∷ names) c v st

abbrev pub hop_ran : Hop → Storage → Storage
hop_ran h st = record st { ran = st.ran ++ h.name ∷ [] }

-- the loop over the hops, from the current version c with the numbers v
unfoldable pub climb :
    (works : Hop → Bool) → (target : List ℕ) → List Hop → String → List ℕ → Storage → Climb
unfolding version_lt write_storage_version
climb works target [] c v st = reached [] c v st
climb works target (h ∷ hs) c v st =
    let skip = climb works target hs c v st in
    let next = climb works target hs h.to h.upper (write_storage_version h.to (hop_ran h st)) in
    if version_lt target h.upper
    then reached [] c v st
    else if not (version_lt v h.upper)
    then skip
    else if version_lt v h.lower
    then stuck (predates c h) st
    else if works h
    then add_applied h.name next
    else stuck (hop_failed h.name) st

pub data Result : Type 0 where
  stopped : Error → Storage → Result
  applied : List String → Storage → Result

-- the marker goes to the engine's version where no hop did that
abbrev pub fast_forward : String → List ℕ → Climb → Result
fast_forward text target (stuck e st) = stopped e st
fast_forward text target (reached names c v st) =
    applied names (if version_lt v target then write_storage_version text st else st)

unfoldable pub run_from :
    (Hop → Bool) → List Hop → String → Option (List ℕ) → Option (List ℕ) → Storage → Result
unfolding climb version_lt write_storage_version storage_version
run_from works hops text none target st = stopped (bad_version (storage_version st)) st
run_from works hops text (some v) none st = stopped (bad_version text) st
run_from works hops text (some v) (some target) st =
    if version_lt target v
    then applied [] st
    else fast_forward text target (climb works target hops (storage_version st) v st)

-- `run_migrations` with the version text of the engine
unfoldable pub run_migrations : (works : Hop → Bool) → List Hop → String → Storage → Result
unfolding run_from parse_version storage_version
run_migrations works hops text st =
    run_from works hops text (parse_version (storage_version st)) (parse_version text) st

abbrev v3 : ℕ → ℕ → ℕ → List ℕ
v3 a b c = a ∷ b ∷ c ∷ []

abbrev hop : String → String → List ℕ → List ℕ → Hop
hop name to lower upper = record { name = name; to = to; lower = lower; upper = upper }

-- MIGRATIONS
abbrev pub migrations : List Hop
migrations =
    hop "m_0_3_0__0_3_1" "0.3.1" (v3 0 3 0) (v3 0 3 1)
    ∷ hop "m_0_3_1__0_4_0" "0.4.0" (v3 0 3 1) (v3 0 4 0)
    ∷ hop "m_0_4_0__0_5_0" "0.5.0" (v3 0 4 0) (v3 0 5 0)
    ∷ hop "m_0_5_0__0_7_0" "0.7.0" (v3 0 5 0) (v3 0 7 0)
    ∷ hop "m_0_7_0__0_9_0" "0.9.0" (v3 0 7 0) (v3 0 9 0)
    ∷ hop "m_0_9_0__0_11_0" "0.11.0" (v3 0 9 0) (v3 0 11 0)
    ∷ hop "m_0_11_0__0_12_0" "0.12.0" (v3 0 11 0) (v3 0 12 0)
    ∷ hop "m_0_12_0__0_13_0" "0.13.0" (v3 0 12 0) (v3 0 13 0)
    ∷ hop "m_0_13_0__0_14_0" "0.14.0" (v3 0 13 0) (v3 0 14 0)
    ∷ hop "m_0_14_0__0_16_0" "0.16.0" (v3 0 14 0) (v3 0 16 0)
    ∷ hop "m_0_16_0__0_18_0" "0.18.0" (v3 0 16 0) (v3 0 18 0)
    ∷ hop "m_0_18_0__0_19_0" "0.19.0" (v3 0 18 0) (v3 0 19 0)
    ∷ hop "m_0_19_0__0_20_0" "0.20.0" (v3 0 19 0) (v3 0 20 0)
    ∷ hop "m_0_20_0__0_21_0" "0.21.0" (v3 0 20 0) (v3 0 21 0)
    ∷ []
