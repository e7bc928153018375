-- ===== src/Runners/Quota.antt =====
-- executing/quota.py: the signs of a provider's usage limit in the output of an agent, and how long
-- to park for it. Instants are whole seconds since the epoch, clock times are those of UTC.
use Prim.Native.Char.{Char, code}
use Prim.Native.String
use Prim.Native.String.{[], ◌∷◌}
use Prim.Native.Nat.{◌-◌, ◌*◌, ◌/◌}
use specseed.Prelude.{
  ℕ, ◌+◌, max, String, Bool, true, ◌&&◌, ◌||◌, not, Option, none, some, str_eq, leb, ltb, ◌==◌,
  if◌then◌else◌,
}
use specseed.Prelude.Text.{lstrip, casefold}
use specseed.Runners.Match.{
  ◌>>=◌, ◌>>◌, guard, or_else, is_digit, is_word, starts_word, starts_digit, literal, spaces,
  number, word, search,
}

abbrev pub default_park_s : ℕ
default_park_s = 900

abbrev pub min_park_s : ℕ
min_park_s = 60

-- datetime.max: an instant after it raises OverflowError
abbrev pub max_instant : ℕ
max_instant = 253402300799

pub record QuotaInfo : Type 0 where
  pub matched : String
  pub park_seconds : ℕ
  pub reset_at : Option ℕ

pub data Raises (A : Type 0) : Type 0 where
  returned : A → Raises A
  overflow_error : Raises A

abbrev none_before : (Char → Bool) → Option Char → Bool
none_before p none = true
none_before p (some c) = not (p c)

-- a literal that is followed by one of the endings
abbrev with : String → (String → Option String) → Option Char → String → Option String
with m ending before s = do (t, r) ← literal m s; end ← ending r; some (String.◌++◌ t end)

abbrev no_ending : String → Option String
no_ending r = some ""

-- `(?:ed)?`
abbrev maybe_ed : String → Option String
maybe_ed r = elim (literal "ed" r) [ none ↦ some "" | some (t, _) ↦ some t ]

-- `[_ ]exhausted`
abbrev exhausted : String → Option String
exhausted r = do (t, _) ← or_else (literal "_exhausted" r) (literal " exhausted" r); some t

-- \bquota\b
abbrev quota_word : Option Char → String → Option String
quota_word before s = do
  (t, r) ← literal "quota" s
  guard (none_before is_word before && not (starts_word r))
  some t

-- (?<!\d)429(?!\d)
abbrev code_429 : Option Char → String → Option String
code_429 before s = do
  (t, r) ← literal "429" s
  guard (none_before is_digit before && not (starts_digit r))
  some t

-- `_SIGNAL_RES`: the first pattern that the text holds, and what it matched
unfoldable pub signal_in : String → Option String
unfolding search literal is_word starts_word is_digit starts_digit
signal_in text = or_else (search (with "usage limit" no_ending) none text) (
    or_else (search (with "rate limit" maybe_ed) none text) (
      or_else (search quota_word none text) (
        or_else (search (with "too many requests" no_ending) none text)
          (or_else (search (with "resource" exhausted) none text) (search code_429 none text)))))

abbrev is_unit : String → Bool
is_unit u =
    str_eq u "seconds"
    || str_eq u "second"
    || str_eq u "minutes"
    || str_eq u "minute"
    || str_eq u "hours"
    || str_eq u "hour"
    || str_eq u "sec"
    || str_eq u "min"
    || str_eq u "hr"
    || str_eq u "s"
    || str_eq u "m"
    || str_eq u "h"

-- `_UNIT_FIRST_S`, by the first letter
abbrev unit_first_s : String → ℕ
unit_first_s [] = 60
unit_first_s (c ∷ u) =
    if code c == 115 then 1 else if code c == 109 then 60 else if code c == 104 then 3600 else 60

-- `_IN_RE`: how many seconds
unfoldable pub in_re : Option Char → String → Option ℕ
unfolding literal spaces number word casefold lstrip str_eq
in_re before s = do
  (_, r) ← or_else (literal "try again" s) (or_else (literal "retry" s) (literal "again" s))
  r ← spaces r
  (_, r) ← or_else (literal "in" r) (literal "after" r)
  r ← spaces r
  (n, r) ← number r
  let unit = casefold (word (lstrip r))
  guard (is_unit unit)
  some (n * unit_first_s unit)

pub data Half : Type 0 where
  am pm : Half

-- `[ap]\.?m\.?`
unfoldable pub half_of_day : String → Option Half
unfolding literal
half_of_day s = do
  (h, r) ←
      or_else (do (_, r) ← literal "a" s; some (am, r)) (do (_, r) ← literal "p" s; some (pm, r))
  (_, r) ← or_else (literal "." r) (some ("", r))
  (_, r) ← literal "m" r
  some h

-- `\d{2}` and `\d`
abbrev two_digits : String → Option (ℕ × String)
two_digits (c ∷ d ∷ s) =
    if is_digit c && is_digit d then some ((code c - 48) * 10 + (code d - 48), s) else none
two_digits _ = none

abbrev one_digit : String → Option (ℕ × String)
one_digit (c ∷ s) = if is_digit c then some (code c - 48, s) else none
one_digit [] = none

abbrev then_colon : Option (ℕ × String) → Option (ℕ × String)
then_colon found = do (h, r) ← found; (_, r) ← literal ":" r; some (h, r)

-- `_AT_RE`: hour, minute and half of the day
unfoldable pub at_re : Option Char → String → Option (ℕ × ℕ × Option Half)
unfolding literal spaces half_of_day lstrip is_digit
at_re before s = do
  (_, r) ←
      or_else (literal "try again" s)
        (or_else (literal "resets" s) (or_else (literal "reset" s) (literal "available" s)))
  r ← spaces r
  (_, r) ← literal "at" r
  r ← spaces r
  (hour, r) ← or_else (then_colon (two_digits r)) (then_colon (one_digit r))
  (minute, r) ← two_digits r
  some (hour, minute, half_of_day (lstrip r))

abbrev pub seconds_per_day : ℕ
seconds_per_day = 86400

abbrev pub hour_of : ℕ → Option Half → ℕ
hour_of hour none = hour
hour_of hour (some pm) = if ltb hour 12 then hour + 12 else hour
hour_of hour (some am) = if hour == 12 then 0 else hour

-- `_clock_to_dt`: the next instant of the clock time
unfoldable pub clock_to_dt : (hour minute : ℕ) → Option Half → (now : ℕ) → Option ℕ
clock_to_dt hour minute half now =
    let hour = hour_of hour half in
    if not (leb hour 23 && leb minute 59)
    then none
    else (let candidate = now / seconds_per_day * seconds_per_day + (hour * 3600 + minute * 60) in
        some (if leb candidate now then candidate + seconds_per_day else candidate))

-- an instant that the code adds up to
abbrev pub in_range : ℕ → (park : ℕ) → Raises (Option ℕ × ℕ)
in_range reset park = if leb reset max_instant then returned (some reset, park) else overflow_error

abbrev pub at_clock : (now : ℕ) → Option ℕ → Raises (Option ℕ × ℕ)
at_clock now none = returned (none, default_park_s)
at_clock now (some reset) = in_range reset (max min_park_s (reset - now))

abbrev pub from_clock : (now : ℕ) → Option (ℕ × ℕ × Option Half) → Raises (Option ℕ × ℕ)
from_clock now none = returned (none, default_park_s)
from_clock now (some (hour, minute, half)) = at_clock now (clock_to_dt hour minute half now)

-- `_parse_reset`
unfoldable pub parse_reset : String → (now : ℕ) → Raises (Option ℕ × ℕ)
unfolding search in_re at_re clock_to_dt
parse_reset text now = elim (search in_re none text) [
  | none ↦ from_clock now (search at_re none text)
  | some secs ↦ in_range (now + max min_park_s secs) (max min_park_s secs)
]

abbrev pub with_reset : String → Raises (Option ℕ × ℕ) → Raises (Option QuotaInfo)
with_reset hit overflow_error = overflow_error
with_reset hit (returned (reset, park)) =
    returned (some (record { matched = hit; park_seconds = park; reset_at = reset }))

-- `quota_signal`; an empty text holds no sign
unfoldable pub quota_signal : String → (now : ℕ) → Raises (Option QuotaInfo)
unfolding signal_in parse_reset
quota_signal text now = elim (signal_in text) [
  | none ↦ returned none
  | some hit ↦ with_reset hit (parse_reset text now)
]
