-- ===== src/Runners/Bounds.antt =====
-- executing/quota.py with `_quota_park` of executing/scheduler.py: how long a limit parks.
use specseed.Prelude.{
  some_injective, ℕ, ◌+◌, ◌-◌, ◌≤◌, ◌<◌, ◌≡◌, refl, sym, subst, max, String, Option, none, some,
  arith, leb, Bool-cases, Option-cases, inl, inr,
}
use specseed.Runners.Match.{search}
use specseed.Runners.Quota.{
  QuotaInfo, Raises, returned, overflow_error, Half, default_park_s, min_park_s, max_instant,
  seconds_per_day, in_re, at_re, signal_in, clock_to_dt, parse_reset, quota_signal, in_range,
  from_clock, with_reset,
}
use mathlib.Core.Option.{some-ne-none}
use specseed.Scheduler.{quota_park}

-- what a reset and a park say together
pub record Bounded (now : ℕ) (reset : Option ℕ) (park : ℕ) : Type 0 where
  pub at_least : min_park_s ≤ park
  pub ahead : (r : ℕ) → reset ≡ some r → (now < r) × (r ≤ now + park) × (r ≤ max_instant)
  pub unknown : reset ≡ none → park ≡ default_park_s

abbrev BoundedReset : ℕ → Raises (Option ℕ × ℕ) → Type 0
BoundedReset now overflow_error = Unit
BoundedReset now (returned (reset, park)) = Bounded now reset park

unread : (now : ℕ) → BoundedReset now (returned (none, default_park_s))
unread now = record {
  at_least = omega arith;
  ahead = λ r q. absurd (some-ne-none r (sym q));
  unknown = λ _. refl;
}

in_range-Bounded :
    (now reset park : ℕ)
    → min_park_s ≤ park
    → now < reset
    → reset ≤ now + park
    → BoundedReset now (in_range reset park)
in_range-Bounded now reset park m l u = elim (Bool-cases (leb reset max_instant)) [
  | inl e ↦ rw e (record {
    at_least = m;
    ahead = λ r q.
        subst (λ r. (now < r) × (r ≤ now + park) × (r ≤ max_instant)) (some_injective reset r q)
          (l, u, ground arith);
    unknown = λ q. absurd (some-ne-none reset q);
  })
  | inr e ↦ rw e tt
]

-- an instant of the clock is ahead by a day at most
clock_to_dt-ahead :
    (hour minute now : ℕ) (half : Option Half) (r : ℕ)
    → clock_to_dt hour minute half now ≡ some r
    → (now < r) × (r ≤ now + seconds_per_day)
unfolding clock_to_dt
clock_to_dt-ahead hour minute now half r e = ground arith

from_clock-Bounded :
    (now : ℕ) (c : Option (ℕ × ℕ × Option Half)) → BoundedReset now (from_clock now c)
from_clock-Bounded now none = unread now
from_clock-Bounded now (some (hour, minute, half)) =
    elim (Option-cases (clock_to_dt hour minute half now)) [
      | inl e ↦ rw e (unread now)
      | inr (r, e) ↦ rw e (
          in_range-Bounded now r (max min_park_s (r - now)) (ground arith)
            (clock_to_dt-ahead hour minute now half r e).0 (ground arith))
    ]

parse_reset-Bounded : (text : String) (now : ℕ) → BoundedReset now (parse_reset text now)
unfolding parse_reset
parse_reset-Bounded text now = go (search in_re none text)
  where
    go :
        (o : Option ℕ)
        → BoundedReset now (elim o [
          | none ↦ from_clock now (search at_re none text)
          | some secs ↦ in_range (now + max min_park_s secs) (max min_park_s secs)
        ])
    go none = from_clock-Bounded now (search at_re none text)
    go (some secs) =
        in_range-Bounded now (now + max min_park_s secs) (max min_park_s secs) (ground arith)
          (ground arith) (omega arith)

abbrev BoundedSign : ℕ → Raises (Option QuotaInfo) → Type 0
BoundedSign now overflow_error = Unit
BoundedSign now (returned none) = Unit
BoundedSign now (returned (some q)) = Bounded now q.reset_at q.park_seconds

with_reset-Bounded :
    (now : ℕ) (hit : String) (p : Raises (Option ℕ × ℕ))
    → BoundedReset now p
    → BoundedSign now (with_reset hit p)
with_reset-Bounded now hit overflow_error b = tt
with_reset-Bounded now hit (returned (reset, park)) b = b

quota_signal-BoundedSign : (text : String) (now : ℕ) → BoundedSign now (quota_signal text now)
unfolding quota_signal
quota_signal-BoundedSign text now = go (signal_in text)
  where
    go :
        (o : Option String)
        → BoundedSign now
            (elim o [ none ↦ returned none | some hit ↦ with_reset hit (parse_reset text now) ])
    go none = tt
    go (some hit) = with_reset-Bounded now hit (parse_reset text now) (parse_reset-Bounded text now)

parks :
    (now wall park : ℕ) (reset : Option ℕ)
    → now ≤ wall
    → Bounded now reset park
    → (min_park_s ≤ (quota_park wall reset).0) × ((quota_park wall reset).0 ≤ park)
unfolding quota_park
parks now wall park none l b = (omega arith, rw (b.unknown refl) (omega arith))
parks now wall park (some r) l b = (omega arith, omega (arith, b.at_least, (b.ahead r refl).1))

-- A sign of a limit in an output parks for at least a minute. Where it names an instant, that is
-- ahead, within the park and within the range of datetime; where it names none, the park is the
-- default of a quarter of an hour. The scheduler that is handed the instant later on parks for a
-- minute at least too, and never for longer than the sign says.
pub quota_signal-quota_park :
    (text : String) (now wall : ℕ) (q : QuotaInfo)
    → quota_signal text now ≡ returned (some q)
    → now ≤ wall
    → Bounded now q.reset_at q.park_seconds
      × (min_park_s ≤ (quota_park wall q.reset_at).0)
      × ((quota_park wall q.reset_at).0 ≤ q.park_seconds)
quota_signal-quota_park text now wall q e l =
    let b = subst (BoundedSign now) e (quota_signal-BoundedSign text now) in
    let p = parks now wall q.park_seconds q.reset_at l b in (b, p.0, p.1)
