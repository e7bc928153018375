-- ===== src/Cancellation.antt =====
-- executing/cancellation.py: the registry of cancel Events. An Event is shared between the registry
-- and the thread that registered it, so events are references into a heap here: `set` holds the
-- references whose Event is set, and a reference is never given twice. Each function is one
-- critical section of the registry's lock.
pub mod Signals
mod Examples
use specseed.Prelude.{
  ℕ, suc, ◌+◌, Bool, true, false, ◌||◌, Option, none, some, List, [], ◌∷◌, ◌++◌, map, ◌==◌,
  if◌then◌else◌, keep, any,
}

pub record Registry : Type 0 where
  -- `_events`: the task's Event
  pub events : List (ℕ × ℕ)
  pub set : List ℕ
  pub next_ref : ℕ

abbrev pub empty : Registry
empty = record { events = []; set = []; next_ref = 0 }

unfoldable pub lookup : ℕ → List (ℕ × ℕ) → Option ℕ
lookup key [] = none
lookup key ((k, r) ∷ rest) = if k == key then some r else lookup key rest

unfoldable pub is_set : ℕ → Registry → Bool
is_set r reg = any (λ x. x == r) reg.set

-- `threading.Event()`, stored under the key
abbrev pub add_event : ℕ → Registry → Registry
add_event key reg = record reg {
  events = (key, reg.next_ref) ∷ reg.events;
  next_ref = reg.next_ref + 1;
}

abbrev pub found_or_new : ℕ → Registry → Option ℕ → ℕ × Registry
found_or_new key reg (some r) = (r, reg)
found_or_new key reg none = (reg.next_ref, add_event key reg)

-- the task's Event, created if it has none
unfoldable pub register : ℕ → Registry → ℕ × Registry
unfolding lookup
register key reg = found_or_new key reg (lookup key reg.events)

unfoldable pub event_for : ℕ → Registry → Option ℕ
unfolding lookup
event_for key reg = lookup key reg.events

abbrev pub set_event : ℕ × Registry → Registry
set_event (r, reg) = record reg { set = r ∷ reg.set }

-- sets the task's Event; one that is not there is created set, for a later `register` to find
unfoldable pub cancel : ℕ → Registry → Registry
unfolding lookup
cancel key reg = set_event (found_or_new key reg (lookup key reg.events))

abbrev set_at : Registry → Option ℕ → Bool
set_at reg none = false
set_at reg (some r) = is_set r reg

unfoldable pub is_cancelled : ℕ → Registry → Bool
unfolding lookup is_set
is_cancelled key reg = set_at reg (lookup key reg.events)

abbrev pub without : ℕ → List (ℕ × ℕ) → List (ℕ × ℕ)
without key events = keep (λ e. if e.0 == key then false else true) events

unfoldable pub clear : ℕ → Registry → Registry
clear key reg = record reg { events = without key reg.events }

unfoldable pub cancel_all : Registry → Registry
cancel_all reg = record reg { set = map (λ e. e.1) reg.events ++ reg.set }

unfoldable pub reset : Registry → Registry
reset reg = record reg { events = [] }
