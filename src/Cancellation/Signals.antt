-- ===== src/Cancellation/Signals.antt =====
-- About the signals between a cancelled task and its thread.
use specseed.Prelude.{
  ℕ, ◌≡◌, refl, ap, inl, inr, Bool, true, false, ◌||◌, Option, none, some, List, [], ◌∷◌, ◌++◌,
  arith, All, any, map, ◌==◌, ==_refl, ==→eq, Bool-cases, Option-cases,
}
use specseed.Cancellation.{
  Registry, lookup, is_set, found_or_new, register, cancel, is_cancelled, without, clear,
  cancel_all,
}

pub data Op : Type 0 where
  register_op : ℕ → Op
  cancel_op : ℕ → Op
  clear_op : ℕ → Op
  cancel_all_op : Op

unfoldable pub apply : Op → Registry → Registry
apply (register_op key) reg = (register key reg).1
apply (cancel_op key) reg = cancel key reg
apply (clear_op key) reg = clear key reg
apply cancel_all_op reg = cancel_all reg

unfoldable pub run : List Op → Registry → Registry
unfolding apply
run [] reg = reg
run (op ∷ ops) reg = run ops (apply op reg)

-- the operation does not forget the task
abbrev pub Keeps : ℕ → Op → Type 0
Keeps key (clear_op k) = (k == key) ≡ false
Keeps key _ = Unit

lookup-without :
    (k key : ℕ) (es : List (ℕ × ℕ)) → (k == key) ≡ false → lookup key (without k es) ≡ lookup key es
unfolding lookup
lookup-without k key [] h = refl
lookup-without k key ((j, r) ∷ es) h = ground (arith, lookup-without k key es h)

lookup-without_self : (k : ℕ) (es : List (ℕ × ℕ)) → lookup k (without k es) ≡ none
unfolding lookup
lookup-without_self k [] = refl
lookup-without_self k ((j, r) ∷ es) = ground (arith, lookup-without_self k es)

-- a task that is registered keeps its Event until it is cleared
lookup-found :
    (k key r : ℕ) (reg : Registry)
    → lookup key reg.events ≡ some r
    → lookup key (found_or_new k reg (lookup k reg.events)).1.events ≡ some r
unfolding lookup
lookup-found k key r reg h = elim (Option-cases (lookup k reg.events)) [
  | inl e ↦ rw e elim (Bool-cases (k == key)) [
    | inl s ↦ absurd (ground (arith, ap (λ j. lookup j reg.events) (==→eq k key s)))
    | inr s ↦ rw s h
  ]
  | inr p ↦ rw (p.1) h
]

lookup-apply :
    (op : Op) (key r : ℕ) (reg : Registry)
    → Keeps key op
    → lookup key reg.events ≡ some r
    → lookup key (apply op reg).events ≡ some r
unfolding apply register cancel clear cancel_all
lookup-apply (register_op k) key r reg l h = lookup-found k key r reg h
lookup-apply (cancel_op k) key r reg l h = lookup-found k key r reg h
lookup-apply (clear_op k) key r reg l h = rw (lookup-without k key reg.events l) h
lookup-apply cancel_all_op key r reg l h = h

lookup-run :
    (ops : List Op) (key r : ℕ) (reg : Registry)
    → All (Keeps key) ops
    → lookup key reg.events ≡ some r
    → lookup key (run ops reg).events ≡ some r
unfolding run
lookup-run [] key r reg l h = h
lookup-run (op ∷ ops) key r reg l h =
    lookup-run ops key r (apply op reg) l.1 (lookup-apply op key r reg l.0 h)

register-lookup :
    (key : ℕ) (reg : Registry) → lookup key (register key reg).1.events ≡ some (register key reg).0
unfolding register lookup
register-lookup key reg = elim (Option-cases (lookup key reg.events)) [
  | inl e ↦ rw (e, ==_refl key)
  | inr p ↦ rw (p.1) (p.1)
]

cancel-set :
    (key r : ℕ) (reg : Registry) → lookup key reg.events ≡ some r → is_set r (cancel key reg) ≡ true
unfolding cancel is_set
cancel-set key r reg h = rw (h, ==_refl r)

-- The Event that a task's thread registered is set by a cancellation of the task, whatever
-- registrations, cancellations and clearings of other tasks came between, as long as the task was
-- not cleared.
pub register-cancel :
    (key : ℕ) (ops : List Op) (reg : Registry)
    → All (Keeps key) ops
    → is_set (register key reg).0 (cancel key (run ops (register key reg).1)) ≡ true
register-cancel key ops reg l =
    cancel-set key (register key reg).0 (run ops (register key reg).1)
      (lookup-run ops key (register key reg).0 (register key reg).1 l (register-lookup key reg))

later : (a : Bool) {b : Bool} → b ≡ true → (a || b) ≡ true
later true h = refl
later false h = h

any-append_right : (p : ℕ → Bool) (xs ys : List ℕ) → any p ys ≡ true → any p (xs ++ ys) ≡ true
any-append_right p [] ys h = h
any-append_right p (x ∷ xs) ys h = later (p x) (any-append_right p xs ys h)

set-found_or_new : (k : ℕ) (reg : Registry) (o : Option ℕ) → (found_or_new k reg o).1.set ≡ reg.set
set-found_or_new k reg none = refl
set-found_or_new k reg (some r) = refl

-- an Event that is set stays set
set-apply :
    (op : Op) (r : ℕ) (reg : Registry) → is_set r reg ≡ true → is_set r (apply op reg) ≡ true
unfolding apply register cancel clear cancel_all is_set
set-apply (register_op k) r reg h = rw (set-found_or_new k reg (lookup k reg.events)) h
set-apply (cancel_op k) r reg h =
    rw (set-found_or_new k reg (lookup k reg.events))
      (later ((found_or_new k reg (lookup k reg.events)).0 == r) h)
set-apply (clear_op k) r reg h = h
set-apply cancel_all_op r reg h =
    any-append_right (λ x. x == r) (map (λ e. e.1) reg.events) reg.set h

set-run :
    (ops : List Op) (r : ℕ) (reg : Registry) → is_set r reg ≡ true → is_set r (run ops reg) ≡ true
unfolding run
set-run [] r reg h = h
set-run (op ∷ ops) r reg h = set-run ops r (apply op reg) (set-apply op r reg h)

cancel-lookup : (key : ℕ) (reg : Registry) → (r : ℕ) × (lookup key (cancel key reg).events ≡ some r)
unfolding cancel lookup
cancel-lookup key reg = elim (Option-cases (lookup key reg.events)) [
  | inl e ↦ (reg.next_ref, rw (e, ==_refl key))
  | inr p ↦ (p.0, rw (p.1) (p.1))
]

cancel-set_own :
    (key r : ℕ) (reg : Registry)
    → lookup key (cancel key reg).events ≡ some r
    → is_set r (cancel key reg) ≡ true
unfolding cancel lookup is_set
cancel-set_own key r reg h = elim (Option-cases (lookup key reg.events)) [
  | inl e ↦ rw e (newest r (rw (e, ==_refl key) at h))
  | inr p ↦ rw (p.1) (holder p.0 p.1 (rw (p.1) at h))
]
  where
    newest :
        (q : ℕ)
        → some reg.next_ref ≡ some q
        → (reg.next_ref == q || any (λ x. x == q) reg.set) ≡ true
    newest q e = ground arith

    holder :
        (q : ℕ)
        → lookup key reg.events ≡ some q
        → lookup key reg.events ≡ some r
        → (q == r || any (λ x. x == r) reg.set) ≡ true
    holder q e e' = ground arith

-- A task that registers after it was cancelled finds its Event set, unless it was cleared in
-- between: the order of the two calls does not matter.
pub cancel-register :
    (key : ℕ) (ops : List Op) (reg : Registry)
    → All (Keeps key) ops
    → is_set (register key (run ops (cancel key reg))).0 (register key (run ops (cancel key reg))).1
      ≡ true
unfolding register
cancel-register key ops reg l =
    let (r, found) = cancel-lookup key reg in
    let kept = lookup-run ops key r (cancel key reg) l found in
    rw kept (set-run ops r (cancel key reg) (cancel-set_own key r reg found))

pub is_cancelled-cancel_self : (key : ℕ) (reg : Registry) → is_cancelled key (cancel key reg) ≡ true
unfolding is_cancelled
is_cancelled-cancel_self key reg =
    let (r, found) = cancel-lookup key reg in rw found (cancel-set_own key r reg found)

-- a cancelled task stays cancelled when another is cancelled
pub is_cancelled-cancel :
    (key other : ℕ) (reg : Registry)
    → is_cancelled key reg ≡ true
    → is_cancelled key (cancel other reg) ≡ true
unfolding is_cancelled apply
is_cancelled-cancel key other reg h = elim (Option-cases (lookup key reg.events)) [
  | inl e ↦ absurd (cc (rw e at h))
  | inr p ↦
      rw (lookup-apply (cancel_op other) key p.0 reg tt p.1)
        (set-apply (cancel_op other) p.0 reg (rw (p.1) at h))
]
