-- ===== src/Queue/Select.antt =====
-- `select` of Queue.antt: the row that `ORDER BY priority DESC, task_id ASC LIMIT 1` gives.
use specseed.Prelude.{
  ◌≡◌, refl, inl, inr, Bool, true, false, Option, none, some, List, [], ◌∷◌, ◌<◌, ◌≤◌, ◌⊎◌, arith,
  In, All, Bool-cases, count, if◌then◌else◌,
}
use specseed.Queue.{Task, goes_before, select, first_of}

goes_before_irrefl : (a : Task) → goes_before a a ≡ false
unfolding goes_before
goes_before_irrefl a = ground arith

goes_before_trans :
    (a b c : Task) → goes_before a b ≡ false → goes_before b c ≡ false → goes_before a c ≡ false
unfolding goes_before
goes_before_trans a b c h k = ground arith

goes_before_asym : (a b : Task) → goes_before a b ≡ true → goes_before b a ≡ false
unfolding goes_before
goes_before_asym a b h = ground arith

-- t passes the test, and no row that passes goes before it
record IsChosen (ok : Task → Bool) (ts : List Task) (t : Task) : Type 0 where
  present : In t ts
  passes : ok t ≡ true
  first : All (λ u. ok u ≡ true → goes_before u t ≡ false) ts

abbrev Chosen : (Task → Bool) → List Task → Option Task → Type 0
Chosen ok ts none = All (λ u. ok u ≡ false) ts
Chosen ok ts (some t) = IsChosen ok ts t

module _ (ok : Task → Bool) where
  weaken :
      (u x : Task) (ts : List Task)
      → goes_before u x ≡ false
      → All (λ v. ok v ≡ true → goes_before v u ≡ false) ts
      → All (λ v. ok v ≡ true → goes_before v x ≡ false) ts
  weaken u x [] h k = tt
  weaken u x (v ∷ ts) h k = (λ e. goes_before_trans v u x (k.0 e) h, weaken u x ts h k.1)

  none_pass :
      (x : Task) (ts : List Task)
      → All (λ v. ok v ≡ false) ts
      → All (λ v. ok v ≡ true → goes_before v x ≡ false) ts
  none_pass x [] h = tt
  none_pass x (v ∷ ts) h = (λ e. absurd (cc (h.0)), none_pass x ts h.1)

  skip :
      (x : Task) (ts : List Task) (rest : Option Task)
      → ok x ≡ false
      → Chosen ok ts rest
      → Chosen ok (x ∷ ts) rest
  skip x ts none e h = (e, h)
  skip x ts (some t) e h = record {
    present = inr h.present;
    passes = h.passes;
    first = (λ k. absurd (cc), h.first);
  }

  challenge :
      (x u : Task) (ts : List Task) (b : Bool)
      → goes_before u x ≡ b
      → ok x ≡ true
      → IsChosen ok ts u
      → IsChosen ok (x ∷ ts) (if b then u else x)
  challenge x u ts true b e h = record {
    present = inr h.present;
    passes = h.passes;
    first = (λ _. goes_before_asym u x b, h.first);
  }
  challenge x u ts false b e h = record {
    present = inl refl;
    passes = e;
    first = (λ _. goes_before_irrefl x, weaken u x ts b h.first);
  }

  enter :
      (x : Task) (ts : List Task) (rest : Option Task)
      → ok x ≡ true
      → Chosen ok ts rest
      → IsChosen ok (x ∷ ts) (first_of x rest)
  enter x ts none e h = record {
    present = inl refl;
    passes = e;
    first = (λ _. goes_before_irrefl x, none_pass x ts h);
  }
  enter x ts (some u) e h = challenge x u ts (goes_before u x) refl e h

  select-Chosen : (ts : List Task) → Chosen ok ts (select ok ts)
  unfolding select
  select-Chosen [] = tt
  select-Chosen (x ∷ ts) = elim (Bool-cases (ok x)) [
    | inl e ↦ rw e (enter x ts (select ok ts) e (select-Chosen ts))
    | inr e ↦ rw e (skip x ts (select ok ts) e (select-Chosen ts))
  ]

-- u does not pass, has a lower priority, or an equal one and no lower id
abbrev pub Yields : (Task → Bool) → Task → Task → Type 0
Yields ok t u =
    (ok u ≡ false)
    ⊎ (u.priority < t.priority)
    ⊎ ((u.priority ≡ t.priority) × (t.task_id ≤ u.task_id))

-- t passes the test, and every row yields to it
pub record IsFirst (ok : Task → Bool) (ts : List Task) (t : Task) : Type 0 where
  pub present : In t ts
  pub passes : ok t ≡ true
  pub first : All (Yields ok t) ts

abbrev pub Selected : (Task → Bool) → List Task → Option Task → Type 0
Selected ok ts none = All (λ u. ok u ≡ false) ts
Selected ok ts (some t) = IsFirst ok ts t

Yields_lem :
    (ok : Task → Bool) (t u : Task) → (ok u ≡ true → goes_before u t ≡ false) → Yields ok t u
unfolding goes_before
Yields_lem ok t u h = ground (arith, h)

Yields-All :
    (ok : Task → Bool) (t : Task) (ts : List Task)
    → All (λ u. ok u ≡ true → goes_before u t ≡ false) ts
    → All (Yields ok t) ts
Yields-All ok t [] h = tt
Yields-All ok t (u ∷ ts) h = (Yields_lem ok t u h.0, Yields-All ok t ts h.1)

selected : (ok : Task → Bool) (ts : List Task) (o : Option Task) → Chosen ok ts o → Selected ok ts o
selected ok ts none h = h
selected ok ts (some t) h = record {
  present = h.present;
  passes = h.passes;
  first = Yields-All ok t ts h.first;
}

pub select-Selected : (ok : Task → Bool) (ts : List Task) → Selected ok ts (select ok ts)
select-Selected ok ts = selected ok ts (select ok ts) (select-Chosen ok ts)

pub count_none : (ok : Task → Bool) (ts : List Task) → All (λ u. ok u ≡ false) ts → count ok ts ≡ 0
count_none ok [] h = refl
count_none ok (t ∷ ts) h = rw h.0 (count_none ok ts h.1)

pub count_some :
    (ok : Task → Bool) (t : Task) (ts : List Task) → In t ts → ok t ≡ true → 0 < count ok ts
count_some ok t [] m e = elim m [ ]
count_some ok t (x ∷ ts) (inl q) e = rw (← q, e) (omega arith)
count_some ok t (x ∷ ts) (inr m) e = ground (arith, count_some ok t ts m e)
