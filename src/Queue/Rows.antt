-- ===== src/Queue/Rows.antt =====
-- The rows of a table with ascending ids: reading one back after an update, an insert or a delete.
use specseed.Prelude.{
  ℕ, ◌<◌, ◌≤◌, ◌≡◌, refl, inl, inr, Bool, true, false, Option, none, some, List, [], ◌∷◌, ◌++◌,
  arith, In, Bool-cases, find?, keep, ◌==◌, ==_refl, if◌then◌else◌, map,
}
use specseed.Queue.{Task, update_task}

-- ids above `lo`, ascending, up to `hi`
abbrev pub Ids : ℕ → ℕ → List Task → Type 0
Ids lo hi [] = lo ≤ hi
Ids lo hi (t ∷ ts) = (lo < t.task_id) × Ids t.task_id hi ts

-- an update that leaves the id alone
abbrev pub KeepsId : (Task → Task) → Type 0
KeepsId f = (t : Task) → (f t).task_id ≡ t.task_id

abbrev pub has_id : ℕ → Task → Bool
has_id id t = t.task_id == id

abbrev pub other_than : ℕ → Task → Bool
other_than id t = if t.task_id == id then false else true

pub Ids-le : (lo hi : ℕ) (ts : List Task) → Ids lo hi ts → lo ≤ hi
Ids-le lo hi [] h = h
Ids-le lo hi (t ∷ ts) h = omega (arith, Ids-le t.task_id hi ts h.1)

pub Ids-lower : (lo lo' hi : ℕ) (ts : List Task) → lo' ≤ lo → Ids lo hi ts → Ids lo' hi ts
Ids-lower lo lo' hi [] l h = omega arith
Ids-lower lo lo' hi (t ∷ ts) l h = (omega arith, h.1)

pub Ids-In :
    (lo hi : ℕ) (ts : List Task) (t : Task)
    → Ids lo hi ts
    → In t ts
    → (lo < t.task_id) × (t.task_id ≤ hi)
Ids-In lo hi [] t h m = elim m [ ]
Ids-In lo hi (x ∷ ts) t h (inl e) = rw e (h.0, Ids-le x.task_id hi ts h.1)
Ids-In lo hi (x ∷ ts) t h (inr m) = let r = Ids-In x.task_id hi ts t h.1 m in (omega arith, r.1)

pub Ids-append :
    (lo hi hi' : ℕ) (ts : List Task) (t : Task)
    → Ids lo hi ts
    → hi < t.task_id
    → t.task_id ≤ hi'
    → Ids lo hi' (ts ++ t ∷ [])
Ids-append lo hi hi' [] t h l u = (omega arith, u)
Ids-append lo hi hi' (x ∷ ts) t h l u = (h.0, Ids-append x.task_id hi hi' ts t h.1 l u)

pub Ids-keep : (p : Task → Bool) (lo hi : ℕ) (ts : List Task) → Ids lo hi ts → Ids lo hi (keep p ts)
Ids-keep p lo hi [] h = h
Ids-keep p lo hi (t ∷ ts) h = elim (Bool-cases (p t)) [
  | inl e ↦ rw e (h.0, Ids-keep p t.task_id hi ts h.1)
  | inr e ↦
      rw e (Ids-lower t.task_id lo hi (keep p ts) (omega arith) (Ids-keep p t.task_id hi ts h.1))
]

pub Ids-map :
    (f : Task → Task)
    → KeepsId f
    → (lo hi : ℕ) (ts : List Task) → Ids lo hi ts
    → Ids lo hi (map f ts)
Ids-map f k lo hi [] h = h
Ids-map f k lo hi (t ∷ ts) h = rw (k t) (h.0, Ids-map f k t.task_id hi ts h.1)

-- an update is a map
pub update_task-map :
    (id : ℕ) (f : Task → Task) (ts : List Task)
    → update_task id f ts ≡ map (λ t. if t.task_id == id then f t else t) ts
unfolding update_task
update_task-map id f [] = refl
update_task-map id f (t ∷ ts) = rw (update_task-map id f ts)

pub Ids-update_task :
    (id : ℕ) (f : Task → Task)
    → KeepsId f
    → (lo hi : ℕ) (ts : List Task) → Ids lo hi ts
    → Ids lo hi (update_task id f ts)
Ids-update_task id f k lo hi ts h =
    rw (update_task-map id f ts)
      (Ids-map (λ t. if t.task_id == id then f t else t) (λ t. ground (arith, k t)) lo hi ts h)

pub find?-some :
    (p : Task → Bool) (ts : List Task) (t : Task) → find? p ts ≡ some t → In t ts × (p t ≡ true)
find?-some p [] t h = cc
find?-some p (x ∷ ts) t h = elim (Bool-cases (p x)) [
  | inl e ↦ (inl (cc (rw e at h)), cc (rw e at h, e))
  | inr e ↦ let r = find?-some p ts t (rw e at h) in (inr r.0, r.1)
]

-- With ascending ids a row is found by its id.
pub find?-In :
    (lo hi : ℕ) (ts : List Task) (t : Task)
    → Ids lo hi ts
    → In t ts
    → find? (has_id t.task_id) ts ≡ some t
find?-In lo hi [] t h m = elim m [ ]
find?-In lo hi (x ∷ ts) t h (inl e) = rw (e, ==_refl x.task_id)
find?-In lo hi (x ∷ ts) t h (inr m) =
    ground (arith, Ids-In x.task_id hi ts t h.1 m, find?-In x.task_id hi ts t h.1 m)

pub find?-above :
    (lo hi : ℕ) (ts : List Task) (id : ℕ) → Ids lo hi ts → hi < id → find? (has_id id) ts ≡ none
find?-above lo hi [] id h l = refl
find?-above lo hi (t ∷ ts) id h l =
    ground (arith, Ids-le t.task_id hi ts h.1, find?-above t.task_id hi ts id h.1 l)

abbrev pub over {ℓ} : {A : Type ℓ} → (A → A) → Option A → Option A
over f none = none
over f (some a) = some (f a)

-- Reading a row after an update of one id: that row is changed, every other is as before.
pub find?-update_task :
    (id j : ℕ) (f : Task → Task) (ts : List Task)
    → KeepsId f
    → find? (has_id j) (update_task id f ts)
      ≡ (if id == j then over f (find? (has_id j) ts) else find? (has_id j) ts)
unfolding update_task
find?-update_task id j f [] k = ground arith
find?-update_task id j f (t ∷ ts) k = ground (arith, k t, find?-update_task id j f ts k)

pub find?-append :
    (j : ℕ) (ts : List Task) (t : Task)
    → find? (has_id j) ts ≡ none
    → t.task_id ≡ j
    → find? (has_id j) (ts ++ t ∷ []) ≡ some t
find?-append j [] t h e = ground arith
find?-append j (x ∷ ts) t h e = ground (arith, find?-append j ts t)

pub find?-append_other :
    (j : ℕ) (ts : List Task) (t : Task)
    → (t.task_id == j) ≡ false
    → find? (has_id j) (ts ++ t ∷ []) ≡ find? (has_id j) ts
find?-append_other j [] t e = rw e
find?-append_other j (x ∷ ts) t e = ground (arith, find?-append_other j ts t e)

pub find?-remove :
    (id j : ℕ) (ts : List Task)
    → find? (has_id j) (keep (other_than id) ts) ≡ (if id == j then none else find? (has_id j) ts)
find?-remove id j [] = ground arith
find?-remove id j (t ∷ ts) = ground (arith, find?-remove id j ts)
