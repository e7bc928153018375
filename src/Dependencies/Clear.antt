-- ===== src/Dependencies/Clear.antt =====
-- About when the dependency gate opens.
use specseed.Prelude.{
  ℕ, String, ◌≡◌, ◌↔◌, ◌⊎◌, refl, sym, ap, subst, ◌∙◌, inl, inr, Bool, true, false, ◌||◌, not,
  Option, none, some, List, [], ◌∷◌, ◌++◌, All, arith, str_eq, str_eq_iff, if◌then◌else◌,
  Bool-cases,
}
use specseed.StateMachine.{contains}
use specseed.Entities.{Entity}
use specseed.Dependencies.{
  Split, nothing, is_digit, dep_status, note, check, check_all, parent_deps, classify_deps, clear,
  decide, dependency_gate,
}

-- nothing is cancelled and nothing pending
abbrev IsClear : Split → Type 0
IsClear a = (a.cancelled ≡ []) × (a.pending ≡ [])

-- a dependency that is a number is done
abbrev pub IsDone : (String → Option Entity) → String → Type 0
IsDone load d = (is_digit d ≡ false) ⊎ (dep_status load d ≡ some "done")

snoc_not : {A : Type 0} (xs : List A) (x : A) → xs ++ x ∷ [] ≡ [] → ⊥
snoc_not [] x e = cc
snoc_not (y ∷ ys) x e = cc

note-IsClear :
    (d : String) (s : Option String) (a : Split)
    → IsClear (note d s a)
    → IsClear a × (s ≡ some "done")
unfolding note
note-IsClear d none a k = absurd (snoc_not a.pending (d, "unknown") k.1)
note-IsClear d (some s) a k = elim (Bool-cases (str_eq s "done")) [
  | inl e ↦ (rw e at k, ap some ((str_eq_iff s "done").0 e))
  | inr e ↦ not_done (Bool-cases (str_eq s "wont_do" || str_eq s "deprecated")) e
]
  where
    not_done :
        ((str_eq s "wont_do" || str_eq s "deprecated") ≡ true)
          ⊎ ((str_eq s "wont_do" || str_eq s "deprecated") ≡ false)
        → str_eq s "done" ≡ false
        → IsClear a × (some s ≡ some "done")
    not_done (inl t) e = absurd (snoc_not a.cancelled _ (rw (e, t) at k).0)
    not_done (inr t) e = absurd (snoc_not a.pending _ (rw (e, t) at k).1)

note-done : (d : String) (a : Split) → IsClear a → IsClear (note d (some "done") a)
unfolding note str_eq
note-done d a k = k

note-seen : (d : String) (s : Option String) (a : Split) → (note d s a).seen ≡ d ∷ a.seen
unfolding note
note-seen d none a = refl
note-seen d (some s) a = ground arith

-- every id that was seen is done
abbrev SeenDone : (String → Option Entity) → Split → Type 0
SeenDone load a = (x : String) → contains x a.seen ≡ true → IsDone load x

-- what a check of d leaves where it finds nothing open
abbrev Checked : (String → Option Entity) → String → Split → Split → Type 0
Checked load d a b = IsClear a × IsDone load d × SeenDone load b

in_branch :
    (P : Split → Type 0) (b : Bool) (x y : Split)
    → (b ≡ true → P x)
    → (b ≡ false → P y)
    → P (if b then x else y)
in_branch P true x y h k = h refl
in_branch P false x y h k = k refl

skipped : (n c : Bool) → (not n || c) ≡ true → (n ≡ false) ⊎ (c ≡ true)
skipped n c h = ground arith

check-Checked :
    (load : String → Option Entity) (d : String) (a : Split)
    → SeenDone load a
    → IsClear (check load d a)
    → Checked load d a (check load d a)
unfolding check
check-Checked load d a h k =
    in_branch (λ b. IsClear b → Checked load d a b) (not (is_digit d) || contains d a.seen) a
      (note d (dep_status load d) a)
      (λ e k. (k, old (skipped (is_digit d) (contains d a.seen) e), h))
      (λ e k. fresh (note-IsClear d (dep_status load d) a k)) k
  where
    old : (is_digit d ≡ false) ⊎ (contains d a.seen ≡ true) → IsDone load d
    old (inl n) = inl n
    old (inr c) = h d c

    known :
        (x : String)
        → dep_status load d ≡ some "done"
        → (str_eq d x ≡ true) ⊎ (str_eq d x ≡ false)
        → contains x (d ∷ a.seen) ≡ true
        → IsDone load x
    known x e (inl q) m = subst (IsDone load) ((str_eq_iff d x).0 q) (inr e)
    known x e (inr q) m = h x (rw q at m)

    fresh :
        IsClear a × (dep_status load d ≡ some "done")
        → Checked load d a (note d (dep_status load d) a)
    fresh (c, e) = (
      c,
      inr e,
      λ x m.
          known x e (Bool-cases (str_eq d x))
            (subst (λ l. contains x l ≡ true) (note-seen d (dep_status load d) a) m),
    )

check-IsClear :
    (load : String → Option Entity) (d : String) (a : Split) → IsClear (check load d a) → IsClear a
unfolding check
check-IsClear load d a k =
    in_branch (λ b. IsClear b → IsClear a) (not (is_digit d) || contains d a.seen) a
      (note d (dep_status load d) a) (λ e k. k) (λ e k. (note-IsClear d (dep_status load d) a k).0)
      k

check_all-IsClear :
    (load : String → Option Entity) (ds : List String) (a : Split)
    → IsClear (check_all load ds a)
    → IsClear a
unfolding check_all
check_all-IsClear load [] a k = k
check_all-IsClear load (d ∷ ds) a k =
    check-IsClear load d a (check_all-IsClear load ds (check load d a) k)

check_all-SeenDone :
    (load : String → Option Entity) (ds : List String) (a : Split)
    → SeenDone load a
    → IsClear (check_all load ds a)
    → All (IsDone load) ds × SeenDone load (check_all load ds a)
unfolding check_all
check_all-SeenDone load [] a h k = (tt, h)
check_all-SeenDone load (d ∷ ds) a h k =
    let (c, e, h') = check-Checked load d a h (check_all-IsClear load ds (check load d a) k) in
    let (rest, h'') = check_all-SeenDone load ds (check load d a) h' k in ((e, rest), h'')

note_ok :
    (d : String) (s : Option String) (a : Split)
    → s ≡ some "done"
    → IsClear a
    → IsClear (note d s a)
note_ok d s a e k = subst (λ o. IsClear (note d o a)) (sym e) (note-done d a k)

check_ok :
    (load : String → Option Entity) (d : String) (a : Split)
    → IsDone load d
    → IsClear a
    → IsClear (check load d a)
unfolding check
check_ok load d a (inl n) k =
    in_branch IsClear (not (is_digit d) || contains d a.seen) a (note d (dep_status load d) a)
      (λ e. k) (λ e. absurd (ground (arith, n, e)))
check_ok load d a (inr q) k =
    in_branch IsClear (not (is_digit d) || contains d a.seen) a (note d (dep_status load d) a)
      (λ e. k) (λ e. note_ok d (dep_status load d) a q k)

check_all_ok :
    (load : String → Option Entity) (ds : List String) (a : Split)
    → All (IsDone load) ds
    → IsClear a
    → IsClear (check_all load ds a)
unfolding check_all
check_all_ok load [] a h k = k
check_all_ok load (d ∷ ds) a h k =
    check_all_ok load ds (check load d a) h.1 (check_ok load d a h.0 k)

decide-clear :
    (interval : ℕ) (cs ps : List (String × String))
    → decide interval cs ps ≡ clear
    → (cs ≡ []) × (ps ≡ [])
decide-clear interval [] [] e = (refl, refl)
decide-clear interval [] (p ∷ ps) e = cc
decide-clear interval (c ∷ cs) ps e = cc

decide_open : (interval : ℕ) (a : Split) → IsClear a → decide interval a.cancelled a.pending ≡ clear
decide_open interval a k =
    ap (λ l. decide interval l a.pending) k.0 ∙ ap (λ l. decide interval [] l) k.1

-- The gate lets an issue be implemented exactly when each of its own dependencies and of its
-- parent's that is a number has the status done; one that the mirror does not know does not count
-- as done, and a parent whose id is no number, or that is not known, adds none.
pub dependency_gate-clear :
    (interval : ℕ) (load : String → Option Entity) (entity : Entity)
    → (dependency_gate interval load entity ≡ clear) ↔ (
        All (IsDone load) entity.depends_on × All (IsDone load) (parent_deps load entity.parent_id))
unfolding dependency_gate classify_deps
dependency_gate-clear interval load entity = (forth, back)
  where
    own : Split
    own = check_all load entity.depends_on nothing

    all : Split
    all = check_all load (parent_deps load entity.parent_id) own

    forth :
        decide interval all.cancelled all.pending ≡ clear
        → All (IsDone load) entity.depends_on
          × All (IsDone load) (parent_deps load entity.parent_id)
    forth e =
        let k = decide-clear interval all.cancelled all.pending e in
        let (first, seen) =
          check_all-SeenDone load entity.depends_on nothing (λ x m. absurd (cc (m)))
            (check_all-IsClear load (parent_deps load entity.parent_id) own k) in
        (first, (check_all-SeenDone load (parent_deps load entity.parent_id) own seen k).0)

    back :
        All (IsDone load) entity.depends_on × All (IsDone load) (parent_deps load entity.parent_id)
        → decide interval all.cancelled all.pending ≡ clear
    back (h, h') = decide_open interval all (
        check_all_ok load (parent_deps load entity.parent_id) own h'
          (check_all_ok load entity.depends_on nothing h (refl, refl)))
