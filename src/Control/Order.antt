-- ===== src/Control/Order.antt =====
-- About the order of the commands that `parse_control_commands` of control.py gives.
use specseed.Prelude.{
  ℕ, String, ◌≤◌, inl, inr, Bool, Option, List, [], ◌∷◌, arith, All, All-keep, keep, leb,
  Bool-cases,
}
use specseed.Control.{Comment, ControlCommand, is_command, insert, sort, commands_in}

-- ids do not fall along the list
abbrev pub Ascending : {A : Type 0} → (A → ℕ) → List A → Type 0
Ascending key [] = Unit
Ascending key (x ∷ xs) = All (λ y. key x ≤ key y) xs × Ascending key xs

insert-All :
    (P : Comment → Type 0) (c : Comment) (cs : List Comment) → P c → All P cs → All P (insert c cs)
unfolding insert
insert-All P c [] p h = (p, tt)
insert-All P c (d ∷ ds) p h = elim (Bool-cases (leb c.id d.id)) [
  | inl e ↦ rw e (p, h)
  | inr e ↦ rw e (h.0, insert-All P c ds p h.1)
]

above-All :
    (m n : ℕ) (cs : List Comment)
    → m ≤ n
    → All (λ (y : Comment). n ≤ y.id) cs
    → All (λ (y : Comment). m ≤ y.id) cs
above-All m n [] l h = tt
above-All m n (c ∷ cs) l h = (omega arith, above-All m n cs l h.1)

abbrev by_id : Comment → ℕ
by_id c = c.id

insert-Ascending :
    (c : Comment) (cs : List Comment) → Ascending by_id cs → Ascending by_id (insert c cs)
unfolding insert
insert-Ascending c [] h = (tt, tt)
insert-Ascending c (d ∷ ds) h = elim (Bool-cases (leb c.id d.id)) [
  | inl e ↦ let l : c.id ≤ d.id = ground (arith, e) in rw e ((l, above-All c.id d.id ds l h.0), h)
  | inr e ↦ rw e (
    insert-All (λ (y : Comment). d.id ≤ y.id) c ds (ground (arith, e)) h.0,
    insert-Ascending c ds h.1,
  )
]

pub sort-Ascending : (cs : List Comment) → Ascending by_id (sort cs)
unfolding sort
sort-Ascending [] = tt
sort-Ascending (c ∷ cs) = insert-Ascending c (sort cs) (sort-Ascending cs)

abbrev pub by_comment : ControlCommand → ℕ
by_comment k = k.comment_id

module _ (allowed : List String) (bot : Option String) where
  commands_in-above :
      (m : ℕ) (cs : List Comment)
      → All (λ (y : Comment). m ≤ y.id) cs
      → All (λ (k : ControlCommand). m ≤ k.comment_id) (commands_in allowed bot cs)
  unfolding commands_in
  commands_in-above m [] h = tt
  commands_in-above m (c ∷ cs) h = elim (Bool-cases (is_command allowed bot c)) [
    | inl e ↦ rw e (h.0, commands_in-above m cs h.1)
    | inr e ↦ rw e (commands_in-above m cs h.1)
  ]

  pub commands_in-Ascending :
      (cs : List Comment) → Ascending by_id cs → Ascending by_comment (commands_in allowed bot cs)
  unfolding commands_in
  commands_in-Ascending [] h = tt
  commands_in-Ascending (c ∷ cs) h = elim (Bool-cases (is_command allowed bot c)) [
    | inl e ↦ rw e (commands_in-above c.id cs h.0, commands_in-Ascending cs h.1)
    | inr e ↦ rw e (commands_in-Ascending cs h.1)
  ]

pub keep-Ascending :
    (p : ControlCommand → Bool) (ks : List ControlCommand)
    → Ascending by_comment ks
    → Ascending by_comment (keep p ks)
keep-Ascending p [] h = tt
keep-Ascending p (k ∷ ks) h = elim (Bool-cases (p k)) [
  | inl e ↦ rw e (
    All-keep (λ (y : ControlCommand). k.comment_id ≤ y.comment_id) p ks h.0,
    keep-Ascending p ks h.1,
  )
  | inr e ↦ rw e (keep-Ascending p ks h.1)
]
