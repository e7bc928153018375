-- ===== src/Advance/Parents.antt =====
-- About the roll-up of executing/advance.py: which parents it closes, and how far up it goes.
use specseed.Prelude.{
  ℕ, zero, suc, String, ◌≡◌, refl, sym, ap, ◌∙◌, inl, inr, ◌⊎◌, true, false, ◌||◌, not, Option,
  none, some, List, [], ◌∷◌, In, length, keep, any, subst, arith, str_eq, str_eq_iff, Bool-cases,
  Option-cases,
}
use specseed.Tracker.Labels.{any-In}
use specseed.Advance.Writes.{Ctx, World}
use specseed.Advance.RollUp.{
  Node, link, find_node, is_sibling, is_finished, closes, ready_parent, parent_tier_of, climb,
  raise, Go, settle_node, new_status, close_parent, roll_up_from,
}

find_node-id :
    (id : String) (nodes : List Node) (n : Node) → find_node id nodes ≡ some n → n.id ≡ id
unfolding find_node
find_node-id id [] n h = absurd (cc)
find_node-id id (m ∷ ms) n h = elim (Bool-cases (str_eq m.id id)) [
  | inl e ↦ cc ((str_eq_iff m.id id).0 e, rw e at h)
  | inr e ↦ find_node-id id ms n (rw e at h)
]

-- what a parent must be like
pub record Ready (child_tier parent_tier : String) (nodes : List Node) (parent : Node)
    (children : List Node) : Type 0 where
  pub is_open : parent.is_open ≡ true
  pub unfinished : is_finished parent.status ≡ false
  pub whole : children ≡ keep (is_sibling child_tier parent_tier parent.id) nodes
  pub finished : (n : Node) → In n children → is_finished n.status ≡ true

all_finished :
    (ns : List Node)
    → any (λ m. not (is_finished m.status)) ns ≡ false
    → (n : Node) → In n ns
    → is_finished n.status ≡ true
all_finished ns h n i = elim (Bool-cases (is_finished n.status)) [
  | inl e ↦ e
  | inr e ↦ absurd (cc (any-In (λ m. not (is_finished m.status)) n ns i (ap not e), h))
]

closes-Ready :
    (c p : String) (nodes : List Node) (parent q : Node) (sibs children : List Node)
    → sibs ≡ keep (is_sibling c p parent.id) nodes
    → closes parent sibs ≡ some (q, children)
    → (q ≡ parent) × Ready c p nodes parent children
closes-Ready c p nodes parent q [] children w h = absurd (cc)
closes-Ready c p nodes parent q (n ∷ ns) children w h =
    elim (Bool-cases (not parent.is_open || is_finished parent.status)) [
      | inl t ↦ absurd (cc (rw t at h))
      | inr t ↦ elim (Bool-cases (any (λ m. not (is_finished m.status)) (n ∷ ns))) [
        | inl u ↦ absurd (cc (rw (t, u) at h))
        | inr u ↦ found t u (rw (t, u) at h)
      ]
    ]
  where
    found :
        (not parent.is_open || is_finished parent.status) ≡ false
        → any (λ m. not (is_finished m.status)) (n ∷ ns) ≡ false
        → ◌≡◌ {A = Option (Node × List Node)} (some (parent, n ∷ ns)) (some (q, children))
        → (q ≡ parent) × Ready c p nodes parent children
    found t u e =
        let k : n ∷ ns ≡ children = cc in
        (
          cc,
          record {
            is_open = ground (arith, t);
            unfinished = ground (arith, t);
            whole = sym k ∙ w;
            finished = λ m i. all_finished (n ∷ ns) u m (rw (← k) at i);
          },
        )

-- A parent that the roll-up closes is one that the finished child links to. It is open and not
-- finished itself, and its children are all posts of the child's tier that link up to it, each of
-- them finished.
pub ready_parent-Ready :
    (child_id c p : String) (nodes : List Node) (parent : Node) (children : List Node)
    → ready_parent child_id c p nodes ≡ some (parent, children)
    → Ready c p nodes parent children
      × ((child : Node) × (find_node child_id nodes ≡ some child) × (link p child ≡ some parent.id))
unfolding ready_parent
ready_parent-Ready child_id c p nodes parent children h =
    elim (Option-cases (find_node child_id nodes)) [
      | inl e ↦ absurd (cc (rw (ready_parent, e) at h))
      | inr (child, e) ↦ elim (Option-cases (link p child)) [
        | inl f ↦ absurd (cc (rw (ready_parent, e, f) at h))
        | inr (pid, f) ↦ elim (Option-cases (find_node pid nodes)) [
          | inl g ↦ absurd (cc (rw (ready_parent, e, f, g) at h))
          | inr (n, g) ↦ shown child pid n e f g (rw (ready_parent, e, f, g) at h)
        ]
      ]
    ]
  where
    shown :
        (child : Node) (pid : String) (n : Node)
        → find_node child_id nodes ≡ some child
        → link p child ≡ some pid
        → find_node pid nodes ≡ some n
        → closes n (keep (is_sibling c p pid) nodes) ≡ some (parent, children)
        → Ready c p nodes parent children
          × ((child : Node) × (find_node child_id nodes ≡ some child)
              × (link p child ≡ some parent.id))
    shown child pid n e f g h =
        let own = find_node-id pid nodes n g in
        let r =
          closes-Ready c p nodes n parent (keep (is_sibling c p pid) nodes) children (rw own refl)
            h in
        (
          subst (λ q. Ready c p nodes q children) (sym r.0) r.1,
          (child, e, f ∙ ap some (sym own ∙ ap (λ (q : Node). q.id) (sym r.0))),
        )

module _ (ctx : Ctx) where
  raise_cong :
      (p : String) (o : Option (Node × List Node)) (ns : List Node) (v : World) (g h : Go)
      → ((id : String) (ms : List Node) (u : World) → g id (some p) ms u ≡ h id (some p) ms u)
      → raise ctx p o ns v g ≡ raise ctx p o ns v h
  unfolding raise
  raise_cong p none ns v g h e = refl
  raise_cong p (some (parent, siblings)) ns v g h e =
      ap (λ (r : World × List String). (r.0, parent.id ∷ r.1))
        (e parent.id (settle_node parent.id (new_status siblings) ns)
          (close_parent ctx parent p (new_status siblings) (length siblings) v))

  climb_cong :
      (id : String) (t o : Option String) (ns : List Node) (v : World) (g h : Go)
      → ((p : String) (id : String) (ms : List Node) (u : World)
          → o ≡ some p
          → g id (some p) ms u ≡ h id (some p) ms u)
      → climb ctx id t o ns v g ≡ climb ctx id t o ns v h
  unfolding climb
  climb_cong id none o ns v g h e = refl
  climb_cong id (some t) none ns v g h e = refl
  climb_cong id (some t) (some p) ns v g h e =
      raise_cong p (ready_parent id t p ns) ns v g h (λ id ms u. e p id ms u refl)

  parent_tiers :
      (t : Option String) (p : String)
      → parent_tier_of t ≡ some p
      → ((p ≡ "ticket") × (t ≡ some "issue")) ⊎ (p ≡ "epic")
  unfolding parent_tier_of
  parent_tiers none p h = absurd (cc)
  parent_tiers (some t) p h = ground (arith, h, str_eq_iff t "issue", str_eq_iff t "ticket")

  at_epic :
      (f g : ℕ) (id : String) (ns : List Node) (v : World)
      → roll_up_from f ctx id (some "epic") ns v ≡ roll_up_from g ctx id (some "epic") ns v
  unfolding roll_up_from parent_tier_of str_eq
  at_epic zero zero id ns v = refl
  at_epic zero (suc g) id ns v = refl
  at_epic (suc f) zero id ns v = refl
  at_epic (suc f) (suc g) id ns v = refl

  at_ticket :
      (f g : ℕ) (id : String) (ns : List Node) (v : World)
      → roll_up_from (suc f) ctx id (some "ticket") ns v
        ≡ roll_up_from (suc g) ctx id (some "ticket") ns v
  unfolding roll_up_from parent_tier_of str_eq
  at_ticket f g id ns v =
      raise_cong "epic" (ready_parent id "ticket" "epic" ns) ns v (roll_up_from f ctx)
        (roll_up_from g ctx) (λ id ms u. at_epic f g id ms u)

-- From whatever post the roll-up starts, three steps of fuel are enough: with more it does the same.
pub roll_up_from-enough :
    (f : ℕ) (ctx : Ctx) (id : String) (t : Option String) (nodes : List Node) (w : World)
    → roll_up_from (suc (suc (suc f))) ctx id t nodes w ≡ roll_up_from 3 ctx id t nodes w
unfolding roll_up_from
roll_up_from-enough f ctx id t nodes w =
    climb_cong ctx id t (parent_tier_of t) nodes w (roll_up_from (suc (suc f)) ctx)
      (roll_up_from 2 ctx) (λ p id ms u e. same p id ms u (parent_tiers ctx t p e))
  where
    same :
        (p id : String) (ms : List Node) (u : World)
        → ((p ≡ "ticket") × (t ≡ some "issue")) ⊎ (p ≡ "epic")
        → roll_up_from (suc (suc f)) ctx id (some p) ms u ≡ roll_up_from 2 ctx id (some p) ms u
    same p id ms u (inl e) = rw (e.0) (at_ticket ctx (suc f) 1 id ms u)
    same p id ms u (inr e) = rw e (at_epic ctx (suc (suc f)) 2 id ms u)
