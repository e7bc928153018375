-- ===== src/Tracker/Labels.antt =====
-- About the writes to the labels of an entry, and the entry of an id under all writes.
use specseed.Prelude.{
  ℕ, String, ◌≡◌, refl, ◌∙◌, ◌⊎◌, inl, inr, Bool, true, false, ◌&&◌, not, none, some, List, [], ◌∷◌,
  ◌++◌, map, keep, any, find?, In, In-keep, keep-In, arith, str_eq, str_eq_iff, str_eq_refl, ◌==◌,
  ==_refl, if◌then◌else◌, Bool-cases, Option-cases,
}
use specseed.Prelude.Text.{decimal}
use specseed.Tracker.{
  Store, EntryRow, entry_row, is_label, has_label, update_entry, touch_entry, ensure_label,
  attach_label, label_entry, remove_entry_label, at_entry,
}

-- the entry of id `id` is there, and its number is k
abbrev pub Stored : String → ℕ → Store → Type 0
Stored id k s = (r : EntryRow) × (entry_row id s ≡ some r) × (r.id ≡ k)

-- entry j carries the label
abbrev pub Labelled : ℕ → String → Store → Type 0
Labelled j m s = In (j, m) s.entry_labels

module _ {A : Type 0} where
  pub In-append_left : (x : A) (xs ys : List A) → In x xs → In x (xs ++ ys)
  In-append_left x [] ys h = elim h [ ]
  In-append_left x (z ∷ zs) ys (inl e) = inl e
  In-append_left x (z ∷ zs) ys (inr h) = inr (In-append_left x zs ys h)

  pub In-append_last : (x : A) (xs : List A) → In x (xs ++ x ∷ [])
  In-append_last x [] = inl refl
  In-append_last x (y ∷ ys) = inr (In-append_last x ys)

  pub In-append_one : (x y : A) (xs : List A) → In x (xs ++ y ∷ []) → In x xs ⊎ (x ≡ y)
  In-append_one x y [] (inl e) = inr e
  In-append_one x y [] (inr h) = elim h [ ]
  In-append_one x y (z ∷ zs) (inl e) = inl (inl e)
  In-append_one x y (z ∷ zs) (inr h) = elim (In-append_one x y zs h) [
    | inl k ↦ inl (inr k)
    | inr e ↦ inr e
  ]

  pub any-In : (p : A → Bool) (x : A) (xs : List A) → In x xs → p x ≡ true → any p xs ≡ true
  any-In p x [] h e = elim h [ ]
  any-In p x (y ∷ ys) (inl q) e = rw (← q, e) refl
  any-In p x (y ∷ ys) (inr h) e = ground (arith, any-In p x ys h e)

  pub find?-map :
      (p : A → Bool) (f : A → A) (xs : List A) (x : A)
      → ((y : A) → p (f y) ≡ p y)
      → find? p xs ≡ some x
      → find? p (map f xs) ≡ some (f x)
  find?-map p f [] x same h = absurd (cc)
  find?-map p f (y ∷ ys) x same h = elim (Bool-cases (p y)) [
    | inl e ↦ rw (same y, e) (ap_some (rw e at h))
    | inr e ↦ rw (same y, e) (find?-map p f ys x same (rw e at h))
  ]
    where
      ap_some : some y ≡ some x → some (f y) ≡ some (f x)
      ap_some q = cc

  pub find?_append :
      (p : A → Bool) (xs ys : List A) (x : A) → find? p xs ≡ some x → find? p (xs ++ ys) ≡ some x
  find?_append p [] ys x h = absurd (cc)
  find?_append p (y ∷ zs) ys x h = elim (Bool-cases (p y)) [
    | inl e ↦ rw e (rw e at h)
    | inr e ↦ rw e (find?_append p zs ys x (rw e at h))
  ]

has_label-Labelled :
    (k : ℕ) (l : String) (ps : List (ℕ × String)) → any (is_label k l) ps ≡ true → In (k, l) ps
unfolding is_label
has_label-Labelled k l [] h = absurd (cc)
has_label-Labelled k l ((j, m) ∷ ps) h = elim (Bool-cases (j == k && str_eq m l)) [
  | inl e ↦ inl (ground (arith, e, str_eq_iff m l))
  | inr e ↦ inr (has_label-Labelled k l ps (rw e at h))
]

is_label_refl : (k : ℕ) (l : String) → is_label k l (k, l) ≡ true
unfolding is_label
is_label_refl k l = rw (==_refl k, str_eq_refl l) refl

is_label_iff : (k j : ℕ) (l m : String) → is_label k l (j, m) ≡ true → (j ≡ k) × (m ≡ l)
unfolding is_label
is_label_iff k j l m h = ground (arith, h, str_eq_iff m l)

pub Stored-entries :
    (id : String) (k : ℕ) (s t : Store) → t.entries ≡ s.entries → Stored id k s → Stored id k t
unfolding entry_row
Stored-entries id k s t e h = rw e h

module _ (now id : String) (k : ℕ) (s : Store) where
  pub update_entry-Stored :
      (f : EntryRow → EntryRow) (j : ℕ)
      → ((r : EntryRow) → (f r).id ≡ r.id)
      → Stored id k s
      → Stored id k (update_entry f j s)
  unfolding update_entry entry_row
  update_entry-Stored f j same (r, e, q) = (
    step r,
    find?-map (λ r. str_eq (decimal r.id) id) step s.entries r (λ r. rw (step-id r) refl) e,
    rw (step-id r) q,
  )
    where
      step : EntryRow → EntryRow
      step r = if r.id == j then f r else r

      step-id : (r : EntryRow) → (step r).id ≡ r.id
      step-id r = elim (Bool-cases (r.id == j)) [ inl e ↦ rw e (same r) | inr e ↦ rw e refl ]

  pub touch_entry-Stored : (j : ℕ) → Stored id k s → Stored id k (touch_entry j now s)
  unfolding touch_entry
  touch_entry-Stored j h = update_entry-Stored (λ r. record r { updated_at = now }) j (λ r. refl) h

module _ (now id : String) (k : ℕ) (l : String) (s : Store) where
  pub remove_entry_label-Stored : Stored id k s → Stored id k (remove_entry_label now id l s).0
  unfolding remove_entry_label
  remove_entry_label-Stored (r, e, q) = elim (Bool-cases (has_label r.id l s)) [
    | inl t ↦
        rw (e, at_entry, t)
          (touch_entry-Stored now id k (without r) r.id
            (Stored-entries id k s (without r) refl (r, e, q)))
    | inr t ↦ rw (e, at_entry, t) (r, e, q)
  ]
    where
      without : EntryRow → Store
      without r = record s { entry_labels = keep (λ p. not (is_label r.id l p)) s.entry_labels }

  -- a removal adds no label, whatever it is asked for
  pub remove_entry_label-before :
      (j : ℕ) (m : String) → Labelled j m (remove_entry_label now id l s).0 → Labelled j m s
  unfolding remove_entry_label touch_entry update_entry
  remove_entry_label-before j m h = elim (Option-cases (entry_row id s)) [
    | inl e ↦ rw (e, at_entry) at h
    | inr (r, e) ↦ elim (Bool-cases (has_label r.id l s)) [
      | inl t ↦ (In-keep _ (j, m) s.entry_labels (rw (e, at_entry, t) at h)).0
      | inr t ↦ rw (e, at_entry, t) at h
    ]
  ]

  -- of the entry itself it takes this label, and no other
  pub remove_entry_label-gone : Stored id k s → Labelled k l (remove_entry_label now id l s).0 → ⊥
  unfolding remove_entry_label touch_entry update_entry
  remove_entry_label-gone (r, e, q) h = elim (Bool-cases (has_label r.id l s)) [
    | inl t ↦ cc (
      (In-keep (λ p. not (is_label r.id l p)) (k, l) s.entry_labels (rw (e, at_entry, t) at h)).1,
      is_label_refl k l,
      q,
    )
    | inr t ↦ cc (
      t,
      q,
      any-In (is_label k l) (k, l) s.entry_labels (rw (e, at_entry, t) at h) (is_label_refl k l),
    )
  ]

  pub remove_entry_label-others :
      (j : ℕ) (m : String)
      → Stored id k s
      → (j ≡ k → m ≡ l → ⊥)
      → Labelled j m s
      → Labelled j m (remove_entry_label now id l s).0
  unfolding remove_entry_label touch_entry update_entry
  remove_entry_label-others j m (r, e, q) other h = elim (Bool-cases (has_label r.id l s)) [
    | inl t ↦
        rw (e, at_entry, t)
          (keep-In (λ p. not (is_label r.id l p)) (j, m) s.entry_labels h
            (differs (Bool-cases (is_label r.id l (j, m)))))
    | inr t ↦ rw (e, at_entry, t) h
  ]
    where
      differs :
          (is_label r.id l (j, m) ≡ true) ⊎ (is_label r.id l (j, m) ≡ false)
          → not (is_label r.id l (j, m)) ≡ true
      differs (inl t) = let p = is_label_iff r.id j l m t in absurd (other (cc (p.0, q)) p.1)
      differs (inr t) = rw t refl

module _ (k : ℕ) (l : String) (s : Store) where
  ensure_label-labels : (ensure_label l none none s).entry_labels ≡ s.entry_labels
  unfolding ensure_label
  ensure_label-labels = elim (Bool-cases (any (λ r. str_eq r.name l) s.labels)) [
    | inl t ↦ rw t refl
    | inr t ↦ rw t refl
  ]

  ensure_label-entries : (ensure_label l none none s).entries ≡ s.entries
  unfolding ensure_label
  ensure_label-entries = elim (Bool-cases (any (λ r. str_eq r.name l) s.labels)) [
    | inl t ↦ rw t refl
    | inr t ↦ rw t refl
  ]

  attach_label-entries : (attach_label k l s).entries ≡ s.entries
  unfolding attach_label
  attach_label-entries = elim (Bool-cases (has_label k l s)) [
    | inl t ↦ rw t refl
    | inr t ↦ rw t refl
  ]

  attach_label-after : (j : ℕ) (m : String) → Labelled j m s → Labelled j m (attach_label k l s)
  unfolding attach_label
  attach_label-after j m h = elim (Bool-cases (has_label k l s)) [
    | inl t ↦ rw t h
    | inr t ↦ rw t (In-append_left (j, m) s.entry_labels ((k, l) ∷ []) h)
  ]

  attach_label-attached : Labelled k l (attach_label k l s)
  unfolding attach_label has_label
  attach_label-attached = elim (Bool-cases (has_label k l s)) [
    | inl t ↦ rw t (has_label-Labelled k l s.entry_labels t)
    | inr t ↦ rw t (In-append_last (k, l) s.entry_labels)
  ]

  attach_label-before :
      (j : ℕ) (m : String)
      → Labelled j m (attach_label k l s)
      → Labelled j m s ⊎ ((j ≡ k) × (m ≡ l))
  unfolding attach_label
  attach_label-before j m h = elim (Bool-cases (has_label k l s)) [
    | inl t ↦ inl (rw t at h)
    | inr t ↦ parts (In-append_one (j, m) (k, l) s.entry_labels (rw t at h))
  ]
    where
      parts :
          Labelled j m s ⊎ ◌≡◌ {A = ℕ × String} (j, m) (k, l) → Labelled j m s ⊎ ((j ≡ k) × (m ≡ l))
      parts (inl g) = inl g
      parts (inr q) = inr (cc, cc)

module _ (k : ℕ) (l : String) (s : Store) where
  pub label_entry-after : (j : ℕ) (m : String) → Labelled j m s → Labelled j m (label_entry k l s)
  unfolding label_entry
  label_entry-after j m h =
      attach_label-after k l (ensure_label l none none s) j m (rw (ensure_label-labels k l s) h)

  pub label_entry-attached : Labelled k l (label_entry k l s)
  unfolding label_entry
  label_entry-attached = attach_label-attached k l (ensure_label l none none s)

  pub label_entry-before :
      (j : ℕ) (m : String) → Labelled j m (label_entry k l s) → Labelled j m s ⊎ ((j ≡ k) × (m ≡ l))
  unfolding label_entry
  label_entry-before j m h =
      rw (← ensure_label-labels k l s) (attach_label-before k l (ensure_label l none none s) j m h)

  pub label_entry-entries : (label_entry k l s).entries ≡ s.entries
  unfolding label_entry
  label_entry-entries =
      attach_label-entries k l (ensure_label l none none s) ∙ ensure_label-entries k l s

  pub label_entry-Stored : (id : String) (j : ℕ) → Stored id j s → Stored id j (label_entry k l s)
  unfolding entry_row
  label_entry-Stored id j h = rw label_entry-entries h
