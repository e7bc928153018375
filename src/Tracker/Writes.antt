-- ===== src/Tracker/Writes.antt =====
-- About the labels and the entries after the other writes: added labels, comments, states, new posts.
use specseed.Prelude.{
  ℕ, String, ◌≡◌, refl, ◌⊎◌, inl, inr, false, Option, List, [], ◌∷◌, ◌++◌, any, In, str_eq,
  Bool-cases, Option-cases,
}
use specseed.Prelude.Text.{decimal}
use specseed.Tracker.{
  Store, EntryRow, entry_row, update_entry, touch_entry, label_entry, label_all, insert_comment,
  add_entry_label, add_entry_comment, set_entry_state, set_entry_closed, set_entry_assignees,
  add_entry, is_blank_label, at_entry,
}
use specseed.Tracker.Labels.{
  Stored, Labelled, Stored-entries, touch_entry-Stored, label_entry-after, label_entry-attached,
  label_entry-before, label_entry-Stored, find?_append,
}

module _ (now id : String) (k : ℕ) (l : String) (s : Store) where
  -- an added label is the only one that is new
  pub add_entry_label-before :
      (j : ℕ) (m : String) → Labelled j m (add_entry_label now id l s).0 → Labelled j m s ⊎ (m ≡ l)
  unfolding add_entry_label touch_entry update_entry
  add_entry_label-before j m h = elim (Option-cases (entry_row id s)) [
    | inl e ↦ inl (rw (e, at_entry) at h)
    | inr (r, e) ↦ elim (Bool-cases (is_blank_label l)) [
      | inl t ↦ inl (rw (e, at_entry, t) at h)
      | inr t ↦ label r.id (label_entry-before r.id l s j m (rw (e, at_entry, t) at h))
    ]
  ]
    where
      label : (r : ℕ) → Labelled j m s ⊎ ((j ≡ r) × (m ≡ l)) → Labelled j m s ⊎ (m ≡ l)
      label r (inl g) = inl g
      label r (inr p) = inr p.1

  pub add_entry_label-own :
      Stored id k s
      → (j : ℕ) (m : String) → Labelled j m (add_entry_label now id l s).0
      → Labelled j m s ⊎ ((j ≡ k) × (m ≡ l))
  unfolding add_entry_label touch_entry update_entry
  add_entry_label-own (r, e, q) j m h = elim (Bool-cases (is_blank_label l)) [
    | inl t ↦ inl (rw (e, at_entry, t) at h)
    | inr t ↦ rw (← q) (label_entry-before r.id l s j m (rw (e, at_entry, t) at h))
  ]

  pub add_entry_label-added :
      Stored id k s → is_blank_label l ≡ false → Labelled k l (add_entry_label now id l s).0
  unfolding add_entry_label touch_entry update_entry
  add_entry_label-added (r, e, q) t = rw (e, at_entry, t, ← q) (label_entry-attached r.id l s)

  pub add_entry_label-after :
      (j : ℕ) (m : String) → Labelled j m s → Labelled j m (add_entry_label now id l s).0
  unfolding add_entry_label touch_entry update_entry
  add_entry_label-after j m h = elim (Option-cases (entry_row id s)) [
    | inl e ↦ rw (e, at_entry) h
    | inr (r, e) ↦ elim (Bool-cases (is_blank_label l)) [
      | inl t ↦ rw (e, at_entry, t) h
      | inr t ↦ rw (e, at_entry, t) (label_entry-after r.id l s j m h)
    ]
  ]

  pub add_entry_label-Stored : Stored id k s → Stored id k (add_entry_label now id l s).0
  unfolding add_entry_label
  add_entry_label-Stored (r, e, q) = elim (Bool-cases (is_blank_label l)) [
    | inl t ↦ rw (e, at_entry, t) (r, e, q)
    | inr t ↦
        rw (e, at_entry, t)
          (touch_entry-Stored now id k (label_entry r.id l s) r.id
            (label_entry-Stored r.id l s id k (r, e, q)))
  ]

module _ (now id : String) (s : Store) where
  pub add_entry_comment-labels :
      (body : String) → (add_entry_comment now id body s).0.entry_labels ≡ s.entry_labels
  unfolding add_entry_comment insert_comment touch_entry update_entry
  add_entry_comment-labels body = elim (Bool-cases (str_eq body "")) [
    | inl t ↦ rw t refl
    | inr t ↦ elim (Option-cases (entry_row id s)) [
      | inl e ↦ rw (t, e, at_entry) refl
      | inr (r, e) ↦ rw (t, e, at_entry) refl
    ]
  ]

  pub set_entry_closed-labels : (set_entry_closed now id s).0.entry_labels ≡ s.entry_labels
  unfolding set_entry_state update_entry
  set_entry_closed-labels = elim (Option-cases (entry_row id s)) [
    | inl e ↦ rw (e, at_entry) refl
    | inr (r, e) ↦ rw (e, at_entry) refl
  ]

  pub set_entry_assignees-labels :
      (names : List String) → (set_entry_assignees now id names s).0.entry_labels ≡ s.entry_labels
  unfolding set_entry_assignees update_entry
  set_entry_assignees-labels names = elim (Option-cases (entry_row id s)) [
    | inl e ↦ rw (e, at_entry) refl
    | inr (r, e) ↦ rw (e, at_entry) refl
  ]

  pub add_entry_comment-Stored :
      (k : ℕ) (other body : String)
      → Stored id k s
      → Stored id k (add_entry_comment now other body s).0
  unfolding add_entry_comment
  add_entry_comment-Stored k other body h = elim (Bool-cases (str_eq body "")) [
    | inl t ↦ rw t h
    | inr t ↦ elim (Option-cases (entry_row other s)) [
      | inl e ↦ rw (t, e, at_entry) h
      | inr (r, e) ↦
          rw (t, e, at_entry)
            (touch_entry-Stored now id k (insert_comment now body r.id s) r.id
              (Stored-entries id k s (insert_comment now body r.id s) (inserted r.id) h))
    ]
  ]
    where
      inserted : (r : ℕ) → (insert_comment now body r s).entries ≡ s.entries
      inserted r = unfold insert_comment in refl

module _ (id : String) (k : ℕ) where
  label_all-Stored :
      (j : ℕ) (ls : List String) (s : Store) → Stored id k s → Stored id k (label_all j ls s)
  unfolding label_all
  label_all-Stored j [] s h = h
  label_all-Stored j (l ∷ ls) s h =
      label_all-Stored j ls (label_entry j l s) (label_entry-Stored j l s id k h)

  Stored-append :
      (s t : Store) (row : EntryRow)
      → t.entries ≡ s.entries ++ row ∷ []
      → Stored id k s
      → Stored id k t
  unfolding entry_row
  Stored-append s t row e (r, f, q) =
      (r, rw e (find?_append (λ r. str_eq (decimal r.id) id) s.entries (row ∷ []) r f), q)

  pub add_entry-Stored :
      (now title : String) (body : Option String) (labels assignees : List String) (s : Store)
      → Stored id k s
      → Stored id k (add_entry now title body labels assignees s).0
  unfolding add_entry
  add_entry-Stored now title body labels assignees s h = elim (Bool-cases (is_blank_label title)) [
    | inl t ↦ rw t h
    | inr t ↦ elim (Bool-cases (any is_blank_label labels)) [
      | inl u ↦ rw (t, u) h
      | inr u ↦ rw (t, u) (label_all-Stored s.next_entry labels _ (Stored-append s _ _ refl h))
    ]
  ]

-- a label that a post gets when it is made is one of those that it is made with
pub label_all-before :
    (j : ℕ) (m : String) (k : ℕ) (ls : List String) (s : Store)
    → Labelled j m (label_all k ls s)
    → Labelled j m s ⊎ In m ls
unfolding label_all
label_all-before j m k [] s h = inl h
label_all-before j m k (l ∷ ls) s h = step (label_all-before j m k ls (label_entry k l s) h)
  where
    first : Labelled j m s ⊎ ((j ≡ k) × (m ≡ l)) → Labelled j m s ⊎ In m (l ∷ ls)
    first (inl g) = inl g
    first (inr p) = inr (inl p.1)

    step : Labelled j m (label_entry k l s) ⊎ In m ls → Labelled j m s ⊎ In m (l ∷ ls)
    step (inl g) = first (label_entry-before k l s j m g)
    step (inr i) = inr (inr i)

pub add_entry-before :
    (now title : String) (body : Option String) (labels assignees : List String) (s : Store) (j : ℕ)
    (m : String)
    → Labelled j m (add_entry now title body labels assignees s).0
    → Labelled j m s ⊎ In m labels
unfolding add_entry
add_entry-before now title body labels assignees s j m h =
    elim (Bool-cases (is_blank_label title)) [
      | inl t ↦ inl (rw t at h)
      | inr t ↦ elim (Bool-cases (any is_blank_label labels)) [
        | inl u ↦ inl (rw (t, u) at h)
        | inr u ↦ label_all-before j m s.next_entry labels _ (rw (t, u) at h)
      ]
    ]

label_all-after :
    (j : ℕ) (m : String) (k : ℕ) (ls : List String) (s : Store)
    → Labelled j m s
    → Labelled j m (label_all k ls s)
unfolding label_all
label_all-after j m k [] s h = h
label_all-after j m k (l ∷ ls) s h =
    label_all-after j m k ls (label_entry k l s) (label_entry-after k l s j m h)

pub add_entry-after :
    (now title : String) (body : Option String) (labels assignees : List String) (s : Store) (j : ℕ)
    (m : String)
    → Labelled j m s
    → Labelled j m (add_entry now title body labels assignees s).0
unfolding add_entry
add_entry-after now title body labels assignees s j m h = elim (Bool-cases (is_blank_label title)) [
  | inl t ↦ rw t h
  | inr t ↦ elim (Bool-cases (any is_blank_label labels)) [
    | inl u ↦ rw (t, u) h
    | inr u ↦ rw (t, u) (label_all-after j m s.next_entry labels _ h)
  ]
]
