-- ===== src/Advance/Removal.antt =====
-- executing/advance.py, the loop of `_set_status` that removes the old status labels.
use specseed.Prelude.{ℕ, String, ◌≡◌, ◌≢◌, ap, inl, inr, true, List, [], ◌∷◌, In, Bool-cases, subst}
use specseed.Tracker.{Store}
use specseed.Tracker.Labels.{
  Stored, Labelled, remove_entry_label-Stored, remove_entry_label-before, remove_entry_label-gone,
  remove_entry_label-others,
}
use specseed.Advance.Writes.{names_status, remove_status, remove_statuses}

module _ (now id : String) (k : ℕ) (l : String) (s : Store) where
  remove_status-Stored : Stored id k s → Stored id k (remove_status now id l s)
  unfolding remove_status
  remove_status-Stored h = elim (Bool-cases (names_status l)) [
    | inl t ↦ rw t (remove_entry_label-Stored now id k l s h)
    | inr t ↦ rw t h
  ]

  pub remove_status-before :
      (j : ℕ) (m : String) → Labelled j m (remove_status now id l s) → Labelled j m s
  unfolding remove_status
  remove_status-before j m h = elim (Bool-cases (names_status l)) [
    | inl t ↦ remove_entry_label-before now id k l s j m (rw t at h)
    | inr t ↦ rw t at h
  ]

  remove_status-gone :
      Stored id k s → names_status l ≡ true → Labelled k l (remove_status now id l s) → ⊥
  unfolding remove_status
  remove_status-gone h t g = remove_entry_label-gone now id k l s h (rw t at g)

  remove_status-others :
      (j : ℕ) (m : String)
      → Stored id k s
      → j ≢ k
      → Labelled j m s
      → Labelled j m (remove_status now id l s)
  unfolding remove_status
  remove_status-others j m h other g = elim (Bool-cases (names_status l)) [
    | inl t ↦ rw t (remove_entry_label-others now id k l s j m h (λ e _. other e) g)
    | inr t ↦ rw t g
  ]

module _ (now id : String) (k : ℕ) where
  pub remove_statuses-Stored :
      (ls : List String) (s : Store) → Stored id k s → Stored id k (remove_statuses now id ls s)
  unfolding remove_statuses
  remove_statuses-Stored [] s h = h
  remove_statuses-Stored (l ∷ ls) s h =
      remove_statuses-Stored ls _ (remove_status-Stored now id k l s h)

  pub remove_statuses-before :
      (ls : List String) (s : Store) (j : ℕ) (m : String)
      → Labelled j m (remove_statuses now id ls s)
      → Labelled j m s
  unfolding remove_statuses
  remove_statuses-before [] s j m h = h
  remove_statuses-before (l ∷ ls) s j m h =
      remove_status-before now id k l s j m (remove_statuses-before ls _ j m h)

  pub remove_statuses-gone :
      (ls : List String) (s : Store) (m : String)
      → Stored id k s
      → In m ls
      → names_status m ≡ true
      → Labelled k m (remove_statuses now id ls s)
      → ⊥
  unfolding remove_statuses
  remove_statuses-gone [] s m h i n g = elim i [ ]
  remove_statuses-gone (l ∷ ls) s m h (inl e) n g =
      remove_status-gone now id k l s h (cc (ap names_status e, n)) (
        subst (λ x. Labelled k x (remove_status now id l s)) e
          (remove_statuses-before ls (remove_status now id l s) k m g))
  remove_statuses-gone (l ∷ ls) s m h (inr i) n g =
      remove_statuses-gone ls (remove_status now id l s) m (remove_status-Stored now id k l s h) i n
        g

  pub remove_statuses-others :
      (ls : List String) (s : Store) (j : ℕ) (m : String)
      → Stored id k s
      → j ≢ k
      → Labelled j m s
      → Labelled j m (remove_statuses now id ls s)
  unfolding remove_statuses
  remove_statuses-others [] s j m h other g = g
  remove_statuses-others (l ∷ ls) s j m h other g =
      remove_statuses-others ls (remove_status now id l s) j m (remove_status-Stored now id k l s h)
        other (remove_status-others now id k l s j m h other g)
