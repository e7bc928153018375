-- ===== src/Tracker/Order.antt =====
-- About the labels that are read of an entry: the stored ones, in the order of their names.
use specseed.Prelude.{
  ℕ, String, ◌≡◌, inl, inr, ◌⊎◌, List, [], ◌∷◌, In, ◌==◌, ==→eq, ==_refl, Bool-cases,
}
use specseed.Tracker.{Store}
use specseed.Tracker.Labels.{Labelled}
use specseed.Tracker.Read.{str_le, insert_name, sort_names, names_of, labels_for_entry}

-- an insertion sort keeps its items, whatever the test
insert_name-In : (m n : String) (ns : List String) → In m (insert_name n ns) → (m ≡ n) ⊎ In m ns
unfolding insert_name
insert_name-In m n [] (inl e) = inl e
insert_name-In m n [] (inr h) = elim h [ ]
insert_name-In m n (x ∷ xs) h = elim (Bool-cases (str_le n x)) [
  | inl t ↦ rw t at h
  | inr t ↦ step (insert_name-In m n xs) (rw t at h)
]
  where
    later : (m ≡ n) ⊎ In m xs → (m ≡ n) ⊎ In m (x ∷ xs)
    later (inl e) = inl e
    later (inr i) = inr (inr i)

    step :
        (In m (insert_name n xs) → (m ≡ n) ⊎ In m xs)
        → In m (x ∷ insert_name n xs)
        → (m ≡ n) ⊎ In m (x ∷ xs)
    step ih (inl e) = inr (inl e)
    step ih (inr i) = later (ih i)

In-insert_name : (m n : String) (ns : List String) → (m ≡ n) ⊎ In m ns → In m (insert_name n ns)
unfolding insert_name
In-insert_name m n [] h = h
In-insert_name m n (x ∷ xs) h = elim (Bool-cases (str_le n x)) [
  | inl t ↦ rw t h
  | inr t ↦ rw t (step (In-insert_name m n xs) h)
]
  where
    step :
        ((m ≡ n) ⊎ In m xs → In m (insert_name n xs))
        → (m ≡ n) ⊎ In m (x ∷ xs)
        → In m (x ∷ insert_name n xs)
    step ih (inl e) = inr (ih (inl e))
    step ih (inr (inl e)) = inl e
    step ih (inr (inr i)) = inr (ih (inr i))

sort_names-In : (m : String) (ns : List String) → In m (sort_names ns) → In m ns
unfolding sort_names
sort_names-In m [] h = h
sort_names-In m (n ∷ ns) h = step (sort_names-In m ns) (insert_name-In m n (sort_names ns) h)
  where
    step : (In m (sort_names ns) → In m ns) → (m ≡ n) ⊎ In m (sort_names ns) → In m (n ∷ ns)
    step ih (inl e) = inl e
    step ih (inr i) = inr (ih i)

In-sort_names : (m : String) (ns : List String) → In m ns → In m (sort_names ns)
unfolding sort_names
In-sort_names m [] h = h
In-sort_names m (n ∷ ns) h = In-insert_name m n (sort_names ns) (step (In-sort_names m ns) h)
  where
    step : (In m ns → In m (sort_names ns)) → In m (n ∷ ns) → (m ≡ n) ⊎ In m (sort_names ns)
    step ih (inl e) = inl e
    step ih (inr i) = inr (ih i)

names_of-In : (k : ℕ) (m : String) (ps : List (ℕ × String)) → In m (names_of k ps) → In (k, m) ps
names_of-In k m [] h = elim h [ ]
names_of-In k m ((j, l) ∷ ps) h = elim (Bool-cases (j == k)) [
  | inl t ↦ step (==→eq j k t) (names_of-In k m ps) (rw t at h)
  | inr t ↦ inr (names_of-In k m ps (rw t at h))
]
  where
    step :
        j ≡ k
        → (In m (names_of k ps) → In (k, m) ps)
        → In m (l ∷ names_of k ps)
        → In (k, m) ((j, l) ∷ ps)
    step q ih (inl e) = inl (cc)
    step q ih (inr i) = inr (ih i)

In-names_of : (k : ℕ) (m : String) (ps : List (ℕ × String)) → In (k, m) ps → In m (names_of k ps)
In-names_of k m [] h = elim h [ ]
In-names_of k m ((j, l) ∷ ps) (inl e) = rw (same e, ==_refl k) (inl (name e))
  where
    same : ◌≡◌ {A = ℕ × String} (k, m) (j, l) → j ≡ k
    same e = cc

    name : ◌≡◌ {A = ℕ × String} (k, m) (j, l) → m ≡ l
    name e = cc
In-names_of k m ((j, l) ∷ ps) (inr i) = elim (Bool-cases (j == k)) [
  | inl t ↦ rw t (inr (In-names_of k m ps i))
  | inr t ↦ rw t (In-names_of k m ps i)
]

pub labels_for_entry-Labelled :
    (k : ℕ) (m : String) (s : Store) → In m (labels_for_entry k s) → Labelled k m s
unfolding labels_for_entry
labels_for_entry-Labelled k m s h =
    names_of-In k m s.entry_labels (sort_names-In m (names_of k s.entry_labels) h)

pub Labelled-labels_for_entry :
    (k : ℕ) (m : String) (s : Store) → Labelled k m s → In m (labels_for_entry k s)
unfolding labels_for_entry
Labelled-labels_for_entry k m s h =
    In-sort_names m (names_of k s.entry_labels) (In-names_of k m s.entry_labels h)
