-- ===== src/Advance/Names.antt =====
-- executing/advance.py, `_status_label`: which status the labels of an entity name.
use Prim.Native.Char.{Char}
use Prim.Native.String
use Prim.Native.String.append
use specseed.Prelude.{
  String, ◌≡◌, refl, ap, ◌∙◌, inl, inr, ◌⊎◌, true, false, some, List, [], ◌∷◌, In, arith, str_eq,
  str_eq_iff, Bool-cases, Option-cases,
}
use specseed.Prelude.Text.{starts_with, has_part, strip_prefix, cut_at}
use specseed.Entities.{status_from_labels, is_work_tier}
use specseed.Tracker.{is_blank_label}
use specseed.Advance.Writes.{names_status, status_label}

-- a label that names no status is passed over
status_from_labels-skip :
    (l : String) (ls : List String)
    → names_status l ≡ false
    → status_from_labels (l ∷ ls) ≡ status_from_labels ls
unfolding status_from_labels names_status starts_with has_part
status_from_labels-skip l ls h = elim (Option-cases (strip_prefix "status:" l)) [
  | inl e ↦ elim (Option-cases (cut_at ":status:" l)) [
    | inl f ↦ rw (e, f) refl
    | inr (p, f) ↦ absurd (cc (rw (f, has_part, e, starts_with) at h))
  ]
  | inr (p, e) ↦ absurd (cc (rw (e, starts_with) at h))
]

-- where one label only names a status, it is the status
pub status_from_labels_unique :
    (l : String) (st : String) (ls : List String)
    → ((rest : List String) → status_from_labels (l ∷ rest) ≡ some st)
    → ((m : String) → In m ls → names_status m ≡ true → m ≡ l)
    → names_status l ≡ true
    → In l ls
    → status_from_labels ls ≡ some st
status_from_labels_unique l st [] own only named h = elim h [ ]
status_from_labels_unique l st (m ∷ ms) own only named h = elim (Bool-cases (names_status m)) [
  | inl t ↦ rw (only m (inl refl) t) (own ms)
  | inr t ↦
      status_from_labels-skip m ms t
      ∙ status_from_labels_unique l st ms own (λ x i. only x (inr i)) named (later t h)
]
  where
    later : names_status m ≡ false → In l (m ∷ ms) → In l ms
    later t (inr i) = i
    later t (inl e) = absurd (cc (ap names_status e, t, named))

work_tiers : (t : String) → is_work_tier t ≡ true → (t ≡ "epic") ⊎ (t ≡ "ticket") ⊎ (t ≡ "issue")
unfolding is_work_tier
work_tiers t h = ground (arith, str_eq_iff t "epic", str_eq_iff t "ticket", str_eq_iff t "issue")

-- the texts letter by letter
spell_mark :
    (u : String)
    → String.◌++◌ ":status:" u
      ≡ String.◌∷◌ ":" (
          String.◌∷◌ "s" (
            String.◌∷◌ "t" (
              String.◌∷◌ "a"
                (String.◌∷◌ "t" (String.◌∷◌ "u" (String.◌∷◌ "s" (String.◌∷◌ ":" u)))))))
spell_mark u =
    rw
      (
        append.cons, append.cons, append.cons, append.cons, append.cons, append.cons, append.cons,
        append.cons, append.nil,
      )
      refl

spell_epic :
    (u : String)
    → String.◌++◌ "epic" u ≡ String.◌∷◌ "e" (String.◌∷◌ "p" (String.◌∷◌ "i" (String.◌∷◌ "c" u)))
spell_epic u = rw (append.cons, append.cons, append.cons, append.cons, append.nil) refl

spell_ticket :
    (u : String)
    → String.◌++◌ "ticket" u
      ≡ String.◌∷◌ "t"
          (String.◌∷◌ "i" (String.◌∷◌ "c" (String.◌∷◌ "k" (String.◌∷◌ "e" (String.◌∷◌ "t" u)))))
spell_ticket u =
    rw (append.cons, append.cons, append.cons, append.cons, append.cons, append.cons, append.nil)
      refl

spell_issue :
    (u : String)
    → String.◌++◌ "issue" u
      ≡ String.◌∷◌ "i" (String.◌∷◌ "s" (String.◌∷◌ "s" (String.◌∷◌ "u" (String.◌∷◌ "e" u))))
spell_issue u =
    rw (append.cons, append.cons, append.cons, append.cons, append.cons, append.nil) refl

-- the status label of a tier names that status, and no other
pub own_status :
    (t : String) (st : String) (rest : List String)
    → is_work_tier t ≡ true
    → status_from_labels (status_label (some t) st ∷ rest) ≡ some st
unfolding status_label status_from_labels str_eq
own_status t st rest h = elim (work_tiers t h) [
  | inl e ↦ rw (e, spell_epic, spell_mark) refl
  | inr (inl e) ↦ rw (e, spell_ticket, spell_mark) refl
  | inr (inr e) ↦ rw (e, spell_issue, spell_mark) refl
]

filled_text : (c : Char) (s : String) → str_eq (String.◌∷◌ c s) "" ≡ false
filled_text c s = elim (Bool-cases (str_eq (String.◌∷◌ c s) "")) [
  | inl e ↦ absurd (cc ((str_eq_iff (String.◌∷◌ c s) "").0 e))
  | inr e ↦ e
]

pub own_label :
    (t : String) (st : String)
    → is_work_tier t ≡ true
    → (names_status (status_label (some t) st) ≡ true)
      × (is_blank_label (status_label (some t) st) ≡ false)
unfolding status_label names_status is_blank_label
own_label t st h = elim (work_tiers t h) [
  | inl e ↦ rw (e, spell_epic, spell_mark, filled_text) (refl, refl)
  | inr (inl e) ↦ rw (e, spell_ticket, spell_mark, filled_text) (refl, refl)
  | inr (inr e) ↦ rw (e, spell_issue, spell_mark, filled_text) (refl, refl)
]
