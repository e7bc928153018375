-- ===== src/Migrate/Marker.antt =====
-- About the version marker file, written and read back.
use Prim.Native.Char.{Char}
use Prim.Native.String
use Prim.Native.String.append
use specseed.Prelude.{String, false, ◌≡◌, refl, ap, ◌∙◌, inl, inr, ◌⊎◌, ◌&&◌, str_eq, Bool-cases}
use specseed.Prelude.Text.{strip, lstrip, rstrip, is_space}
use specseed.Migrate.{Storage, storage_version, write_storage_version}

rstrip-newline : (s : String) → rstrip (String.◌++◌ s "\n") ≡ rstrip s
unfolding rstrip is_space str_eq
rstrip-newline String.[] = refl
rstrip-newline (String.◌∷◌ c s) = rw (append.cons c s, rstrip-newline s) refl

rstrip_idem : (s : String) → rstrip (rstrip s) ≡ rstrip s
unfolding rstrip
rstrip_idem String.[] = refl
rstrip_idem (String.◌∷◌ c s) = elim (Bool-cases (is_space c && str_eq (rstrip s) "")) [
  | inl e ↦ rw e refl
  | inr e ↦ rw (e, rstrip_idem s, e) refl
]

-- what is left of a text begins with no space
lstrip-cases :
    (s : String)
    → (lstrip s ≡ String.[])
      ⊎ ((c : Char) × (u : String) × (lstrip s ≡ String.◌∷◌ c u) × (is_space c ≡ false))
unfolding lstrip
lstrip-cases String.[] = inl refl
lstrip-cases (String.◌∷◌ c s) = elim (Bool-cases (is_space c)) [
  | inl e ↦ rw e (lstrip-cases s)
  | inr e ↦ inr (c, s, rw e refl, e)
]

solid :
    (c : Char) (u t : String)
    → is_space c ≡ false
    → (lstrip (rstrip (String.◌∷◌ c u)) ≡ rstrip (String.◌∷◌ c u))
      × (lstrip (String.◌++◌ (rstrip (String.◌∷◌ c u)) t) ≡ String.◌++◌ (rstrip (String.◌∷◌ c u)) t)
unfolding lstrip rstrip
solid c u t e = (rw (e, e) refl, rw (e, append.cons c (rstrip u) t, e) refl)

newline_gone :
    (s : String)
    → lstrip (String.◌++◌ (strip s) "\n") ≡ String.◌++◌ (strip s) "\n" ⊎ (strip s ≡ String.[])
unfolding strip rstrip
newline_gone s = elim (lstrip-cases s) [
  | inl e ↦ inr (ap rstrip e)
  | inr q ↦ inl (rw (q.2) (solid q.0 q.1 "\n" q.3).1)
]

blank : strip (String.◌++◌ "" "\n") ≡ ""
unfolding strip lstrip rstrip is_space str_eq
blank = refl

strip-newline : (s : String) → strip (String.◌++◌ (strip s) "\n") ≡ strip s
strip-newline s = elim (newline_gone s) [
  | inl e ↦ unfold strip in ap rstrip e ∙ rstrip-newline (strip s) ∙ rstrip_idem (lstrip s)
  | inr e ↦ rw e blank
]

-- The version that is written, stripped and not empty, is the one that is read.
pub storage_version-write :
    (v : String) (st : Storage)
    → str_eq (strip v) "" ≡ false
    → storage_version (write_storage_version (strip v) st) ≡ strip v
unfolding storage_version write_storage_version
storage_version-write v st n = rw (strip-newline v, n) refl
