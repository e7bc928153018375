-- ===== src/Runners/Limits.antt =====
-- executing/agent_runner.py: what a chain answers once every runner has failed.
use specseed.Prelude.{
  some_injective, ◌≤◌, ◌≡◌, refl, sym, ap, ◌∙◌, ◌⊎◌, inl, inr, ◌↔◌, true, Option, none, some, List,
  [], ◌∷◌, map, arith, ltb, All, In, if◌then◌else◌, Bool-cases,
}
use mathlib.Core.Option.{some-ne-none}
use specseed.Runners.Quota.{QuotaInfo}
use specseed.Runners.{Ran, AgentResult, result_of, all_signs, longest, blocked}

abbrev pub Signed : Option QuotaInfo → Type 0
Signed s = (q : QuotaInfo) × (s ≡ some q)

-- what is answered once every runner has failed, the last of them like this
pub record Spent (ran : Ran) (ss : List (Option QuotaInfo)) (res : AgentResult) : Type 0 where
  pub ok_kept : res.ok ≡ ran.ok
  pub stdout_kept : res.stdout ≡ ran.stdout
  pub error_kept : res.error ≡ ran.error
  pub limited : (res.quota_exhausted ≡ true) ↔ All Signed ss
  pub hint :
      res.quota_exhausted ≡ true
      → (q : QuotaInfo) × In (some q) ss
        × (res.quota_reset_hint ≡ q.reset_at)
        × ((p : QuotaInfo) → In (some p) ss → p.park_seconds ≤ q.park_seconds)

abbrev Longest : List QuotaInfo → QuotaInfo → Type 0
Longest qs q = In q qs × ((p : QuotaInfo) → In p qs → p.park_seconds ≤ q.park_seconds)

abbrev Better : QuotaInfo → QuotaInfo → QuotaInfo → Type 0
Better q p m =
    ((m ≡ q) ⊎ (m ≡ p)) × (q.park_seconds ≤ m.park_seconds) × (p.park_seconds ≤ m.park_seconds)

better_lem : (q p : QuotaInfo) → Better q p (if ltb q.park_seconds p.park_seconds then p else q)
better_lem q p = elim (Bool-cases (ltb q.park_seconds p.park_seconds)) [
  | inl e ↦ rw e (inr refl, ground arith, omega arith)
  | inr e ↦ rw e (inl refl, omega arith, ground arith)
]

Longest-cons :
    (q p b m : QuotaInfo) (ps : List QuotaInfo)
    → Better q p b
    → Longest (b ∷ ps) m
    → Longest (q ∷ p ∷ ps) m
Longest-cons q p b m ps c l = (place c.0 l.0, greatest)
  where
    place : (b ≡ q) ⊎ (b ≡ p) → In m (b ∷ ps) → In m (q ∷ p ∷ ps)
    place (inl e) (inl u) = inl (u ∙ e)
    place (inr e) (inl u) = inr (inl (u ∙ e))
    place d (inr i) = inr (inr i)

    greatest : (r : QuotaInfo) → In r (q ∷ p ∷ ps) → r.park_seconds ≤ m.park_seconds
    greatest r (inl e) = rw e (omega (arith, c.1, l.1 b (inl refl)))
    greatest r (inr (inl e)) = rw e (omega (arith, c.2, l.1 b (inl refl)))
    greatest r (inr (inr i)) = l.1 r (inr i)

longest-Longest : (q : QuotaInfo) (qs : List QuotaInfo) → Longest (q ∷ qs) (longest q qs)
unfolding longest
longest-Longest q [] = (inl refl, only)
  where
    only : (p : QuotaInfo) → In p (q ∷ []) → p.park_seconds ≤ q.park_seconds
    only p (inl e) = rw e (omega arith)
    only p (inr n) = elim n [ ]
longest-Longest q (p ∷ ps) =
    let b = if ltb q.park_seconds p.park_seconds then p else q in
    Longest-cons q p b (longest b ps) ps (better_lem q p) (longest-Longest b ps)

In-map_some : (p : QuotaInfo) (qs : List QuotaInfo) → In (some p) (map some qs) → In p qs
In-map_some p [] i = absurd i
In-map_some p (q ∷ qs) (inl e) = inl (some_injective p q e)
In-map_some p (q ∷ qs) (inr i) = inr (In-map_some p qs i)

map_some-In : (p : QuotaInfo) (qs : List QuotaInfo) → In p qs → In (some p) (map some qs)
map_some-In p [] i = absurd i
map_some-In p (q ∷ qs) (inl e) = inl (ap some e)
map_some-In p (q ∷ qs) (inr i) = inr (map_some-In p qs i)

all-Signed : (qs : List QuotaInfo) → All Signed (map some qs)
all-Signed [] = tt
all-Signed (q ∷ qs) = ((q, refl), all-Signed qs)

-- all of them are signs, or one of them is none
all_signs-cases :
    (ss : List (Option QuotaInfo))
    → ((qs : List QuotaInfo) × (all_signs ss ≡ some qs) × (ss ≡ map some qs))
      ⊎ ((all_signs ss ≡ none) × (¬ All Signed ss))
all_signs-cases [] = inl ([], refl, refl)
all_signs-cases (none ∷ ss) = inr (refl, λ h. some-ne-none h.0.0 (sym h.0.1))
all_signs-cases (some q ∷ ss) = elim (all_signs-cases ss) [
  | inl (qs, e, m) ↦ inl (q ∷ qs, rw e refl, ap (λ x. some q ∷ x) m)
  | inr (e, n) ↦ inr (rw e refl, λ h. n h.1)
]

spent :
    (ran : Ran) (q : QuotaInfo) (qs : List QuotaInfo)
    → Spent ran (map some (q ∷ qs)) (blocked (result_of ran) (some (q ∷ qs)))
spent ran q qs = record {
  ok_kept = refl;
  stdout_kept = refl;
  error_kept = refl;
  limited = (λ _. all-Signed (q ∷ qs), λ _. refl);
  hint = λ _. (
    longest q qs,
    map_some-In (longest q qs) (q ∷ qs) (longest-Longest q qs).0,
    refl,
    λ p i. (longest-Longest q qs).1 p (In-map_some p (q ∷ qs) i),
  );
}

pub blocked-Spent :
    (ran : Ran) (s : Option QuotaInfo) (ss : List (Option QuotaInfo))
    → Spent ran (s ∷ ss) (blocked (result_of ran) (all_signs (s ∷ ss)))
blocked-Spent ran s ss = elim (all_signs-cases (s ∷ ss)) [
  | inl ([], e, m) ↦ absurd (cc m)
  | inl (q ∷ qs, e, m) ↦ rw (e, m) (spent ran q qs)
  | inr (e, n) ↦ rw e (record {
    ok_kept = refl;
    stdout_kept = refl;
    error_kept = refl;
    limited = (λ f. absurd (cc f), λ h. absurd (n h));
    hint = λ f. absurd (cc f);
  })
]
