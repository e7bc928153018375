-- ===== src/Inflight/Order.antt =====
-- executing/inflight.py, the order in which a reclaim goes through the ledger.
use specseed.Prelude.{suc, ◌≡◌, refl, ap, ◌∙◌, inl, inr, [], ◌∷◌, In, length, ◌++◌, Bool-cases}
use specseed.Inflight.{Child, Ledger, sorted, insert, text_leb}

-- the same children, in another order
pub record Same (cs ds : Ledger) : Type 0 where
  pub to : (c : Child) → In c cs → In c ds
  pub back : (c : Child) → In c ds → In c cs
  pub size : length cs ≡ length ds

Same-refl : (cs : Ledger) → Same cs cs
Same-refl cs = record { to = λ c i. i; back = λ c i. i; size = refl }

pub Same-trans : {cs ds es : Ledger} → Same cs ds → Same ds es → Same cs es
Same-trans s t = record {
  to = λ c i. t.to c (s.to c i);
  back = λ c i. s.back c (t.back c i);
  size = s.size ∙ t.size;
}

Same-cons : (c : Child) {cs ds : Ledger} → Same cs ds → Same (c ∷ cs) (c ∷ ds)
Same-cons c {cs} {ds} s = record { to = to; back = back; size = ap suc s.size }
  where
    to : (d : Child) → In d (c ∷ cs) → In d (c ∷ ds)
    to d (inl e) = inl e
    to d (inr i) = inr (s.to d i)

    back : (d : Child) → In d (c ∷ ds) → In d (c ∷ cs)
    back d (inl e) = inl e
    back d (inr i) = inr (s.back d i)

Same-swap : (c d : Child) (cs : Ledger) → Same (c ∷ d ∷ cs) (d ∷ c ∷ cs)
Same-swap c d cs = record { to = λ e i. turn c d e i; back = λ e i. turn d c e i; size = refl }
  where
    turn : (c d e : Child) → In e (c ∷ d ∷ cs) → In e (d ∷ c ∷ cs)
    turn c d e (inl q) = inr (inl q)
    turn c d e (inr (inl q)) = inl q
    turn c d e (inr (inr i)) = inr (inr i)

insert-Same : (c : Child) (cs : Ledger) → Same (c ∷ cs) (insert c cs)
unfolding insert
insert-Same c [] = Same-refl (c ∷ [])
insert-Same c (d ∷ ds) = elim (Bool-cases (text_leb c.task_id d.task_id)) [
  | inl e ↦ rw e (Same-refl (c ∷ d ∷ ds))
  | inr e ↦ rw e (Same-trans (Same-swap c d ds) (Same-cons d (insert-Same c ds)))
]

pub sorted-Same : (cs : Ledger) → Same cs (sorted cs)
unfolding sorted
sorted-Same [] = Same-refl []
sorted-Same (c ∷ cs) = Same-trans (Same-cons c (sorted-Same cs)) (insert-Same c (sorted cs))

middle-Same : (c : Child) (cs ds : Ledger) → Same (c ∷ (cs ++ ds)) (cs ++ c ∷ ds)
middle-Same c [] ds = Same-refl (c ∷ ds)
middle-Same c (e ∷ cs) ds =
    Same-trans (Same-swap c e (cs ++ ds)) (Same-cons e (middle-Same c cs ds))

-- the children that a sweep has seen, the last one first
abbrev pub seen_after : Ledger → Ledger → Ledger
seen_after [] seen = seen
seen_after (c ∷ cs) seen = seen_after cs (c ∷ seen)

pub seen_after-Same : (cs seen : Ledger) → Same (cs ++ seen) (seen_after cs seen)
seen_after-Same [] seen = Same-refl seen
seen_after-Same (c ∷ cs) seen = Same-trans (middle-Same c cs seen) (seen_after-Same cs (c ∷ seen))
