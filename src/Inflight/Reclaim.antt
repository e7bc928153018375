-- ===== src/Inflight/Reclaim.antt =====
-- executing/inflight.py, `reclaim`: which processes are signalled, and what is left.
use specseed.Prelude.{
  ℕ, suc, ◌+◌, ◌≡◌, refl, sym, ap, subst, ◌∙◌, inl, inr, ◌↔◌, Bool, true, false, ◌&&◌, ◌||◌, not,
  none, List, [], ◌∷◌, arith, In, All, count, length, length-keep, append-nil, map, Bool-cases,
  ◌==◌, ==→eq, if◌then◌else◌,
}
use specseed.Queue.{Db, in_progress, status_eq, reset_in_progress, pending_count, active_count}
use specseed.Queue.Counts.{reset_in_progress_lem}
use specseed.Inflight.{
  Child, Ledger, Processes, Sweep, Reclaimed, is_recycled, kill, sweep_child, sweep, sorted,
  reclaim,
}
use specseed.Inflight.Order.{Same, Same-trans, sorted-Same, seen_after, seen_after-Same}

-- a child that is alive and, as far as its command line tells, still the one that was noted
abbrev pub Ours : Processes → Child → Type 0
Ours ps c =
    ((c.pid == 0) ≡ false)
    × (ps.alive c.pid ≡ true)
    × (is_recycled c.binary (ps.command_of c.pid) ≡ false)

-- the sweep of the children of a ledger, begun among the processes ps
record SoFar (ps : Processes) (seen : Ledger) (s : Sweep) : Type 0 where
  commands : (q : ℕ) → s.processes.command_of q ≡ ps.command_of q
  live : (q : ℕ) → s.processes.alive q ≡ true → ps.alive q ≡ true
  dead : (q : ℕ) → s.processes.alive q ≡ false → ps.alive q ≡ true → In q s.signalled
  spared : (q : ℕ) → (In q s.signalled → ⊥) → s.processes.alive q ≡ ps.alive q
  sound : (q : ℕ) → In q s.signalled → (c : Child) × In c seen × Ours ps c × (q ≡ c.pid)
  complete : (c : Child) → In c seen → Ours ps c → In c.pid s.signalled
  accounted : s.killed + s.stale ≡ length seen
  kills : s.killed ≡ length s.signalled

skipped-SoFar :
    (ps : Processes) (seen : Ledger) (s : Sweep) (c : Child)
    → SoFar ps seen s
    → (Ours ps c → In c.pid s.signalled)
    → SoFar ps (c ∷ seen) (record s { stale = suc s.stale })
skipped-SoFar ps seen s c h o = record {
  commands = h.commands;
  live = h.live;
  dead = h.dead;
  spared = h.spared;
  sound = λ q i. let (d, m, u, e) = h.sound q i in (d, inr m, u, e);
  complete = complete;
  accounted = omega (arith, h.accounted);
  kills = h.kills;
}
  where
    complete : (d : Child) → In d (c ∷ seen) → Ours ps d → In d.pid s.signalled
    complete d (inl e) u = rw e (o (rw e at u))
    complete d (inr i) u = h.complete d i u

weaker : (b x y : Bool) → (if b then x && y else x) ≡ true → x ≡ true
weaker b true y e = refl
weaker true false y e = e
weaker false false y e = e

killed-SoFar :
    (ps : Processes) (seen : Ledger) (s : Sweep) (c : Child)
    → SoFar ps seen s
    → Ours ps c
    → SoFar ps (c ∷ seen) (record s {
      killed = suc s.killed;
      processes = kill c.pid s.processes;
      signalled = c.pid ∷ s.signalled;
    })
unfolding kill
killed-SoFar ps seen s c h o = record {
  commands = h.commands;
  live = λ q e. h.live q (weaker (q == c.pid) (s.processes.alive q) (s.processes.stubborn q) e);
  dead = dead;
  spared = spared;
  sound = sound;
  complete = complete;
  accounted = omega (arith, h.accounted);
  kills = ap suc h.kills;
}
  where
    dead :
        (q : ℕ)
        → (kill c.pid s.processes).alive q ≡ false
        → ps.alive q ≡ true
        → In q (c.pid ∷ s.signalled)
    dead q e a = elim (Bool-cases (q == c.pid)) [
      | inl y ↦ inl (==→eq q c.pid y)
      | inr n ↦ inr (h.dead q (rw n at e) a)
    ]

    spared :
        (q : ℕ) → (In q (c.pid ∷ s.signalled) → ⊥) → (kill c.pid s.processes).alive q ≡ ps.alive q
    spared q n = elim (Bool-cases (q == c.pid)) [
      | inl y ↦ absurd (n (inl (==→eq q c.pid y)))
      | inr m ↦ rw m (h.spared q (λ i. n (inr i)))
    ]

    sound :
        (q : ℕ)
        → In q (c.pid ∷ s.signalled)
        → (d : Child) × In d (c ∷ seen) × Ours ps d × (q ≡ d.pid)
    sound q (inl e) = (c, inl refl, o, e)
    sound q (inr i) = let (d, m, u, e) = h.sound q i in (d, inr m, u, e)

    complete : (d : Child) → In d (c ∷ seen) → Ours ps d → In d.pid (c.pid ∷ s.signalled)
    complete d (inl e) u = inl (ap (λ x. x.pid) e)
    complete d (inr i) u = inr (h.complete d i u)

sweep_child-SoFar :
    (ps : Processes) (seen : Ledger) (s : Sweep) (c : Child)
    → SoFar ps seen s
    → SoFar ps (c ∷ seen) (sweep_child c s)
unfolding sweep_child
sweep_child-SoFar ps seen s c h =
    go (c.pid == 0) (s.processes.alive c.pid) (is_recycled c.binary (s.processes.command_of c.pid))
      refl refl refl
  where
    go :
        (z a r : Bool)
        → (c.pid == 0) ≡ z
        → s.processes.alive c.pid ≡ a
        → is_recycled c.binary (s.processes.command_of c.pid) ≡ r
        → SoFar ps (c ∷ seen) (
            if z || not a
            then record s { stale = suc s.stale }
            else if r
            then record s { stale = suc s.stale }
            else record s {
              killed = suc s.killed;
              processes = kill c.pid s.processes;
              signalled = c.pid ∷ s.signalled;
            })
    go true a r ez ea er = skipped-SoFar ps seen s c h (λ o. absurd (cc (ez, o.0)))
    go false false r ez ea er = skipped-SoFar ps seen s c h (λ o. h.dead c.pid ea o.1)
    go false true true ez ea er =
        skipped-SoFar ps seen s c h (λ o. absurd (cc (er, h.commands c.pid, o.2)))
    go false true false ez ea er =
        killed-SoFar ps seen s c h
          (ez, h.live c.pid ea, subst (λ x. is_recycled c.binary x ≡ false) (h.commands c.pid) er)

sweep-SoFar :
    (ps : Processes) (cs seen : Ledger) (s : Sweep)
    → SoFar ps seen s
    → SoFar ps (seen_after cs seen) (sweep cs s)
unfolding sweep
sweep-SoFar ps [] seen s h = h
sweep-SoFar ps (c ∷ cs) seen s h =
    sweep-SoFar ps cs (c ∷ seen) (sweep_child c s) (sweep_child-SoFar ps seen s c h)

begun-SoFar :
    (ps : Processes)
    → SoFar ps [] (record { killed = 0; stale = 0; processes = ps; signalled = [] })
begun-SoFar ps = record {
  commands = λ q. refl;
  live = λ q e. e;
  dead = λ q e a. absurd (cc (e, a));
  spared = λ q n. refl;
  sound = λ q i. elim i [ ];
  complete = λ c i. elim i [ ];
  accounted = refl;
  kills = refl;
}

length-map {ℓ κ} :
    {A : Type ℓ} {B : Type κ} (f : A → B) (xs : List A) → length (map f xs) ≡ length xs
length-map f [] = refl
length-map f (x ∷ xs) = ap suc (length-map f xs)

length-reset_in_progress :
    (db : Db)
    → length (reset_in_progress db).0 ≡ count (λ t. status_eq t.status in_progress) db.tasks
unfolding reset_in_progress
length-reset_in_progress db =
    length-map (λ t. t.task_id) _ ∙ length-keep (λ t. status_eq t.status in_progress) db.tasks

-- what a reclaim does
pub record Reclaims (ledger : Ledger) (ps : Processes) (db : Db) (r : Reclaimed) : Type 0 where
  pub signals :
      (pid : ℕ) → In pid r.signalled ↔ ((c : Child) × In c ledger × Ours ps c × (pid ≡ c.pid))
  pub spares : (pid : ℕ) → (In pid r.signalled → ⊥) → r.processes.alive pid ≡ ps.alive pid
  pub accounts : r.summary.killed + r.summary.stale ≡ length ledger
  pub kills : r.summary.killed ≡ length r.signalled
  pub wiped : r.ledger ≡ []
  pub requeues : r.summary.requeued ≡ count (λ t. status_eq t.status in_progress) db.tasks
  pub no_orphan : All (λ t. status_eq t.status in_progress ≡ false) r.db.tasks
  pub pending : pending_count none none r.db ≡ active_count none db

-- The startup reclaim signals exactly the processes of the ledger that are alive and whose command
-- line holds the name of the noted binary, in any place, or any name where none was noted; every
-- other process is spared. Each child of the ledger is counted as killed or as stale, the ledger is
-- wiped, and of the queue no row stays in progress: as many as were are counted as requeued, and
-- the pending rows are those that were active.
pub reclaim-Reclaims :
    (ledger : Ledger) (ps : Processes) (db : Db) → Reclaims ledger ps db (reclaim ledger ps db)
unfolding reclaim
reclaim-Reclaims ledger ps db =
    let s = sweep-SoFar ps (sorted ledger) [] _ (begun-SoFar ps) in
    let same = Same-trans (sorted-Same ledger) (
      subst (λ x. Same x (seen_after (sorted ledger) [])) (append-nil (sorted ledger))
        (seen_after-Same (sorted ledger) [])) in
    record {
      signals = λ pid. (
        λ i. let (c, m, o, e) = s.sound pid i in (c, same.back c m, o, e),
        λ found. rw found.3 (s.complete found.0 (same.to found.0 found.1) found.2),
      );
      spares = s.spared;
      accounts = s.accounted ∙ sym same.size;
      kills = s.kills;
      wiped = refl;
      requeues = length-reset_in_progress db;
      no_orphan = (reset_in_progress_lem none db).0;
      pending = (reset_in_progress_lem none db).1;
    }
