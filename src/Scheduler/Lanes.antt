-- ===== src/Scheduler/Lanes.antt =====
-- When the loops claim a task: the work lane waits for the control lane and for the quota.
use specseed.Prelude.{
  ℕ, ◌+◌, ◌≤◌, ◌<◌, ◌≡◌, refl, sym, ap, ◌∙◌, Bool, true, false, not, Option, none, some, arith,
  if◌then◌else◌,
}
use specseed.Queue.{Task, control, work, claim_next, pending_count}
use specseed.Scheduler.{
  Scheduler, State, running, paused, stopped, state_eq, quota_circuit_open, quota_park,
  open_quota_circuit, work_turn, control_turn, may_claim_work,
}

abbrev pub no_state : State → Bool
no_state s = not (state_eq s running)

state_eq_running : (s : State) → state_eq s running ≡ true → s ≡ running
state_eq_running running e = refl
state_eq_running paused e = cc
state_eq_running stopped e = cc

circuit-db : (mono : ℕ) (s : Scheduler) → (quota_circuit_open mono s).1.db ≡ s.db
unfolding quota_circuit_open
circuit-db mono s = ground arith

circuit-state : (mono : ℕ) (s : Scheduler) → (quota_circuit_open mono s).1.state ≡ s.state
unfolding quota_circuit_open
circuit-state mono s = ground arith

circuit-open :
    (mono : ℕ) (s : Scheduler) → mono < s.quota_paused_until → quota_circuit_open mono s ≡ (true, s)
unfolding quota_circuit_open
circuit-open mono s l = ground (arith, l)

circuit-closed :
    (mono : ℕ) (s : Scheduler) → (quota_circuit_open mono s).0 ≡ false → s.quota_paused_until ≤ mono
unfolding quota_circuit_open
circuit-closed mono s h = ground arith

abbrev guarded :
    (stop idle may : Bool) → (s s' c : Scheduler) → Option Task → Option Task × Scheduler
guarded stop idle may s s' c o =
    if stop then (none, s) else if idle then (none, s) else if may then (o, c) else (none, s')

guarded-some :
    (stop idle may : Bool) (s s' c : Scheduler) (o : Option Task) (t : Task)
    → (guarded stop idle may s s' c o).0 ≡ some t
    → (stop ≡ false) × (may ≡ true) × (o ≡ some t) × (guarded stop idle may s s' c o ≡ (o, c))
guarded-some true idle may s s' c o t h = cc
guarded-some false true may s s' c o t h = cc
guarded-some false false true s s' c o t h = (refl, refl, h, refl)
guarded-some false false false s s' c o t h = cc

may_claim_work-true :
    (wall : ℕ) (parked : Bool) (s : Scheduler)
    → may_claim_work wall parked s ≡ true
    → (s.state ≡ running) × (parked ≡ false) × (pending_count (some control) (some wall) s.db ≡ 0)
unfolding may_claim_work
may_claim_work-true wall parked s h =
    (state_eq_running s.state (ground arith), ground arith, ground arith)

-- When a turn of the work loop Yields_lem a task, the scheduler is running and not stopping, no
-- control task is ready at that time, no quota park is in effect, and the task is the one that the
-- queue gives for the work lane.
pub work_turn-some :
    (mono wall : ℕ) (s : Scheduler) (t : Task)
    → (work_turn mono wall s).0 ≡ some t
    → (s.state ≡ running)
      × (s.stop_set ≡ false)
      × (pending_count (some control) (some wall) s.db ≡ 0)
      × (s.quota_paused_until ≤ mono)
      × ((claim_next work wall s.db).0 ≡ some t)
      × ((work_turn mono wall s).1.db ≡ (claim_next work wall s.db).1)
unfolding work_turn
work_turn-some mono wall s t h =
    let q = quota_circuit_open mono s in
    let c = claim_next work wall q.1.db in
    let (a, b, e, whole) =
      guarded-some s.stop_set (not (state_eq s.state running)) (may_claim_work wall q.0 q.1) s q.1
        (record (q.1) { db = c.1 }) c.0 t h in
    let (r, p, n) = may_claim_work-true wall q.0 q.1 b in
    (
      sym (circuit-state mono s) ∙ r,
      a,
      ap (pending_count (some control) (some wall)) (sym (circuit-db mono s)) ∙ n,
      circuit-closed mono s p,
      ap (λ db. (claim_next work wall db).0) (sym (circuit-db mono s)) ∙ e,
      ap (λ r. r.1.db) whole ∙ ap (λ db. (claim_next work wall db).1) (circuit-db mono s),
    )

parked_no : (wall : ℕ) (s : Scheduler) → may_claim_work wall true s ≡ false
unfolding may_claim_work
parked_no wall s = ground arith

idle_turn :
    (stop idle : Bool) (s c : Scheduler) (o : Option Task)
    → guarded stop idle false s s c o ≡ (none, s)
idle_turn true idle s c o = refl
idle_turn false true s c o = refl
idle_turn false false s c o = refl

-- While the park lasts, a turn of the work loop does nothing.
pub work_turn-parked :
    (mono wall : ℕ) (s : Scheduler)
    → mono < s.quota_paused_until
    → work_turn mono wall s ≡ (none, s)
unfolding work_turn
work_turn-parked mono wall s l =
    rw (circuit-open mono s l, parked_no wall s)
      (idle_turn s.stop_set (not (state_eq s.state running)) s s (claim_next work wall s.db).0)

park_long : (wall : ℕ) (until : Option ℕ) → 60 ≤ (quota_park wall until).0
unfolding quota_park
park_long wall none = omega arith
park_long wall (some reset) = omega arith

paused_until :
    (mono wall id : ℕ) (until : Option ℕ) (s : Scheduler)
    → (open_quota_circuit mono wall id until s).quota_paused_until
      ≡ mono + (quota_park wall until).0
unfolding open_quota_circuit
paused_until mono wall id until s = refl

control_goes_on :
    (clock : ℕ) (s : Scheduler)
    → s.stop_set ≡ false
    → s.state ≡ running
    → (control_turn clock s).0 ≡ (claim_next control clock s.db).0
unfolding control_turn
control_goes_on clock s n r = rw (n, r) refl

-- A task that is put back for the provider's quota parks the work lane: for at least a minute no
-- turn of it claims a task or changes anything, while the control lane claims what it would claim.
pub open_quota_circuit-parks :
    (mono wall later clock id : ℕ) (until : Option ℕ) (s : Scheduler)
    → later < mono + 60
    → s.stop_set ≡ false
    → s.state ≡ running
    → (work_turn later clock (open_quota_circuit mono wall id until s)
        ≡ (none, open_quota_circuit mono wall id until s))
      × ((control_turn clock (open_quota_circuit mono wall id until s)).0
          ≡ (claim_next control clock (open_quota_circuit mono wall id until s).db).0)
unfolding open_quota_circuit
open_quota_circuit-parks mono wall later clock id until s l n r =
    let after = open_quota_circuit mono wall id until s in
    (
      work_turn-parked later clock after
          (omega (arith, paused_until mono wall id until s, park_long wall until, l)),
      control_goes_on clock after n r,
    )
