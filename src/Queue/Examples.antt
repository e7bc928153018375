-- ===== src/Queue/Examples.antt =====
-- Tests of the queue, and its theorems at one table.
use specseed.Prelude.{ℕ, ◌≡◌, ◌≢◌, refl, false, none, some, List, [], ◌∷◌, arith}
use specseed.Queue.{
  Db, Task, Status, Lane, pending, in_progress, control, work, claim_next, claimed, requeue,
}
use specseed.Queue.Invariant.{
  IsWellFormed, Op, claim_op, complete_op, remove_op, apply, run, run-IsWellFormed,
}
use specseed.Queue.Claim.{Outcome, claim_next_lem}
use specseed.Queue.Ownership.{claim_next_once}
use specseed.Queue.Errors.{Extends, run-Extends}
use specseed.Queue.Readback.{requeue-claim_next}

abbrev row : ℕ → Status → Lane → ℕ → Task
row id status lane priority = record {
  task_id = id;
  action = "implement";
  post_id = some "7";
  payload = [];
  status = status;
  attempts = 0;
  created_at = 10;
  last_attempted_at = none;
  not_before = none;
  lane = lane;
  priority = priority;
}

abbrev three : Db
three = record {
  tasks = row 1 pending work 50 ∷ row 2 pending work 60 ∷ row 3 in_progress control 50 ∷ [];
  seq = 3;
  errors = [];
  error_seq = 0;
}

three-IsWellFormed : IsWellFormed three
three-IsWellFormed = record {
  ids = (omega arith, (omega arith, (omega arith, omega arith)));
  error_ids = tt;
}

abbrev ops : List Op
ops = complete_op 120 2 false (some "no") ∷ remove_op 1 ∷ claim_op work 130 ∷ []

-- the higher priority goes first
claims_two : (claim_next work 100 three).0 ≡ some (claimed 100 (row 2 pending work 60))
unfolding claim_next
claims_two = refl

claim_next_lem_example : Outcome work 100 three (claim_next work 100 three)
claim_next_lem_example = claim_next_lem work 100 three three-IsWellFormed

-- the row that the second claim gives
claims_one :
    (claim_next work 200 (run (claim_op control 150 ∷ []) (claim_next work 100 three).1)).0
    ≡ some (claimed 200 (row 1 pending work 50))
unfolding claim_next run apply
claims_one = refl

claim_next_once_example : ◌≢◌ {A = ℕ} 1 2
claim_next_once_example =
    claim_next_once work work 100 200 three (claim_op control 150 ∷ [])
      (claimed 100 (row 2 pending work 60)) (claimed 200 (row 1 pending work 50)) three-IsWellFormed
      claims_two (tt, tt) claims_one

run-IsWellFormed_example : IsWellFormed (run ops three)
run-IsWellFormed_example = run-IsWellFormed ops three three-IsWellFormed

run-Extends_example : Extends three (run ops three)
run-Extends_example = run-Extends ops three

-- the row that is held back is passed over
claims_other :
    (claim_next work 100 (requeue 2 (some 300) three)).0
    ≡ some (claimed 100 (row 1 pending work 50))
unfolding claim_next requeue
claims_other = refl

requeue-claim_next_example : ◌≢◌ {A = ℕ} 1 2
requeue-claim_next_example =
    requeue-claim_next 2 300 100 work three (claimed 100 (row 1 pending work 50)) three-IsWellFormed
      (omega arith) claims_other
