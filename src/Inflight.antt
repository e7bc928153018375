-- ===== src/Inflight.antt =====
-- executing/inflight.py: the ledger of the child processes that task runs own, and the startup
-- reclaim. The ledger is what inflight.json holds; what the system knows of processes is an argument
-- (`Processes`), and a kill changes it. The times in the ledger and the log are left out, as is a
-- file that cannot be written.
pub mod Order
pub mod Reclaim
mod Examples
use Prim.Native.Char.{code}
use Prim.Native.String.{[], ◌∷◌}
use specseed.Prelude.{
  ℕ, suc, String, Bool, true, false, ◌&&◌, ◌||◌, not, Option, none, some, List, ◌++◌, str_eq, ltb,
  ◌==◌, if◌then◌else◌, length,
}
use specseed.Prelude.Text.{casefold, starts_with, has_part, words, strip}
use specseed.Queue
use specseed.Queue.{Db}

pub record Child : Type 0 where
  pub task_id : String
  pub pid : ℕ
  pub binary : String

abbrev pub Ledger : Type 0
Ledger = List Child

-- `data[str(task_id)] = …`: a key that is there keeps its place
unfoldable pub put : Child → Ledger → Ledger
unfolding str_eq
put c List.[] = List.◌∷◌ c List.[]
put c (List.◌∷◌ d ds) =
    let rest = put c ds in if str_eq d.task_id c.task_id then List.◌∷◌ c ds else List.◌∷◌ d rest

-- `record`; without a storage there is no ledger
unfoldable pub record_child : Child → Option Ledger → Option Ledger
unfolding put
record_child c none = none
record_child c (some ledger) = some (put c ledger)

unfoldable pub pop : (task_id : String) → Ledger → Ledger
unfolding str_eq
pop id List.[] = List.[]
pop id (List.◌∷◌ d ds) = let rest = pop id ds in if str_eq d.task_id id then ds else List.◌∷◌ d rest

-- `clear`
unfoldable pub clear : (task_id : String) → Option Ledger → Option Ledger
unfolding pop
clear id none = none
clear id (some ledger) = some (pop id ledger)

-- `ps` and the signals; `stubborn` processes outlive both signals, or may not be signalled
pub record Processes : Type 0 where
  pub alive : ℕ → Bool
  pub command_of : ℕ → Option String
  pub stubborn : ℕ → Bool

-- `_kill`: the answer of the code is whether the process is gone
unfoldable pub kill : ℕ → Processes → Processes
kill pid ps = record ps {
  alive = λ q. if q == pid then ps.alive q && ps.stubborn q else ps.alive q;
}

abbrev last_piece : String → List String → String
last_piece s List.[] = s
last_piece s (List.◌∷◌ t ts) = last_piece t ts

-- os.path.basename
unfoldable pub basename : String → String
unfolding words
basename path = last_piece "" (words (λ c. code c == 47) path)

abbrev or_empty : Option String → String
or_empty none = ""
or_empty (some s) = s

-- is the process another one than the child that was noted
unfoldable pub is_recycled : (binary : String) → (command : Option String) → Bool
unfolding casefold basename has_part starts_with str_eq
is_recycled binary command =
    let base = casefold (basename binary) in
    let command = casefold (or_empty command) in
    not (str_eq base "")
    && not (has_part base command)
    && not (starts_with "python" base && has_part "python" command)

-- the order of Python's texts
unfoldable pub text_leb : String → String → Bool
text_leb [] t = true
text_leb (c ∷ s) [] = false
text_leb (c ∷ s) (d ∷ t) =
    let rest = text_leb s t in if code c == code d then rest else ltb (code c) (code d)

unfoldable pub insert : Child → Ledger → Ledger
unfolding text_leb
insert c List.[] = List.◌∷◌ c List.[]
insert c (List.◌∷◌ d ds) =
    let rest = insert c ds in
    if text_leb c.task_id d.task_id then List.◌∷◌ c (List.◌∷◌ d ds) else List.◌∷◌ d rest

-- sorted(data.items()): the keys differ
unfoldable pub sorted : Ledger → Ledger
unfolding insert
sorted List.[] = List.[]
sorted (List.◌∷◌ c cs) = insert c (sorted cs)

pub record Summary : Type 0 where
  pub killed : ℕ
  pub stale : ℕ
  pub requeued : ℕ

-- the state of the loop, with the processes that it signalled, the last one first
pub record Sweep : Type 0 where
  pub killed : ℕ
  pub stale : ℕ
  pub processes : Processes
  pub signalled : List ℕ

unfoldable pub sweep_child : Child → Sweep → Sweep
unfolding is_recycled kill
sweep_child c s =
    if (c.pid == 0) || not (s.processes.alive c.pid)
    then record s { stale = suc s.stale }
    else if is_recycled c.binary (s.processes.command_of c.pid)
    then record s { stale = suc s.stale }
    else record s {
      killed = suc s.killed;
      processes = kill c.pid s.processes;
      signalled = List.◌∷◌ c.pid s.signalled;
    }

unfoldable pub sweep : Ledger → Sweep → Sweep
unfolding sweep_child
sweep List.[] s = s
sweep (List.◌∷◌ c cs) s = sweep cs (sweep_child c s)

-- what `reclaim` leaves: the ledger, the processes, the queue
pub record Reclaimed : Type 0 where
  pub summary : Summary
  pub ledger : Ledger
  pub processes : Processes
  pub signalled : List ℕ
  pub db : Db

-- `reclaim`
unfoldable pub reclaim : Ledger → Processes → Db → Reclaimed
unfolding sorted sweep Queue.reset_in_progress
reclaim ledger ps db =
    let s =
      sweep (sorted ledger)
        (record { killed = 0; stale = 0; processes = ps; signalled = List.[] }) in
    let (ids, db') = Queue.reset_in_progress db in
    record {
      summary = record { killed = s.killed; stale = s.stale; requeued = length ids };
      ledger = List.[];
      processes = s.processes;
      signalled = s.signalled;
      db = db';
    }
