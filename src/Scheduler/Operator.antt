-- ===== src/Scheduler/Operator.antt =====
-- About the operator's commands to the scheduler: stop, and the control file's wishes.
use specseed.Prelude.{
  String, ℕ, Bool, true, false, ◌≡◌, ◌∙◌, refl, inl, inr, Option, none, some, List, [], ◌∷◌, arith,
  str_eq, if◌then◌else◌, Bool-cases,
}
use specseed.Cancellation.{Registry, is_cancelled}
use specseed.Cancellation.Signals.{is_cancelled-cancel, is_cancelled-cancel_self}
use specseed.Scheduler.{
  Scheduler, State, running, paused, stopped, state_eq, pause, resume, request_stop, steer, obey,
  process_control, reconcile_control_file, same_desired, cancel_current, work_turn, control_turn,
}

-- what reaches the scheduler from outside
pub data Input : Type 0 where
  command : String → Input
  desired : Option State → Input

unfoldable pub receive : Input → Scheduler → Scheduler
receive (command verb) s = obey verb s
receive (desired d) s = reconcile_control_file d s

unfoldable pub receive_all : List Input → Scheduler → Scheduler
unfolding receive
receive_all [] s = s
receive_all (i ∷ is) s = receive_all is (receive i s)

abbrev pub IsStopped : Scheduler → Type 0
IsStopped s = (s.state ≡ stopped) × (s.stop_set ≡ true)

stay :
    (s t u : Scheduler)
    → s.state ≡ stopped
    → IsStopped u
    → IsStopped (if state_eq s.state stopped then u else t)
stay s t u e k = rw e k

pause-IsStopped : (s : Scheduler) → IsStopped s → IsStopped (pause s)
unfolding pause
pause-IsStopped s k = stay s _ s k.0 k

resume-IsStopped : (s : Scheduler) → IsStopped s → IsStopped (resume s)
unfolding resume
resume-IsStopped s k = stay s _ s k.0 k

request_stop-IsStopped : (s : Scheduler) → IsStopped (request_stop s)
unfolding request_stop
request_stop-IsStopped s = (refl, refl)

steer-IsStopped : (d : State) (s : Scheduler) → IsStopped s → IsStopped (steer d s)
unfolding steer
steer-IsStopped running s k = resume-IsStopped s k
steer-IsStopped paused s k = pause-IsStopped s k
steer-IsStopped stopped s k = request_stop-IsStopped s

either : (b : Bool) (s t : Scheduler) → IsStopped s → IsStopped t → IsStopped (if b then s else t)
either true s t k l = k
either false s t k l = l

receive-IsStopped : (i : Input) (s : Scheduler) → IsStopped s → IsStopped (receive i s)
unfolding receive obey reconcile_control_file
receive-IsStopped (command v) s k = either (str_eq v "pause") _ _ (pause-IsStopped s k) (
    either (str_eq v "start") _ _ (resume-IsStopped s k)
      (either (str_eq v "stop") _ _ (request_stop-IsStopped s) k))
receive-IsStopped (desired none) s k = k
receive-IsStopped (desired (some d)) s k =
    either (same_desired s.last_desired d) s _ k
      (steer-IsStopped d (record s { last_desired = some d }) k)

receive_all-IsStopped :
    (is : List Input) (s : Scheduler) → IsStopped s → IsStopped (receive_all is s)
unfolding receive_all
receive_all-IsStopped [] s k = k
receive_all-IsStopped (i ∷ is) s k =
    receive_all-IsStopped is (receive i s) (receive-IsStopped i s k)

no_turn :
    (mono wall : ℕ) (s : Scheduler)
    → IsStopped s
    → (work_turn mono wall s ≡ (none, s)) × (control_turn wall s ≡ (none, s))
unfolding work_turn control_turn
no_turn mono wall s k = (rw (k.1) refl, rw (k.1) refl)

-- After a stop was requested, whatever commands and wishes follow, the scheduler stays stopped, and
-- neither loop claims a task or changes anything in a turn.
pub request_stop-final :
    (mono wall : ℕ) (is : List Input) (s : Scheduler)
    → IsStopped (receive_all is (request_stop s))
      × (work_turn mono wall (receive_all is (request_stop s))
          ≡ (none, receive_all is (request_stop s)))
      × (control_turn wall (receive_all is (request_stop s))
          ≡ (none, receive_all is (request_stop s)))
request_stop-final mono wall is s =
    let k = receive_all-IsStopped is (request_stop s) (request_stop-IsStopped s) in
    let t = no_turn mono wall (receive_all is (request_stop s)) k in (k, t.0, t.1)

cancel_current-keeps :
    (o : Option ℕ) (key : ℕ) (reg : Registry)
    → is_cancelled key reg ≡ true
    → is_cancelled key (cancel_current o reg) ≡ true
cancel_current-keeps none key reg h = h
cancel_current-keeps (some id) key reg h = is_cancelled-cancel key id reg h

-- A stop tells the task in flight in either lane.
pub request_stop-cancels :
    (s : Scheduler) (id : ℕ)
    → (s.current_task_id ≡ some id → is_cancelled id (request_stop s).registry ≡ true)
      × (s.current_control_task_id ≡ some id → is_cancelled id (request_stop s).registry ≡ true)
unfolding request_stop
request_stop-cancels s id = (
  λ e.
      cancel_current-keeps s.current_control_task_id id
        (cancel_current s.current_task_id s.registry)
        (rw e (is_cancelled-cancel_self id s.registry)),
  λ e. rw e (is_cancelled-cancel_self id (cancel_current s.current_task_id s.registry)),
)

state_eq_refl : (d : State) → state_eq d d ≡ true
state_eq_refl running = refl
state_eq_refl paused = refl
state_eq_refl stopped = refl

steer-last : (d : State) (s : Scheduler) → (steer d s).last_desired ≡ s.last_desired
unfolding steer pause resume request_stop
steer-last running s = ground arith
steer-last paused s = ground arith
steer-last stopped s = refl

same :
    (b : Bool) (s t : Scheduler) (o : Option State)
    → s.last_desired ≡ o
    → t.last_desired ≡ o
    → (if b then s else t).last_desired ≡ o
same true s t o e k = e
same false s t o e k = k

obey-last : (v : String) (s : Scheduler) → (obey v s).last_desired ≡ s.last_desired
unfolding obey steer
obey-last v s =
    let stop = if str_eq v "stop" then request_stop s else s in
    let resumed = if str_eq v "start" then resume s else stop in
    same (str_eq v "pause") (pause s) resumed s.last_desired (steer-last paused s) (
      same (str_eq v "start") (resume s) stop s.last_desired (steer-last running s)
        (same (str_eq v "stop") (request_stop s) s s.last_desired (steer-last stopped s) refl))

process_control-last :
    (vs : List String) (s : Scheduler) → (process_control vs s).last_desired ≡ s.last_desired
unfolding process_control
process_control-last [] s = refl
process_control-last (v ∷ vs) s = process_control-last vs (obey v s) ∙ obey-last v s

-- what was wanted last, after a wish was read
wanted :
    (d : State) (s : Scheduler)
    → same_desired (reconcile_control_file (some d) s).last_desired d ≡ true
unfolding reconcile_control_file
wanted d s = elim (Bool-cases (same_desired s.last_desired d)) [
  | inl e ↦ rw (e, e) refl
  | inr e ↦ rw (e, steer-last d (record s { last_desired = some d })) (state_eq_refl d)
]

again :
    (d : State) (s : Scheduler)
    → same_desired s.last_desired d ≡ true
    → reconcile_control_file (some d) s ≡ s
unfolding reconcile_control_file
again d s e = rw e refl

-- A wish of the control file that was read is not carried out again when it is read once more: the
-- commands of the CONTROL post that came in between stand.
pub reconcile_control_file-once :
    (d : State) (verbs : List String) (s : Scheduler)
    → reconcile_control_file (some d) (process_control verbs (reconcile_control_file (some d) s))
      ≡ process_control verbs (reconcile_control_file (some d) s)
reconcile_control_file-once d verbs s =
    let after = reconcile_control_file (some d) s in
    again d (process_control verbs after) (rw (process_control-last verbs after) (wanted d s))
