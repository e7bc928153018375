-- ===== src/Lib.antt =====
-- Verification of specseed's runtime (src/specseed_runtime): a platform that mirrors a remote
-- tracker, turns its changes into tasks on a local queue, and runs the tasks in two lanes.
--
-- How the parts interact. A sync (scheduling/sync_to_db.py) takes the changes that the mirror
-- reports, builds typed tasks (tasks/) and puts them on the queue (db/database.py); a closed entry
-- tears its rows down through the cancellation registry (executing/cancellation.py). The scheduler
-- (executing/scheduler.py) claims rows for its control and its work loop, and when a task is done
-- completes or requeues it and calls the recovery (executing/recovery.py). What a work item may do
-- next is decided by the state machine and by the approvals (state_machines/) over entities
-- (entities/), with the platform's own comments told apart (platform_identity.py). Before a runner
-- starts, the storage is migrated (migrating/migrate.py).
--
-- The files, with the code that each is about (paths below src/specseed_runtime):
--   Prelude, Prelude/*: tests on numbers and texts, lists, and Python's text methods on ASCII text
--   Payload: the JSON values of a task (entities/entity_base.py, tasks/)
--   Config: the keys of the configuration that the modelled code reads
--   Queue, Queue/Tables: db/database.py; the record Db is the two tables, one function for each
--     method
--   StateMachine: state_machines/base.py, _transitions_for and _dedupe
--   Approval: state_machines/base.py, from approval_ids_from_body to merge_approved_by
--   Token: state_machines/approvals.py
--   Entities: entities/*.py, and entity_ref_for_label of tasks/task_base.py
--   Identity: platform_identity.py
--   Cancellation: executing/cancellation.py; Events are references, as threads share them
--   Tasks: tasks/*.py
--   Sync, Sync/Build: scheduling/sync_to_db.py; World is the state of the loop over the changes
--   Recovery, Recovery/Tracker: executing/recovery.py; Remote holds the answers of the tracker,
--     Call is what is asked of it
--   Migrate: migrating/migrate.py; Storage is the two marker files and the hops that ran
--   Scheduler: executing/scheduler.py; one function for each method that changes the state
--   Control: executing/control.py; the cursor is the state of the channel
--   Permissions: executing/permissions.py; Permissions/Required: the gates of
--     state_machines/base.py that ask it
--   Dependencies: executing/dispatch.py, the dependency gate before an issue is implemented
--   Entities/Links: executing/relationships.py, the links between posts in their bodies
--   Tracker, Tracker/Tables, Tracker/Read: tracking/tracking_local.py, the entries, labels, pins,
--     comments and reactions of a local tracker; Store is its tables
--   Advance/*: executing/advance.py over a local tracker, with next_apr_id of
--     executing/approvals.py; World is the tracker and the counter of the tokens. Wording holds the
--     texts, Writes the writes, RollUp the parents, Settle the ends and the gates that are opened,
--     Cancelled the cancelled dependencies, Signals and Resolve the gates that are answered, Work
--     what follows a run of an agent, Unblock the way over a block
--   Runners, Runners/Specs: executing/agent_runner.py, the runners and their chains; Runners/Match,
--     Runners/Quota: executing/quota.py
--   Inflight: executing/inflight.py; Processes is what the system knows of processes
--   Dispatch: executing/dispatch.py, the intents and the jobs of the work lane; Dispatch/Work:
--     _run_work, the way of an event through all gates
--
-- How the later parts meet. An event on the queue goes through Dispatch/Work, which asks the state
-- machine, the approvals and the dependency gate, lets Advance write on the tracker, and puts a job
-- on the queue (Queue). The job's agent is run by a chain of Runners; a limit of the provider that
-- the chain reports opens the circuit of the Scheduler. What a run leaves on the tracker is again
-- Advance. A runner that starts after a crash first reclaims by Inflight.
--
-- State is passed explicitly: a method of a class is a function of the state before it, with the
-- clocks as arguments. Times are seconds in the natural numbers. An error is a constructor of the
-- result (Enqueued, Result, Built, Raises, the Answer of a tracker), a call of the tracker that may
-- raise is a Reply. Each method of the queue is one transaction, so interleavings of threads are
-- sequences of operations; the theorems that speak of any operations in between quantify over such
-- sequences. Confidence is in hundredths.
--
-- Bounds and fuel. The loops of the model recur on the list or the text that they go through, so no
-- fuel is needed, but for the digits of a number, whose fuel is the number and one, and for the climb
-- of the roll-up, whose fuel is three, as there are three tiers. Numbers are unbounded, as Python's
-- are, but for the instants that datetime can hold. Priorities, attempts, retry limits and pids are
-- taken to be natural numbers.
--
-- Not modelled: SQL, files, threads and processes as such; texts beyond ASCII; what migration hops
-- do to files; the wording of the posts of the recovery and of the details in the log; the GitHub and
-- GitLab trackers, and pull requests; the sync of the mirror from a remote tracker; the resolution of
-- spec-change requests and the reading of a review out of plain output, which are arguments; git and
-- the merge of branches. What a command line of an agent does, what the system says of processes and
-- what a remote tracker answers are inputs.
pub mod Prelude
pub mod Payload
pub mod Queue
pub mod StateMachine
pub mod Entities
pub mod Config
pub mod Identity
pub mod Token
pub mod Tracker
pub mod Advance
pub mod Approval
pub mod Cancellation
pub mod Tasks
pub mod Sync
pub mod Recovery
pub mod Migrate
pub mod Scheduler
pub mod Control
pub mod Permissions
pub mod Dependencies
pub mod Runners
pub mod Inflight
pub mod Dispatch
