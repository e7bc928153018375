-- ===== src/Advance/Examples.antt =====
-- The theorems on the lifecycle of work items at one issue of a small tracker.
use specseed.Prelude.{
  ℕ, String, ◌≡◌, ◌≢◌, ◌↔◌, refl, inl, inr, true, false, Option, none, some, ap, List, [], ◌∷◌,
  str_eq, arith,
}
use specseed.Prelude.Text.{casefold}
use specseed.Config.{Config}
use specseed.Entities.{Entity, Comment, issue, or_else, status, tier, is_work_tier}
use specseed.Approval.{approval_ids_from_body, is_approver, commands}
use specseed.Tracker
use specseed.Tracker.{Store, EntryRow, entry_row}
use specseed.Tracker.Labels.{Stored, Labelled}
use specseed.Advance.Writes.{Ctx, World, set_status, remote_status, is_stale}
use specseed.Advance.Settle.{issue_has_branch}
use specseed.Advance.Resolve.{is_comment_action}
use specseed.Advance.Signals.{override_command, is_human}
use specseed.Advance.Work.{Run, apply_post_work_transition}
use specseed.Advance.Cancelled.{block_on_cancelled_dep}
use specseed.Advance.Unblock.{resolve_blocked}
use specseed.Advance.RollUp.{Node, ready_parent, find_node, link, roll_up_from}
use specseed.Advance.Parents.{Ready, ready_parent-Ready, roll_up_from-enough}
use specseed.Advance.Standing.{Standing, Merging}
use specseed.Advance.Lifted.{Reached, resolve_blocked_lem}
use specseed.Advance.Status.{set_status_lem, Current}
use specseed.Advance.Events.{Event, worked, cancelled, happen, happen_all, happen_all-done}
use specseed.Advance.Outcome.{run_status, apply_post_work_transition_lem}

abbrev config : Config
config = record {
  platform_username = some "bot";
  approvals = none;
  approver_usernames = "ann" ∷ [];
  permission_approvers = [];
  bot_usernames = [];
  bot_username = [];
  allow_any_approver = none;
  recovery_enabled = none;
  max_retries = none;
}

abbrev ctx : Ctx
ctx = record {
  config = config;
  primary_branch = "main";
  can_write = true;
  merge_gated = true;
  confidence_threshold = 95;
  max_attempts = 2;
  now = "t1";
}

abbrev row : ℕ → EntryRow
row id = record {
  id = id;
  title = "work";
  body = none;
  is_open = true;
  author = some "ann";
  assignees = [];
  created_at = "t0";
  updated_at = "t0";
}

abbrev store : Store
store = record {
  author = "bot";
  entries = row 7 ∷ row 9 ∷ [];
  labels = [];
  entry_labels = (7, "issue:status:in_review") ∷ (9, "issue:status:done") ∷ [];
  pinned = [];
  comments = [];
  comment_reactions = [];
  entry_reactions = [];
  next_entry = 10;
  next_comment = 1;
  next_reaction = 1;
}

abbrev world : World
world = record { remote = store; apr_counter = 0 }

abbrev item : Entity
item = record {
  cls = issue;
  post_id = "7";
  title = some "work";
  labels = "issue:status:in_review" ∷ [];
  parent_id = none;
  depends_on = [];
  pending_approval_ids = [];
  reactions = [];
  comments = [];
}

abbrev review : Run
review = record {
  intent = "review";
  review_required = true;
  hitl_required = false;
  report = record {
    status = "";
    summary = "fine";
    answer = "";
    verdict = "approve";
    confidence = 80;
    recommend_spec_change = false;
  };
  scraped = record { verdict = "changes"; confidence = 0; summary = "" };
  conversation = [];
}

item-Stored : Stored "7" 7 store
unfolding entry_row str_eq
item-Stored = (row 7, refl, refl)

item-Current : Current item 7 world
item-Current m (inl e) n = inl (cc)
item-Current m (inr (inl e)) n = absurd (omega (arith, ap (λ (p : ℕ × String). p.0) e))
item-Current m (inr (inr i)) n = elim i [ ]

has_branch : issue_has_branch item ≡ true
unfolding issue_has_branch str_eq
has_branch = refl

fresh : is_stale item world ≡ false
unfolding is_stale remote_status entry_row str_eq
fresh = refl

-- a review that is not sure enough parks the issue for a person
parked :
    remote_status "7" (apply_post_work_transition ctx item review world).0
    ≡ some "awaiting_approval"
unfolding apply_post_work_transition remote_status set_status entry_row str_eq
    Tracker.add_entry_comment Tracker.add_entry_label Tracker.remove_entry_label
parked = refl

apply_post_work_transition_example :
    remote_status "7" (apply_post_work_transition ctx item review world).0
    ≡ or_else (run_status ctx review) (remote_status "7" world)
apply_post_work_transition_example =
    apply_post_work_transition_lem ctx item review world 7 has_branch refl fresh item-Stored
      item-Current

work_tier : is_work_tier "issue" ≡ true
unfolding is_work_tier str_eq
work_tier = refl

tier_known : tier item ≡ some "issue"
unfolding tier
tier_known = refl

set_status_example :
    (remote_status "7" (set_status ctx item "done" world) ≡ some "done")
    × ((j : ℕ) (m : String)
        → j ≢ 7
        → Labelled j m (set_status ctx item "done" world).remote ↔ Labelled j m store)
set_status_example =
    set_status_lem ctx item "done" "issue" world 7 item-Stored tier_known work_tier item-Current

abbrev events : List (Entity × Event)
events = (item, worked review) ∷ (item, cancelled (("9", "done") ∷ [])) ∷ []

still_done : Labelled 9 "issue:status:done" (happen_all ctx events world).remote
unfolding happen_all happen apply_post_work_transition remote_status set_status entry_row str_eq
    Tracker.add_entry_comment Tracker.add_entry_label Tracker.remove_entry_label Tracker.add_entry
    block_on_cancelled_dep
still_done = inl refl

happen_all_example : Labelled 9 "issue:status:done" store
happen_all_example = happen_all-done ctx events world 9 (has_branch, (has_branch, tt)) still_done

abbrev says : String → String → Comment
says author body = record { id = "1"; author = some author; body = some body; reactions = [] }

abbrev held : Entity
held = record item { labels = "issue:status:blocked" ∷ [] }

abbrev blocked_world : World
blocked_world = record {
  remote = record store { entry_labels = (7, "issue:status:blocked") ∷ [] };
  apr_counter = 0;
}

held_has_branch : issue_has_branch held ≡ true
unfolding issue_has_branch str_eq
held_has_branch = refl

-- eve may not approve anything here
stranger : is_approver config "eve" ≡ false
unfolding is_approver str_eq
stranger = refl

-- eve's command stands, since ann once gave one
abbrev eve_after_ann : List Comment
eve_after_ann = says "ann" "approve 7" ∷ says "eve" "approve 7" ∷ []

resolve_blocked_example :
    (((resolve_blocked ctx held eve_after_ann "handle_comment_added" blocked_world).1.prepare
        ≡ true)
      ↔ (Reached ctx held eve_after_ann "handle_comment_added" blocked_world
          × Standing ctx held eve_after_ann))
    × (((resolve_blocked ctx held eve_after_ann "handle_comment_added" blocked_world).1.merge
          ≡ true)
        ↔ (Reached ctx held eve_after_ann "handle_comment_added" blocked_world
            × Merging ctx held eve_after_ann))
resolve_blocked_example =
    resolve_blocked_lem ctx held eve_after_ann "handle_comment_added" blocked_world held_has_branch

eve_commands : Standing ctx held eve_after_ann
unfolding is_human override_command commands approval_ids_from_body casefold str_eq
eve_commands = (
  says "eve" "approve 7",
  (says "ann" "approve 7" ∷ [], [], refl, refl, tt),
  (says "ann" "approve 7", inl refl, refl),
)

eve_reaches : Reached ctx held eve_after_ann "handle_comment_added" blocked_world
unfolding is_comment_action is_stale remote_status entry_row status str_eq
eve_reaches = record { is_blocked = refl; by_comment = refl; writes = refl; current = refl }

-- and so the block is lifted
lifted :
    (resolve_blocked ctx held eve_after_ann "handle_comment_added" blocked_world).1.prepare ≡ true
unfolding resolve_blocked is_stale remote_status entry_row str_eq
lifted = refl

abbrev node : String → String → String → Option String → Node
node id tier status ticket = record {
  id = id;
  status = some status;
  tier = tier;
  is_open = true;
  labels = [];
  ticket = ticket;
  epic = none;
}

abbrev nodes : List Node
nodes =
    node "1" "ticket" "in_progress" none
    ∷ node "2" "issue" "done" (some "1")
    ∷ node "3" "issue" "wont_do" (some "1")
    ∷ []

abbrev finished_two : List Node
finished_two = node "2" "issue" "done" (some "1") ∷ node "3" "issue" "wont_do" (some "1") ∷ []

ticket_ready :
    ready_parent "3" "issue" "ticket" nodes
    ≡ some (node "1" "ticket" "in_progress" none, finished_two)
unfolding ready_parent str_eq
ticket_ready = refl

ready_parent_example :
    Ready "issue" "ticket" nodes (node "1" "ticket" "in_progress" none) finished_two
    × ((child : Node) × (find_node "3" nodes ≡ some child) × (link "ticket" child ≡ some "1"))
ready_parent_example =
    ready_parent-Ready "3" "issue" "ticket" nodes (node "1" "ticket" "in_progress" none)
      finished_two ticket_ready

roll_up_from_example :
    roll_up_from 8 ctx "3" (some "issue") nodes world
    ≡ roll_up_from 3 ctx "3" (some "issue") nodes world
roll_up_from_example = roll_up_from-enough 5 ctx "3" (some "issue") nodes world
