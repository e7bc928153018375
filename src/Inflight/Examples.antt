-- ===== src/Inflight/Examples.antt =====
-- executing/inflight.py on a ledger of three children.
use specseed.Prelude.{true, false, none, some, [], ◌∷◌, ◌≡◌, refl, not, str_eq, ◌==◌, if◌then◌else◌}
use specseed.Prelude.Text.{
  casefold, starts_with, has_part, strip_prefix, cut_at, lower, words, push_char,
}
use specseed.Queue.{Db, in_progress, work}
use specseed.Inflight.{
  Ledger, Processes, is_recycled, basename, put, record_child, pop, clear, sorted, insert, text_leb,
  sweep, sweep_child, reclaim, kill,
}
use specseed.Inflight.Reclaim.{Reclaims, reclaim-Reclaims}

-- another program has the pid now, and the name stands in its arguments
edits_notes : is_recycled "/usr/bin/claude" (some "vim notes-on-claude.md") ≡ false
unfolding is_recycled basename casefold starts_with has_part str_eq strip_prefix cut_at lower words
    push_char
edits_notes = refl

other_program : is_recycled "/usr/bin/claude" (some "vim notes.md") ≡ true
unfolding is_recycled basename casefold starts_with has_part str_eq strip_prefix cut_at lower words
    push_char
other_program = refl

abbrev ledger : Ledger
ledger =
    record { task_id = "9"; pid = 70; binary = "claude" }
    ∷ record { task_id = "12"; pid = 71; binary = "codex" }
    ∷ record { task_id = "3"; pid = 72; binary = "codex" }
    ∷ []

abbrev processes : Processes
processes = record {
  alive = λ q. not (q == 71);
  command_of = λ q. if q == 72 then some "codex exec" else some "node /usr/bin/claude -p";
  stubborn = λ q. false;
}

abbrev queue : Db
queue = record {
  tasks =
      record {
        task_id = 3;
        action = "implement";
        post_id = some "8";
        payload = [];
        status = in_progress;
        attempts = 1;
        created_at = 10;
        last_attempted_at = some 20;
        not_before = none;
        lane = work;
        priority = 50;
      }
      ∷ [];
  seq = 3;
  errors = [];
  error_seq = 0;
}

both_signalled : (reclaim ledger processes queue).signalled ≡ 70 ∷ 72 ∷ []
unfolding reclaim sorted insert text_leb sweep sweep_child kill is_recycled basename casefold
    starts_with has_part str_eq strip_prefix cut_at lower words push_char
both_signalled = refl

replaced :
    clear "9" (record_child (record { task_id = "9"; pid = 80; binary = "codex" }) (some ledger))
    ≡ clear "9" (some ledger)
unfolding record_child clear put pop str_eq
replaced = refl

reclaim-Reclaims_example : Reclaims ledger processes queue (reclaim ledger processes queue)
reclaim-Reclaims_example = reclaim-Reclaims ledger processes queue
