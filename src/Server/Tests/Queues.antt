-- ===== src/Server/Tests/Queues.antt =====
-- The command queue: runs on concrete values.
use openscreentime.Common.{◌≤◌, ◌≡◌, refl, false, none, some, List, [], ◌∷◌, map, All, keep}
use openscreentime.Common.Text.{Text, codes}
use openscreentime.Server.Commands.{
  empty, object, Status, sent, acked, Command, Queue, is_code, coalesces, pending_command, insert,
  enqueue_command_delivered, enqueue_secret_command, is_due, ids_of, mark_pulled,
  pull_pending_commands, apply_command_ack,
}
use openscreentime.Server.Commands.Rows.{row_at}
use openscreentime.Server.Commands.Counts.{open_count}
use openscreentime.Server.Commands.Steps.{
  Reach, enqueued, hidden, pulled, answered_by, start, later,
}
use openscreentime.Server.Commands.Invariant.{Sealed}
use openscreentime.Server.Commands.Reachable.{Reach-open_count, Reach-Sealed}
use openscreentime.Server.Commands.Settled.{Kept, Step-Kept}

abbrev lock : Text
lock = codes "lock"

abbrev unlock : Text
unlock = codes "unlock"

abbrev nothing : Queue
nothing = record { rows = []; locked = λ d. false }

-- A lock for device 1, which is offline, and a code for it.
abbrev one_lock : Queue
one_lock = (enqueue_command_delivered false 10 1 lock empty 100 nothing).0

abbrev lock_and_code : Queue
lock_and_code =
    (enqueue_secret_command false 11 1 (codes "login_code") (object (some 7) (codes "123456")) 110
      one_lock).0

abbrev handed : Queue
handed = (pull_pending_commands 1 120 lock_and_code).0

abbrev done : Queue
done = (apply_command_ack 1 10 (codes "acked") none 130 handed).0

-- The second lock coalesces with the first.
abbrev again : Queue
again = (enqueue_command_delivered false 12 1 lock empty 140 lock_and_code).0

one_lock-Reach : Reach one_lock
unfolding is_code
one_lock-Reach = later (start (λ d. false)) (enqueued false 10 1 lock empty 100 refl refl)

lock_and_code-Reach : Reach lock_and_code
unfolding enqueue_command_delivered insert pending_command coalesces
lock_and_code-Reach =
    later one_lock-Reach (hidden false 11 1 (object (some 7) (codes "123456")) 110 refl)

again-Reach : Reach again
unfolding is_code enqueue_command_delivered enqueue_secret_command insert pending_command coalesces
again-Reach = later lock_and_code-Reach (enqueued false 12 1 lock empty 140 refl refl)

handed-Reach : Reach handed
handed-Reach = later lock_and_code-Reach (pulled 1 120)

done-Reach : Reach done
done-Reach = later handed-Reach (answered_by 1 10 (codes "acked") none 130)

Reach-open_count_example : open_count 1 lock again.rows ≤ 1
unfolding coalesces
Reach-open_count_example = Reach-open_count 1 lock again-Reach refl

Reach-Sealed_example : All Sealed handed.rows
Reach-Sealed_example = Reach-Sealed handed-Reach

abbrev answered_lock : Command
answered_lock = record {
  id = 10;
  device = 1;
  kind = lock;
  payload = empty;
  status = acked;
  result = none;
  created_at = 100;
  sent_at = some 120;
  acked_at = some 130;
}

-- A second answer to the same command changes nothing.
Step-Kept_example :
    Kept answered_lock (row_at 10 (apply_command_ack 1 10 (codes "failed") none 300 done).0.rows)
unfolding apply_command_ack pull_pending_commands mark_pulled is_due is_code
    enqueue_command_delivered enqueue_secret_command insert pending_command coalesces
Step-Kept_example =
    Step-Kept 10 answered_lock done-Reach (answered_by 1 10 (codes "failed") none 300) refl refl

-- An answer that lands between the two statements of a pull is written over.
abbrev statuses : List Command → List Status
statuses rows = map (λ c. c.status) rows

overwritten :
    let waiting = (pull_pending_commands 1 120 one_lock).0 in
    let due = keep (is_due 1 300) waiting.rows in
    let answer = (apply_command_ack 1 10 (codes "acked") none 300 waiting).0 in
    statuses (mark_pulled (ids_of due) 300 answer.rows) ≡ sent ∷ []
unfolding apply_command_ack pull_pending_commands mark_pulled is_due is_code
    enqueue_command_delivered insert pending_command coalesces
overwritten = refl

-- A lock, an unlock and a lock: the device is handed the lock first.
abbrev thrice : Queue
thrice =
    (enqueue_command_delivered false 12 1 lock empty 130
      (enqueue_command_delivered false 11 1 unlock empty 120 one_lock).0).0

out_of_order : map (λ c. c.kind) (pull_pending_commands 1 140 thrice).1 ≡ lock ∷ unlock ∷ []
unfolding pull_pending_commands is_due is_code enqueue_command_delivered insert pending_command
    coalesces
out_of_order = refl
