-- ===== src/Server/Commands/Reachable.antt =====
-- Every table that the queue's operations lead to is well-formed.
use openscreentime.Common.{ℕ, ◌≤◌, ◌≡◌, true, List, arith, All, keep}
use openscreentime.Common.Text.{Text, codes, text_eq}
use openscreentime.Server.Commands.{
  Command, Queue, coalesces, is_due, handed_over, ids_of, stays, mark_pulled, pull_pending_commands,
  apply_command_ack, cancel, sweep, scrub_commands, scrub_request, update,
}
use openscreentime.Server.Commands.Rows.{update-ids_of}
use openscreentime.Server.Commands.Counts.{open_count}
use openscreentime.Server.Commands.Steps.{
  Step, Reach, enqueued, hidden, pulled, answered_by, cancelled_by, swept, scrubbed_at, spent_by,
  start, later,
}
use openscreentime.Server.Commands.Invariant.{
  Sealed, Inv, update-Inv, keep-Inv, handed_over-Calm, answered-Calm, withdrawn-Calm, scrubbed-Calm,
  spent-Calm,
}
use openscreentime.Server.Commands.Enqueue.{
  enqueue_command_delivered-Inv, enqueue_secret_command-Inv,
}

-- A pull marks the rows that are due.
pub mark_pulled_due :
    (device now : ℕ) (rows : List Command)
    → Inv rows
    → mark_pulled (ids_of (keep (is_due device now) rows)) now rows
      ≡ update (is_due device now) (handed_over now) rows
unfolding mark_pulled
mark_pulled_due device now rows i = update-ids_of (is_due device now) (handed_over now) rows i.keyed

Step-Inv : {q q' : Queue} → Inv q.rows → Step q q' → Inv q'.rows
unfolding pull_pending_commands apply_command_ack cancel sweep scrub_commands scrub_request
Step-Inv {q = q} i (enqueued live id device kind payload now f n) =
    enqueue_command_delivered-Inv live id device kind payload now q f n i
Step-Inv {q = q} i (hidden live id device payload now f) =
    enqueue_secret_command-Inv live id device payload now q f i
Step-Inv {q = q} i (pulled device now) =
    rw (mark_pulled_due device now q.rows i) (update-Inv q.rows (handed_over-Calm device now) i)
Step-Inv {q = q} i (answered_by device id status result now) =
    update-Inv q.rows (answered-Calm device id now (text_eq status (codes "failed")) result) i
Step-Inv {q = q} i (cancelled_by devices id) = update-Inv q.rows (withdrawn-Calm devices id) i
Step-Inv {q = q} i (swept now) = keep-Inv (stays now) q.rows i
Step-Inv {q = q} i (scrubbed_at now) = update-Inv q.rows (scrubbed-Calm now) i
Step-Inv {q = q} i (spent_by request) = update-Inv q.rows (spent-Calm request) i

pub Reach-Inv : {q : Queue} → Reach q → Inv q.rows
Reach-Inv (start locked) = record { keyed = tt; hides = tt; single = λ device kind e. omega arith }
Reach-Inv (later r s) = Step-Inv (Reach-Inv r) s

-- In every queue that the operations, each taken whole, reach from an empty one, a device has at most
-- one open command of each kind that coalesces.
pub Reach-open_count :
    {q : Queue} (device : ℕ) (kind : Text)
    → Reach q
    → coalesces kind ≡ true
    → open_count device kind q.rows ≤ 1
Reach-open_count device kind r e = (Reach-Inv r).single device kind e

-- In every queue that the operations, each taken whole, reach from an empty one, where only secrets are
-- enqueued as sign-in codes, the row of a code is empty unless it is queued.
pub Reach-Sealed : {q : Queue} → Reach q → All Sealed q.rows
Reach-Sealed r = (Reach-Inv r).hides
