-- ===== src/Server/Commands/Steps.antt =====
-- The queue as a state machine: a step is one statement or call, by the server, an agent or an admin.
use openscreentime.Common.{ℕ, ◌≡◌, Bool, false, Option, List, [], any}
use openscreentime.Common.Text.{Text, codes}
use openscreentime.Server.Commands.{
  Payload, Queue, is_code, enqueue_command_delivered, enqueue_secret_command, pull_pending_commands,
  apply_command_ack, cancel, sweep, scrub_commands, scrub_request,
}
use openscreentime.Server.Commands.Rows.{has_id}

-- An id of an insertion is fresh, and only a secret is enqueued as a sign-in code.
pub data Step (q : Queue) : Queue → Type 0 where
  enqueued :
      (live : Bool) (id device : ℕ) (kind : Text) (payload : Payload) (now : ℕ)
      → any (has_id id) q.rows ≡ false
      → is_code kind ≡ false
      → Step q (enqueue_command_delivered live id device kind payload now q).0
  hidden :
      (live : Bool) (id device : ℕ) (payload : Payload) (now : ℕ)
      → any (has_id id) q.rows ≡ false
      → Step q (enqueue_secret_command live id device (codes "login_code") payload now q).0
  pulled : (device now : ℕ) → Step q (pull_pending_commands device now q).0
  answered_by :
      (device id : ℕ) (status : Text) (result : Option Text) (now : ℕ)
      → Step q (apply_command_ack device id status result now q).0
  cancelled_by : (devices : List ℕ) (id : ℕ) → Step q (cancel devices id q).0
  swept : (now : ℕ) → Step q (sweep now q)
  scrubbed_at : (now : ℕ) → Step q (scrub_commands now q)
  spent_by : (request : ℕ) → Step q (scrub_request request q)

-- The queues that come of an empty table.
pub data Reach : Queue → Type 0 where
  start : (locked : ℕ → Bool) → Reach (record { rows = []; locked = locked })
  later : {q q' : Queue} → Reach q → Step q q' → Reach q'
