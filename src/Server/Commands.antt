-- ===== src/Server/Commands.antt =====
-- server/src/agent.rs (the command queue), server/src/commands.rs (`cancel` and the janitor) and the two
-- scrubbers of server/src/login_code.rs: the `commands` table as a list of rows. Ids are numbers,
-- moments are seconds. Of a JSON payload the field that the queue reads is kept apart from the rest.
-- Whether a device has a live socket is an argument, as `hub.push` answers it.
pub mod Rows
pub mod Steps
pub mod Counts
pub mod Invariant
pub mod Enqueue
pub mod Reachable
pub mod Settled
use openscreentime.Common.{
  ℕ, ◌+◌, ◌*◌, Bool, true, false, ◌&&◌, ◌||◌, not, Option, none, some, List, [], ◌∷◌, ◌++◌, map,
  ltb, leb, ◌==◌, if◌then◌else◌, any, keep, find_first, contains,
}
use openscreentime.Common.Text.{Text, codes, text_eq}

pub data Payload : Type 0 where
  empty : Payload
  object : Option ℕ → Text → Payload

pub data Status : Type 0 where
  queued sent acked failed cancelled : Status

pub record Command : Type 0 where
  pub id : ℕ
  pub device : ℕ
  pub kind : Text
  pub payload : Payload
  pub status : Status
  pub result : Option Text
  pub created_at : ℕ
  pub sent_at : Option ℕ
  pub acked_at : Option ℕ

pub record Queue : Type 0 where
  pub rows : List Command
  pub locked : ℕ → Bool

abbrev coalesce_types : List Text
coalesce_types =
    codes "lock" ∷ codes "unlock" ∷ codes "apply_policy" ∷ codes "set_tamper_level" ∷ []

abbrev redelivery_grace_secs : ℕ
redelivery_grace_secs = 90

abbrev code_secs : ℕ
code_secs = 5 * 60

unfoldable pub coalesces : Text → Bool
coalesces kind = any (text_eq kind) coalesce_types

unfoldable pub is_code : Text → Bool
is_code kind = text_eq kind (codes "login_code")

abbrev pub is_queued : Status → Bool
is_queued queued = true
is_queued _ = false

abbrev pub is_sent : Status → Bool
is_sent sent = true
is_sent _ = false

-- `status IN ('queued','sent')`.
abbrev pub is_open : Status → Bool
is_open s = is_queued s || is_sent s

abbrev pub is_empty_payload : Payload → Bool
is_empty_payload empty = true
is_empty_payload (object request_id rest) = false

-- `UPDATE commands SET .. WHERE ..`.
abbrev pub update : (Command → Bool) → (Command → Command) → List Command → List Command
update test change [] = []
update test change (c ∷ rows) = (if test c then change c else c) ∷ update test change rows

abbrev pub open_of : ℕ → Text → Command → Bool
open_of device kind c = (c.device == device) && (text_eq c.kind kind && is_open c.status)

-- `pending_command`.
abbrev id_of : Option Command → Option ℕ
id_of none = none
id_of (some c) = some c.id

unfoldable pub pending_command : ℕ → Text → List Command → Option ℕ
pending_command device kind rows = id_of (find_first (open_of device kind) rows)

abbrev pub fresh_row : ℕ → ℕ → Text → Payload → ℕ → Command
fresh_row id device kind payload now = record {
  id = id;
  device = device;
  kind = kind;
  payload = payload;
  status = queued;
  result = none;
  created_at = now;
  sent_at = none;
  acked_at = none;
}

-- The insertion of a command, and the id of its row: a kind that coalesces refreshes the row of it that
-- is open.
abbrev pub refresh_or : ℕ → ℕ → Text → Payload → ℕ → List Command → Option ℕ → List Command × ℕ
refresh_or id device kind payload now rows none =
    (rows ++ fresh_row id device kind payload now ∷ [], id)
refresh_or id device kind payload now rows (some old) =
    (update (λ c. c.id == old) (λ c. record c { payload = payload }) rows, old)

unfoldable pub insert : ℕ → ℕ → Text → Payload → ℕ → List Command → List Command × ℕ
insert id device kind payload now rows =
    refresh_or id device kind payload now rows
      (if coalesces kind then pending_command device kind rows else none)

abbrev pub to_sent : ℕ → Command → Command
to_sent now c = record c { status = sent; sent_at = some now }

-- A command that was pushed to a live agent, unless it is no longer queued.
unfoldable pub mark_sent : ℕ → ℕ → List Command → List Command
mark_sent id now rows = update (λ c. (c.id == id) && is_queued c.status) (to_sent now) rows

-- `enqueue_command_delivered`: the queue, the id and whether it was delivered.
unfoldable pub enqueue_command_delivered :
    Bool → ℕ → ℕ → Text → Payload → ℕ → Queue → Queue × (ℕ × Bool)
enqueue_command_delivered live id device kind payload now q =
    let p = insert id device kind payload now q.rows in
    (
      (if live then record q { rows = mark_sent p.1 now p.0 } else record q { rows = p.0 }),
      (p.1, live),
    )

-- `enqueue_secret_command`: only the row of a polling agent holds the payload.
unfoldable pub enqueue_secret_command :
    Bool → ℕ → ℕ → Text → Payload → ℕ → Queue → Queue × (ℕ × Bool)
enqueue_secret_command live id device kind payload now q =
    let rows = q.rows ++ fresh_row id device kind empty now ∷ [] in
    (
      (if live then record q { rows = mark_sent id now rows } else record q {
        rows =
            update (λ c. (c.id == id) && is_queued c.status) (λ c. record c { payload = payload })
              rows;
      }),
      (id, live),
    )

abbrev before : Option ℕ → ℕ → ℕ → Bool
before none secs now = false
before (some t) secs now = ltb (t + secs) now

-- What a pull hands over.
unfoldable pub is_due : ℕ → ℕ → Command → Bool
is_due device now c =
    (c.device == device)
    && ((is_queued c.status
          || (is_sent c.status
              && (not (is_code c.kind) && before c.sent_at redelivery_grace_secs now)))
        && not (is_code c.kind && ltb (c.created_at + code_secs) now))

abbrev pub ids_of : List Command → List ℕ
ids_of rows = map (λ c. c.id) rows

abbrev pub handed_over : ℕ → Command → Command
handed_over now c = record c {
  status = sent;
  sent_at = some now;
  payload = if is_code c.kind then empty else c.payload;
}

-- The second statement of a pull.
unfoldable pub mark_pulled : List ℕ → ℕ → List Command → List Command
mark_pulled ids now rows = update (λ c. contains ids c.id) (handed_over now) rows

-- `pull_pending_commands`; the table keeps the order of creation.
unfoldable pub pull_pending_commands : ℕ → ℕ → Queue → Queue × List Command
pull_pending_commands device now q =
    let due = keep (is_due device now) q.rows in
    (record q { rows = mark_pulled (ids_of due) now q.rows }, due)

abbrev pub answered : Bool → Option Text → ℕ → Command → Command
answered did_fail result now c = record c {
  status = if did_fail then failed else acked;
  result = result;
  acked_at = some now;
  payload = if is_code c.kind then empty else c.payload;
}

-- What an ack of a command does to the lock state of the device.
abbrev lock_of : Option Command → Bool → ℕ → (ℕ → Bool) → (ℕ → Bool)
lock_of none did_fail device locked = locked
lock_of (some c) did_fail device locked =
    if did_fail
    then locked
    else if text_eq c.kind (codes "lock")
    then (λ d. if d == device then true else locked d)
    else if text_eq c.kind (codes "unlock")
    then (λ d. if d == device then false else locked d)
    else locked

abbrev pub can_ack : ℕ → ℕ → Command → Bool
can_ack device id c = (c.id == id) && ((c.device == device) && is_open c.status)

abbrev is_found : Option Command → Bool
is_found none = false
is_found (some c) = true

-- `apply_command_ack`: whether an open command was answered.
unfoldable pub apply_command_ack : ℕ → ℕ → Text → Option Text → ℕ → Queue → Queue × Bool
apply_command_ack device id status result now q =
    let did_fail = text_eq status (codes "failed") in
    let row = find_first (can_ack device id) q.rows in
    (
      record {
        rows = update (can_ack device id) (answered did_fail result now) q.rows;
        locked = lock_of row did_fail device q.locked;
      },
      is_found row,
    )

abbrev pub withdrawn : Command → Command
withdrawn c = record c { status = cancelled }

abbrev pub can_cancel : List ℕ → ℕ → Command → Bool
can_cancel devices id c =
    (c.id == id) && (is_open c.status && (not (is_code c.kind) && contains devices c.device))

-- `cancel`, by an admin of a household that has these devices.
unfoldable pub cancel : List ℕ → ℕ → Queue → Queue × Option Command
cancel devices id q = (
  record q { rows = update (can_cancel devices id) withdrawn q.rows },
  find_first (can_cancel devices id) q.rows,
)

-- Open, or not thirty days old.
abbrev pub stays : ℕ → Command → Bool
stays now c = is_open c.status || not (ltb (c.created_at + 30 * 24 * 3600) now)

-- One pass of the janitor.
unfoldable pub sweep : ℕ → Queue → Queue
sweep now q = record q { rows = keep (stays now) q.rows }

abbrev stale_sent : ℕ → Command → Bool
stale_sent now c = is_sent c.status && ltb (c.created_at + 3600) now

abbrev pub scrubbed : ℕ → Command → Command
scrubbed now c = record c {
  payload = empty;
  status = if is_queued c.status || stale_sent now c then cancelled else c.status;
}

-- A code that is past its minutes, and is not scrubbed yet.
unfoldable pub is_old_code : ℕ → Command → Bool
is_old_code now c =
    is_code c.kind
    && (ltb (c.created_at + code_secs) now
        && (not (is_empty_payload c.payload) || (is_queued c.status || stale_sent now c)))

-- `scrub_commands`.
unfoldable pub scrub_commands : ℕ → Queue → Queue
scrub_commands now q = record q { rows = update (is_old_code now) (scrubbed now) q.rows }

abbrev pub asks_for : ℕ → Payload → Bool
asks_for request empty = false
asks_for request (object none rest) = false
asks_for request (object (some id) rest) = id == request

abbrev pub spent : Command → Command
spent c = record c { payload = empty; status = if is_queued c.status then cancelled else c.status }

-- `scrub_request`.
unfoldable pub scrub_request : ℕ → Queue → Queue
scrub_request request q = record q {
  rows = update (λ c. is_code c.kind && asks_for request c.payload) spent q.rows;
}
