-- ===== src/Server/LoginCode.antt =====
-- server/src/login_code.rs: sign-in codes, from `issue` to `check`. The table is a list of rows and
-- every statement succeeds; moments are seconds, and the clocks of the server and of its database are
-- one. The hash that is stored for a code, the code and the ids that are drawn are arguments.
pub mod Opens
pub mod Decoys
pub mod Asks
use openscreentime.Common.{
  ℕ, ◌+◌, ◌*◌, Bool, true, false, ◌&&◌, ◌||◌, not, Option, none, some, List, [], ◌∷◌, ◌++◌, ltb,
  leb, ◌==◌, if◌then◌else◌, any, keep, find_first, length, is_some,
}
use openscreentime.Common.Text.{Text, codes, text_eq}
use openscreentime.Server.Commands.{
  Queue, Payload, object, scrub_commands, scrub_request, enqueue_secret_command,
}

abbrev pub code_minutes : ℕ
code_minutes = 5

abbrev pub max_attempts : ℕ
max_attempts = 5

abbrev pub max_recent_per_account : ℕ
max_recent_per_account = 5

abbrev pub wrong_per_hour : ℕ
wrong_per_hour = 10

-- A row of `login_codes`; neither a household nor a person makes a decoy.
pub record CodeRow : Type 0 where
  pub id : ℕ
  pub tenant : Option ℕ
  pub account : Option ℕ
  pub purpose : Text
  pub challenge : Option Text
  pub session : Option ℕ
  pub code_hash : Text
  pub attempts : ℕ
  pub used_at : Option ℕ
  pub created_at : ℕ
  pub expires_at : ℕ

-- The event that a person's codes are guessed at.
pub record Warning : Type 0 where
  pub tenant : ℕ
  pub account : ℕ
  pub created_at : ℕ

pub record Store : Type 0 where
  pub rows : List CodeRow
  pub warnings : List Warning
  pub queue : Queue

pub data Refusal : Type 0 where
  wrong_code start_again : Refusal

pub data Purpose : Type 0 where
  login : Text → Purpose
  confirm : ℕ → Purpose

pub record Recipient : Type 0 where
  pub account_id : ℕ
  pub tenant_id : ℕ
  pub targets : List (ℕ × Text)

pub data Held : Type 0 where
  too_often too_many_wrong : Held

abbrev is_digit : ℕ → Bool
is_digit c = leb b'0' c && leb c b'9'

-- `digits_only`.
unfoldable pub digits_only : Text → Text
digits_only s = keep is_digit s

abbrev pub is_account : Option ℕ → ℕ → Bool
is_account none who = false
is_account (some a) who = a == who

abbrev pub tries : List CodeRow → ℕ
tries [] = 0
tries (r ∷ rows) = r.attempts + tries rows

-- What a person asked for in ten minutes, and the wrong codes of an hour.
abbrev pub is_recent : ℕ → ℕ → CodeRow → Bool
is_recent who now r = is_account r.account who && ltb now (r.created_at + 600)

unfoldable pub recent_of : ℕ → ℕ → List CodeRow → ℕ
recent_of who now rows = length (keep (is_recent who now) rows)

unfoldable pub wrong_of : ℕ → ℕ → List CodeRow → ℕ
wrong_of who now rows =
    tries (keep (λ r. is_account r.account who && ltb now (r.created_at + 3600)) rows)

-- Why a code is held back.
unfoldable pub held_of : ℕ → List CodeRow → Option Recipient → Option Held
held_of now rows none = none
held_of now rows (some to) =
    if leb wrong_per_hour (wrong_of to.account_id now rows)
    then some too_many_wrong
    else if leb max_recent_per_account (recent_of to.account_id now rows)
    then some too_often
    else none

abbrev pub unless_held : Option Held → Option Recipient → Option Recipient
unless_held none to = to
unless_held (some why) to = none

abbrev tenant_of : Option Recipient → Option ℕ
tenant_of none = none
tenant_of (some to) = some to.tenant_id

abbrev pub account_of : Option Recipient → Option ℕ
account_of none = none
account_of (some to) = some to.account_id

abbrev kind_of : Purpose → Text
kind_of (login challenge) = codes "login"
kind_of (confirm session) = codes "confirm"

abbrev challenge_for : Purpose → Option Text
challenge_for (login challenge) = some challenge
challenge_for (confirm session) = none

abbrev session_for : Purpose → Option ℕ
session_for (login challenge) = none
session_for (confirm session) = some session

abbrev pub long_gone : ℕ → CodeRow → Bool
long_gone now r = ltb (r.expires_at + 3600) now

abbrev pub row_for : Text → ℕ → Purpose → Option Recipient → ℕ → CodeRow
row_for hash id purpose to now = record {
  id = id;
  tenant = tenant_of to;
  account = account_of to;
  purpose = kind_of purpose;
  challenge = challenge_for purpose;
  session = session_for purpose;
  code_hash = hash;
  attempts = 0;
  used_at = none;
  created_at = now;
  expires_at = now + code_minutes * 60;
}

-- `UPDATE login_codes SET .. WHERE ..`.
abbrev pub change_rows : (CodeRow → Bool) → (CodeRow → CodeRow) → List CodeRow → List CodeRow
change_rows test change [] = []
change_rows test change (r ∷ rows) = (if test r then change r else r) ∷ change_rows test change rows

-- What can still be opened under an id.
abbrev pub is_open : ℕ → CodeRow → Bool
is_open id r = (r.id == id) && (ltb r.attempts max_attempts && not (is_some r.used_at))

abbrev pub use_up : ℕ → CodeRow → CodeRow
use_up now r = record r { used_at = some now }

abbrev pub count_try : CodeRow → CodeRow
count_try r = record r { attempts = r.attempts + 1 }

-- `note_wrong_code`, for a person.
unfoldable pub note_wrong_code : ℕ → ℕ → ℕ → Store → Store
note_wrong_code tenant account now st =
    if ltb (wrong_of account now st.rows) wrong_per_hour
    then st
    else if any
        (λ w. (w.tenant == tenant) && ((w.account == account) && ltb now (w.created_at + 3600)))
        st.warnings
    then st
    else record st {
      warnings =
          st.warnings ++ record { tenant = tenant; account = account; created_at = now } ∷ [];
    }

-- A decoy is nobody's, and no row is: nothing is counted. An event of no household is not inserted.
abbrev pub note_for : Option ℕ → Option ℕ → ℕ → Store → Store
note_for none account now st = st
note_for (some tenant) none now st = st
note_for (some tenant) (some account) now st = note_wrong_code tenant account now st

-- What the first half of `check` finds: a refusal, or a row, and whether the code and the binding match.
pub data First : Type 0 where
  refused : First
  found : Bool → Option ℕ → Option ℕ → First

pub data Answer : Type 0 where
  granted : ℕ → ℕ → Answer
  refusal : Refusal → Answer

module _ (code_hash : ℕ → Text → Text) where
  -- `issue`: the store, and why the code was held back.
  unfoldable pub issue : ℕ → Text → Purpose → Option Recipient → ℕ → Store → Store × Option Held
  issue id code purpose to now st =
      let held = held_of now st.rows to in
      let row = row_for (code_hash id code) id purpose (unless_held held to) now in
      (
        record st {
          rows = keep (λ r. not (long_gone now r)) (st.rows ++ row ∷ []);
          queue = scrub_commands now st.queue;
        },
        held,
      )

  -- Whether a typed code is that of a row, and its binding holds.
  unfoldable pub matches : (Option Text → Option ℕ → Bool) → Text → CodeRow → Bool
  matches binding_ok code r =
      let digits = digits_only code in
      ((length digits == 6) && text_eq (code_hash r.id digits) r.code_hash)
      && binding_ok r.challenge r.session

  abbrev pub first_of : (Option Text → Option ℕ → Bool) → Text → ℕ → Option CodeRow → First
  first_of binding_ok code now none = refused
  first_of binding_ok code now (some r) =
      if ltb r.expires_at now then refused else found (matches binding_ok code r) r.tenant r.account

  -- The first half of `check`, up to the statement that writes.
  unfoldable pub look : (Option Text → Option ℕ → Bool) → ℕ → Text → ℕ → Store → First
  look binding_ok id code now st = first_of binding_ok code now (find_first (is_open id) st.rows)

-- A right code, when its row can be used up.
unfoldable pub redeem : ℕ → ℕ → ℕ → ℕ → Store → Store × Answer
redeem id tenant account now st =
    if length (keep (is_open id) st.rows) == 1
    then (
      record st {
        rows = change_rows (is_open id) (use_up now) st.rows;
        queue = scrub_request id st.queue;
      },
      granted tenant account,
    )
    else (record st { rows = change_rows (is_open id) (use_up now) st.rows }, refusal start_again)

abbrev pub attempts_of : Option CodeRow → Option ℕ
attempts_of none = none
attempts_of (some r) = some r.attempts

abbrev pub out_of_tries : Option ℕ → Bool
out_of_tries none = true
out_of_tries (some t) = leb max_attempts t

-- A code that is wrong, or not bound to who typed it.
unfoldable pub reject : ℕ → Option ℕ → Option ℕ → ℕ → Store → Store × Answer
reject id tenant account now st =
    let rows = change_rows (λ r. r.id == id) count_try st.rows in
    let noted = note_for tenant account now (record st { rows = rows }) in
    if out_of_tries (attempts_of (find_first (λ r. r.id == id) rows))
    then (record noted { queue = scrub_request id noted.queue }, refusal start_again)
    else (noted, refusal wrong_code)

-- The second half of `check`.
unfoldable pub settle : ℕ → First → ℕ → Store → Store × Answer
settle id refused now st = (st, refusal start_again)
settle id (found true (some tenant) (some account)) now st = redeem id tenant account now st
settle id (found true (some tenant) none) now st = reject id (some tenant) none now st
settle id (found true none account) now st = reject id none account now st
settle id (found false tenant account) now st = reject id tenant account now st

-- `check`.
unfoldable pub check :
    (ℕ → Text → Text) → (Option Text → Option ℕ → Bool) → ℕ → Text → ℕ → Store → Store × Answer
check code_hash binding_ok id code now st =
    settle id (look code_hash binding_ok id code now st) now st

-- The binding of a browser that signs in, and of a session that confirms.
abbrev pub is_challenge : (Text → Text) → Text → Option Text → Option ℕ → Bool
is_challenge challenge_of verifier none session = false
is_challenge challenge_of verifier (some c) session = text_eq (challenge_of verifier) c

abbrev pub is_session : ℕ → Option Text → Option ℕ → Bool
is_session id challenge none = false
is_session id challenge (some s) = s == id

-- The OS logins of a device, in the order of the targets.
abbrev add_login : ℕ → Text → List (ℕ × List Text) → List (ℕ × List Text)
add_login device user [] = (device, user ∷ []) ∷ []
add_login device user ((d, users) ∷ rest) =
    let more = add_login device user rest in
    if device == d
    then (d, users ++ user ∷ []) ∷ rest
    else if ltb device d
    then (device, user ∷ []) ∷ (d, users) ∷ rest
    else (d, users) ∷ more

abbrev by_device : List (ℕ × Text) → List (ℕ × List Text) → List (ℕ × List Text)
by_device [] groups = groups
by_device ((d, u) ∷ targets) groups = by_device targets (add_login d u groups)

-- `send_code`: one secret command for each device, under the id that is drawn for it; `shown` writes
-- the payload but its request.
abbrev send_all :
    (List Text → Text) → (ℕ → Bool) → ℕ → (ℕ → ℕ) → ℕ → List (ℕ × List Text) → Queue → Queue
send_all shown live request drawn now [] q = q
send_all shown live request drawn now ((d, users) ∷ groups) q =
    send_all shown live request drawn now groups
      (enqueue_secret_command (live d) (drawn d) d (codes "login_code")
        (object (some request) (shown users)) now q).0

unfoldable pub send_code :
    (List Text → Text) → (ℕ → Bool) → ℕ → (ℕ → ℕ) → ℕ → List (ℕ × Text) → Queue → Queue
send_code shown live request drawn now targets q =
    send_all shown live request drawn now (by_device targets []) q
