-- ===== src/Server/Earn.antt =====
-- server/src/earn.rs and `ask` of server/src/members.rs: asking for more time, and giving it. The tables
-- are those of Server.Ledger and Server.Commands with the requests and the audit events beside them, and
-- every statement succeeds. Moments are nanoseconds; those of the queue are seconds. Dates of the
-- database are UTC. JSON is left out: what a command's payload says beside the request is an argument.
pub mod Counts
pub mod Steps
pub mod Once
pub mod Audit
use openscreentime.Common.{
  ℕ, zero, suc, ◌+◌, ◌*◌, ◌/◌, Bool, true, false, ◌&&◌, ◌||◌, not, Option, none, some, List, [],
  ◌∷◌, ◌++◌, map, ltb, leb, ◌==◌, if◌then◌else◌, any, keep, find_first,
}
use openscreentime.Common.Text.{Text, codes, text_eq, trim}
use openscreentime.Common.Int.{ℤ, pos, negsuc}
use openscreentime.Policy.Time.{second}
use openscreentime.Policy.Bracket.{AgeBracket, adult, parse, can_request_time}
use openscreentime.Server.Commands.{Queue, Payload, object, enqueue_command_delivered}
use openscreentime.Server.Ledger.{
  Db, Device, DeviceUser, LedgerRow, same_key, is_account, login_of, device_local_day,
}

abbrev pub max_minutes : ℕ
max_minutes = 240

pub data Status : Type 0 where
  pending approved denied : Status

-- A row of `earn_requests`.
pub record EarnRequest : Type 0 where
  pub id : ℕ
  pub tenant : ℕ
  pub device : ℕ
  pub device_user : ℕ
  pub task_id : Text
  pub task_label : Text
  pub minutes : ℕ
  pub status : Status
  pub created_at : ℕ
  pub decided_at : Option ℕ

-- An `earn_request` event: what is asked, given without being asked, decided, or answered by a grant.
pub data Audited : Type 0 where
  requested : ℕ → Audited
  given : ℕ → ℕ → Audited
  decided : Bool → EarnRequest → Audited
  settled : ℕ → Audited

pub record Household : Type 0 where
  pub db : Db
  pub requests : List EarnRequest
  pub queue : Queue
  pub events : List Audited

pub data AppError : Type 0 where
  bad_request not_found conflict internal : AppError

pub data Reply : Type 0 where
  request : EarnRequest → Reply
  credited : ℕ → List ℕ → Reply
  failed : AppError → Reply

pub record EarnRequestReq : Type 0 where
  pub os_username : Text
  pub task_id : Text
  pub task_label : Text
  pub minutes : ℤ

abbrev pub is_pending : Status → Bool
is_pending pending = true
is_pending approved = false
is_pending denied = false

-- Minutes from one to the most.
abbrev pub in_range : ℤ → Option ℕ
in_range (pos n) = if ltb 0 n && leb n max_minutes then some n else none
in_range (negsuc n) = none

-- `fetch_request`, joined with the computer and the login.
unfoldable pub fetch_request : ℕ → ℕ → Household → Option EarnRequest
fetch_request id tenant h =
    find_first
      (λ r.
        ((r.id == id) && (r.tenant == tenant))
        && (any (λ d. d.id == r.device) h.db.devices
            && any (λ u. u.id == r.device_user) h.db.device_users))
      h.requests

abbrev pub reply_with : Option EarnRequest → Reply
reply_with none = failed not_found
reply_with (some r) = request r

-- `created_at::date`.
abbrev pub date_of : ℕ → ℕ
date_of now = now / (24 * 3600 * second)

-- What a login asked today and is not answered yet.
abbrev pub is_open_ask : ℕ → Text → ℕ → EarnRequest → Bool
is_open_ask du task now r =
    ((r.device_user == du) && text_eq r.task_id task)
    && (is_pending r.status && (date_of r.created_at == date_of now))

abbrev pub new_request : ℕ → ℕ → ℕ → ℕ → Text → Text → ℕ → ℕ → EarnRequest
new_request id tenant device du task label minutes now = record {
  id = id;
  tenant = tenant;
  device = device;
  device_user = du;
  task_id = task;
  task_label = label;
  minutes = minutes;
  status = pending;
  created_at = now;
  decided_at = none;
}

-- The open request of today, or a new one, with its id.
abbrev pub file_or : EarnRequest → Option EarnRequest → Household → Household × ℕ
file_or new none h = (
  record h { requests = h.requests ++ new ∷ []; events = h.events ++ requested new.id ∷ [] },
  new.id,
)
file_or new (some old) h = (h, old.id)

unfoldable pub file_request : ℕ → ℕ → ℕ → ℕ → Text → Text → ℕ → ℕ → Household → Household × ℕ
file_request id tenant device du task label minutes now h =
    file_or (new_request id tenant device du task label minutes now)
      (find_first (is_open_ask du task now) h.requests) h

abbrev pub create_for :
    ℕ → ℕ → ℕ → EarnRequestReq → ℕ → ℕ → Option DeviceUser → Household → Household × Reply
create_for id tenant device req n now none h = (h, failed not_found)
create_for id tenant device req n now (some du) h =
    let p = file_request id tenant device du.id req.task_id req.task_label n now h in
    (p.0, reply_with (fetch_request p.1 tenant p.0))

abbrev pub create_within : ℕ → ℕ → ℕ → EarnRequestReq → ℕ → Option ℕ → Household → Household × Reply
create_within id tenant device req now none h = (h, failed bad_request)
create_within id tenant device req now (some n) h =
    create_for id tenant device req n now (login_of device req.os_username h.db.device_users) h

-- `create_request`, by the agent of a computer, under the id that is drawn.
unfoldable pub create_request : ℕ → ℕ → ℕ → EarnRequestReq → ℕ → Household → Household × Reply
create_request id tenant device req now h =
    create_within id tenant device req now (in_range req.minutes) h

-- `credit_ledger`.
unfoldable pub credit_ledger : ℕ → ℤ → ℕ → List LedgerRow → List LedgerRow
credit_ledger du day minutes [] =
    record { device_user = du; day = day; used_seconds = 0; earned_seconds = minutes * 60 } ∷ []
credit_ledger du day minutes (r ∷ rows) =
    let rest = credit_ledger du day minutes rows in
    if same_key du day r
    then record r { earned_seconds = r.earned_seconds + minutes * 60 } ∷ rows
    else r ∷ rest

-- `UPDATE earn_requests SET .. WHERE ..`.
abbrev pub change_requests :
    (EarnRequest → Bool) → (EarnRequest → EarnRequest) → List EarnRequest → List EarnRequest
change_requests test change [] = []
change_requests test change (r ∷ rows) =
    (if test r then change r else r) ∷ change_requests test change rows

abbrev pub decide_as : Bool → ℕ → EarnRequest → EarnRequest
decide_as approve now r = record r {
  status = if approve then approved else denied;
  decided_at = some now;
}

abbrev account_in : ℕ → List DeviceUser → Option ℕ
account_in du [] = none
account_in du (u ∷ us) = let rest = account_in du us in if u.id == du then u.account else rest

abbrev same_account : Option ℕ → Option ℕ → Bool
same_account none b = false
same_account (some a) b = is_account b a

-- Whether a login is this one, or another of the same person.
abbrev pub is_theirs : ℕ → List DeviceUser → ℕ → Bool
is_theirs du users other =
    any (λ u. (u.id == other) && ((u.id == du) || same_account u.account (account_in du users)))
      users

abbrev is_except : Option ℕ → ℕ → Bool
is_except none id = false
is_except (some e) id = e == id

abbrev pub is_waiting : ℕ → ℕ → Option ℕ → List DeviceUser → EarnRequest → Bool
is_waiting tenant du except users r =
    ((r.tenant == tenant) && is_pending r.status)
    && (not (is_except except r.id) && is_theirs du users r.device_user)

-- `settle_pending_asks`: with the ids that it settled.
unfoldable pub settle_pending_asks : ℕ → ℕ → Option ℕ → ℕ → Household → Household × List ℕ
settle_pending_asks tenant du except now h =
    let test = is_waiting tenant du except h.db.device_users in
    let ids = map (λ r. r.id) (keep test h.requests) in
    (
      record h {
        requests = change_requests test (decide_as true now) h.requests;
        events = h.events ++ map settled ids;
      },
      ids,
    )

-- The payload of a grant, beside the request that it answers: the login, the minutes and the day; and of
-- a denial: the login and the task.
pub record Wording : Type 0 where
  pub of_grant : Text → ℕ → ℤ → Text
  pub of_denial : Text → Text → Text

-- What a call draws and finds outside the tables: the id of the command, and the live sockets.
pub record Outside : Type 0 where
  pub words : Wording
  pub live : ℕ → Bool
  pub command : ℕ

abbrev pub enqueue : Outside → ℕ → Text → Payload → ℕ → Household → Household
enqueue out device kind payload now h = record h {
  queue =
      (enqueue_command_delivered (out.live device) out.command device kind payload (now / second)
        h.queue).0;
}

abbrev pub credit : ℕ → ℤ → ℕ → Household → Household
credit du day minutes h = record h {
  db = record h.db { ledger = credit_ledger du day minutes h.db.ledger };
}

-- The command that tells the agent of a grant.
abbrev pub grant_time : Outside → Option ℕ → ℕ → DeviceUser → ℕ → ℤ → ℕ → Household → Household
grant_time out id device u minutes day now h =
    enqueue out device (codes "credit_time")
      (object id (out.words.of_grant u.os_username minutes day)) now h

abbrev pub log : Audited → Household → Household
log e h = record h { events = h.events ++ e ∷ [] }

-- The computer and the name of a login of the household.
abbrev pub owner_of : ℕ → ℕ → Db → Option DeviceUser
owner_of tenant du db =
    find_first
      (λ u. (u.id == du) && any (λ d. (d.id == u.device) && (d.tenant == tenant)) db.devices)
      db.device_users

abbrev pub give : Outside → ℕ → ℕ → ℕ → DeviceUser → Household → Household × List ℕ
give out tenant minutes now u h =
    let day = device_local_day h.db u.device now in
    let sent = grant_time out none u.device u minutes day now (credit u.id day minutes h) in
    settle_pending_asks tenant u.id none now (log (given u.id minutes) sent)

abbrev pub credit_for : Outside → ℕ → ℕ → ℕ → Option DeviceUser → Household → Household × Reply
credit_for out tenant n now none h = (h, failed not_found)
credit_for out tenant n now (some u) h = let p = give out tenant n now u h in (p.0, credited n p.1)

abbrev pub credit_within : Outside → ℕ → ℕ → Option ℕ → ℕ → Household → Household × Reply
credit_within out tenant du none now h = (h, failed bad_request)
credit_within out tenant du (some n) now h = credit_for out tenant n now (owner_of tenant du h.db) h

-- `credit_time`.
unfoldable pub credit_time : Outside → ℕ → ℕ → ℤ → ℕ → Household → Household × Reply
credit_time out tenant du minutes now h = credit_within out tenant du (in_range minutes) now h

-- A request that was approved: the tables, and whether its login was found.
abbrev pub approve_for :
    Outside → ℕ → EarnRequest → ℤ → ℕ → Option DeviceUser → Household → Household × Bool
approve_for out tenant r day now none h = (h, false)
approve_for out tenant r day now (some u) h =
    let sent = grant_time out (some r.id) r.device u r.minutes day now h in
    ((settle_pending_asks tenant r.device_user (some r.id) now sent).0, true)

abbrev pub login_with : ℕ → Db → Option DeviceUser
login_with du db = find_first (λ u. u.id == du) db.device_users

abbrev pub approve_request : Outside → ℕ → EarnRequest → ℕ → Household → Household × Bool
approve_request out tenant r now h =
    let day = device_local_day h.db r.device now in
    approve_for out tenant r day now (login_with r.device_user h.db)
      (credit r.device_user day r.minutes h)

abbrev pub deny_for : Outside → EarnRequest → ℕ → Option DeviceUser → Household → Household × Bool
deny_for out r now none h = (h, false)
deny_for out r now (some u) h = (
  enqueue out r.device (codes "deny_earn")
      (object (some r.id) (out.words.of_denial u.os_username r.task_id)) now h,
  true,
)

abbrev pub deny_request : Outside → EarnRequest → ℕ → Household → Household × Bool
deny_request out r now h = deny_for out r now (login_with r.device_user h.db) h

abbrev pub answer_request : Outside → ℕ → Bool → EarnRequest → ℕ → Household → Household × Bool
answer_request out tenant true r now h = approve_request out tenant r now h
answer_request out tenant false r now h = deny_request out r now h

-- The end of `decide`.
abbrev pub finish : ℕ → Bool → EarnRequest → Household × Bool → Household × Reply
finish tenant approve r (h, true) =
    let done = log (decided approve r) h in (done, reply_with (fetch_request r.id tenant done))
finish tenant approve r (h, false) = (h, failed internal)

abbrev pub is_some_request : Option EarnRequest → Bool
is_some_request none = false
is_some_request (some r) = true

abbrev pub can_decide : ℕ → ℕ → EarnRequest → Bool
can_decide id tenant r = (r.id == id) && ((r.tenant == tenant) && is_pending r.status)

abbrev pub decide_found :
    Outside → ℕ → ℕ → Bool → ℕ → Option EarnRequest → Household → Household × Reply
decide_found out tenant id approve now none h =
    (h, failed (if is_some_request (fetch_request id tenant h) then conflict else not_found))
decide_found out tenant id approve now (some r) h = finish tenant approve r (
    answer_request out tenant approve r now (record h {
      requests = change_requests (can_decide id tenant) (decide_as approve now) h.requests;
    }))

-- `decide`.
unfoldable pub decide : Outside → ℕ → ℕ → Bool → ℕ → Household → Household × Reply
decide out tenant id approve now h =
    decide_found out tenant id approve now (find_first (can_decide id tenant) h.requests) h

abbrev take : ℕ → Text → Text
take zero s = []
take (suc n) [] = []
take (suc n) (c ∷ s) = c ∷ take n s

abbrev or_else : Text → Text → Text
or_else words [] = words
or_else words (c ∷ s) = c ∷ s

abbrev label_of : Option Text → Text
label_of none = codes "Asked for more time"
label_of (some reason) = or_else (codes "Asked for more time") (take 120 (trim reason))

-- The bracket of an account, adult if it cannot be read.
abbrev bracket_of : Text → AgeBracket
bracket_of s = elim (parse s) [ none ↦ adult | some b ↦ b ]

abbrev pub ask_on : ℕ → ℕ → Option Text → ℕ → ℕ → Option DeviceUser → Household → Household × Reply
ask_on id tenant reason now n none h = (h, failed bad_request)
ask_on id tenant reason now n (some u) h =
    let p = file_request id tenant u.device u.id (codes "ask") (label_of reason) n now h in
    (p.0, reply_with (fetch_request p.1 tenant p.0))

abbrev pub ask_within :
    ℕ → ℕ → Option Text → ℕ → Option ℕ → Option DeviceUser → Household → Household × Reply
ask_within id tenant reason now none target h = (h, failed bad_request)
ask_within id tenant reason now (some n) target h = ask_on id tenant reason now n target h

-- `ask` of server/src/members.rs, by an account with the id of its bracket; `target` is the login that the
-- query finds to file it against.
unfoldable pub ask :
    ℕ → ℕ → Text → Option DeviceUser → ℤ → Option Text → ℕ → Household → Household × Reply
ask id tenant bracket target minutes reason now h =
    if can_request_time (bracket_of bracket)
    then ask_within id tenant reason now (in_range minutes) target h
    else (h, failed bad_request)
