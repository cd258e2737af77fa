-- ===== src/Server/Earn/Once.antt =====
-- A request is decided once: the calls keep it so.
use openscreentime.Common.{
  ℕ, ◌+◌, ◌≤◌, ◌≡◌, refl, inl, inr, Bool, true, false, ◌&&◌, Option, none, some, List, [], ◌∷◌,
  ◌++◌, arith, ◌==◌, if◌then◌else◌, any, find_first, Bool-cases, eq_of_some, All-append,
}
use openscreentime.Common.Text.{Text, codes, text_eq}
use openscreentime.Policy.Bracket.{can_request_time}
use openscreentime.Server.Ledger.{Db, DeviceUser, login_of, upsert_usage, device_local_day}
use openscreentime.Server.Ledger.Totals.{upsert_usage_users}
use openscreentime.Server.Earn.{
  EarnRequest, EarnRequestReq, Audited, requested, given, decided, Household, Outside,
  create_request, create_within, create_for, file_request, file_or, new_request, is_open_ask,
  in_range, credit_time, credit_within, credit_for, owner_of, decide, decide_found, can_decide,
  decide_as, change_requests, answer_request, ask, ask_within, finish, log, credit, grant_time,
  is_pending, bracket_of, label_of,
}
use openscreentime.Server.Earn.Steps.{
  knows, IsFresh, Step, created, asked, granted, answered, reported, Reach, start, later,
}
use openscreentime.Server.Earn.Counts.{
  tally, has_id, waits, decides, tally-append, Inv-recorded, decided-Inv, Kept, settle-Kept,
  find_first-holds, tally-found,
}

abbrev pub nothing_due : ℕ → ℕ
nothing_due i = 0

file_or-Kept :
    (new : EarnRequest) (old : Option EarnRequest) (h : Household)
    → IsFresh new.id h
    → is_pending new.status ≡ true
    → knows new.device_user h ≡ true
    → Kept nothing_due h
    → Kept nothing_due (file_or new old h).0
file_or-Kept new (some old) h f p k inv = inv
file_or-Kept new none h f p k inv = record {
  keyed = λ i. rw (tally-append (has_id i) h.requests (new ∷ [])) (elim (Bool-cases (new.id == i)) [
    | inl e ↦ let same : new.id ≡ i = ground (arith, e) in rw (e, rw same at f) (omega arith)
    | inr e ↦ rw e (omega (arith, inv.keyed i))
  ]);
  linked =
      All-append (λ r. any (λ u. u.id == r.device_user) h.db.device_users ≡ true) h.requests
        (new ∷ []) inv.linked (k, tt);
  once = λ i.
      rw
        (
          tally-append (has_id i) h.requests (new ∷ []),
          tally-append (waits i) h.requests (new ∷ []),
          tally-append (decides i) h.events (requested new.id ∷ []),
        )
        (ground (arith, inv.once i, p));
}

found-any :
    (p : DeviceUser → Bool) (users : List DeviceUser) (u : DeviceUser)
    → find_first p users ≡ some u
    → any (λ x. x.id == u.id) users ≡ true
found-any p [] u e = cc
found-any p (x ∷ users) u e = elim (Bool-cases (p x)) [
  | inl h ↦ let same : x ≡ u = eq_of_some (rw h at e) in rw same (ground arith)
  | inr h ↦ ground (arith, found-any p users u (rw h at e))
]

pub known-login :
    (du : ℕ) (users : List DeviceUser)
    → any (λ x. x.id == du) users ≡ true
    → (u : DeviceUser) × (find_first (λ x. x.id == du) users ≡ some u)
known-login du [] e = cc
known-login du (x ∷ users) e = elim (Bool-cases (x.id == du)) [
  | inl h ↦ rw h (x, refl)
  | inr h ↦ rw h (known-login du users (rw h at e))
]

Kept-same :
    (due : ℕ → ℕ) (h h' : Household)
    → h'.db.device_users ≡ h.db.device_users
    → h'.requests ≡ h.requests
    → h'.events ≡ h.events
    → Kept due h
    → Kept due h'
Kept-same due h h' u r e inv = rw (u, r, e) inv

-- An event that decides nothing.
log-Kept :
    (e : Audited) (h : Household) (due : ℕ → ℕ)
    → ((i : ℕ) → due i ≡ (if decides i e then 1 else 0))
    → Kept due h
    → Kept nothing_due (log e h)
log-Kept e h due d inv =
    Inv-recorded (λ i. tally (decides i) (h.events ++ e ∷ []) + 0)
      (λ i. rw (tally-append (decides i) h.events (e ∷ []), d i) (omega arith)) inv

file_request-Kept :
    (id tenant device du : ℕ) (task label : Text) (minutes now : ℕ) (h : Household)
    → IsFresh id h
    → knows du h ≡ true
    → Kept nothing_due h
    → Kept nothing_due (file_request id tenant device du task label minutes now h).0
unfolding file_request
file_request-Kept id tenant device du task label minutes now h f k inv =
    file_or-Kept (new_request id tenant device du task label minutes now)
      (find_first (is_open_ask du task now) h.requests) h f refl k inv

create_for-Kept :
    (id tenant device : ℕ) (req : EarnRequestReq) (n now : ℕ) (o : Option DeviceUser)
    (h : Household)
    → IsFresh id h
    → login_of device req.os_username h.db.device_users ≡ o
    → Kept nothing_due h
    → Kept nothing_due (create_for id tenant device req n now o h).0
create_for-Kept id tenant device req n now none h f e inv = inv
create_for-Kept id tenant device req n now (some du) h f e inv =
    file_request-Kept id tenant device du.id req.task_id req.task_label n now h f
      (found-any (λ x. (x.device == device) && text_eq x.os_username req.os_username)
        h.db.device_users du e)
      inv

create_within-Kept :
    (id tenant device : ℕ) (req : EarnRequestReq) (now : ℕ) (n : Option ℕ) (h : Household)
    → IsFresh id h
    → Kept nothing_due h
    → Kept nothing_due (create_within id tenant device req now n h).0
create_within-Kept id tenant device req now none h f inv = inv
create_within-Kept id tenant device req now (some n) h f inv =
    create_for-Kept id tenant device req n now (login_of device req.os_username h.db.device_users) h
      f refl inv

ask_within-Kept :
    (id tenant : ℕ) (reason : Option Text) (now : ℕ) (n : Option ℕ) (u : DeviceUser) (h : Household)
    → IsFresh id h
    → knows u.id h ≡ true
    → Kept nothing_due h
    → Kept nothing_due (ask_within id tenant reason now n (some u) h).0
ask_within-Kept id tenant reason now none u h f k inv = inv
ask_within-Kept id tenant reason now (some n) u h f k inv =
    file_request-Kept id tenant u.device u.id (codes "ask") (label_of reason) n now h f k inv

credit_for-Kept :
    (out : Outside) (tenant n now : ℕ) (o : Option DeviceUser) (h : Household)
    → Kept nothing_due h
    → Kept nothing_due (credit_for out tenant n now o h).0
credit_for-Kept out tenant n now none h inv = inv
credit_for-Kept out tenant n now (some u) h inv =
    let day = device_local_day h.db u.device now in
    let sent = grant_time out none u.device u n day now (credit u.id day n h) in
    settle-Kept tenant u.id none now (log (given u.id n) sent) nothing_due
      (log-Kept (given u.id n) h nothing_due (λ i. refl) inv)

credit_within-Kept :
    (out : Outside) (tenant du : ℕ) (n : Option ℕ) (now : ℕ) (h : Household)
    → Kept nothing_due h
    → Kept nothing_due (credit_within out tenant du n now h).0
credit_within-Kept out tenant du none now h inv = inv
credit_within-Kept out tenant du (some n) now h inv =
    credit_for-Kept out tenant n now (owner_of tenant du h.db) h inv

-- The answer to a request whose login is known is given, and decides no other.
answer_request-Kept :
    (out : Outside) (tenant : ℕ) (approve : Bool) (r : EarnRequest) (now : ℕ) (h : Household)
    (due : ℕ → ℕ)
    → knows r.device_user h ≡ true
    → Kept due h
    → Kept due (answer_request out tenant approve r now h).0
      × ((answer_request out tenant approve r now h).1 ≡ true)
answer_request-Kept out tenant true r now h due k inv =
    let (u, e) = known-login r.device_user h.db.device_users k in
    let day = device_local_day h.db r.device now in
    let paid = credit r.device_user day r.minutes h in
    let sent = grant_time out (some r.id) r.device u r.minutes day now paid in
    rw e (settle-Kept tenant r.device_user (some r.id) now sent due inv, refl)
answer_request-Kept out tenant false r now h due k inv =
    let (u, e) = known-login r.device_user h.db.device_users k in rw e (inv, refl)

abbrev due_for : EarnRequest → ℕ → ℕ
due_for r i = if r.id == i then 1 else 0

finish-Kept :
    (tenant : ℕ) (approve : Bool) (r : EarnRequest) (p : Household × Bool)
    → p.1 ≡ true
    → Kept (due_for r) p.0
    → Kept nothing_due (finish tenant approve r p).0
finish-Kept tenant approve r (h, true) e inv =
    log-Kept (decided approve r) h (due_for r) (λ i. refl) inv
finish-Kept tenant approve r (h, false) e inv = cc

decide_found-Kept :
    (out : Outside) (tenant id : ℕ) (approve : Bool) (now : ℕ) (o : Option EarnRequest)
    (h : Household)
    → find_first (can_decide id tenant) h.requests ≡ o
    → Kept nothing_due h
    → Kept nothing_due (decide_found out tenant id approve now o h).0
decide_found-Kept out tenant id approve now none h e inv = inv
decide_found-Kept out tenant id approve now (some r) h e inv =
    let test = can_decide id tenant in
    let rows = change_requests test (decide_as approve now) h.requests in
    let known =
      (find_first-holds (λ x. knows x.device_user h ≡ true) test h.requests r inv.linked e).1 in
    let changed =
      Inv-recorded (λ i. tally (decides i) h.events + due_for r i) (λ i. omega arith)
        (decided-Inv test approve now h.requests (λ i. tally (decides i) h.events + 0) (due_for r)
          (λ x t. ground (arith, t)) (λ i. tally-found id tenant i h.requests r (inv.keyed id) e)
          inv) in
    let (kept, given_answer) =
      answer_request-Kept out tenant approve r now (record h { requests = rows }) (due_for r) known
        changed in
    finish-Kept tenant approve r
      (answer_request out tenant approve r now (record h { requests = rows })) given_answer kept

Step-Kept_once : {h h' : Household} → Kept nothing_due h → Step h h' → Kept nothing_due h'
unfolding create_request ask credit_time decide
Step-Kept_once {h = h} inv (created id tenant device req now f) =
    create_within-Kept id tenant device req now (in_range req.minutes) h f inv
Step-Kept_once {h = h} inv (asked id tenant bracket u minutes reason now f k) =
    elim (Bool-cases (can_request_time (bracket_of bracket))) [
      | inl e ↦ rw e (ask_within-Kept id tenant reason now (in_range minutes) u h f k inv)
      | inr e ↦ rw e inv
    ]
Step-Kept_once {h = h} inv (granted out tenant du minutes now) =
    credit_within-Kept out tenant du (in_range minutes) now h inv
Step-Kept_once {h = h} inv (answered out tenant id approve now) =
    decide_found-Kept out tenant id approve now (find_first (can_decide id tenant) h.requests) h
      refl inv
Step-Kept_once {h = h} inv (reported tenant device now usage) =
    let db = (upsert_usage tenant device now usage h.db).0 in
    Kept-same nothing_due h (record h { db = db }) (upsert_usage_users tenant device now usage h.db)
      refl refl inv

pub Reach-Kept : {db : Db} {h : Household} → Reach db h → Kept nothing_due h
Reach-Kept (start queue) = record { keyed = λ i. omega arith; linked = tt; once = λ i. refl }
Reach-Kept (later r s) = Step-Kept_once (Reach-Kept r) s

-- In every household that the calls, each taken whole, reach from one where nothing was asked, a request
-- that is filed is pending and no decision on it is recorded, or it is decided and exactly one is.
pub Reach-decides :
    {db : Db} {h : Household} (i : ℕ)
    → Reach db h
    → (tally (decides i) h.events + tally (waits i) h.requests ≡ tally (has_id i) h.requests)
      × (tally (has_id i) h.requests ≤ 1)
Reach-decides i r = let inv = Reach-Kept r in (omega (arith, inv.once i), inv.keyed i)
