-- ===== src/Server/Earn/Audit.antt =====
-- What the ledger credits is what the audit events say was given.
use openscreentime.Common.{
  ℕ, ◌+◌, ◌*◌, ◌≡◌, refl, inl, inr, Bool, true, false, Option, none, some, List, [], ◌∷◌, ◌++◌, map,
  arith, ◌==◌, if◌then◌else◌, keep, find_first, Bool-cases, Option-cases,
}
use openscreentime.Common.Text.{Text, codes}
use openscreentime.Common.Int.{ℤ}
use openscreentime.Policy.Bracket.{can_request_time}
use openscreentime.Server.Ledger.{
  Db, DeviceUser, LedgerRow, sum_over, same_key, login_of, device_local_day,
}
use openscreentime.Server.Ledger.Earned.{earned_total, upsert_usage-earned_total}
use openscreentime.Server.Earn.{
  EarnRequest, EarnRequestReq, Audited, requested, given, decided, settled, Household, Outside,
  create_request, create_within, file_request, file_or, new_request, is_open_ask, in_range,
  credit_ledger, credit_time, credit_within, owner_of, give, decide, decide_found, can_decide,
  decide_as, change_requests, answer_request, ask, ask_within, finish, log, credit, grant_time,
  bracket_of, label_of, is_waiting, settle_pending_asks,
}
use openscreentime.Server.Earn.Counts.{find_first-holds, Kept}
use openscreentime.Server.Earn.Steps.{
  knows, Step, created, asked, granted, answered, reported, Reach, start, later,
}
use openscreentime.Server.Earn.Once.{nothing_due, known-login, Reach-Kept}

-- The minutes that an event gives a login.
abbrev pub minutes_of : ℕ → Audited → ℕ
minutes_of du (requested id) = 0
minutes_of du (given login minutes) = if login == du then minutes else 0
minutes_of du (decided true r) = if r.device_user == du then r.minutes else 0
minutes_of du (decided false r) = 0
minutes_of du (settled id) = 0

abbrev pub audited : ℕ → List Audited → ℕ
audited du events = sum_over (minutes_of du) events

sum_over-append :
    {A : Type 0} (f : A → ℕ) (xs ys : List A)
    → sum_over f (xs ++ ys) ≡ sum_over f xs + sum_over f ys
sum_over-append f [] ys = ground arith
sum_over-append f (x ∷ xs) ys = ground (arith, sum_over-append f xs ys)

earned_total-credit :
    (du login : ℕ) (day : ℤ) (minutes : ℕ) (rows : List LedgerRow)
    → earned_total du (credit_ledger login day minutes rows)
      ≡ earned_total du rows + (if login == du then minutes * 60 else 0)
unfolding credit_ledger
earned_total-credit du login day minutes [] = ground arith
earned_total-credit du login day minutes (r ∷ rows) =
    let rest = earned_total-credit du login day minutes rows in
    elim (Bool-cases (same_key login day r)) [
      | inl e ↦ let mine : r.device_user ≡ login = ground (arith, e) in rw (e, mine) (ground arith)
      | inr e ↦ rw e (omega (arith, rest))
    ]

-- What a login earned is what it had and the minutes of the events, and those that are due.
abbrev Balanced : ℕ → ℕ → ℕ → Household → Type 0
Balanced base du due h = earned_total du h.db.ledger ≡ base + 60 * (audited du h.events + due)

audited-settled : (du : ℕ) (ids : List ℕ) → audited du (map settled ids) ≡ 0
audited-settled du [] = refl
audited-settled du (i ∷ ids) = omega (arith, audited-settled du ids)

settle-Balanced :
    (tenant login : ℕ) (except : Option ℕ) (now : ℕ) (h : Household) (base du due : ℕ)
    → Balanced base du due h
    → Balanced base du due (settle_pending_asks tenant login except now h).0
unfolding settle_pending_asks
settle-Balanced tenant login except now h base du due b =
    let ids =
      map (λ r. r.id) (keep (is_waiting tenant login except h.db.device_users) h.requests) in
    rw (sum_over-append (minutes_of du) h.events (map settled ids), audited-settled du ids)
      (omega (arith, b))

log-Balanced :
    (e : Audited) (h : Household) (base du due : ℕ)
    → due ≡ minutes_of du e
    → Balanced base du due h
    → Balanced base du 0 (log e h)
log-Balanced e h base du due d b =
    rw (sum_over-append (minutes_of du) h.events (e ∷ [])) (omega (arith, d, b))

credit-Balanced :
    (login : ℕ) (day : ℤ) (minutes : ℕ) (h : Household) (base du : ℕ)
    → Balanced base du 0 h
    → Balanced base du (if login == du then minutes else 0) (credit login day minutes h)
credit-Balanced login day minutes h base du b =
    rw (earned_total-credit du login day minutes h.db.ledger) (elim (Bool-cases (login == du)) [
      | inl e ↦ rw e (omega (arith, b))
      | inr e ↦ rw e (omega (arith, b))
    ])

file_or-Balanced :
    (new : EarnRequest) (old : Option EarnRequest) (h : Household) (base du : ℕ)
    → Balanced base du 0 h
    → Balanced base du 0 (file_or new old h).0
file_or-Balanced new (some old) h base du b = b
file_or-Balanced new none h base du b =
    rw (sum_over-append (minutes_of du) h.events (requested new.id ∷ [])) (omega (arith, b))

create_within-Balanced :
    (id tenant device : ℕ) (req : EarnRequestReq) (now : ℕ) (n : Option ℕ) (h : Household)
    (base du : ℕ)
    → Balanced base du 0 h
    → Balanced base du 0 (create_within id tenant device req now n h).0
unfolding file_request
create_within-Balanced id tenant device req now none h base du b = b
create_within-Balanced id tenant device req now (some n) h base du b =
    elim (Option-cases (login_of device req.os_username h.db.device_users)) [
      | inl e ↦ rw e b
      | inr (u, e) ↦ rw e (
          file_or-Balanced (new_request id tenant device u.id req.task_id req.task_label n now)
            (find_first (is_open_ask u.id req.task_id now) h.requests) h base du b)
    ]

ask_within-Balanced :
    (id tenant : ℕ) (reason : Option Text) (now : ℕ) (n : Option ℕ) (u : DeviceUser) (h : Household)
    (base du : ℕ)
    → Balanced base du 0 h
    → Balanced base du 0 (ask_within id tenant reason now n (some u) h).0
unfolding file_request
ask_within-Balanced id tenant reason now none u h base du b = b
ask_within-Balanced id tenant reason now (some n) u h base du b =
    file_or-Balanced (new_request id tenant u.device u.id (codes "ask") (label_of reason) n now)
      (find_first (is_open_ask u.id (codes "ask") now) h.requests) h base du b

give-Balanced :
    (out : Outside) (tenant n now : ℕ) (u : DeviceUser) (h : Household) (base du : ℕ)
    → Balanced base du 0 h
    → Balanced base du 0 (give out tenant n now u h).0
give-Balanced out tenant n now u h base du b =
    let day = device_local_day h.db u.device now in
    let sent = grant_time out none u.device u n day now (credit u.id day n h) in
    settle-Balanced tenant u.id none now (log (given u.id n) sent) base du 0 (
      log-Balanced (given u.id n) sent base du (if u.id == du then n else 0) refl
        (credit-Balanced u.id day n h base du b))

credit_within-Balanced :
    (out : Outside) (tenant login : ℕ) (n : Option ℕ) (now : ℕ) (h : Household) (base du : ℕ)
    → Balanced base du 0 h
    → Balanced base du 0 (credit_within out tenant login n now h).0
credit_within-Balanced out tenant login none now h base du b = b
credit_within-Balanced out tenant login (some n) now h base du b =
    elim (Option-cases (owner_of tenant login h.db)) [
      | inl e ↦ rw e b
      | inr (u, e) ↦ rw e (give-Balanced out tenant n now u h base du b)
    ]

-- The answer to a request, with what its event is due to record.
answer_request-Balanced :
    (out : Outside) (tenant : ℕ) (approve : Bool) (r : EarnRequest) (now : ℕ) (h : Household)
    (base du : ℕ)
    → knows r.device_user h ≡ true
    → Balanced base du 0 h
    → Balanced base du 0 (finish tenant approve r (answer_request out tenant approve r now h)).0
answer_request-Balanced out tenant true r now h base du k b =
    let (u, e) = known-login r.device_user h.db.device_users k in
    let day = device_local_day h.db r.device now in
    let paid = credit r.device_user day r.minutes h in
    let sent = grant_time out (some r.id) r.device u r.minutes day now paid in
    let due = if r.device_user == du then r.minutes else 0 in
    let last = (settle_pending_asks tenant r.device_user (some r.id) now sent).0 in
    rw e (
      log-Balanced (decided true r) last base du due refl (
        settle-Balanced tenant r.device_user (some r.id) now sent base du due
          (credit-Balanced r.device_user day r.minutes h base du b)))
answer_request-Balanced out tenant false r now h base du k b =
    let (u, e) = known-login r.device_user h.db.device_users k in
    rw e (log-Balanced (decided false r) h base du 0 refl b)

decide_found-Balanced :
    (out : Outside) (tenant id : ℕ) (approve : Bool) (now : ℕ) (o : Option EarnRequest)
    (h : Household) (base du : ℕ)
    → find_first (can_decide id tenant) h.requests ≡ o
    → Kept nothing_due h
    → Balanced base du 0 h
    → Balanced base du 0 (decide_found out tenant id approve now o h).0
decide_found-Balanced out tenant id approve now none h base du e inv b = b
decide_found-Balanced out tenant id approve now (some r) h base du e inv b =
    let rows = change_requests (can_decide id tenant) (decide_as approve now) h.requests in
    let known =
      (find_first-holds (λ x. knows x.device_user h ≡ true) (can_decide id tenant) h.requests r
        inv.linked e).1 in
    answer_request-Balanced out tenant approve r now (record h { requests = rows }) base du known b

Step-Balanced :
    {h h' : Household} (base du : ℕ)
    → Kept nothing_due h
    → Balanced base du 0 h
    → Step h h'
    → Balanced base du 0 h'
unfolding create_request ask credit_time decide
Step-Balanced {h = h} base du inv b (created id tenant device req now f) =
    create_within-Balanced id tenant device req now (in_range req.minutes) h base du b
Step-Balanced {h = h} base du inv b (asked id tenant bracket u minutes reason now f k) =
    elim (Bool-cases (can_request_time (bracket_of bracket))) [
      | inl e ↦ rw e (ask_within-Balanced id tenant reason now (in_range minutes) u h base du b)
      | inr e ↦ rw e b
    ]
Step-Balanced {h = h} base du inv b (granted out tenant login minutes now) =
    credit_within-Balanced out tenant login (in_range minutes) now h base du b
Step-Balanced {h = h} base du inv b (answered out tenant id approve now) =
    decide_found-Balanced out tenant id approve now (find_first (can_decide id tenant) h.requests) h
      base du refl inv b
Step-Balanced {h = h} base du inv b (reported tenant device now usage) =
    rw (upsert_usage-earned_total tenant device now usage h.db du) b

Reach-Balanced :
    {db : Db} {h : Household} (du : ℕ) → Reach db h → Balanced (earned_total du db.ledger) du 0 h
Reach-Balanced {db = db} du (start queue) = omega arith
Reach-Balanced {db = db} du (later r s) =
    Step-Balanced (earned_total du db.ledger) du (Reach-Kept r) (Reach-Balanced du r) s

-- In every household that the calls, each taken whole, reach from one where nothing was asked, whatever
-- use is reported meanwhile: the seconds that a login earned are those that it had then, and sixty for
-- each minute that the audit events say it was given or granted.
pub Reach-earned_total :
    {db : Db} {h : Household} (du : ℕ)
    → Reach db h
    → earned_total du h.db.ledger ≡ earned_total du db.ledger + 60 * audited du h.events
Reach-earned_total {db = db} du r = omega (arith, Reach-Balanced du r)
