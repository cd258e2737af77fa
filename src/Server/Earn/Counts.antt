-- ===== src/Server/Earn/Counts.antt =====
-- Decisions on requests, and how many the audit events record.
use openscreentime.Common.{
  ℕ, ◌+◌, ◌≤◌, ◌≡◌, refl, inl, inr, Bool, true, false, ◌&&◌, Option, some, List, [], ◌∷◌, ◌++◌, map,
  arith, ◌==◌, if◌then◌else◌, any, keep, find_first, Bool-cases, eq_of_some, All,
}
use openscreentime.Server.Ledger.{DeviceUser}
use openscreentime.Server.Earn.{
  EarnRequest, Audited, requested, given, decided, settled, Household, is_pending, approved, denied,
  change_requests, decide_as, can_decide, is_waiting, settle_pending_asks,
}

abbrev pub tally : {A : Type 0} → (A → Bool) → List A → ℕ
tally p [] = 0
tally p (x ∷ xs) = (if p x then 1 else 0) + tally p xs

abbrev pub has_id : ℕ → EarnRequest → Bool
has_id i r = r.id == i

abbrev pub waits : ℕ → EarnRequest → Bool
waits i r = (r.id == i) && is_pending r.status

-- An event that records a decision on a request.
abbrev pub decides : ℕ → Audited → Bool
decides i (requested id) = false
decides i (given du minutes) = false
decides i (decided approve r) = r.id == i
decides i (settled id) = id == i

pub tally-append :
    {A : Type 0} (p : A → Bool) (xs ys : List A) → tally p (xs ++ ys) ≡ tally p xs + tally p ys
tally-append p [] ys = ground arith
tally-append p (x ∷ xs) ys = ground (arith, tally-append p xs ys)

abbrev pub Linked : List DeviceUser → List EarnRequest → Type 0
Linked users rows = All (λ r. any (λ u. u.id == r.device_user) users ≡ true) rows

-- So many decisions are recorded for each request, and those that are due.
pub record Inv (users : List DeviceUser) (rows : List EarnRequest) (recorded : ℕ → ℕ) : Type 0 where
  pub keyed : (i : ℕ) → tally (has_id i) rows ≤ 1
  pub linked : Linked users rows
  pub once : (i : ℕ) → recorded i + tally (waits i) rows ≡ tally (has_id i) rows

-- Rows that are decided, all of them pending.
abbrev Waiting : (EarnRequest → Bool) → Type 0
Waiting test = (r : EarnRequest) → test r ≡ true → is_pending r.status ≡ true

change_requests-waits :
    (test : EarnRequest → Bool) (approve : Bool) (now i : ℕ) (rows : List EarnRequest)
    → Waiting test
    → tally (waits i) (change_requests test (decide_as approve now) rows)
        + tally (has_id i) (keep test rows)
      ≡ tally (waits i) rows
change_requests-waits test approve now i [] w = refl
change_requests-waits test approve now i (r ∷ rows) w =
    let rest = change_requests-waits test approve now i rows w in
    elim (Bool-cases (test r)) [
      | inl e ↦
          let due = w r e in
          let shut : is_pending (if approve then approved else denied) ≡ false = ground arith in
          rw e (ground (arith, rest, due, shut))
      | inr e ↦ rw e (ground (arith, rest))
    ]

change_requests-has_id :
    (test : EarnRequest → Bool) (approve : Bool) (now i : ℕ) (rows : List EarnRequest)
    → tally (has_id i) (change_requests test (decide_as approve now) rows) ≡ tally (has_id i) rows
change_requests-has_id test approve now i [] = refl
change_requests-has_id test approve now i (r ∷ rows) =
    ground (arith, change_requests-has_id test approve now i rows)

change_requests-Linked :
    (users : List DeviceUser) (test : EarnRequest → Bool) (approve : Bool) (now : ℕ)
    (rows : List EarnRequest)
    → Linked users rows
    → Linked users (change_requests test (decide_as approve now) rows)
change_requests-Linked users test approve now [] l = tt
change_requests-Linked users test approve now (r ∷ rows) l =
    (ground (arith, l.0), change_requests-Linked users test approve now rows l.1)

settled-decides :
    (i : ℕ) (rows : List EarnRequest)
    → tally (decides i) (map settled (map (λ r. r.id) rows)) ≡ tally (has_id i) rows
settled-decides i [] = refl
settled-decides i (r ∷ rows) = ground (arith, settled-decides i rows)

pub Inv-recorded :
    {users : List DeviceUser} {rows : List EarnRequest} {f : ℕ → ℕ} (g : ℕ → ℕ)
    → ((i : ℕ) → g i ≡ f i)
    → Inv users rows f
    → Inv users rows g
Inv-recorded g e inv = record {
  keyed = inv.keyed;
  linked = inv.linked;
  once = λ i. rw (e i) (inv.once i);
}

-- Some pending rows are decided, and each decision is due.
pub decided-Inv :
    (test : EarnRequest → Bool) (approve : Bool) (now : ℕ) {users : List DeviceUser}
    (rows : List EarnRequest) (f more : ℕ → ℕ)
    → Waiting test
    → ((i : ℕ) → more i ≡ tally (has_id i) (keep test rows))
    → Inv users rows f
    → Inv users (change_requests test (decide_as approve now) rows) (λ i. f i + more i)
decided-Inv test approve now {users = users} rows f more w m inv = record {
  keyed = λ i. rw (change_requests-has_id test approve now i rows) (inv.keyed i);
  linked = change_requests-Linked users test approve now rows inv.linked;
  once = λ i.
      rw (change_requests-has_id test approve now i rows)
        (omega (arith, inv.once i, change_requests-waits test approve now i rows w, m i));
}

-- What is recorded in a household, with what is due.
abbrev pub Kept : (ℕ → ℕ) → Household → Type 0
Kept due h = Inv h.db.device_users h.requests (λ i. tally (decides i) h.events + due i)

pub settle-Kept :
    (tenant du : ℕ) (except : Option ℕ) (now : ℕ) (h : Household) (due : ℕ → ℕ)
    → Kept due h
    → Kept due (settle_pending_asks tenant du except now h).0
unfolding settle_pending_asks
settle-Kept tenant du except now h due inv =
    let test = is_waiting tenant du except h.db.device_users in
    let rows = keep test h.requests in
    let more = map settled (map (λ r. r.id) rows) in
    Inv-recorded (λ i. tally (decides i) (h.events ++ more) + due i)
      (λ i. rw (tally-append (decides i) h.events more) (omega arith))
      (decided-Inv test true now h.requests (λ i. tally (decides i) h.events + due i)
        (λ i. tally (decides i) more) (λ r e. ground (arith, e)) (λ i. settled-decides i rows) inv)

pub find_first-holds :
    (Q : EarnRequest → Type 0) (p : EarnRequest → Bool) (rows : List EarnRequest) (r : EarnRequest)
    → All Q rows
    → find_first p rows ≡ some r
    → (p r ≡ true) × Q r
find_first-holds Q p [] r a e = cc
find_first-holds Q p (x ∷ rows) r a e = elim (Bool-cases (p x)) [
  | inl h ↦ let same : x ≡ r = eq_of_some (rw h at e) in (rw⁻¹ same h, rw⁻¹ same a.0)
  | inr h ↦ find_first-holds Q p rows r a.1 (rw h at e)
]

tally-none :
    (id tenant i : ℕ) (rows : List EarnRequest)
    → tally (has_id id) rows ≡ 0
    → tally (has_id i) (keep (can_decide id tenant) rows) ≡ 0
tally-none id tenant i [] e = refl
tally-none id tenant i (x ∷ rows) e =
    let shut : can_decide id tenant x ≡ false = ground (arith, e) in
    rw shut (tally-none id tenant i rows (omega (arith, e)))

-- A row that is found under an id is the only one.
pub tally-found :
    (id tenant i : ℕ) (rows : List EarnRequest) (r : EarnRequest)
    → tally (has_id id) rows ≤ 1
    → find_first (can_decide id tenant) rows ≡ some r
    → (if r.id == i then 1 else 0) ≡ tally (has_id i) (keep (can_decide id tenant) rows)
tally-found id tenant i [] r k e = cc
tally-found id tenant i (x ∷ rows) r k e = elim (Bool-cases (can_decide id tenant x)) [
  | inl h ↦
      let same : x ≡ r = eq_of_some (rw h at e) in
      let none_left = tally-none id tenant i rows (ground (arith, k, h)) in
      rw h (rw⁻¹ same (omega (arith, none_left)))
  | inr h ↦ rw h (tally-found id tenant i rows r (omega (arith, k)) (rw h at e))
]
