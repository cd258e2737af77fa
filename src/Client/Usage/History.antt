-- ===== src/Client/Usage/History.antt =====
-- The operations of the ledger as one type, and what any sequence of them does to a day.
use openscreentime.Common.{
  ℕ, ◌+◌, ◌%◌, ◌^◌, ◌<◌, ◌≡◌, refl, sym, ap, ◌∙◌, inl, inr, Bool, true, false, Option, none, some,
  List, [], ◌∷◌, arith, leb, if◌then◌else◌, Bool-cases,
}
use openscreentime.Common.Text.{Text, text_eq, text_eq→eq}
use openscreentime.Common.Maps.{get-put, get-put_other}
use openscreentime.Policy.Time.{Zone}
use openscreentime.Client.Clock.{Reading, observe}
use openscreentime.Client.Usage.{
  UsageTracker, Elsewhere, roll_to, advance, add_active, add_earned, add_earned_secs, set_override,
  record_grant, grant, override_until, snooze, set_elsewhere, used_here_secs, count_of,
  saturating_mul,
}

-- One call of the agent on the ledger.
pub data Op : Type 0 where
  advancing : ℕ → Zone → Reading → Op
  active : Text → ℕ → ℕ → Op
  earned : Text → ℕ → Op
  granted : Text → Text → ℕ → ℕ → Op
  overridden : Text → ℕ → Op
  asked : Text → ℕ → Op
  snoozed : Text → ℕ → ℕ → Op
  reported : Text → Elsewhere → Op

unfoldable pub step : Op → UsageTracker → UsageTracker
step (advancing utc_now tz reading) t = (advance utc_now tz reading t).0
step (active user real_secs accel) t = add_active user real_secs accel t
step (earned user minutes) t = add_earned user minutes t
step (granted id user minutes now) t = (grant id user minutes now t).0
step (overridden user until) t = set_override user until t
step (asked user now) t = (override_until user now t).0
step (snoozed user minutes now) t = (snooze user minutes now t).0
step (reported user e) t = set_elsewhere user e t

unfoldable pub runs : List Op → UsageTracker → UsageTracker
runs [] t = t
runs (op ∷ ops) t = runs ops (step op t)

-- No day comes before no day at all.
abbrev pub no_later : Option ℕ → Option ℕ → Bool
no_later none d = true
no_later (some a) none = false
no_later (some a) (some b) = leb a b

pub no_later_refl : (a : Option ℕ) → no_later a a ≡ true
no_later_refl none = refl
no_later_refl (some a) = ground arith

pub no_later_trans :
    (a b c : Option ℕ) → no_later a b ≡ true → no_later b c ≡ true → no_later a c ≡ true
no_later_trans none b c h k = refl
no_later_trans (some a) none c h k = ground arith
no_later_trans (some a) (some b) none h k = ground arith
no_later_trans (some a) (some b) (some c) h k = ground arith

-- What an operation bills to a person, in seconds.
abbrev pub bills : Text → Op → ℕ
bills user (active u real_secs accel) = if text_eq u user then saturating_mul real_secs accel else 0
bills user _ = 0

abbrev pub billed : Text → List Op → ℕ
billed user [] = 0
billed user (op ∷ ops) = bills user op + billed user ops

-- An operation moves the day forward, or keeps it and adds what it bills.
pub record Keeps (user : Text) (op : Op) (t : UsageTracker) : Type 0 where
  pub forward : no_later t.day (step op t).day ≡ true
  pub adds :
      (step op t).day ≡ t.day
      → used_here_secs user t + bills user op < 2 ^ 32
      → used_here_secs user (step op t) ≡ used_here_secs user t + bills user op

roll_to_day :
    (today : ℕ) (t : UsageTracker)
    → (no_later t.day (roll_to today t).0.day ≡ true)
      × ((roll_to today t).0.day ≡ t.day → (roll_to today t).0.used_secs ≡ t.used_secs)
unfolding roll_to
roll_to_day today t = (ground arith, λ h. ground arith)

advancing-Keeps :
    (user : Text) (utc_now : ℕ) (tz : Zone) (reading : Reading) (t : UsageTracker)
    → Keeps user (advancing utc_now tz reading) t
unfolding step advance used_here_secs
advancing-Keeps user utc_now tz reading t =
    let now = (observe utc_now t.clock reading).1 in
    let t' : UsageTracker = record t { clock = (observe utc_now t.clock reading).0 } in
    let (f, same) = roll_to_day (tz.naive_local now).date t' in
    record { forward = f; adds = λ h small. rw (same h) (omega arith) }

add_active_mine :
    (user : Text) (real_secs accel : ℕ) (t : UsageTracker)
    → used_here_secs user t + saturating_mul real_secs accel < 2 ^ 32
    → used_here_secs user (add_active user real_secs accel t)
      ≡ used_here_secs user t + saturating_mul real_secs accel
unfolding add_active used_here_secs
add_active_mine user real_secs accel t small =
    let sum = (count_of user t.used_secs + saturating_mul real_secs accel) % 2 ^ 32 in
    rw (get-put user sum t.used_secs) (omega arith)

add_active_other :
    (user u : Text) (real_secs accel : ℕ) (t : UsageTracker)
    → text_eq u user ≡ false
    → used_here_secs user (add_active u real_secs accel t) ≡ used_here_secs user t
unfolding add_active used_here_secs
add_active_other user u real_secs accel t e =
    let sum = (count_of u t.used_secs + saturating_mul real_secs accel) % 2 ^ 32 in
    rw (get-put_other u user sum t.used_secs e) refl

active-Keeps :
    (user u : Text) (real_secs accel : ℕ) (t : UsageTracker)
    → Keeps user (active u real_secs accel) t
unfolding step
active-Keeps user u real_secs accel t = record {
  forward = unfold add_active in no_later_refl t.day;
  adds = λ h small. elim (Bool-cases (text_eq u user)) [
    | inl e ↦
        let less : used_here_secs user t + saturating_mul real_secs accel < 2 ^ 32 =
          rw e at small in
        rw (e, text_eq→eq u user e) (add_active_mine user real_secs accel t less)
    | inr e ↦ rw (e, add_active_other user u real_secs accel t e) (omega arith)
  ];
}

other-Keeps :
    (user : Text) (op : Op) (t : UsageTracker)
    → (step op t).day ≡ t.day
    → (step op t).used_secs ≡ t.used_secs
    → bills user op ≡ 0
    → Keeps user op t
unfolding used_here_secs
other-Keeps user op t d u b = record {
  forward = rw d (no_later_refl t.day);
  adds = λ h small. rw (u, b) (omega arith);
}

step-Keeps : (user : Text) (op : Op) (t : UsageTracker) → Keeps user op t
unfolding step add_earned grant record_grant add_earned_secs set_override override_until snooze
    set_elsewhere
step-Keeps user (advancing utc_now tz reading) t = advancing-Keeps user utc_now tz reading t
step-Keeps user (active u real_secs accel) t = active-Keeps user u real_secs accel t
step-Keeps user (earned u minutes) t = other-Keeps user (earned u minutes) t refl refl refl
step-Keeps user (granted id u minutes now) t =
    other-Keeps user (granted id u minutes now) t (ground arith) (ground arith) refl
step-Keeps user (overridden u until) t = other-Keeps user (overridden u until) t refl refl refl
step-Keeps user (asked u now) t =
    other-Keeps user (asked u now) t (ground arith) (ground arith) refl
step-Keeps user (snoozed u minutes now) t =
    other-Keeps user (snoozed u minutes now) t refl refl refl
step-Keeps user (reported u e) t =
    other-Keeps user (reported u e) t (ground arith) (ground arith) refl

pub runs_forward : (ops : List Op) (t : UsageTracker) → no_later t.day (runs ops t).day ≡ true
unfolding runs
runs_forward [] t = no_later_refl t.day
runs_forward (op ∷ ops) t =
    let k = step-Keeps [] op t in
    no_later_trans t.day (step op t).day (runs ops (step op t)).day k.forward
      (runs_forward ops (step op t))

no_later_antisym : (a b : Option ℕ) → no_later a b ≡ true → no_later b a ≡ true → b ≡ a
no_later_antisym none none h k = refl
no_later_antisym none (some b) h k = ground arith
no_later_antisym (some a) none h k = ground arith
no_later_antisym (some a) (some b) h k = ap (λ x. some x) (ground arith)

first_keeps :
    (op : Op) (ops : List Op) (t : UsageTracker)
    → (runs ops (step op t)).day ≡ t.day
    → (step op t).day ≡ t.day
first_keeps op ops t h =
    let k = step-Keeps [] op t in
    let back : no_later (step op t).day t.day ≡ true = rw h at (runs_forward ops (step op t)) in
    no_later_antisym t.day (step op t).day k.forward back

-- As long as the day does not change, the use recorded for a person is what it was and every second
-- billed since, whatever else happens to the ledger: no clock reading, grant, snooze or report gives
-- time back. The seconds are fewer than 2 ^ 32.
pub runs-used_here_secs :
    (user : Text) (ops : List Op) (t : UsageTracker)
    → used_here_secs user t + billed user ops < 2 ^ 32
    → (runs ops t).day ≡ t.day
    → used_here_secs user (runs ops t) ≡ used_here_secs user t + billed user ops
unfolding runs
runs-used_here_secs user [] t small h = omega arith
runs-used_here_secs user (op ∷ ops) t small h =
    let same = first_keeps op ops t h in
    let now = (step-Keeps user op t).adds same (omega arith) in
    let less : used_here_secs user (step op t) + billed user ops < 2 ^ 32 = omega (arith, now) in
    let rest = runs-used_here_secs user ops (step op t) less (h ∙ sym same) in
    omega (arith, now, rest)
