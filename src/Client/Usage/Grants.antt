-- ===== src/Client/Usage/Grants.antt =====
-- A command that the server sends twice.
use openscreentime.Common.{
  ℕ, ◌+◌, ◌≡◌, refl, inl, inr, true, false, some, List, [], ◌∷◌, arith, leb, is_some, is_empty,
  Bool-cases,
}
use openscreentime.Common.Text.{Text, text_eq, text_eq→eq}
use openscreentime.Common.Maps.{get, get_or, get-put, get-put_other, get-retain}
use openscreentime.Client.Clock.{observe}
use openscreentime.Client.Usage.{
  UsageTracker, applied, duplicate, roll_to, advance, add_active, add_earned, add_earned_secs,
  set_override, record_grant, grant, override_until, snooze, set_elsewhere, utc_date,
}
use openscreentime.Client.Usage.History.{
  Op, advancing, active, earned, granted, overridden, asked, snoozed, reported, step, runs,
  no_later, no_later_trans, runs_forward,
}

-- The id is known to have landed on the day d.
abbrev Known : Text → ℕ → UsageTracker → Type 0
Known id d t = get id t.grants ≡ some d

roll_to-Known :
    (id : Text) (d today : ℕ) (t : UsageTracker)
    → Known id d t
    → no_later (roll_to today t).0.day (some (d + 2)) ≡ true
    → Known id d (roll_to today t).0
unfolding roll_to
roll_to-Known id d today t k h = ground (arith, get-retain (λ e. leb today (e + 2)) id d t.grants k)

-- An id that is not known is another one.
unknown :
    (id : Text) (d : ℕ) (i : Text) (t : UsageTracker)
    → Known id d t
    → is_some (get i t.grants) ≡ false
    → text_eq i id ≡ false
unknown id d i t k new = elim (Bool-cases (text_eq i id)) [
  | inl e ↦
      let absent : is_some (get id t.grants) ≡ false = rw (text_eq→eq i id e) at new in
      let known : is_some (get id t.grants) ≡ true = rw k refl in cc (absent, known)
  | inr e ↦ e
]

grant-Known :
    (id : Text) (d : ℕ) (i user : Text) (minutes now : ℕ) (t : UsageTracker)
    → Known id d t
    → Known id d (grant i user minutes now t).0
unfolding grant record_grant add_earned_secs set_override
grant-Known id d i user minutes now t k = elim (Bool-cases (is_some (get i t.grants))) [
  | inl e ↦ ground (arith, k)
  | inr e ↦
      let other = unknown id d i t k e in
      let kept = get-put_other i id (get_or (utc_date now) t.day) t.grants other in
      ground (arith, k, kept)
]

step-Known :
    (id : Text) (d : ℕ) (op : Op) (t : UsageTracker)
    → Known id d t
    → no_later (step op t).day (some (d + 2)) ≡ true
    → Known id d (step op t)
unfolding step advance add_active add_earned set_override override_until snooze set_elsewhere
step-Known id d (advancing utc_now tz reading) t k h =
    let now = (observe utc_now t.clock reading).1 in
    roll_to-Known id d (tz.naive_local now).date
      (record t { clock = (observe utc_now t.clock reading).0 }) k h
step-Known id d (active u real_secs accel) t k h = k
step-Known id d (earned u minutes) t k h = k
step-Known id d (granted i u minutes now) t k h = grant-Known id d i u minutes now t k
step-Known id d (overridden u until) t k h = k
step-Known id d (asked u now) t k h = ground (arith, k)
step-Known id d (snoozed u minutes now) t k h = k
step-Known id d (reported u e) t k h = ground (arith, k)

runs-Known :
    (id : Text) (d : ℕ) (ops : List Op) (t : UsageTracker)
    → Known id d t
    → no_later (runs ops t).day (some (d + 2)) ≡ true
    → Known id d (runs ops t)
unfolding runs
runs-Known id d [] t k h = k
runs-Known id d (op ∷ ops) t k h =
    let t' = step op t in
    let h' = no_later_trans t'.day (runs ops t').day (some (d + 2)) (runs_forward ops t') h in
    runs-Known id d ops t' (step-Known id d op t k h') h

grant_records :
    (id user : Text) (minutes now d : ℕ) (t : UsageTracker)
    → is_empty id ≡ false
    → t.day ≡ some d
    → (grant id user minutes now t).1 ≡ applied
    → Known id d (grant id user minutes now t).0
unfolding grant record_grant add_earned_secs set_override
grant_records id user minutes now d t named day first =
    ground (arith, get-put id (get_or (utc_date now) t.day) t.grants)

grant_again :
    (id user : Text) (minutes now d : ℕ) (t : UsageTracker)
    → is_empty id ≡ false
    → Known id d t
    → grant id user minutes now t ≡ (t, duplicate)
unfolding grant
grant_again id user minutes now d t named k = rw (named, k) refl

-- A grant that was applied under an id is credited once: whatever happens afterwards, until the
-- accounting day is more than two days later a grant under the same id changes nothing and is
-- answered as a duplicate, whoever it is for.
pub grant-duplicate :
    (id user : Text) (minutes now d : ℕ) (t : UsageTracker) (ops : List Op) (user' : Text)
    (minutes' now' : ℕ)
    → is_empty id ≡ false
    → t.day ≡ some d
    → (grant id user minutes now t).1 ≡ applied
    → no_later (runs ops (grant id user minutes now t).0).day (some (d + 2)) ≡ true
    → let t' = runs ops (grant id user minutes now t).0 in
      grant id user' minutes' now' t' ≡ (t', duplicate)
grant-duplicate id user minutes now d t ops user' minutes' now' named day first near =
    let t1 = (grant id user minutes now t).0 in
    let k = runs-Known id d ops t1 (grant_records id user minutes now d t named day first) near in
    grant_again id user' minutes' now' d (runs ops t1) named k
