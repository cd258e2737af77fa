-- ===== src/Client/Usage/Overrides.antt =====
-- An override that was given, and the verdict while it runs.
use openscreentime.Common.{
  ℕ, ◌+◌, ◌*◌, ◌<◌, ◌≡◌, ◌∙◌, inl, inr, Bool, true, false, ◌&&◌, not, Option, none, some, List, [],
  ◌∷◌, arith, ltb, leb, is_some, is_empty, ◌%◌, ◌^◌, if◌then◌else◌, Bool-cases, All,
}
use openscreentime.Common.Text.{Text, text_eq, text_eq→eq}
use openscreentime.Common.Maps.{get, put, get_or, get-put, get-put_other, get-erase_other}
use openscreentime.Policy.Document.{ScreenTime}
use openscreentime.Policy.Time.{Zone, IsZone, minute}
use openscreentime.Policy.Evaluate.{Verdict, before}
use openscreentime.Policy.Evaluate.Answers.{evaluate_total, evaluate-allowed}
use openscreentime.Client.Usage.{
  UsageTracker, applied, roll_to, advance, add_active, add_earned, add_earned_secs, set_override,
  record_grant, grant, override_until, snooze, set_elsewhere, peek_override, day_for, verdict,
  count_of,
}
use openscreentime.Client.Usage.History.{
  Op, advancing, active, earned, granted, overridden, asked, snoozed, reported, step, runs,
}

-- An override that ends at u or later.
abbrev lasts : ℕ → Option ℕ → Bool
lasts u none = false
lasts u (some v) = leb u v

abbrev Lasts : Text → ℕ → UsageTracker → Type 0
Lasts user u t = lasts u (get user t.overrides) ≡ true

-- The end that `set_override` writes.
abbrev raised : ℕ → Option ℕ → ℕ
raised until o = let e = get_or until o in if ltb e until then until else e

raised_kept :
    (u until : ℕ) (o : Option ℕ) → lasts u o ≡ true → lasts u (some (raised until o)) ≡ true
raised_kept u until none h = ground arith
raised_kept u until (some v) h = ground arith

raised_new : (until : ℕ) (o : Option ℕ) → lasts until (some (raised until o)) ≡ true
raised_new until none = ground arith
raised_new until (some v) = ground arith

set_override-Lasts :
    (user : Text) (u : ℕ) (w : Text) (until : ℕ) (t : UsageTracker)
    → Lasts user u t
    → Lasts user u (set_override w until t)
unfolding set_override
set_override-Lasts user u w until t h = elim (Bool-cases (text_eq w user)) [
  | inl e ↦
      let o = get user t.overrides in
      rw (text_eq→eq w user e, get-put user (raised until o) t.overrides) (raised_kept u until o h)
  | inr e ↦ rw (get-put_other w user (raised until (get w t.overrides)) t.overrides e) h
]

set_override_itself :
    (user : Text) (until : ℕ) (t : UsageTracker) → Lasts user until (set_override user until t)
unfolding set_override
set_override_itself user until t =
    let o = get user t.overrides in
    rw (get-put user (raised until o) t.overrides) (raised_new until o)

override_until-Lasts :
    (user : Text) (u : ℕ) (w : Text) (now : ℕ) (t : UsageTracker)
    → now < u
    → Lasts user u t
    → Lasts user u (override_until w now t).0
unfolding override_until
override_until-Lasts user u w now t lt h = elim (Bool-cases (text_eq w user)) [
  | inl e ↦ rw (text_eq→eq w user e) (ground arith)
  | inr e ↦ ground (arith, get-erase_other w user t.overrides e)
]

-- A question for an override is asked before u; the other operations have no say.
abbrev pub AskedBefore : ℕ → Op → Type 0
AskedBefore u (asked user now) = now < u
AskedBefore u _ = Unit {0}

grant-Lasts :
    (user : Text) (u : ℕ) (i w : Text) (minutes now : ℕ) (t : UsageTracker)
    → Lasts user u t
    → Lasts user u (grant i w minutes now t).0
unfolding grant
grant-Lasts user u i w minutes now t h =
    elim (Bool-cases (not (is_empty i) && is_some (get i t.grants))) [
      | inl e ↦ rw e h
      | inr e ↦
          let t' = add_earned_secs w (minutes * 60) (record_grant i now t) in
          let h' : Lasts user u t' = unfold add_earned_secs record_grant in ground (arith, h) in
          rw e (set_override-Lasts user u w (now + minutes * minute) t' h')
    ]

step-Lasts :
    (user : Text) (u : ℕ) (op : Op) (t : UsageTracker)
    → AskedBefore u op
    → Lasts user u t
    → Lasts user u (step op t)
unfolding step advance roll_to add_active add_earned snooze set_elsewhere
step-Lasts user u (advancing utc_now tz reading) t b h = ground (arith, h)
step-Lasts user u (active w real_secs accel) t b h = h
step-Lasts user u (earned w minutes) t b h = h
step-Lasts user u (granted i w minutes now) t b h = grant-Lasts user u i w minutes now t h
step-Lasts user u (overridden w until) t b h = set_override-Lasts user u w until t h
step-Lasts user u (asked w now) t b h = override_until-Lasts user u w now t b h
step-Lasts user u (snoozed w minutes now) t b h =
    set_override-Lasts user u w (now + minutes * minute)
      (record t { snoozes = put w ((count_of w t.snoozes + 1) % 2 ^ 32) t.snoozes }) h
step-Lasts user u (reported w e) t b h = ground (arith, h)

runs-Lasts :
    (user : Text) (u : ℕ) (ops : List Op) (t : UsageTracker)
    → All (AskedBefore u) ops
    → Lasts user u t
    → Lasts user u (runs ops t)
unfolding runs
runs-Lasts user u [] t b h = h
runs-Lasts user u (op ∷ ops) t b h =
    runs-Lasts user u ops (step op t) b.1 (step-Lasts user u op t b.0 h)

grant_itself :
    (i user : Text) (minutes now : ℕ) (t : UsageTracker)
    → (grant i user minutes now t).1 ≡ applied
    → Lasts user (now + minutes * minute) (grant i user minutes now t).0
unfolding grant
grant_itself i user minutes now t first =
    elim (Bool-cases (not (is_empty i) && is_some (get i t.grants))) [
      | inl e ↦ cc (rw e at first)
      | inr e ↦ rw e (
          set_override_itself user (now + minutes * minute)
            (add_earned_secs user (minutes * 60) (record_grant i now t)))
    ]

before-peek_override :
    (user : Text) (u at : ℕ) (t : UsageTracker)
    → Lasts user u t
    → at < u
    → before at (peek_override user at t) ≡ true
unfolding peek_override
before-peek_override user u at t h lt = ground arith

-- A parent's "+N minutes" is kept: once it is applied, whatever else happens to the ledger, at every
-- moment before the N minutes are over the rules give a verdict, and it lets the person use the
-- screen, unless the computer is paused. The agent asks for the override at earlier moments only.
pub grant-allowed :
    (tz : Zone) (st : ScreenTime) (i user : Text) (minutes now at : ℕ) (t : UsageTracker)
    (ops : List Op)
    → IsZone tz
    → (grant i user minutes now t).1 ≡ applied
    → All (AskedBefore (now + minutes * minute)) ops
    → at < now + minutes * minute
    → (v : Verdict) × (verdict tz st (runs ops (grant i user minutes now t).0) user at false
        ≡ some v)
      × (v.allowed ≡ true)
unfolding verdict
grant-allowed tz st i user minutes now at t ops z first b lt =
    let u = now + minutes * minute in
    let t' = runs ops (grant i user minutes now t).0 in
    let h =
      runs-Lasts user u ops (grant i user minutes now t).0 b
        (grant_itself i user minutes now t first) in
    let open_until = before-peek_override user u at t' h lt in
    let (v, e) = evaluate_total tz z st at (day_for user t') (peek_override user at t') false in
    (
      v,
      e,
      evaluate-allowed tz z st at (day_for user t') (peek_override user at t') false v e
          ∙ ground (arith, open_until),
    )
