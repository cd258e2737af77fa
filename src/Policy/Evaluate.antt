-- ===== src/Policy/Evaluate.antt =====
-- policy/src/rules.rs: `evaluate`, `resume_at`, `next_minute` and `minutes_until`. An instant is a
-- number of nanoseconds since the epoch, so times before 1970 are left out; the casts of the day's
-- seconds to `i64` are exact below 2 ^ 63 and so is the product with 1000 below 2 ^ 53, and the
-- model reads them as the numbers that they stand for. A subtraction that the code clamps at 0, or
-- makes only where it is positive, is the truncated one.

pub mod Rounds
pub mod Walks
pub mod Resume
pub mod Verdicts
pub mod Budget
pub mod Answers
pub mod Promises
use openscreentime.Common.{
  ℕ, zero, suc, ◌+◌, ◌-◌, ◌*◌, ◌/◌, ◌%◌, ◌^◌, Bool, true, false, ◌&&◌, not, Option, none, some, ltb,
  leb, ◌==◌, if◌then◌else◌, is_some,
}
use mathlib.Core.Option
use openscreentime.Policy.Document.{ScreenTime}
use openscreentime.Policy.Compiled.{
  StopReason, limit, paused, Compiled, compile, limit_secs, clock_reason,
}
use openscreentime.Policy.Time.{Zone, milli, second, hour}

abbrev pub horizon_hours : ℕ
horizon_hours = 48

pub record Day : Type 0 where
  pub used_secs : ℕ
  pub earned_secs : ℕ

pub record Verdict : Type 0 where
  pub allowed : Bool
  pub reason : Option StopReason
  pub stop_at : Option ℕ
  pub minutes_left : Option ℕ
  pub resume_at : Option ℕ
  pub override_active : Bool
  pub budget_left_secs : Option ℕ

unfoldable pub minutes_until : ℕ → ℕ → ℕ
minutes_until a b = let m = ((b - a) / second + 59) / 60 in if ltb m (2 ^ 32) then m else 2 ^ 32 - 1

unfoldable pub next_minute : Zone → ℕ → ℕ
next_minute z t =
    let ts = t / second in
    elim (z.timestamp_opt (ts - ts % 60 + 60)) [ some u ↦ u | none ↦ t + (60 - ts % 60) * second ]

-- `Option::is_some_and` and `Option::filter` at the tests that the code makes.
abbrev pub reached : Option ℕ → ℕ → Bool
reached none used = false
reached (some b) used = leb b used

abbrev pub before : ℕ → Option ℕ → Bool
before t none = false
before t (some e) = ltb t e

-- What `evaluate` reads: the compiled rules, the zone of `now`, and the person's day.
pub record Query : Type 0 where
  pub rules : Compiled
  pub zone : Zone
  pub now : ℕ
  pub day : Day
  pub override_until : Option ℕ

module _ (q : Query) where
  open q use {rules, zone, now, day, override_until}

  abbrev pub horizon : ℕ
  horizon = now + horizon_hours * hour

  abbrev pub clock_at : ℕ → Option StopReason
  clock_at t = clock_reason rules (zone.naive_local t)

  -- The loop of `resume_at`; `none` outside means that the fuel ran out.
  unfoldable pub resume_walk : ℕ → ℕ → ℕ → Bool → Option (Option ℕ)
  resume_walk zero t prev spent = none
  resume_walk (suc fuel) t prev spent =
      let spent' =
        if (zone.naive_local t).date == (zone.naive_local prev).date then spent else false in
      let later = resume_walk fuel (next_minute zone t) t spent' in
      if ltb horizon t
      then some none
      else if not spent' && not (is_some (clock_at t))
      then some (some t)
      else later

  -- A minute each, and one round to see the horizon passed.
  abbrev pub resume_fuel : ℕ
  resume_fuel = 2882

  abbrev pub spent_now : Bool
  spent_now = elim (limit_secs rules) [
    | none ↦ false
    | some l ↦ leb (l + day.earned_secs) day.used_secs
  ]

  unfoldable pub resume_at : Option (Option ℕ)
  unfolding resume_walk next_minute
  resume_at = resume_walk resume_fuel (next_minute zone now) now spent_now

  -- The end of an override that has not ended.
  unfoldable pub override_end : Option ℕ
  override_end = elim override_until [ none ↦ none | some u ↦ if ltb now u then some u else none ]

  abbrev pub override_now : Bool
  override_now = is_some override_end

  abbrev pub budget_left : Option ℕ
  budget_left = elim (limit_secs rules) [
    | none ↦ none
    | some l ↦ some (l + day.earned_secs - day.used_secs)
  ]

  abbrev pub stopped : StopReason → Option ℕ → Verdict
  stopped why back = record {
    allowed = false;
    reason = some why;
    stop_at = some now;
    minutes_left = some 0;
    resume_at = back;
    override_active = override_now;
    budget_left_secs = budget_left;
  }

  abbrev pub upcoming : StopReason → ℕ → Verdict
  upcoming why at = record {
    allowed = true;
    reason = some why;
    stop_at = some at;
    minutes_left = some (minutes_until now at);
    resume_at = none;
    override_active = override_now;
    budget_left_secs = budget_left;
  }

  abbrev pub unstopped : Verdict
  unstopped = record {
    allowed = true;
    reason = none;
    stop_at = none;
    minutes_left = none;
    resume_at = none;
    override_active = override_now;
    budget_left_secs = budget_left;
  }

  -- `clock_reason(..).or_else(..)`: why the person is stopped at an instant, use and budget in ms.
  unfoldable pub reason_at : ℕ → ℕ → Option ℕ → Option StopReason
  reason_at t used budget = elim (clock_at t) [
    | some why ↦ some why
    | none ↦ if reached budget used then some limit else none
  ]

  -- Where a round of the walk goes: the next minute, cut at the override's end and the horizon.
  unfoldable pub round_end : ℕ → ℕ
  round_end t =
      let whole = next_minute zone t in
      let cut : ℕ = elim override_end [
        | none ↦ whole
        | some e ↦ if ltb t e && ltb e whole then e else whole
      ] in
      if ltb horizon cut then horizon else cut

  -- The budget that runs out within the round, and when.
  unfoldable pub runs_out : ℕ → ℕ → Option ℕ → Option ℕ
  runs_out t used none = none
  runs_out t used (some b) =
      let at = t + (b - used) * milli in
      if not (before t override_end) && ltb at (round_end t) then some at else none

  abbrev pub date_of : ℕ → ℕ
  date_of t = (zone.naive_local t).date

  -- The variables of the walk.
  pub record Walk : Type 0 where
    pub t : ℕ
    pub used : ℕ
    pub budget : Option ℕ

  abbrev pub fresh_budget : Option ℕ
  fresh_budget = elim (limit_secs rules) [ none ↦ none | some l ↦ some (l * 1000) ]

  -- The use and the budget at the end of a round: a new local date starts both afresh.
  unfoldable pub next_round : Walk → Walk
  next_round w =
      let next = round_end w.t in
      if date_of next == date_of w.t
      then record { t = next; used = w.used + (next - w.t) / milli; budget = w.budget }
      else record { t = next; used = 0; budget = fresh_budget }

  pub data Turn : Type 0 where
    stop : StopReason → ℕ → Turn
    no_stop : Turn
    on : Walk → Turn

  -- What stops the person at the start of a round, outside an override.
  unfoldable pub due : Walk → Option StopReason
  due w = if before w.t override_end then none else reason_at w.t w.used w.budget

  pub after_budget : Walk → Option ℕ → Turn
  after_budget w none = on (next_round w)
  after_budget w (some at) = stop limit at

  pub after_due : Walk → Option StopReason → Turn
  after_due w (some why) = stop why w.t
  after_due w none =
      if leb horizon w.t then no_stop else after_budget w (runs_out w.t w.used w.budget)

  -- One round of the loop: what is due, the horizon, the budget, and the next minute.
  unfoldable pub turn : Walk → Turn
  unfolding after_budget after_due
  turn w = after_due w (due w)

  -- The loop; `none` means that the fuel ran out.
  unfoldable pub walk : ℕ → Walk → Option Turn
  walk zero w = none
  walk (suc fuel) w = elim (turn w) [
    | stop why at ↦ some (stop why at)
    | no_stop ↦ some no_stop
    | on w' ↦ walk fuel w'
  ]

  -- 2880 minutes, the first part of one, a cut at the override's end, and a round to stop.
  abbrev pub walk_fuel : ℕ
  walk_fuel = 2884

  abbrev pub start : Walk
  start = record {
    t = now;
    used = day.used_secs * 1000;
    budget = elim (limit_secs rules) [ none ↦ none | some l ↦ some ((l + day.earned_secs) * 1000) ];
  }

  -- A stop found at `now` itself is the person's state; a later one is upcoming.
  unfoldable pub verdict_of : Turn → Option Verdict
  verdict_of (stop why at) =
      if at == now then Option.map (stopped why) resume_at else some (upcoming why at)
  verdict_of no_stop = some unstopped
  verdict_of (on w) = none

  -- `evaluate`, once the rules are compiled.
  unfoldable pub answer : Bool → Option Verdict
  answer true = some (stopped paused none)
  answer false = elim (walk walk_fuel start) [ none ↦ none | some o ↦ verdict_of o ]

-- `evaluate`: `none` would mean that the model ran out of fuel.
unfoldable pub evaluate : Zone → ScreenTime → ℕ → Day → Option ℕ → Bool → Option Verdict
unfolding answer resume_at override_end verdict_of walk turn due next_round runs_out round_end
    reason_at next_minute clock_reason compile
evaluate z st now day override_until is_paused =
    answer
      (record {
        rules = compile st;
        zone = z;
        now = now;
        day = day;
        override_until = override_until;
      })
      is_paused
