-- ===== src/Client/Usage.antt =====
-- client/src/enforce/screentime.rs: the ledger of the day (`UsageTracker`) and the verdict. Counts
-- are `u32` and wrap around or saturate as the code's do in a release build; instants are
-- nanoseconds since the epoch, dates count days since then; the maps are lists of entries. Reading and
-- writing the ledger's file is left out.
pub mod History
pub mod Overrides
pub mod Grants
use openscreentime.Common.{
  ℕ, ◌+◌, ◌-◌, ◌*◌, ◌/◌, ◌%◌, ◌^◌, min, max, Bool, true, false, ◌&&◌, ◌||◌, not, Option, none, some,
  List, [], ◌∷◌, ltb, leb, ◌==◌, if◌then◌else◌, is_some, is_empty,
}
use openscreentime.Common.Text.{Text, codes, text_eq}
use openscreentime.Common.Int.{ℤ, pos, ◌-ℤ◌, div_euclid}
use openscreentime.Common.Maps.{Map, get, put, erase, retain, get_or}
use openscreentime.Policy.Document.{ScreenTime}
use openscreentime.Policy.Compiled.{StopReason, limit, bedtime, outside_hours, paused}
use openscreentime.Policy.Time.{Zone, hour, minute}
use openscreentime.Policy.Evaluate.{Day, Verdict}
use openscreentime.Policy.Evaluate
use openscreentime.Client.Clock.{TrustedClock, Reading, observe}

abbrev pub u32_max : ℕ
u32_max = 2 ^ 32 - 1

pub data LockReason : Type 0 where
  daily_limit : ℕ → ℕ → LockReason
  outside_window : LockReason
  bedtime_lock : LockReason

-- `LockReason::headline`.
abbrev pub headline : LockReason → Text
headline (daily_limit used_min limit_min) = codes "Stop"
headline outside_window = codes "Not now"
headline bedtime_lock = codes "Goodnight"

pub record Elsewhere : Type 0 where
  pub day : Option ℕ
  pub used_secs : ℕ
  pub earned_secs : ℕ
  pub earned_here_secs : ℕ

abbrev pub nothing_elsewhere : Elsewhere
nothing_elsewhere = record { day = none; used_secs = 0; earned_secs = 0; earned_here_secs = 0 }

pub data Grant : Type 0 where
  applied duplicate : Grant

pub record UsageTracker : Type 0 where
  pub day : Option ℕ
  pub used_secs : Map ℕ
  pub earned_secs : Map ℕ
  pub elsewhere : Map Elsewhere
  pub overrides : Map ℕ
  pub grants : Map ℕ
  pub snoozes : Map ℕ
  pub clock : TrustedClock

abbrev pub same_day : Option ℕ → ℕ → Bool
same_day none today = false
same_day (some d) today = d == today

-- Whether the accounting day is this one or a later one.
abbrev pub has_come : Option ℕ → ℕ → Bool
has_come none today = false
has_come (some d) today = leb today d

-- `roll_to`: the tracker, and whether a new day started.
unfoldable pub roll_to : ℕ → UsageTracker → UsageTracker × Bool
roll_to today t = if has_come t.day today then (t, false) else (
  record t {
    day = some today;
    used_secs = [];
    earned_secs = [];
    elsewhere = retain (λ e. same_day e.day today) t.elsewhere;
    snoozes = [];
    grants = retain (λ d. leb today (d + 2)) t.grants;
  },
  true,
)

-- `advance`: the trusted time, and the day rolled to its local date.
unfoldable pub advance : ℕ → Zone → Reading → UsageTracker → UsageTracker × ℕ
advance utc_now tz reading t =
    let (clock, now) = observe utc_now t.clock reading in
    ((roll_to (tz.naive_local now).date (record t { clock = clock })).0, now)

abbrev pub saturating_mul : ℕ → ℕ → ℕ
saturating_mul a b = min (a * b) u32_max

abbrev pub count_of : Text → Map ℕ → ℕ
count_of k m = get_or 0 (get k m)

unfoldable pub add_active : Text → ℕ → ℕ → UsageTracker → UsageTracker
add_active user real_secs accel t = record t {
  used_secs =
      put user ((count_of user t.used_secs + saturating_mul real_secs accel) % 2 ^ 32) t.used_secs;
}

unfoldable pub add_earned : Text → ℕ → UsageTracker → UsageTracker
add_earned user minutes t = record t {
  earned_secs =
      put user ((count_of user t.earned_secs + saturating_mul minutes 60) % 2 ^ 32) t.earned_secs;
}

unfoldable pub add_earned_secs : Text → ℕ → UsageTracker → UsageTracker
add_earned_secs user secs t = record t {
  earned_secs =
      put user (min (count_of user t.earned_secs + min secs u32_max) u32_max) t.earned_secs;
}

-- `set_override`: never shortens one that is running.
unfoldable pub set_override : Text → ℕ → UsageTracker → UsageTracker
set_override user until t =
    let e = get_or until (get user t.overrides) in
    record t { overrides = put user (if ltb e until then until else e) t.overrides }

-- `date_naive` of a UTC time.
abbrev pub utc_date : ℕ → ℕ
utc_date now = now / (24 * hour)

-- The id of a command is recorded with the day it landed.
unfoldable pub record_grant : Text → ℕ → UsageTracker → UsageTracker
record_grant id now t =
    if is_empty id then t else record t { grants = put id (get_or (utc_date now) t.day) t.grants }

-- `grant`.
unfoldable pub grant : Text → Text → ℕ → ℕ → UsageTracker → UsageTracker × Grant
grant id user minutes now t =
    if not (is_empty id) && is_some (get id t.grants) then (t, duplicate) else (
      set_override user (now + minutes * minute)
          (add_earned_secs user (minutes * 60) (record_grant id now t)),
      applied,
    )

-- An override that ends after `now`.
abbrev pub runs_at : ℕ → Option ℕ → Option ℕ
runs_at now none = none
runs_at now (some u) = if ltb now u then some u else none

-- `override_until`: an expired override is dropped.
unfoldable pub override_until : Text → ℕ → UsageTracker → UsageTracker × Option ℕ
override_until user now t = elim (get user t.overrides) [
  | none ↦ (t, none)
  | some u ↦
      if ltb now u then (t, some u) else (record t { overrides = erase user t.overrides }, none)
]

-- `snooze`: the tracker and the snoozes taken today.
unfoldable pub snooze : Text → ℕ → ℕ → UsageTracker → UsageTracker × ℕ
snooze user minutes now t =
    let n = (count_of user t.snoozes + 1) % 2 ^ 32 in
    (set_override user (now + minutes * minute) (record t { snoozes = put user n t.snoozes }), n)

-- `peek_override`.
unfoldable pub peek_override : Text → ℕ → UsageTracker → Option ℕ
peek_override user now t = runs_at now (get user t.overrides)

abbrev pub is_today : Option ℕ → Option ℕ → Bool
is_today none day = false
is_today (some d) none = false
is_today (some d) (some today) = d == today

-- `set_elsewhere` and `elsewhere_of`.
unfoldable pub set_elsewhere : Text → Elsewhere → UsageTracker → UsageTracker
set_elsewhere user e t =
    if is_today e.day t.day then record t { elsewhere = put user e t.elsewhere } else t

abbrev pub if_today : Option ℕ → Option Elsewhere → Elsewhere
if_today day none = nothing_elsewhere
if_today day (some e) = if is_today e.day day then e else nothing_elsewhere

unfoldable pub elsewhere_of : Text → UsageTracker → Elsewhere
elsewhere_of user t = if_today t.day (get user t.elsewhere)

unfoldable pub used_here_secs : Text → UsageTracker → ℕ
used_here_secs user t = count_of user t.used_secs

-- `day_for`: the person's whole day.
unfoldable pub day_for : Text → UsageTracker → Day
day_for user t =
    let e = elsewhere_of user t in
    record {
      used_secs = (used_here_secs user t + e.used_secs) % 2 ^ 64;
      earned_secs = (max (count_of user t.earned_secs) e.earned_here_secs + e.earned_secs) % 2 ^ 64;
    }

unfoldable pub used_minutes : Text → UsageTracker → ℕ
used_minutes user t = min ((day_for user t).used_secs / 60) u32_max

unfoldable pub earned_minutes : Text → UsageTracker → ℕ
earned_minutes user t = min ((day_for user t).earned_secs / 60) u32_max

-- `remaining_minutes`; the sums stay far below 2 ^ 63.
unfoldable pub remaining_minutes : Text → ScreenTime → UsageTracker → Option ℤ
remaining_minutes user st t =
    let d = day_for user t in
    if not st.enabled || st.daily_limit_minutes == 0
    then none
    else some
        (div_euclid (pos (st.daily_limit_minutes * 60 + d.earned_secs + 59) -ℤ pos d.used_secs) 60)

-- `verdict`: the rules, with this person's day and override.
unfoldable pub verdict : Zone → ScreenTime → UsageTracker → Text → ℕ → Bool → Option Verdict
verdict tz st t user now is_paused =
    Evaluate.evaluate tz st now (day_for user t) (peek_override user now t) is_paused

abbrev pub reason_of : Option StopReason → Text → ScreenTime → UsageTracker → Option LockReason
reason_of none user st t = none
reason_of (some bedtime) user st t = some bedtime_lock
reason_of (some outside_hours) user st t = some outside_window
reason_of (some limit) user st t =
    some (
      daily_limit (used_minutes user t) ((st.daily_limit_minutes + earned_minutes user t) % 2 ^ 32))
reason_of (some paused) user st t = none

-- `lock_reason`.
unfoldable pub lock_reason : Verdict → UsageTracker → Text → ScreenTime → Option LockReason
lock_reason v t user st = if v.allowed then none else reason_of v.reason user st t

-- `evaluate`; `none` outside would mean that the rules gave no verdict.
unfoldable pub evaluate : Zone → ScreenTime → UsageTracker → Text → ℕ → Option (Option LockReason)
evaluate tz st t user now = elim (verdict tz st t user now false) [
  | none ↦ none
  | some v ↦ some (lock_reason v t user st)
]
