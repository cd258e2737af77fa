-- ===== src/Policy/Tests/Runs.antt =====
-- Runs of the rules on concrete inputs.
use openscreentime.Common.{
  ℕ, ◌+◌, ◌-◌, ◌*◌, ◌/◌, ◌%◌, ◌≡◌, refl, ap, arith, true, false, none, some, [], ◌∷◌,
}
use openscreentime.Common.Text.{codes}
use openscreentime.Policy.Document.{ScreenTime}
use openscreentime.Policy.Hm.{parse_hm, span}
use openscreentime.Policy.Compiled.{
  LocalTime, limit, bedtime, outside_hours, limit_secs, inside, add_windows, add_days, add_day,
}
use openscreentime.Policy.Time.{Zone, IsZone, second, minute, hour}
use openscreentime.Policy.Evaluate.{evaluate, minutes_until}

-- A zone two hours east of UTC; 1970-01-01 was a Thursday.
abbrev pub east : Zone
east = record {
  naive_local = λ t.
      let m = t / minute + 120 in
      record { date = m / 1440; weekday = (m / 1440 + 4) % 7; hour = m / 60 % 24; minute = m % 60 };
  timestamp_opt = λ s. some (s * second);
}

pub east-IsZone : IsZone east
east-IsZone = record {
  hour_lt = λ t. omega arith;
  minute_lt = λ t. omega arith;
  weekday_lt = λ t. omega arith;
  same_minute = λ t u e. ap of_minute e;
  of_timestamp = λ s. refl;
}
  where
    of_minute : ℕ → LocalTime
    of_minute k =
        let m = k + 120 in
        record {
          date = m / 1440;
          weekday = (m / 1440 + 4) % 7;
          hour = m / 60 % 24;
          minute = m % 60;
        }

-- 2026-09-21, a Monday, at local midnight.
abbrev pub monday : ℕ
monday = 20717 * 24 * hour - 2 * hour

abbrev pub at : ℕ → ℕ → ℕ
at h m = monday + h * hour + m * minute

abbrev pub sixty : ScreenTime
sixty = record {
  enabled = true;
  daily_limit_minutes = 60;
  schedule =
      record { days = 1 ∷ 2 ∷ 3 ∷ 4 ∷ 5 ∷ []; start = codes "07:00"; end = codes "20:00" } ∷ [];
  bedtime = some (record { start = codes "21:00"; end = codes "07:00" });
}

parse_hm_padded : parse_hm (codes " 07:30 ") ≡ some 450
unfolding parse_hm
parse_hm_padded = refl

pub noon :
    evaluate east sixty (at 12 0) (record { used_secs = 1800; earned_secs = 0 }) none false
    ≡ some (record {
      allowed = true;
      reason = some limit;
      stop_at = some (at 12 30);
      minutes_left = some 30;
      resume_at = none;
      override_active = false;
      budget_left_secs = some 1800;
    })
unfolding evaluate span parse_hm limit_secs inside minutes_until add_windows add_days add_day
noon = refl

pub quarter_to_eight :
    evaluate east sixty (at 19 45) (record { used_secs = 1800; earned_secs = 0 }) none false
    ≡ some (record {
      allowed = true;
      reason = some outside_hours;
      stop_at = some (at 20 0);
      minutes_left = some 15;
      resume_at = none;
      override_active = false;
      budget_left_secs = some 1800;
    })
unfolding evaluate span parse_hm limit_secs inside minutes_until add_windows add_days add_day
quarter_to_eight = refl

pub night :
    evaluate east sixty (at 23 0) (record { used_secs = 0; earned_secs = 0 }) none false
    ≡ some (record {
      allowed = false;
      reason = some bedtime;
      stop_at = some (at 23 0);
      minutes_left = some 0;
      resume_at = some (at 31 0);
      override_active = false;
      budget_left_secs = some 3600;
    })
unfolding evaluate span parse_hm limit_secs inside minutes_until add_windows add_days add_day
night = refl
