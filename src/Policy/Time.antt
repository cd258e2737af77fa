-- ===== src/Policy/Time.antt =====
-- The time zone of a `DateTime`: chrono's conversions, which are not part of the repository.
use openscreentime.Common.{ℕ, ◌*◌, ◌/◌, ◌<◌, ◌≡◌, Option, some}
use openscreentime.Policy.Compiled.{LocalTime}

-- Nanoseconds in a millisecond, a second, a minute and an hour.
abbrev pub milli : ℕ
milli = 1000000

abbrev pub second : ℕ
second = 1000000000

abbrev pub minute : ℕ
minute = 60000000000

abbrev pub hour : ℕ
hour = 3600000000000

pub record Zone : Type 0 where
  pub naive_local : ℕ → LocalTime
  pub timestamp_opt : ℕ → Option ℕ

-- What chrono documents, and that every UTC offset is a whole number of minutes.
pub record IsZone (z : Zone) : Type 0 where
  pub hour_lt : (t : ℕ) → (z.naive_local t).hour < 24
  pub minute_lt : (t : ℕ) → (z.naive_local t).minute < 60
  pub weekday_lt : (t : ℕ) → (z.naive_local t).weekday < 7
  pub same_minute : (t u : ℕ) → t / minute ≡ u / minute → z.naive_local t ≡ z.naive_local u
  pub of_timestamp : (s : ℕ) → z.timestamp_opt s ≡ some (s * second)
