-- ===== src/Policy/Hm/Laws.antt =====
-- What `parse_hm` and `span` accept and return.
use openscreentime.Common.{
  ℕ, ◌+◌, ◌/◌, ◌%◌, ◌≤◌, ◌<◌, ◌≡◌, refl, ◌≢◌, Bool, true, false, Option, none, some, [], ◌∷◌, arith,
  passes_under, passes_under-at, ◌==◌,
}
use openscreentime.Common.Text.{Text, trim, split_once}
use openscreentime.Policy.Hm.{in_day, hours_minutes, parse_hm, span_of, span}

in_day-lt : (h m n : ℕ) → in_day h m ≡ some n → n < 1440
in_day-lt h m n e = ground arith

hours_minutes-lt : (o : Option (Text × Text)) (n : ℕ) → hours_minutes o ≡ some n → n < 1440
unfolding hours_minutes
hours_minutes-lt none n e = ground arith
hours_minutes-lt (some (h, m)) n e = ground arith

pub parse_hm-lt : (s : Text) (n : ℕ) → parse_hm s ≡ some n → n < 1440
unfolding parse_hm
parse_hm-lt s n e = hours_minutes-lt (split_once b':' (trim s)) n e

span_of_bounds :
    (a b : Option ℕ) (s e : ℕ)
    → ((n : ℕ) → a ≡ some n → n < 1440)
    → ((n : ℕ) → b ≡ some n → n < 1440)
    → span_of a b ≡ some (s, e)
    → (s < 1440) × (0 < e) × (e ≤ 1440) × (s ≢ e)
span_of_bounds none b s e ha hb h = ground arith
span_of_bounds (some a) none s e ha hb h = ground arith
span_of_bounds (some a) (some b) s e ha hb h = ground (arith, ha a refl, hb b refl)

-- A readable, non-empty span starts within the day, ends after its first minute and by midnight,
-- and its two ends differ.
pub span_bounds :
    (start end : Text) (s e : ℕ)
    → span start end ≡ some (s, e)
    → (s < 1440) × (0 < e) × (e ≤ 1440) × (s ≢ e)
unfolding span
span_bounds start end s e h =
    span_of_bounds (parse_hm start) (parse_hm end) s e (parse_hm-lt start) (parse_hm-lt end) h

-- The four digits of a time, as `%H:%M` prints it.
abbrev pub show_hm : ℕ → ℕ → Text
show_hm h m = (b'0' + h / 10) ∷ (b'0' + h % 10) ∷ b':' ∷ (b'0' + m / 10) ∷ (b'0' + m % 10) ∷ []

abbrev is_time : Option ℕ → ℕ → Bool
is_time none n = false
is_time (some k) n = k == n

is_time-eq : (o : Option ℕ) (n : ℕ) → is_time o n ≡ true → o ≡ some n
is_time-eq none n h = ground arith
is_time-eq (some k) n h = ground arith

abbrev round_trip_at : ℕ → Bool
round_trip_at t = is_time (parse_hm (show_hm (t / 60) (t % 60))) t

all_times : passes_under round_trip_at 1440 ≡ true
unfolding passes_under parse_hm
all_times = refl

-- A printed time of day reads back as its minute of the day, at every minute of the day.
pub parse_hm-show_hm : (t : ℕ) → t < 1440 → parse_hm (show_hm (t / 60) (t % 60)) ≡ some t
parse_hm-show_hm t h = is_time-eq _ t (passes_under-at round_trip_at 1440 t h all_times)
