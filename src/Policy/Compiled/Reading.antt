-- ===== src/Policy/Compiled/Reading.antt =====
-- What the compiled clock rules say of a moment, read off the rules themselves.
use openscreentime.Common.{
  ℕ, ◌<◌, ◌≡◌, refl, ◌≢◌, ◌≤◌, ◌∙◌, Bool, false, ◌&&◌, ◌||◌, not, Option, none, some, List, [], ◌∷◌,
  ◌++◌, arith, ltb, leb, ◌==◌, if◌then◌else◌, any, any-append,
}
use openscreentime.Policy.Document.{Window, Bedtime, ScreenTime}
use openscreentime.Policy.Hm.{day_min, span}
use openscreentime.Policy.Hm.Laws.{span_bounds}
use openscreentime.Policy.Compiled.{
  Span, StopReason, bedtime, outside_hours, LocalTime, minute_of_day, open_week, bedtime_spans,
  bedtime_span, compile, inside, clock_reason,
}
use openscreentime.Policy.Compiled.Windows.{
  covers, opens, add_windows-inside, add_windows-restricted,
}

-- A moment that a clock can show.
pub record IsLocalTime (t : LocalTime) : Type 0 where
  pub weekday_lt : t.weekday < 7
  pub hour_lt : t.hour < 24
  pub minute_lt : t.minute < 60

-- A bedtime from s to e, across midnight if it ends before it starts; a whole day is no bedtime.
abbrev pub sleeps_by : Option Span → ℕ → Bool
sleeps_by none m = false
sleeps_by (some (s, e)) m =
    if (s == 0) && (e == day_min)
    then false
    else if ltb s e
    then leb s m && ltb m e
    else leb s m || ltb m e

abbrev pub sleeps : ScreenTime → ℕ → Bool
sleeps st m = sleeps_by (bedtime_span st.bedtime) m

abbrev pub read_clock : ScreenTime → LocalTime → Option StopReason
read_clock st t =
    let d = t.weekday in
    let m = minute_of_day t in
    if not st.enabled
    then none
    else if sleeps st m
    then some bedtime
    else if any (opens d) st.schedule && not (any (covers d m) st.schedule)
    then some outside_hours
    else none

bedtime_spans-inside :
    (o : Option Span) (m : ℕ) → m < day_min → inside (bedtime_spans o) m ≡ sleeps_by o m
unfolding inside
bedtime_spans-inside none m h = refl
bedtime_spans-inside (some (s, e)) m h = ground arith

inside-nil : (m : ℕ) → inside [] m ≡ false
unfolding inside
inside-nil m = refl

-- At every moment the compiled rules give the reason that the document gives when it is read window
-- by window: bedtime first, then a day that has allowed hours and is outside all of them.
pub compile-clock_reason :
    (st : ScreenTime) (t : LocalTime)
    → IsLocalTime t
    → clock_reason (compile st) t ≡ read_clock st t
unfolding compile clock_reason
compile-clock_reason st t v = ground (
  arith,
  add_windows-inside open_week st.schedule t.weekday (minute_of_day t) v.weekday_lt (omega arith),
  add_windows-restricted open_week st.schedule t.weekday v.weekday_lt,
  bedtime_spans-inside (bedtime_span st.bedtime) (minute_of_day t) (omega arith),
  inside-nil (minute_of_day t),
)

-- A window that cannot be read, or is empty, changes nothing wherever it stands in the schedule: it
-- never locks anyone out.
clock_reason_ignores_unreadable :
    (st : ScreenTime) (xs ys : List Window) (bad : Window) (t : LocalTime)
    → IsLocalTime t
    → span bad.start bad.end ≡ none
    → clock_reason (compile (record st { schedule = xs ++ (bad ∷ ys) })) t
      ≡ clock_reason (compile (record st { schedule = xs ++ ys })) t
clock_reason_ignores_unreadable st xs ys bad t v h = ground (
  arith,
  compile-clock_reason (record st { schedule = xs ++ (bad ∷ ys) }) t v,
  compile-clock_reason (record st { schedule = xs ++ ys }) t v,
  any-append (opens t.weekday) xs (bad ∷ ys),
  any-append (opens t.weekday) xs ys,
  any-append (covers t.weekday (minute_of_day t)) xs (bad ∷ ys),
  any-append (covers t.weekday (minute_of_day t)) xs ys,
)

-- The first minute after a bedtime, or midnight.
abbrev awake : Option Span → ℕ
awake none = 0
awake (some (s, e)) =
    if (s == 0) && (e == day_min) then 0 else if ltb s e then (if s == 0 then e else 0) else e

awake_lem :
    (o : Option Span)
    → ((s e : ℕ) → o ≡ some (s, e) → (s < 1440) × (0 < e) × (e ≤ 1440) × (s ≢ e))
    → (awake o < 1440) × (sleeps_by o (awake o) ≡ false)
awake_lem none h = (omega arith, refl)
awake_lem (some (s, e)) h = ground (arith, h s e refl)

bedtime_span_bounds :
    (b : Option Bedtime) (s e : ℕ)
    → bedtime_span b ≡ some (s, e)
    → (s < 1440) × (0 < e) × (e ≤ 1440) × (s ≢ e)
bedtime_span_bounds none s e h = ground arith
bedtime_span_bounds (some b) s e h = span_bounds b.start b.end s e h

-- No bedtime, however it is written, covers every minute of the day.
compile-bedtime_ends :
    (st : ScreenTime) → (m : ℕ) × (m < 1440) × (inside (compile st).bedtime m ≡ false)
unfolding compile
compile-bedtime_ends st =
    let o : Option Span = bedtime_span st.bedtime in
    let free = awake_lem o (bedtime_span_bounds st.bedtime) in
    (awake o, free.0, bedtime_spans-inside o (awake o) free.0 ∙ free.1)
