-- ===== src/Policy/Focus/Reading.antt =====
-- Focus hours against the reading of an allowed-hours window.
use openscreentime.Common.{
  ℕ, ◌+◌, ◌%◌, ◌<◌, ◌≡◌, refl, true, false, Option, none, some, List, arith, is_empty, not,
  Option-cases, ◌⊎◌, inl, inr,
}
use openscreentime.Policy.Document.{Window, Focus}
use openscreentime.Policy.Hm.{span}
use openscreentime.Policy.Compiled.{Span, LocalTime, minute_of_day, real_days}
use openscreentime.Policy.Compiled.Windows.{covers, covers_by, contains-real_days}
use openscreentime.Policy.Compiled.Reading.{IsLocalTime}
use openscreentime.Policy.Focus.{blocking_in, focus_blocking}

blocking_in-covers :
    (days : List ℕ) (o : Option Span) (d m : ℕ)
    → d < 7
    → is_empty (real_days days) ≡ false
    → (s e : ℕ) → o ≡ some (s, e)
    → blocking_in (real_days days) o d m ≡ covers_by o days d m
unfolding blocking_in
blocking_in-covers days none d m hd h s e ho = ground arith
blocking_in-covers days (some (a, b)) d m hd h s e ho =
    ground
      (arith, contains-real_days days d hd, contains-real_days days ((d + 6) % 7) (omega arith))

blocking_in_unreadable :
    (days : List ℕ) (o : Option Span) (d m : ℕ)
    → (o ≡ none) ⊎ (is_empty days ≡ true)
    → blocking_in days o d m ≡ true
unfolding blocking_in
blocking_in_unreadable days none d m h = refl
blocking_in_unreadable days (some (a, b)) d m h = ground arith

-- With sites and with hours that mean something, the sites are blocked exactly in the minutes that
-- the same window would allow as allowed hours: on its days, the end outside, and on the next
-- weekday after midnight if it crosses.
pub focus_blocking-covers :
    (f : Focus) (w : Window) (t : LocalTime) (s e : ℕ)
    → IsLocalTime t
    → is_empty f.sites ≡ false
    → f.hours ≡ some w
    → is_empty (real_days w.days) ≡ false
    → span w.start w.end ≡ some (s, e)
    → focus_blocking f t ≡ covers t.weekday (minute_of_day t) w
unfolding focus_blocking
focus_blocking-covers f w t s e v hs hw hd h =
    rw (hs, hw)
      (blocking_in-covers w.days (span w.start w.end) t.weekday (minute_of_day t) v.weekday_lt hd s
        e h)

-- Sites with no hours, or with hours that cannot be read, are empty or name no real day, are blocked
-- at every moment; with no sites nothing ever is.
focus_blocking_always :
    (f : Focus) (t : LocalTime)
    → ((w : Window)
        → f.hours ≡ some w
        → (span w.start w.end ≡ none) ⊎ (is_empty (real_days w.days) ≡ true))
    → focus_blocking f t ≡ not (is_empty f.sites)
unfolding focus_blocking
focus_blocking_always f t h = elim (Option-cases f.hours) [
  | inl e ↦ rw e (ground arith)
  | inr (w, e) ↦ rw e (
      ground (
        arith,
        blocking_in_unreadable (real_days w.days) (span w.start w.end) t.weekday (minute_of_day t)
            (h w e),
      ))
]
