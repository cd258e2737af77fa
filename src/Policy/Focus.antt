-- ===== src/Policy/Focus.antt =====
-- policy/src/rules.rs: `focus_blocking`, whether a person's self-blocked sites are blocked now.
pub mod Reading
use openscreentime.Common.{
  ℕ, ◌+◌, ◌*◌, ◌%◌, Bool, true, false, ◌&&◌, ◌||◌, Option, none, some, List, ltb, leb,
  if◌then◌else◌, contains, is_empty,
}
use openscreentime.Policy.Document.{Window, Focus}
use openscreentime.Policy.Hm.{span}
use openscreentime.Policy.Compiled.{Span, LocalTime, minute_of_day, real_days}

-- The window's days as `focus_blocking` keeps them, and the moment.
blocking_in : List ℕ → Option Span → ℕ → ℕ → Bool
blocking_in days none today m = true
blocking_in days (some (s, e)) today m =
    let yesterday = (today + 6) % 7 in
    if is_empty days
    then true
    else if ltb s e
    then contains days today && leb s m && ltb m e
    else (contains days today && leb s m) || (contains days yesterday && ltb m e)

hours_blocking : Option Window → LocalTime → Bool
unfolding blocking_in
hours_blocking none t = true
hours_blocking (some w) t =
    blocking_in (real_days w.days) (span w.start w.end) t.weekday (minute_of_day t)

unfoldable pub focus_blocking : Focus → LocalTime → Bool
unfolding hours_blocking
focus_blocking f t = if is_empty f.sites then false else hours_blocking f.hours t
