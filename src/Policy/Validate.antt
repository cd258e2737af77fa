-- ===== src/Policy/Validate.antt =====
-- policy/src/rules.rs: `validate_screen_time` and `validate_focus`. An error is what its message is
-- built from; `label` stands for the words that name the window.
pub mod Accepts
use openscreentime.Common.{
  ℕ, Bool, true, false, ◌&&◌, ◌||◌, not, Option, none, some, List, [], ◌∷◌, ltb, ◌==◌,
  if◌then◌else◌, length, is_empty, is_some, find_first,
}
use openscreentime.Common.Text.{Text}
use openscreentime.Policy.Document.{Window, Bedtime, ScreenTime, Focus}
use openscreentime.Policy.Hm.{day_min, parse_hm, span}
use openscreentime.Policy.Compiled.{Span, bedtime_span}

pub data Problem : Type 0 where
  too_many_sites : ℕ → Problem
  limit_too_long : ℕ → Problem
  bad_times : Text → Text → Problem
  no_days : Text → Text → Problem
  no_such_day : Text → Text → ℕ → Problem
  empty_window : Text → Text → Problem
  whole_day : Text → Text → Problem

-- `Result<(), String>`.
pub data Checked : Type 0 where
  ok : Checked
  err : Problem → Checked

infixl 5 ◌then_check◌
abbrev pub ◌then_check◌ : Checked → Checked → Checked
ok then_check c = c
err p then_check c = err p

abbrev pub max_focus_sites : ℕ
max_focus_sites = 200

-- The checks that both functions make of a window.
unfoldable pub check_window : Window → Checked
check_window w =
    if not (is_some (parse_hm w.start)) || not (is_some (parse_hm w.end))
    then err (bad_times w.start w.end)
    else if is_empty w.days
    then err (no_days w.start w.end)
    else elim (find_first (λ d. ltb 6 d) w.days) [
      | some d ↦ err (no_such_day w.start w.end d)
      | none ↦ if is_some (span w.start w.end) then ok else err (empty_window w.start w.end)
    ]

unfoldable pub check_windows : List Window → Checked
check_windows [] = ok
check_windows (w ∷ ws) = check_window w then_check check_windows ws

abbrev pub is_whole_day : Option Span → Bool
is_whole_day none = true
is_whole_day (some (s, e)) = (s == 0) && (e == day_min)

unfoldable pub check_bedtime : Option Bedtime → Checked
check_bedtime none = ok
check_bedtime (some b) =
    if not (is_some (parse_hm b.start)) || not (is_some (parse_hm b.end))
    then err (bad_times b.start b.end)
    else if is_whole_day (span b.start b.end)
    then err (whole_day b.start b.end)
    else ok

unfoldable pub validate_screen_time : ScreenTime → Checked
unfolding check_windows check_bedtime
validate_screen_time st =
    if ltb day_min st.daily_limit_minutes
    then err (limit_too_long st.daily_limit_minutes)
    else check_windows st.schedule then_check check_bedtime st.bedtime

abbrev check_hours : Option Window → Checked
check_hours none = ok
check_hours (some w) = check_window w

unfoldable pub validate_focus : Focus → Checked
validate_focus f =
    if ltb max_focus_sites (length f.sites)
    then err (too_many_sites (length f.sites))
    else check_hours f.hours
