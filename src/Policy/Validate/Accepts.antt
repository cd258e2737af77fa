-- ===== src/Policy/Validate/Accepts.antt =====
-- What a saved document holds once it is validated.
use openscreentime.Common.{
  ℕ, ◌≤◌, ◌<◌, ◌≡◌, refl, ◌≢◌, ◌↔◌, true, false, Option, none, some, List, [], ◌∷◌, arith, ltb, All,
  find_first, is_some,
}
use openscreentime.Policy.Document.{Window, Bedtime, ScreenTime}
use openscreentime.Policy.Hm.{day_min, parse_hm, span}
use openscreentime.Policy.Validate.{
  ok, check_window, check_windows, check_bedtime, validate_screen_time, is_whole_day,
}

-- A window that means something: readable, with a day, all days real, and not empty.
pub record IsWindow (w : Window) : Type 0 where
  pub starts : is_some (parse_hm w.start) ≡ true
  pub ends : is_some (parse_hm w.end) ≡ true
  pub has_days : w.days ≢ []
  pub days_real : All (λ d. d < 7) w.days
  pub spans : is_some (span w.start w.end) ≡ true

abbrev pub IsBedtime : Option Bedtime → Type 0
IsBedtime none = Unit {0}
IsBedtime (some b) =
    (is_some (parse_hm b.start) ≡ true)
    × (is_some (parse_hm b.end) ≡ true)
    × (is_whole_day (span b.start b.end) ≡ false)

pub record IsScreenTime (st : ScreenTime) : Type 0 where
  pub limit_fits : st.daily_limit_minutes ≤ day_min
  pub windows : All IsWindow st.schedule
  pub bedtime_fits : IsBedtime st.bedtime

find_first-All : (ds : List ℕ) → find_first (λ d. ltb 6 d) ds ≡ none → All (λ d. d < 7) ds
find_first-All [] h = tt
find_first-All (d ∷ ds) h = ground (arith, find_first-All ds)

All-find_first : (ds : List ℕ) → All (λ d. d < 7) ds → find_first (λ d. ltb 6 d) ds ≡ none
All-find_first [] h = refl
All-find_first (d ∷ ds) h = ground (arith, All-find_first ds h.1)

check_window-IsWindow : (w : Window) → (check_window w ≡ ok) ↔ IsWindow w
unfolding check_window
check_window-IsWindow w = (
  λ h. ground (arith, find_first-All w.days),
  λ v. ground (arith, All-find_first w.days v.days_real),
)

check_windows-All : (ws : List Window) → (check_windows ws ≡ ok) ↔ All IsWindow ws
unfolding check_windows
check_windows-All [] = (λ h. tt, λ h. refl)
check_windows-All (w ∷ ws) = (
  λ h. ground (arith, (check_window-IsWindow w).0, (check_windows-All ws).0),
  λ v. ground (arith, (check_window-IsWindow w).1 v.0, (check_windows-All ws).1 v.1),
)

check_bedtime-IsBedtime : (b : Option Bedtime) → (check_bedtime b ≡ ok) ↔ IsBedtime b
unfolding check_bedtime
check_bedtime-IsBedtime none = (λ h. tt, λ h. refl)
check_bedtime-IsBedtime (some b) = (λ h. ground arith, λ h. ground arith)

-- The rules are accepted exactly when the limit fits a day, every window can be read, names a day,
-- names real days only and is not empty, and the bedtime can be read and is not a whole day.
pub validate_screen_time-IsScreenTime :
    (st : ScreenTime) → (validate_screen_time st ≡ ok) ↔ IsScreenTime st
unfolding validate_screen_time
validate_screen_time-IsScreenTime st = (
  λ h. ground (arith, (check_windows-All st.schedule).0, (check_bedtime-IsBedtime st.bedtime).0),
  λ v. ground (
    arith,
    (check_windows-All st.schedule).1 v.windows,
    (check_bedtime-IsBedtime st.bedtime).1 v.bedtime_fits,
  ),
)
