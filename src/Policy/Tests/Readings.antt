-- ===== src/Policy/Tests/Readings.antt =====
-- The theorems about windows, focus hours and validation at concrete inputs.
use openscreentime.Common.{◌/◌, ◌%◌, ◌≡◌, refl, ◌↔◌, none, some, [], ◌∷◌, arith}
use openscreentime.Common.Text.{codes}
use openscreentime.Policy.Document.{Window, Focus}
use openscreentime.Policy.Hm.{parse_hm, span}
use openscreentime.Policy.Hm.Laws.{show_hm, parse_hm-show_hm}
use openscreentime.Policy.Compiled.{LocalTime, minute_of_day, compile, clock_reason}
use openscreentime.Policy.Compiled.Windows.{covers}
use openscreentime.Policy.Compiled.Reading.{IsLocalTime, read_clock, compile-clock_reason}
use openscreentime.Policy.Focus.{focus_blocking}
use openscreentime.Policy.Focus.Reading.{focus_blocking-covers}
use openscreentime.Policy.Validate.{ok, validate_screen_time}
use openscreentime.Policy.Validate.Accepts.{IsScreenTime, validate_screen_time-IsScreenTime}
use openscreentime.Policy.Tests.Runs.{sixty}

-- Friday at 22:15.
abbrev friday_night : LocalTime
friday_night = record { date = 20721; weekday = 5; hour = 22; minute = 15 }

friday_night-IsLocalTime : IsLocalTime friday_night
friday_night-IsLocalTime = omega arith

compile-clock_reason_example :
    clock_reason (compile sixty) friday_night ≡ read_clock sixty friday_night
compile-clock_reason_example = compile-clock_reason sixty friday_night friday_night-IsLocalTime

abbrev late : Window
late = record { days = 5 ∷ []; start = codes "late"; end = codes "19:00" }

late_unreadable : span late.start late.end ≡ none
unfolding span parse_hm
late_unreadable = refl

parse_hm-show_hm_example : parse_hm (show_hm (450 / 60) (450 % 60)) ≡ some 450
parse_hm-show_hm_example = parse_hm-show_hm 450 (omega arith)

-- Friday 20:00 to 01:00.
abbrev evening : Window
evening = record { days = 5 ∷ []; start = codes "20:00"; end = codes "01:00" }

abbrev evening_focus : Focus
evening_focus = record { sites = codes "x.org" ∷ []; hours = some evening }

evening_span : span evening.start evening.end ≡ some (1200, 60)
unfolding span parse_hm
evening_span = refl

focus_blocking-covers_example :
    focus_blocking evening_focus friday_night
    ≡ covers friday_night.weekday (minute_of_day friday_night) evening
focus_blocking-covers_example =
    focus_blocking-covers evening_focus evening friday_night 1200 60 friday_night-IsLocalTime refl
      refl refl evening_span

abbrev all_day : Focus
all_day = record { sites = codes "x.org" ∷ []; hours = none }

validate_screen_time-IsScreenTime_example : (validate_screen_time sixty ≡ ok) ↔ IsScreenTime sixty
validate_screen_time-IsScreenTime_example = validate_screen_time-IsScreenTime sixty
