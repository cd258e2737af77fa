-- ===== src/Client/Tests/Warnings.antt =====
-- Warnings at concrete times.
use openscreentime.Common.{ℕ, ◌≡◌, refl, inr, none, some, List, [], ◌∷◌, arith}
use openscreentime.Common.Int.{ℤ, pos, negsuc, ◌-ℤ◌}
use openscreentime.Policy.Compiled.{limit}
use openscreentime.Client.Warn.{
  WarnState, reached, announce, refresh, observe, observe_stop, mark_from, mark_one,
}
use openscreentime.Client.Warn.Countdown.{Call, countdown, Descends, countdown-Descends}

abbrev quiet_state : WarnState
quiet_state = record { reason = none; fired = []; announced_at = none; back_at = some (pos 1000) }

abbrev call : ℤ → ℕ → Call
call s at = record { secs_left = s; stop = at }

-- The moment of the stop wavers by less than half a minute.
abbrev falling : List Call
falling =
    call (pos 280) 6000
    ∷ call (pos 250) 6020
    ∷ call (pos 55) 6010
    ∷ call (pos 2) 6010
    ∷ call (negsuc 3) 6010
    ∷ []

countdown-Descends_example : Descends 16 (countdown limit quiet_state falling)
countdown-Descends_example =
    countdown-Descends limit quiet_state (pos 900) falling
      (omega arith, (omega arith, (omega arith, (omega arith, (omega arith, tt)))))
      (
        (inr (omega arith), (inr (omega arith), (inr (omega arith), (inr (omega arith), tt)))),
        (
          (inr (omega arith), (inr (omega arith), (inr (omega arith), tt))),
          ((inr (omega arith), (inr (omega arith), tt)), ((inr (omega arith), tt), (tt, tt))),
        ),
      )

said : countdown limit quiet_state falling ≡ 5 ∷ 1 ∷ []
unfolding countdown observe_stop observe announce refresh reached mark_from mark_one ◌-ℤ◌
said = refl

-- A limit that moves to another minute is announced again, with its real time.
abbrev sliding : List Call
sliding = call (pos 290) 6000 ∷ call (pos 250) 6000 ∷ call (pos 250) 6070 ∷ []

slid : countdown limit quiet_state sliding ≡ 5 ∷ 5 ∷ []
unfolding countdown observe_stop observe announce refresh reached mark_from mark_one ◌-ℤ◌
slid = refl

-- Right after the welcome, the warning at fifteen minutes stays unsaid.
hushed : (observe_stop quiet_state limit (pos 898) 1900).1 ≡ none
unfolding observe_stop observe announce refresh reached mark_from mark_one ◌-ℤ◌
hushed = refl
