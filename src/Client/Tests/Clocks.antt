-- ===== src/Client/Tests/Clocks.antt =====
-- The trusted clock at concrete readings.
use openscreentime.Common.{◌*◌, ◌≡◌, refl, false, none, some, List, [], ◌∷◌, arith}
use openscreentime.Common.Text.{codes}
use openscreentime.Client.Clock.{
  milli, boot, TrustedClock, Reading, observe, observe_server, extrapolate, is_new, re_anchor,
  raise,
}
use openscreentime.Client.Clock.Trust.{
  IsRunning, Told, Event, looks, hears, heed, watch, Rises, watch-Rises,
}

-- A clock that was anchored at 1000 ms when its computer had run for 40 ms.
abbrev kept : TrustedClock
kept = record {
  boot_id = codes "b1";
  anchor_wall = some (1000 * milli);
  anchor_boot_ms = 40;
  source = boot;
  high_water = some (1010 * milli);
}

abbrev now : Reading
now = record { boot_id = codes "b1"; boot = 50 * milli; wall = 5 * milli; ntp_synced = false }

abbrev later : Reading
later = record { boot_id = codes "b1"; boot = 80 * milli; wall = 9000 * milli; ntp_synced = false }

-- After a reboot, with the wall clock set back.
abbrev rebooted : Reading
rebooted = record { boot_id = codes "b2"; boot = 3 * milli; wall = 1 * milli; ntp_synced = false }

was-IsRunning : IsRunning kept now
was-IsRunning = record { same_boot = refl; anchored = refl; forward = omega arith }

was-Told : Told kept now (1010 * milli)
unfolding extrapolate
was-Told = record {
  same_boot = refl;
  anchored = refl;
  forward = omega arith;
  marked = refl;
  told = refl;
}

-- The server says that it is earlier than the clock has it.
abbrev events : List Event
events = looks later ∷ looks rebooted ∷ hears rebooted (900 * milli) ∷ looks rebooted ∷ []

watch-Rises_example : Rises (1010 * milli) (watch 0 kept events)
watch-Rises_example =
    watch-Rises 0 kept now (1010 * milli) events was-Told
      (λ same. omega arith, (λ same. cc same, (λ same. omega arith, (λ same. omega arith, tt))))

-- Set back by a reboot, the wall clock does not turn the time back; the server does.
watched :
    watch 0 kept events
    ≡ (none, 1040 * milli)
      ∷ (none, 1040 * milli)
      ∷ (some (900 * milli), 900 * milli)
      ∷ (none, 900 * milli)
      ∷ []
unfolding watch heed observe re_anchor is_new raise extrapolate observe_server
watched = refl
