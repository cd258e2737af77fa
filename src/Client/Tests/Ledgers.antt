-- ===== src/Client/Tests/Ledgers.antt =====
-- The ledger of a day at concrete inputs.
use openscreentime.Common.{◌+◌, ◌≡◌, refl, true, false, none, some, List, [], ◌∷◌, arith}
use openscreentime.Common.Text.{Text, codes}
use openscreentime.Common.Maps.{get, put}
use openscreentime.Policy.Evaluate.{Verdict}
use openscreentime.Policy.Tests.Runs.{east, east-IsZone, sixty, at}
use openscreentime.Client.Clock.{boot}
use openscreentime.Client.Usage.{
  UsageTracker, duplicate, grant, add_active, add_earned_secs, set_override, record_grant,
  override_until, set_elsewhere, snooze, used_here_secs, day_for, elsewhere_of, verdict,
}
use openscreentime.Client.Usage.History.{
  Op, active, snoozed, asked, reported, step, runs, billed, runs-used_here_secs,
}
use openscreentime.Client.Usage.Grants.{grant-duplicate}
use openscreentime.Client.Usage.Overrides.{grant-allowed}

abbrev kid : Text
kid = codes "kid"

abbrev command : Text
command = codes "c1"

-- Monday, with the whole hour used.
abbrev tracker : UsageTracker
tracker = record {
  day = some 20717;
  used_secs = (kid, 3600) ∷ [];
  earned_secs = [];
  elsewhere = [];
  overrides = [];
  grants = [];
  snoozes = [];
  clock = record {
    boot_id = [];
    anchor_wall = none;
    anchor_boot_ms = 0;
    source = boot;
    high_water = none;
  };
}

abbrev afternoon : List Op
afternoon =
    active kid 30 1
    ∷ snoozed kid 5 (at 12 1)
    ∷ reported kid
        (record { day = some 20717; used_secs = 60; earned_secs = 0; earned_here_secs = 900 })
    ∷ asked kid (at 12 10)
    ∷ active kid 30 2
    ∷ []

runs-used_here_secs_example :
    used_here_secs kid (runs afternoon tracker) ≡ used_here_secs kid tracker + billed kid afternoon
unfolding used_here_secs get runs step add_active snooze set_override set_elsewhere override_until
    put
runs-used_here_secs_example = runs-used_here_secs kid afternoon tracker (omega arith) refl

-- The server's record of the grant is the larger one, and the other computer's minute counts.
whole_day : day_for kid (runs afternoon tracker) ≡ record { used_secs = 3750; earned_secs = 900 }
unfolding day_for elsewhere_of used_here_secs get put runs step add_active snooze set_override
    set_elsewhere override_until
whole_day = refl

grant-duplicate_example :
    let t' = runs afternoon (grant command kid 15 (at 12 0) tracker).0 in
    grant command kid 15 (at 12 20) t' ≡ (t', duplicate)
unfolding grant record_grant add_earned_secs runs step add_active snooze set_override set_elsewhere
    override_until get put
grant-duplicate_example =
    grant-duplicate command kid 15 (at 12 0) 20717 tracker afternoon kid 15 (at 12 20) refl refl
      refl refl

grant-allowed_example :
    (v : Verdict) × (verdict east sixty
        (runs afternoon (grant command kid 15 (at 12 0) tracker).0)
        kid
        (at 12 14)
        false
      ≡ some v)
    × (v.allowed ≡ true)
unfolding grant get
grant-allowed_example =
    grant-allowed east sixty command kid 15 (at 12 0) (at 12 14) tracker afternoon east-IsZone refl
      (tt, (tt, (tt, (omega arith, (tt, tt))))) (omega arith)
