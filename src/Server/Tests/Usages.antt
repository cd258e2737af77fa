-- ===== src/Server/Tests/Usages.antt =====
-- Reports of use: runs on concrete values.
use openscreentime.Common.{ℕ, ◌+◌, ◌*◌, ◌≡◌, refl, max, Option, none, some, List, [], ◌∷◌}
use openscreentime.Common.Text.{Text, codes}
use openscreentime.Common.Int.{ℤ, pos, ◌-ℤ◌}
use openscreentime.Policy.Time.{minute, hour}
use openscreentime.Server.Ledger.{
  UsageEntry, DeviceUser, elsewhere, Db, seconds, local_today, filing_day, is_regression, row_of,
  put_used, elsewhere, report_regression, file_for, file_all, upsert_usage,
}
use openscreentime.Server.Ledger.Budget.{spent, elsewhere-spent}
use openscreentime.Server.Ledger.Totals.{recorded, reported, upsert_usage-recorded}

-- 22:30 UTC on 24 September 2026.
abbrev late : ℕ
late = 20720 * (24 * hour) + 22 * hour + 30 * minute

-- In Berlin it is the next day already.
own_day : local_today (some (pos 7200)) late ≡ pos 20721
unfolding local_today
own_day = refl

abbrev kid : Text
kid = codes "kid"

abbrev entry : Option ℤ → Option ℤ → UsageEntry
entry secs day = record {
  os_username = kid;
  used_minutes_today = pos 10;
  used_seconds_today = secs;
  day = day;
  utc_offset_secs = some (pos 7200);
}

-- A laptop and a desktop of one person.
abbrev family : Db
family = record {
  devices =
      record { id = 1; tenant = 7; utc_offset_secs = none }
      ∷ record { id = 2; tenant = 7; utc_offset_secs = none }
      ∷ [];
  device_users =
      record { id = 10; device = 1; os_username = kid; account = some 5 }
      ∷ record { id = 20; device = 2; os_username = kid; account = some 5 }
      ∷ [];
  ledger =
      record { device_user = 10; day = pos 20721; used_seconds = 1200; earned_seconds = 900 }
      ∷ record { device_user = 20; day = pos 20721; used_seconds = 300; earned_seconds = 0 }
      ∷ [];
  retired =
      record { tenant = 7; account = 5; day = pos 20721; used_seconds = 60; earned_seconds = 0 }
      ∷ [];
  regressions = [];
}

-- The first entry falls behind the record, the second is for a day that is not near.
abbrev heartbeat : List UsageEntry
heartbeat = entry (some (pos 30)) (some (pos 20721)) ∷ entry (some (pos 1260)) (some (pos 90)) ∷ []

answered :
    (upsert_usage 7 1 late heartbeat family).1
    ≡ record {
      os_username = kid;
      day = pos 20721;
      used_elsewhere_secs = 360;
      earned_elsewhere_secs = 0;
      earned_here_secs = 900;
    }
      ∷ record {
        os_username = kid;
        day = pos 20721;
        used_elsewhere_secs = 360;
        earned_elsewhere_secs = 0;
        earned_here_secs = 900;
      }
      ∷ []
unfolding upsert_usage file_all file_for filing_day local_today row_of put_used elsewhere
    report_regression is_regression seconds ◌-ℤ◌
answered = refl

total_kept : recorded (upsert_usage 7 1 late heartbeat family).0 10 (pos 20721) ≡ 1260
unfolding upsert_usage file_all file_for filing_day local_today row_of put_used elsewhere
    report_regression is_regression seconds ◌-ℤ◌
total_kept = refl

upsert_usage-recorded_example :
    recorded (upsert_usage 7 1 late heartbeat family).0 10 (pos 20721)
    ≡ max
        (recorded family 10 (pos 20721))
        (reported 1 late family.device_users heartbeat 10 (pos 20721))
upsert_usage-recorded_example = upsert_usage-recorded 7 1 late heartbeat family 10 (pos 20721)

abbrev laptop : DeviceUser
laptop = record { id = 10; device = 1; os_username = kid; account = some 5 }

whole_family : spent family 7 5 (pos 20721) ≡ 1560
whole_family = refl

elsewhere-spent_example :
    (elsewhere family 7 5 10 (pos 20721)).0 + recorded family 10 (pos 20721)
    ≡ spent family 7 5 (pos 20721)
elsewhere-spent_example =
    elsewhere-spent family 7 5 (pos 20721) laptop
      (record { id = 1; tenant = 7; utc_offset_secs = none }) refl refl refl refl refl refl
