-- ===== src/Server/Ledger/Console.antt =====
-- server/src/ledger.rs: the day of a person as the console shows it; and `limit_minutes` of
-- server/src/members.rs.
use openscreentime.Common.{
  ℕ, ◌+◌, ◌/◌, Bool, false, ◌&&◌, not, Option, none, some, ltb, ◌==◌, if◌then◌else◌, is_some,
}
use openscreentime.Common.Int.{ℤ, pos_part}
use openscreentime.Policy.Document.{ScreenTime}
use openscreentime.Policy.Time.{Zone}
use openscreentime.Policy.Evaluate.{Verdict, evaluate}
use openscreentime.Server.Ledger.{offset_of}

-- `limit_minutes` of server/src/members.rs.
unfoldable pub limit_minutes : ScreenTime → Option ℕ
limit_minutes st =
    if not st.enabled
    then none
    else if st.daily_limit_minutes == 0
    then none
    else some st.daily_limit_minutes

abbrev max_0 : ℤ → ℕ
max_0 s = pos_part s

abbrev budget_minutes : Option ℕ → Option ℕ
budget_minutes none = none
budget_minutes (some s) = some ((s + 59) / 60)

-- What the console shows as left.
abbrev left_of : Bool → Verdict → Option ℕ
left_of limited v =
    if not limited && not v.override_active
    then none
    else if not v.allowed
    then some 0
    else (elim v.minutes_left [ none ↦ budget_minutes v.budget_left_secs | some m ↦ some m ])

abbrev running : ℕ → Option ℕ → Option ℕ
running now none = none
running now (some t) = if ltb now t then some t else none

-- `console_day`: the minutes left and the verdict; `east_opt` gives the zone of an offset.
unfoldable pub console_day :
    (ℤ → Zone) → ScreenTime → ℤ → ℤ → Option ℤ → Option ℕ → ℕ → Option (Option ℕ × Verdict)
console_day east_opt st used_secs earned_secs offset_secs override_until now =
    elim (evaluate (east_opt (offset_of offset_secs)) st now
      (record { used_secs = max_0 used_secs; earned_secs = max_0 earned_secs })
      (running now override_until) false) [
        | none ↦ none
        | some v ↦ some (left_of (is_some (limit_minutes st)) v, v)
      ]
