-- ===== src/Server/Ledger.antt =====
-- server/src/ledger.rs: usage of a person over their computers. The tables are lists of rows, with the
-- columns that the statements of that file read and write, and every statement succeeds; ids are
-- numbers. Moments are nanoseconds since the epoch, dates count days since then, also before it. The
-- columns of seconds hold no negative number. JSON is left out.
pub mod Totals
pub mod Budget
pub mod Console
pub mod Earned
use openscreentime.Common.{
  ℕ, ◌+◌, ◌-◌, ◌*◌, ◌/◌, ◌^◌, min, max, Bool, true, false, ◌&&◌, ◌||◌, not, Option, none, some,
  List, [], ◌∷◌, ◌++◌, ltb, leb, ◌==◌, if◌then◌else◌, any, find_first, is_some,
}
use openscreentime.Common.Text.{Text, text_eq}
use openscreentime.Common.Int.{ℤ, pos, negsuc, pos_part, neg_part, sub_ℕ, eq_ℤ, div_euclid, ◌-ℤ◌}
use openscreentime.Policy.Document.{ScreenTime}
use openscreentime.Policy.Time.{Zone, second}
use openscreentime.Policy.Evaluate.{Day, Verdict, evaluate}

abbrev usage_regression_secs : ℕ
usage_regression_secs = 300

abbrev max_offset_secs : ℕ
max_offset_secs = 14 * 3600

abbrev day_secs : ℕ
day_secs = 24 * 3600

pub record UsageEntry : Type 0 where
  pub os_username : Text
  pub used_minutes_today : ℤ
  pub used_seconds_today : Option ℤ
  pub day : Option ℤ
  pub utc_offset_secs : Option ℤ

-- `saturating_mul` of an `i64` and 60.
abbrev times_60 : ℤ → ℤ
times_60 (pos n) = pos (min (n * 60) (2 ^ 63 - 1))
times_60 (negsuc n) = negsuc (min ((n + 1) * 60 - 1) (2 ^ 63 - 1))

-- `clamp(0, 24 * 3600)`.
abbrev within_day : ℤ → ℕ
within_day (pos n) = min n day_secs
within_day (negsuc n) = 0

-- `UsageEntry::seconds`.
unfoldable pub seconds : UsageEntry → ℕ
seconds u =
    within_day (elim u.used_seconds_today [ none ↦ times_60 u.used_minutes_today | some s ↦ s ])

abbrev clamp_offset : ℤ → ℤ
clamp_offset (pos n) = pos (min n max_offset_secs)
clamp_offset (negsuc n) = negsuc (min n (max_offset_secs - 1))

-- The offset of a device, zero if it never reported one.
abbrev pub offset_of : Option ℤ → ℤ
offset_of none = pos 0
offset_of (some off) = clamp_offset off

-- `local_today`.
unfoldable pub local_today : Option ℤ → ℕ → ℤ
local_today offset now =
    let off = offset_of offset in
    div_euclid (sub_ℕ (now + pos_part off * second) (neg_part off * second)) (day_secs * second)

abbrev utc_today : ℕ → ℤ
utc_today now = pos (now / (day_secs * second))

-- Whether two dates are a day apart at most.
abbrev pub near : ℤ → ℤ → Bool
near d e = let apart = d -ℤ e in leb (pos_part apart + neg_part apart) 1

-- `filing_day`.
unfoldable pub filing_day : Option ℤ → Option ℤ → ℕ → ℤ
filing_day none offset now = local_today offset now
filing_day (some d) offset now = if near d (utc_today now) then d else local_today offset now

-- `is_regression`.
unfoldable pub is_regression : Bool → ℕ → ℕ → Bool
is_regression reported_day_known new_secs prev_secs =
    reported_day_known && ltb (new_secs + usage_regression_secs) prev_secs

pub record Device : Type 0 where
  pub id : ℕ
  pub tenant : ℕ
  pub utc_offset_secs : Option ℤ

pub record DeviceUser : Type 0 where
  pub id : ℕ
  pub device : ℕ
  pub os_username : Text
  pub account : Option ℕ

-- `screen_time_ledger`.
pub record LedgerRow : Type 0 where
  pub device_user : ℕ
  pub day : ℤ
  pub used_seconds : ℕ
  pub earned_seconds : ℕ

-- `retired_usage`.
pub record RetiredRow : Type 0 where
  pub tenant : ℕ
  pub account : ℕ
  pub day : ℤ
  pub used_seconds : ℕ
  pub earned_seconds : ℕ

-- An event of usage that went back.
pub record Regression : Type 0 where
  pub tenant : ℕ
  pub device : ℕ
  pub device_user : ℕ
  pub day : ℤ
  pub reported_seconds : ℕ
  pub ledger_seconds : ℕ

pub record Db : Type 0 where
  pub devices : List Device
  pub device_users : List DeviceUser
  pub ledger : List LedgerRow
  pub retired : List RetiredRow
  pub regressions : List Regression

-- `person_day_json`.
pub record PersonDay : Type 0 where
  pub os_username : Text
  pub day : ℤ
  pub used_elsewhere_secs : ℕ
  pub earned_elsewhere_secs : ℕ
  pub earned_here_secs : ℕ

abbrev pub same_key : ℕ → ℤ → LedgerRow → Bool
same_key du day r = (r.device_user == du) && eq_ℤ r.day day

-- The row of a login and day, which is a key of the table.
unfoldable pub row_of : ℕ → ℤ → List LedgerRow → Option LedgerRow
row_of du day [] = none
row_of du day (r ∷ rows) =
    let rest = row_of du day rows in if same_key du day r then some r else rest

-- The insertion, or the update with the greater of the two totals.
unfoldable pub put_used : ℕ → ℤ → ℕ → List LedgerRow → List LedgerRow
put_used du day n [] =
    record { device_user = du; day = day; used_seconds = n; earned_seconds = 0 } ∷ []
put_used du day n (r ∷ rows) =
    let rest = put_used du day n rows in
    if same_key du day r then record r { used_seconds = max r.used_seconds n } ∷ rows else r ∷ rest

abbrev pub sum_over : {A : Type 0} → (A → ℕ) → List A → ℕ
sum_over f [] = 0
sum_over f (x ∷ xs) = f x + sum_over f xs

abbrev pub is_account : Option ℕ → ℕ → Bool
is_account none account = false
is_account (some a) account = a == account

-- One column of the logins of a person but `except`, joined with their devices and the ledger.
abbrev logins_sum : (LedgerRow → ℕ) → Db → ℕ → ℕ → ℕ → ℤ → ℕ
logins_sum column db tenant account except day =
    sum_over
      (λ du.
        if is_account du.account account && not (du.id == except)
        then sum_over
            (λ d.
              if (d.id == du.device) && (d.tenant == tenant)
              then sum_over (λ l. if same_key du.id day l then column l else 0) db.ledger
              else 0)
            db.devices
        else 0)
      db.device_users

abbrev pub retired_sum : (RetiredRow → ℕ) → Db → ℕ → ℕ → ℤ → ℕ
retired_sum column db tenant account day =
    sum_over
      (λ r.
        if (r.tenant == tenant) && ((r.account == account) && eq_ℤ r.day day) then column r else 0)
      db.retired

-- `elsewhere`.
unfoldable pub elsewhere : Db → ℕ → ℕ → ℕ → ℤ → ℕ × ℕ
elsewhere db tenant account except day = (
  logins_sum (λ l. l.used_seconds) db tenant account except day
      + retired_sum (λ r. r.used_seconds) db tenant account day,
  logins_sum (λ l. l.earned_seconds) db tenant account except day
      + retired_sum (λ r. r.earned_seconds) db tenant account day,
)

-- `report_regression`: one event for each login and day.
unfoldable pub report_regression : ℕ → ℕ → ℕ → ℤ → ℕ → ℕ → Db → Db
report_regression tenant device du day new_secs prev db =
    if any (λ e. (e.device_user == du) && eq_ℤ e.day day) db.regressions then db else record db {
      regressions =
          db.regressions
          ++ record {
            tenant = tenant;
            device = device;
            device_user = du;
            day = day;
            reported_seconds = new_secs;
            ledger_seconds = prev;
          }
            ∷ [];
    }

-- A report of less than is recorded for the day.
abbrev check_regression : ℕ → ℕ → ℕ → ℤ → UsageEntry → Option LedgerRow → Db → Db
check_regression tenant device du day u none db = db
check_regression tenant device du day u (some r) db =
    if is_regression (is_some u.day) (seconds u) r.used_seconds
    then report_regression tenant device du day (seconds u) r.used_seconds db
    else db

abbrev earned_of : Option LedgerRow → ℕ
earned_of none = 0
earned_of (some r) = r.earned_seconds

abbrev elsewhere_of : Db → ℕ → Option ℕ → ℕ → ℤ → ℕ × ℕ
elsewhere_of db tenant none du day = (0, 0)
elsewhere_of db tenant (some account) du day = elsewhere db tenant account du day

-- The login that an entry is about.
abbrev pub login_of : ℕ → Text → List DeviceUser → Option DeviceUser
login_of device username users =
    find_first (λ du. (du.device == device) && text_eq du.os_username username) users

-- One entry, for a login that is known: the tables and the answer.
unfoldable pub file_for : ℕ → ℕ → ℕ → UsageEntry → DeviceUser → Db → Db × PersonDay
file_for tenant device now u du db =
    let day = filing_day u.day u.utc_offset_secs now in
    let row = row_of du.id day db.ledger in
    let checked = check_regression tenant device du.id day u row db in
    let db' = record checked { ledger = put_used du.id day (seconds u) checked.ledger } in
    let other = elsewhere_of db' tenant du.account du.id day in
    (
      db',
      record {
        os_username = u.os_username;
        day = day;
        used_elsewhere_secs = other.0;
        earned_elsewhere_secs = other.1;
        earned_here_secs = earned_of row;
      },
    )

abbrev file_known : ℕ → ℕ → ℕ → UsageEntry → Option DeviceUser → Db → Db × List PersonDay
file_known tenant device now u none db = (db, [])
file_known tenant device now u (some du) db =
    let (db', answer) = file_for tenant device now u du db in (db', answer ∷ [])

-- The loop over the entries.
unfoldable pub file_all : ℕ → ℕ → ℕ → List UsageEntry → Db → Db × List PersonDay
file_all tenant device now [] db = (db, [])
file_all tenant device now (u ∷ us) db =
    let first = file_known tenant device now u (login_of device u.os_username db.device_users) db in
    let rest = file_all tenant device now us first.0 in (rest.0, first.1 ++ rest.1)

-- The first offset that an entry reports.
abbrev first_offset : List UsageEntry → Option ℤ
first_offset [] = none
first_offset (u ∷ us) = elim u.utc_offset_secs [ none ↦ first_offset us | some off ↦ some off ]

abbrev set_offset : ℕ → Option ℤ → List Device → List Device
set_offset device none ds = ds
set_offset device (some off) [] = []
set_offset device (some off) (d ∷ ds) =
    (if d.id == device then record d { utc_offset_secs = some (clamp_offset off) } else d)
    ∷ set_offset device (some off) ds

-- `upsert_usage`.
unfoldable pub upsert_usage : ℕ → ℕ → ℕ → List UsageEntry → Db → Db × List PersonDay
upsert_usage tenant device now usage db =
    file_all tenant device now usage
      (record db { devices = set_offset device (first_offset usage) db.devices })

-- `device_local_day`.
unfoldable pub device_local_day : Db → ℕ → ℕ → ℤ
device_local_day db device now =
    local_today
      (elim (find_first (λ d. d.id == device) db.devices) [
        | none ↦ none
        | some d ↦ d.utc_offset_secs
      ])
      now
