-- ===== src/Server/Ledger/Totals.antt =====
-- What is recorded for a login and a day.
use openscreentime.Common.{
  ℕ, ◌≡◌, refl, ◌∙◌, inl, inr, max, Bool, true, false, ◌&&◌, Option, none, some, List, [], ◌∷◌,
  arith, ◌==◌, if◌then◌else◌, Bool-cases,
}
use openscreentime.Common.Int.{ℤ, eq_ℤ}
use openscreentime.Server.Ledger.{
  UsageEntry, DeviceUser, LedgerRow, Db, seconds, filing_day, row_of, put_used, same_key,
  report_regression, check_regression, login_of, file_for, file_known, file_all, set_offset,
  first_offset, upsert_usage,
}

abbrev pub used_of : Option LedgerRow → ℕ
used_of none = 0
used_of (some r) = r.used_seconds

-- The seconds on record.
abbrev pub recorded : Db → ℕ → ℤ → ℕ
recorded db du day = used_of (row_of du day db.ledger)

abbrev at_key : Bool → ℕ → ℕ
at_key hit n = if hit then n else 0

abbrev keys_agree : ℕ → ℤ → ℕ → ℤ → Bool
keys_agree du day du' day' = (du == du') && eq_ℤ day day'

row_of-put_used :
    (du : ℕ) (day : ℤ) (n du' : ℕ) (day' : ℤ) (rows : List LedgerRow)
    → used_of (row_of du' day' (put_used du day n rows))
      ≡ max (used_of (row_of du' day' rows)) (at_key (keys_agree du day du' day') n)
unfolding row_of put_used
row_of-put_used du day n du' day' [] = ground arith
row_of-put_used du day n du' day' (r ∷ rows) =
    let rest = row_of-put_used du day n du' day' rows in
    elim (Bool-cases (same_key du day r)) [
      | inl e ↦ elim (Bool-cases (same_key du' day' r)) [
        | inl f ↦ rw (e, f) (let k : keys_agree du day du' day' ≡ true = ground arith in rw k refl)
        | inr f ↦
            rw (e, f)
              (let k : keys_agree du day du' day' ≡ false = ground arith in rw k (ground arith))
      ]
      | inr e ↦ elim (Bool-cases (same_key du' day' r)) [
        | inl f ↦
            rw (e, f)
              (let k : keys_agree du day du' day' ≡ false = ground arith in rw k (ground arith))
        | inr f ↦ rw (e, f) rest
      ]
    ]

pub check_regression_ledger :
    (tenant device du : ℕ) (day : ℤ) (u : UsageEntry) (o : Option LedgerRow) (db : Db)
    → (check_regression tenant device du day u o db).ledger ≡ db.ledger
unfolding report_regression
check_regression_ledger tenant device du day u none db = refl
check_regression_ledger tenant device du day u (some r) db = ground arith

check_regression_users :
    (tenant device du : ℕ) (day : ℤ) (u : UsageEntry) (o : Option LedgerRow) (db : Db)
    → (check_regression tenant device du day u o db).device_users ≡ db.device_users
unfolding report_regression
check_regression_users tenant device du day u none db = refl
check_regression_users tenant device du day u (some r) db = ground arith

-- What an entry reports for a login and a day.
abbrev reports : ℕ → Option DeviceUser → UsageEntry → ℕ → ℤ → ℕ
reports now none u du day = 0
reports now (some login) u du day =
    at_key (keys_agree login.id (filing_day u.day u.utc_offset_secs now) du day) (seconds u)

-- The greatest total that the entries of a device report for a login and a day.
abbrev pub reported : ℕ → ℕ → List DeviceUser → List UsageEntry → ℕ → ℤ → ℕ
reported device now users [] du day = 0
reported device now users (u ∷ us) du day =
    max (reports now (login_of device u.os_username users) u du day)
      (reported device now users us du day)

file_known-recorded :
    (tenant device now : ℕ) (u : UsageEntry) (o : Option DeviceUser) (db : Db) (du : ℕ) (day : ℤ)
    → recorded (file_known tenant device now u o db).0 du day
      ≡ max (recorded db du day) (reports now o u du day)
unfolding file_for
file_known-recorded tenant device now u none db du day = ground arith
file_known-recorded tenant device now u (some login) db du day =
    let filed = filing_day u.day u.utc_offset_secs now in
    rw (check_regression_ledger tenant device login.id filed u (row_of login.id filed db.ledger) db)
      (row_of-put_used login.id filed (seconds u) du day db.ledger)

file_known_users :
    (tenant device now : ℕ) (u : UsageEntry) (o : Option DeviceUser) (db : Db)
    → (file_known tenant device now u o db).0.device_users ≡ db.device_users
unfolding file_for
file_known_users tenant device now u none db = refl
file_known_users tenant device now u (some login) db =
    let filed = filing_day u.day u.utc_offset_secs now in
    check_regression_users tenant device login.id filed u (row_of login.id filed db.ledger) db

file_all_users :
    (tenant device now : ℕ) (us : List UsageEntry) (db : Db)
    → (file_all tenant device now us db).0.device_users ≡ db.device_users
unfolding file_all
file_all_users tenant device now [] db = refl
file_all_users tenant device now (u ∷ us) db =
    let login = login_of device u.os_username db.device_users in
    file_all_users tenant device now us (file_known tenant device now u login db).0
    ∙ file_known_users tenant device now u login db

pub upsert_usage_users :
    (tenant device now : ℕ) (usage : List UsageEntry) (db : Db)
    → (upsert_usage tenant device now usage db).0.device_users ≡ db.device_users
unfolding upsert_usage
upsert_usage_users tenant device now usage db =
    file_all_users tenant device now usage
      (record db { devices = set_offset device (first_offset usage) db.devices })

file_all-recorded :
    (tenant device now : ℕ) (us : List UsageEntry) (db : Db) (du : ℕ) (day : ℤ)
    → recorded (file_all tenant device now us db).0 du day
      ≡ max (recorded db du day) (reported device now db.device_users us du day)
unfolding file_all
file_all-recorded tenant device now [] db du day = ground arith
file_all-recorded tenant device now (u ∷ us) db du day =
    let login = login_of device u.os_username db.device_users in
    let one = file_known tenant device now u login db in
    let users : one.0.device_users ≡ db.device_users =
      file_known_users tenant device now u login db in
    let rest = rw users at (file_all-recorded tenant device now us one.0 du day) in
    let head = file_known-recorded tenant device now u login db du day in
    rw (rest, head)
      (max_assoc (recorded db du day) (reports now login u du day)
        (reported device now db.device_users us du day))
  where
    max_assoc : (a b c : ℕ) → max (max a b) c ≡ max a (max b c)
    max_assoc a b c = ground arith

-- However a device reports, in whatever order and however often: what is recorded for a login and a
-- day is the greater of what was recorded and the most that an entry for that login, filed under that
-- day, reports. So a total never goes down, and no report touches another login or day.
pub upsert_usage-recorded :
    (tenant device now : ℕ) (usage : List UsageEntry) (db : Db) (du : ℕ) (day : ℤ)
    → recorded (upsert_usage tenant device now usage db).0 du day
      ≡ max (recorded db du day) (reported device now db.device_users usage du day)
unfolding upsert_usage
upsert_usage-recorded tenant device now usage db du day =
    file_all-recorded tenant device now usage
      (record db { devices = set_offset device (first_offset usage) db.devices }) du day
