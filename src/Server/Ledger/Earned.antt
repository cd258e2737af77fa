-- ===== src/Server/Ledger/Earned.antt =====
-- What a login earned, over all days, and that reports of use leave it.
use openscreentime.Common.{
  ℕ, ◌≡◌, refl, ◌∙◌, inl, inr, Option, none, some, List, [], ◌∷◌, arith, ◌==◌, if◌then◌else◌,
  Bool-cases,
}
use openscreentime.Common.Int.{ℤ}
use openscreentime.Server.Ledger.{
  UsageEntry, DeviceUser, LedgerRow, Db, sum_over, seconds, filing_day, row_of, put_used, same_key,
  login_of, file_for, file_known, file_all, set_offset, first_offset, upsert_usage,
}
use openscreentime.Server.Ledger.Totals.{check_regression_ledger}

-- The seconds that a login earned, over all days.
abbrev pub earned_total : ℕ → List LedgerRow → ℕ
earned_total du rows = sum_over (λ l. if l.device_user == du then l.earned_seconds else 0) rows

earned_total-put_used :
    (du login : ℕ) (day : ℤ) (n : ℕ) (rows : List LedgerRow)
    → earned_total du (put_used login day n rows) ≡ earned_total du rows
unfolding put_used
earned_total-put_used du login day n [] = ground arith
earned_total-put_used du login day n (r ∷ rows) =
    let rest = earned_total-put_used du login day n rows in
    elim (Bool-cases (same_key login day r)) [
      | inl e ↦ rw e refl
      | inr e ↦ rw e (omega (arith, rest))
    ]

file_known-earned_total :
    (tenant device now : ℕ) (u : UsageEntry) (o : Option DeviceUser) (db : Db) (du : ℕ)
    → earned_total du (file_known tenant device now u o db).0.ledger ≡ earned_total du db.ledger
unfolding file_for
file_known-earned_total tenant device now u none db du = refl
file_known-earned_total tenant device now u (some login) db du =
    let filed = filing_day u.day u.utc_offset_secs now in
    rw (check_regression_ledger tenant device login.id filed u (row_of login.id filed db.ledger) db)
      (earned_total-put_used du login.id filed (seconds u) db.ledger)

file_all-earned_total :
    (tenant device now : ℕ) (us : List UsageEntry) (db : Db) (du : ℕ)
    → earned_total du (file_all tenant device now us db).0.ledger ≡ earned_total du db.ledger
unfolding file_all
file_all-earned_total tenant device now [] db du = refl
file_all-earned_total tenant device now (u ∷ us) db du =
    let login = login_of device u.os_username db.device_users in
    file_all-earned_total tenant device now us (file_known tenant device now u login db).0 du
    ∙ file_known-earned_total tenant device now u login db du

-- A report of use leaves what a login earned.
pub upsert_usage-earned_total :
    (tenant device now : ℕ) (usage : List UsageEntry) (db : Db) (du : ℕ)
    → earned_total du (upsert_usage tenant device now usage db).0.ledger ≡ earned_total du db.ledger
unfolding upsert_usage
upsert_usage-earned_total tenant device now usage db du =
    file_all-earned_total tenant device now usage
      (record db { devices = set_offset device (first_offset usage) db.devices }) du
