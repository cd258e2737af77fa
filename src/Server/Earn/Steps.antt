-- ===== src/Server/Earn/Steps.antt =====
-- The calls on a household as steps.
use openscreentime.Common.{ℕ, ◌≡◌, Bool, true, Option, some, List, [], any, ◌==◌}
use openscreentime.Common.Text.{Text}
use openscreentime.Common.Int.{ℤ}
use openscreentime.Server.Commands.{Queue}
use openscreentime.Server.Ledger.{Db, DeviceUser, UsageEntry, upsert_usage}
use openscreentime.Server.Earn.{
  EarnRequestReq, Household, Outside, create_request, ask, credit_time, decide,
}
use openscreentime.Server.Earn.Counts.{tally, has_id}

abbrev pub knows : ℕ → Household → Bool
knows du h = any (λ u. u.id == du) h.db.device_users

abbrev pub IsFresh : ℕ → Household → Type 0
IsFresh id h = tally (has_id id) h.requests ≡ 0

-- The calls on a household, and the reports of use. A new request has a fresh id; who asks on the
-- console is filed against a login that the household knows.
pub data Step (h : Household) : Household → Type 0 where
  created :
      (id tenant device : ℕ) (req : EarnRequestReq) (now : ℕ)
      → IsFresh id h
      → Step h (create_request id tenant device req now h).0
  asked :
      (id tenant : ℕ) (bracket : Text) (u : DeviceUser) (minutes : ℤ) (reason : Option Text)
      (now : ℕ)
      → IsFresh id h
      → knows u.id h ≡ true
      → Step h (ask id tenant bracket (some u) minutes reason now h).0
  granted :
      (out : Outside) (tenant du : ℕ) (minutes : ℤ) (now : ℕ)
      → Step h (credit_time out tenant du minutes now h).0
  answered :
      (out : Outside) (tenant id : ℕ) (approve : Bool) (now : ℕ)
      → Step h (decide out tenant id approve now h).0
  reported :
      (tenant device now : ℕ) (usage : List UsageEntry)
      → Step h (record h { db = (upsert_usage tenant device now usage h.db).0 })

-- The households that come of one where nothing was asked yet.
pub data Reach (db : Db) : Household → Type 0 where
  start : (queue : Queue) → Reach db (record { db = db; requests = []; queue = queue; events = [] })
  later : {h h' : Household} → Reach db h → Step h h' → Reach db h'
