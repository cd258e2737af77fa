-- ===== src/Server/Tests/Asks.antt =====
-- Runs of server/src/earn.rs.
use openscreentime.Common.{ℕ, ◌+◌, ◌*◌, ◌≤◌, ◌≡◌, refl, true, false, none, some, [], ◌∷◌}
use openscreentime.Common.Text.{codes}
use openscreentime.Common.Int.{pos}
use openscreentime.Policy.Time.{second}
use openscreentime.Server.Ledger.{Db}
use openscreentime.Server.Ledger.Earned.{earned_total}
use openscreentime.Server.Earn.{
  file_request, settle_pending_asks, fetch_request, credit_ledger, Household, Outside,
  EarnRequestReq, Reply, credited, failed, conflict, bad_request, create_request, credit_time,
  decide,
}
use openscreentime.Server.Earn.Counts.{tally, has_id, waits, decides}
use openscreentime.Server.Earn.Steps.{created, answered, Reach, start, later}
use openscreentime.Server.Earn.Once.{Reach-decides}
use openscreentime.Server.Earn.Audit.{audited, Reach-earned_total}

abbrev laptop : Db
laptop = record {
  devices = record { id = 1; tenant = 9; utc_offset_secs = none } ∷ [];
  device_users = record { id = 4; device = 1; os_username = codes "emma"; account = some 2 } ∷ [];
  ledger = [];
  retired = [];
  regressions = [];
}

abbrev outside : Outside
outside = record {
  words = record { of_grant = λ user minutes day. user; of_denial = λ user task. user };
  live = λ d. false;
  command = 70;
}

abbrev noon : ℕ
noon = 100 * second

abbrev fifteen : EarnRequestReq
fifteen = record {
  os_username = codes "emma";
  task_id = codes "ask";
  task_label = codes "more";
  minutes = pos 15;
}

abbrev no_asks : Household
no_asks = record {
  db = laptop;
  requests = [];
  queue = record { rows = []; locked = λ d. false };
  events = [];
}

abbrev one_ask : Household
one_ask = (create_request 30 9 1 fifteen noon no_asks).0

abbrev approved_once : Household
approved_once = (decide outside 9 30 true noon one_ask).0

abbrev approved_twice : Household × Reply
approved_twice = decide outside 9 30 true noon approved_once

approved_twice-Reach : Reach laptop approved_twice.0
approved_twice-Reach =
    later
      (later
        (later (start (record { rows = []; locked = λ d. false }))
          (created 30 9 1 fifteen noon refl))
        (answered outside 9 30 true noon))
      (answered outside 9 30 true noon)

Reach-decides_example :
    (tally (decides 30) approved_twice.0.events + tally (waits 30) approved_twice.0.requests
      ≡ tally (has_id 30) approved_twice.0.requests)
    × (tally (has_id 30) approved_twice.0.requests ≤ 1)
Reach-decides_example = Reach-decides 30 approved_twice-Reach

Reach-earned_total_example :
    earned_total 4 approved_twice.0.db.ledger
    ≡ earned_total 4 laptop.ledger + 60 * audited 4 approved_twice.0.events
Reach-earned_total_example = Reach-earned_total 4 approved_twice-Reach

-- The second approval of a request is refused, and credits nothing.
approved_again : approved_twice.1 ≡ failed conflict
unfolding decide create_request file_request settle_pending_asks fetch_request
approved_again = refl

credited_once : earned_total 4 approved_twice.0.db.ledger ≡ 900
unfolding decide create_request file_request settle_pending_asks credit_ledger
credited_once = refl

-- A grant answers what was asked.
given_anyway : (credit_time outside 9 4 (pos 20) noon one_ask).1 ≡ credited 20 (30 ∷ [])
unfolding credit_time create_request file_request settle_pending_asks
given_anyway = refl

too_much : (credit_time outside 9 4 (pos 241) noon one_ask).1 ≡ failed bad_request
unfolding credit_time
too_much = refl
