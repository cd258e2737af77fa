-- ===== src/Server/Tests/Codes.antt =====
-- Runs of server/src/login_code.rs.
use openscreentime.Common.{ℕ, ◌≤◌, ◌≡◌, refl, Bool, true, false, Option, some, List, [], ◌∷◌, arith}
use openscreentime.Common.Text.{Text, codes}
use openscreentime.Server.Commands.{Queue}
use openscreentime.Server.LoginCode.{
  Store, found, granted, refusal, start_again, login, Recipient, too_often, issue, held_of,
  wrong_of, recent_of, check, settle, look, matches, digits_only, redeem,
}
use openscreentime.Server.LoginCode.Opens.{Half, settle_all, grants, grants-settle_all}
use openscreentime.Server.LoginCode.Decoys.{erased, answers, answers-erased}
use openscreentime.Server.LoginCode.Asks.{
  Event, asked, typed, after, shown, shown-max_recent_per_account,
}

abbrev no_commands : Queue
no_commands = record { rows = []; locked = λ d. false }

abbrev empty_store : Store
empty_store = record { rows = []; warnings = []; queue = no_commands }

abbrev salted : ℕ → Text → Text
salted id code = id ∷ code

abbrev anyone : Option Text → Option ℕ → Bool
anyone challenge session = true

abbrev emma : Option Recipient
emma = some (record { account_id = 4; tenant_id = 1; targets = [] })

abbrev asking : ℕ → ℕ → Event
asking id at = asked id (codes "123456") (login (codes "c")) emma at

abbrev after_all : List Event → Store → Store
after_all [] st = st
after_all (e ∷ es) st = after_all es (after salted e st)

abbrev asked_once : Store
asked_once = (issue salted 7 (codes "123456") (login (codes "c")) emma 1000 empty_store).0

abbrev right : ℕ → Half
right at = record { id = 7; read = found true (some 1) (some 4); at = at }

abbrev wrong : ℕ → Half
wrong at = record { id = 7; read = found false (some 1) (some 4); at = at }

-- Digits count, blanks do not; a used code opens no more.
opens_once : (check salted anyone 7 (codes "123 456") 1010 asked_once).1 ≡ granted 1 4
unfolding issue held_of wrong_of recent_of check settle look matches digits_only redeem
opens_once = refl

opens_no_more :
    (check salted anyone 7
      (codes "123456")
      1011
      (check salted anyone 7 (codes "123456") 1010 asked_once).0).1
    ≡ refusal start_again
unfolding issue held_of wrong_of recent_of check settle look matches digits_only redeem
opens_no_more = refl

-- The sixth request in ten minutes is held back.
sixth :
    (issue salted 6 (codes "1") (login (codes "c")) emma 1050 (
      after_all
        (asking 1 1000 ∷ asking 2 1010 ∷ asking 3 1020 ∷ asking 4 1030 ∷ asking 5 1040 ∷ [])
        empty_store)).1
    ≡ some too_often
unfolding issue held_of wrong_of recent_of after
sixth = refl

grants-settle_all_example :
    grants 7 (right 1020 ∷ right 1021 ∷ []) (settle_all (wrong 1001 ∷ wrong 1002 ∷ []) asked_once)
    ≤ 1
grants-settle_all_example =
    grants-settle_all 7 (wrong 1001 ∷ wrong 1002 ∷ []) (right 1020 ∷ right 1021 ∷ []) asked_once

shown-max_recent_per_account_example :
    shown salted 4 1100
      (asking 1 1000
        ∷ asking 2 1010
        ∷ typed (wrong 1011)
        ∷ asking 3 1020
        ∷ asking 4 1030
        ∷ asking 5 1040
        ∷ asking 6 1050
        ∷ [])
      empty_store
    ≤ 5
shown-max_recent_per_account_example =
    shown-max_recent_per_account salted 4 1100
      (asking 1 1000
        ∷ asking 2 1010
        ∷ typed (wrong 1011)
        ∷ asking 3 1020
        ∷ asking 4 1030
        ∷ asking 5 1040
        ∷ asking 6 1050
        ∷ [])
      empty_store
      (
        omega arith,
        (
          omega arith,
          (omega arith, (omega arith, (omega arith, (omega arith, (omega arith, tt))))),
        ),
      )
      tt

abbrev guesses : List (Text × ℕ)
guesses = (codes "000000", 1001) ∷ (codes "111111", 1002) ∷ []

answers-erased_example :
    answers salted anyone 7 guesses (record asked_once { rows = erased 7 asked_once.rows })
    ≡ answers salted anyone 7 guesses asked_once
unfolding issue held_of wrong_of recent_of matches digits_only
answers-erased_example =
    answers-erased salted anyone 7 guesses asked_once
      (record asked_once { rows = erased 7 asked_once.rows }) refl ((refl, tt), ((refl, tt), tt))
