-- ===== src/Server/Tests/Vouchers.antt =====
-- Runs of server/src/voucher.rs.
use openscreentime.Common.{◌+◌, ◌≤◌, ◌≡◌, refl, some, List, [], ◌∷◌}
use openscreentime.Common.Text.{Text, codes, trim}
use openscreentime.Server.Voucher.{Door, denied, unauthorized, no_account, mint, redeem}
use openscreentime.Server.Voucher.Single.{
  Visit, mints, redeems, visit, sign_ins, drawn, unused, sign_ins-drawn,
}

abbrev same_case : Text → Text
same_case s = s

-- Emma and her father have logins on her laptop, which is not his.
abbrev house : Door
house = record {
  vouchers = [];
  computers =
      record { id = 1; tenant = 9; owner_account = some 2; owner_os_username = some (codes "emma") }
      ∷ [];
  logins =
      record { id = 4; device = 1; os_username = codes "emma"; account = some 2 }
      ∷ record { id = 5; device = 1; os_username = codes "dad"; account = some 3 }
      ∷ [];
  members =
      record { id = 2; tenant = 9; role = codes "member" }
      ∷ record { id = 3; tenant = 9; role = codes "owner" }
      ∷ [];
  sessions = [];
}

abbrev visits : List Visit
visits = mints 50 1 9 (codes "emma") 100 ∷ redeems 50 1 60 110 ∷ redeems 50 2 61 111 ∷ []

sign_ins-drawn_example :
    sign_ins same_case 50 visits house ≤ drawn same_case 50 visits house + unused 50 house.vouchers
sign_ins-drawn_example = sign_ins-drawn same_case 50 visits house

once : sign_ins same_case 50 visits house ≡ 1
unfolding sign_ins visit mint trim redeem
once = refl

not_dads : (mint same_case 51 1 9 (codes " dad ") 100 house).1 ≡ denied no_account
unfolding mint trim
not_dads = refl

too_late :
    (redeem 50 1 60 220 (mint same_case 50 1 9 (codes "emma") 100 house).0).1 ≡ denied unauthorized
unfolding redeem mint trim
too_late = refl
