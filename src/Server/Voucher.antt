-- ===== src/Server/Voucher.antt =====
-- server/src/voucher.rs: tokens that sign in once, for a computer (vouchers) or a person (links). The
-- tables are lists of rows, and every statement succeeds; moments are seconds, and tokens stand for
-- their hashes, which are numbers that are drawn.
pub mod Single
use openscreentime.Common.{
  ℕ, ◌+◌, ◌*◌, Bool, true, false, ◌&&◌, ◌||◌, not, Option, none, some, List, [], ◌∷◌, ◌++◌, ltb,
  ◌==◌, if◌then◌else◌, any, keep, find_first, is_some,
}
use openscreentime.Common.Text.{Text, codes, text_eq, trim}
use openscreentime.Server.Confirm.{Session, Account, insert_session, account_of}
use openscreentime.Server.Ledger.{DeviceUser, login_of}

abbrev pub voucher_session_days : ℕ
voucher_session_days = 7

-- A row of `device_vouchers`.
pub record Voucher : Type 0 where
  pub hash : ℕ
  pub device : ℕ
  pub tenant : ℕ
  pub account : Option ℕ
  pub expires_at : ℕ
  pub consumed_at : Option ℕ

-- A computer, with whose it is and the login of its owner.
pub record Computer : Type 0 where
  pub id : ℕ
  pub tenant : ℕ
  pub owner_account : Option ℕ
  pub owner_os_username : Option Text

pub record Member : Type 0 where
  pub id : ℕ
  pub tenant : ℕ
  pub role : Text

pub record Door : Type 0 where
  pub vouchers : List Voucher
  pub computers : List Computer
  pub logins : List DeviceUser
  pub members : List Member
  pub sessions : List Session

pub data Refused : Type 0 where
  bad_request no_account unauthorized internal : Refused

-- A token, or the account that is signed in, or why not.
pub data Outcome : Type 0 where
  minted : ℕ → Outcome
  signed_in : ℕ → Outcome
  denied : Refused → Outcome

abbrev is_of : Option ℕ → ℕ → Bool
is_of none a = false
is_of (some b) a = b == a

abbrev is_named : (Text → Text) → Option Text → Text → Bool
is_named lower none name = false
is_named lower (some owner) name = text_eq (lower owner) (lower name)

-- Whether a computer is a person's own, and the login its owner's.
abbrev pub own_device : (Text → Text) → ℕ → ℕ → Text → List Computer → Bool
own_device lower device account name computers =
    any
      (λ d.
        (d.id == device)
        && (is_of d.owner_account account && is_named lower d.owner_os_username name))
      computers

abbrev pub member_of : ℕ → List Member → Option Member
member_of account members = find_first (λ a. a.id == account) members

abbrev linked_account : Option DeviceUser → Option ℕ
linked_account none = none
linked_account (some u) = u.account

abbrev pub mint_row : ℕ → ℕ → ℕ → ℕ → ℕ → Door → Door
mint_row hash device tenant account now st = record st {
  vouchers =
      keep (λ v. not (ltb (v.expires_at + 3600) now))
        (st.vouchers
          ++ record {
            hash = hash;
            device = device;
            tenant = tenant;
            account = some account;
            expires_at = now + 2 * 60;
            consumed_at = none;
          }
            ∷ []);
}

abbrev pub mint_as :
    (Text → Text) → ℕ → ℕ → ℕ → Text → ℕ → ℕ → Option Member → Door → Door × Outcome
mint_as lower hash device tenant name now account none st = (st, denied internal)
mint_as lower hash device tenant name now account (some a) st =
    if not (text_eq a.role (codes "member"))
      && not (own_device lower device account name st.computers)
    then (st, denied no_account)
    else (mint_row hash device tenant account now st, minted hash)

abbrev pub mint_for : (Text → Text) → ℕ → ℕ → ℕ → Text → ℕ → Option ℕ → Door → Door × Outcome
mint_for lower hash device tenant name now none st = (st, denied no_account)
mint_for lower hash device tenant name now (some account) st =
    mint_as lower hash device tenant name now account (member_of account st.members) st

-- `mint`, by the agent of a computer; `lower` is that of the database.
unfoldable pub mint : (Text → Text) → ℕ → ℕ → ℕ → Text → ℕ → Door → Door × Outcome
mint lower hash device tenant os_username now st =
    let name = trim os_username in
    if text_eq name []
    then (st, denied bad_request)
    else mint_for lower hash device tenant name now
        (linked_account (login_of device name st.logins)) st

-- A voucher that can be redeemed.
abbrev pub is_live : ℕ → ℕ → Voucher → Bool
is_live hash now v = (v.hash == hash) && (not (is_some v.consumed_at) && ltb now v.expires_at)

abbrev pub consumed : ℕ → Voucher → Voucher
consumed now v = record v { consumed_at = some now }

-- `UPDATE device_vouchers SET .. WHERE ..`.
abbrev pub change_vouchers : (Voucher → Bool) → (Voucher → Voucher) → List Voucher → List Voucher
change_vouchers test change [] = []
change_vouchers test change (v ∷ vouchers) =
    (if test v then change v else v) ∷ change_vouchers test change vouchers

abbrev pub sign_in : ℕ → ℕ → ℕ → ℕ → ℕ → Option Member → Door → Door × Outcome
sign_in id token account tenant now none st = (st, denied unauthorized)
sign_in id token account tenant now (some a) st = (
  record st {
    sessions = insert_session id token account tenant voucher_session_days true now st.sessions;
  },
  signed_in account,
)

abbrev pub enter_as : ℕ → ℕ → ℕ → ℕ → Option ℕ → Door → Door × Outcome
enter_as id token tenant now none st = (st, denied unauthorized)
enter_as id token tenant now (some account) st =
    sign_in id token account tenant now
      (find_first (λ a. (a.id == account) && (a.tenant == tenant)) st.members) st

abbrev pub enter : ℕ → ℕ → ℕ → Option Voucher → Door → Door × Outcome
enter id token now none st = (st, denied unauthorized)
enter id token now (some v) st =
    if any (λ d. (d.id == v.device) && (d.tenant == v.tenant)) st.computers
    then enter_as id token v.tenant now v.account st
    else (st, denied unauthorized)

-- `redeem`, with the id and the token that are drawn for the session.
unfoldable pub redeem : ℕ → ℕ → ℕ → ℕ → Door → Door × Outcome
redeem hash id token now st =
    let row = find_first (is_live hash now) st.vouchers in
    enter id token now row
      (record st { vouchers = change_vouchers (is_live hash now) (consumed now) st.vouchers })
