-- ===== src/Server/Confirm.antt =====
-- server/src/confirm.rs, `guard_member` of server/src/members.rs and `insert_session` of
-- server/src/auth.rs: what a session may reach, and when it must confirm who it is. The table of
-- sessions is a list of rows and every statement succeeds; moments are seconds. The hash of a cookie
-- stands for it, and hashes and ids are numbers.
pub mod Layers
pub mod Windows
use openscreentime.Common.{
  ℕ, ◌+◌, ◌*◌, max, Bool, true, false, ◌&&◌, ◌||◌, not, Option, none, some, List, [], ◌∷◌, ◌++◌,
  ltb, leb, ◌==◌, if◌then◌else◌, any, keep, find_first, is_some,
}
use openscreentime.Common.Text.{Text, codes, text_eq, starts_with, ends_with}
use openscreentime.Server.LoginCode.{Store, Answer, granted, refusal, check, is_session}

abbrev pub confirm_minutes : ℕ
confirm_minutes = 15

-- A row of `admin_sessions`.
pub record Session : Type 0 where
  pub id : ℕ
  pub admin : ℕ
  pub tenant : ℕ
  pub token_hash : ℕ
  pub prev_token_hash : Option ℕ
  pub prev_valid_until : Option ℕ
  pub stepup_until : Option ℕ
  pub last_seen_at : Option ℕ
  pub expires_at : ℕ
  pub via_voucher : Bool

-- A row of `admins`.
pub record Account : Type 0 where
  pub id : ℕ
  pub role : Text
  pub blocked_at : Option ℕ

-- The response of the handler behind a layer, or an error.
pub data Response : Type 0 where
  handled unauthorized step_up_required forbidden_for_member : Response

-- `exempt`.
unfoldable pub exempt : Text → Bool
exempt path = starts_with (codes "/api/auth/") path || text_eq path (codes "/api/me/ask")

-- `sensitive`.
unfoldable pub sensitive : Text → Bool
sensitive path =
    starts_with (codes "/api/me/passkeys") path
    || starts_with (codes "/api/me/telegram") path
    || starts_with (codes "/api/parent-tokens") path
    || ends_with (codes "/assign-account") path
    || ends_with (codes "/enroll-token") path
    || starts_with (codes "/api/vpn-profiles") path
    || ends_with (codes "/vpn") path
    || (starts_with (codes "/api/devices/") path
        && (ends_with (codes "/unlock-code") path
            || ends_with (codes "/unlock-code/rotate") path
            || ends_with (codes "/recovery-codes") path))

abbrev pub is_hash : Option ℕ → ℕ → Bool
is_hash none hash = false
is_hash (some h) hash = h == hash

-- Whether a moment is still to come.
abbrev pub is_ahead : Option ℕ → ℕ → Bool
is_ahead none now = false
is_ahead (some t) now = ltb now t

-- The session that a cookie opens.
abbrev pub is_session_of : ℕ → ℕ → Session → Bool
is_session_of hash now s =
    ((s.token_hash == hash) || (is_hash s.prev_token_hash hash && is_ahead s.prev_valid_until now))
    && ltb now s.expires_at

abbrev pub account_of : ℕ → List Account → Option Account
account_of id accounts = find_first (λ a. a.id == id) accounts

abbrev joined : Option Session → List Account → Option (Session × Account)
joined none accounts = none
joined (some s) accounts = elim (account_of s.admin accounts) [ none ↦ none | some a ↦ some (s, a) ]

-- The session of a cookie with its account.
unfoldable pub gate_of : ℕ → ℕ → List Session → List Account → Option (Session × Account)
gate_of hash now sessions accounts = joined (find_first (is_session_of hash now) sessions) accounts

abbrev pub needs_confirm : Text → Bool
needs_confirm path = sensitive path && not (exempt path)

abbrev pub is_change : Bool → Text → Bool
is_change mutating path = mutating && (starts_with (codes "/api/") path && not (exempt path))

abbrev pub through_gate : Bool → ℕ → Option (Session × Account) → Response
through_gate confirm now none = handled
through_gate confirm now (some (s, a)) =
    if is_some a.blocked_at
    then forbidden_for_member
    else if confirm && not (is_ahead s.stepup_until now)
    then step_up_required
    else handled

-- `require_confirm`; the cookie is that of the session, if there is one.
unfoldable pub require_confirm : Bool → Text → Option ℕ → ℕ → List Session → List Account → Response
require_confirm mutating path none now sessions accounts = handled
require_confirm mutating path (some hash) now sessions accounts =
    if not (needs_confirm path) && not (is_change mutating path)
    then handled
    else through_gate (needs_confirm path) now (gate_of hash now sessions accounts)

abbrev pub window_of : ℕ → Option Session → Response
window_of now none = unauthorized
window_of now (some s) = if is_ahead s.stepup_until now then handled else step_up_required

-- `require_window`.
unfoldable pub require_window : Option ℕ → ℕ → List Session → Response
require_window none now sessions = unauthorized
require_window (some hash) now sessions =
    window_of now (find_first (is_session_of hash now) sessions)

abbrev id_of : Option Session → Option ℕ
id_of none = none
id_of (some s) = some s.id

-- `session_id_for`.
unfoldable pub session_id_for : Option ℕ → ℕ → List Session → Option ℕ
session_id_for none now sessions = none
session_id_for (some hash) now sessions = id_of (find_first (is_session_of hash now) sessions)

abbrev pub opened : ℕ → ℕ → Session → Session
opened fresh now s = record s {
  prev_token_hash = some s.token_hash;
  prev_valid_until = some (now + 2 * 60);
  token_hash = fresh;
  stepup_until = some (now + confirm_minutes * 60);
  last_seen_at = some now;
  expires_at = max s.expires_at (now + 7 * 24 * 3600);
}

-- `open_window`, with the hash of the token that is drawn.
unfoldable pub open_window : ℕ → ℕ → ℕ → List Session → List Session
open_window id fresh now [] = []
open_window id fresh now (s ∷ sessions) =
    (if s.id == id then opened fresh now s else s) ∷ open_window id fresh now sessions

-- `insert_session`, and the sessions that ran out are removed.
unfoldable pub insert_session : ℕ → ℕ → ℕ → ℕ → ℕ → Bool → ℕ → List Session → List Session
insert_session id hash admin tenant ttl_days via_voucher now sessions =
    let new : Session = record {
      id = id;
      admin = admin;
      tenant = tenant;
      token_hash = hash;
      prev_token_hash = none;
      prev_valid_until = none;
      stepup_until = some (now + confirm_minutes * 60);
      last_seen_at = none;
      expires_at = now + ttl_days * 24 * 3600;
      via_voucher = via_voucher;
    } in
    keep (λ s. not (ltb s.expires_at now)) (sessions ++ new ∷ [])

-- The paths that a member may reach beside the sign-in.
abbrev pub member_paths : List Text
member_paths =
    codes "/api/me"
    ∷ codes "/api/me/today"
    ∷ codes "/api/me/history"
    ∷ codes "/api/me/where"
    ∷ codes "/api/me/goal"
    ∷ codes "/api/me/rules"
    ∷ codes "/api/me/ask"
    ∷ codes "/api/catalog"
    ∷ []

-- `member_allowed`.
unfoldable pub member_allowed : Text → Bool
member_allowed path = any (text_eq path) member_paths || starts_with (codes "/api/auth/") path

abbrev pub refuse_member : Option (Session × Account) → Response
refuse_member none = handled
refuse_member (some (s, a)) =
    if text_eq a.role (codes "member") then forbidden_for_member else handled

-- `guard_member`.
unfoldable pub guard_member : Text → Option ℕ → ℕ → List Session → List Account → Response
guard_member path none now sessions accounts = handled
guard_member path (some hash) now sessions accounts =
    if not (starts_with (codes "/api/") path) || member_allowed path
    then handled
    else refuse_member (gate_of hash now sessions accounts)

abbrev pub behind : Response → Response → Response
behind handled next = next
behind unauthorized next = unauthorized
behind step_up_required next = step_up_required
behind forbidden_for_member next = forbidden_for_member

-- The two layers over `/api`, `guard_member` outside.
abbrev pub layers : Bool → Text → Option ℕ → ℕ → List Session → List Account → Response
layers mutating path cookie now sessions accounts =
    behind (guard_member path cookie now sessions accounts)
      (require_confirm mutating path cookie now sessions accounts)

abbrev opened_for : ℕ → ℕ → ℕ → ℕ → Answer → List Session → List Session × Bool
opened_for admin id fresh now (refusal why) sessions = (sessions, false)
opened_for admin id fresh now (granted tenant account) sessions =
    if account == admin then (open_window id fresh now sessions, true) else (sessions, false)

abbrev pub verify_in :
    (ℕ → Text → Text)
    → ℕ
    → ℕ
    → Text
    → ℕ
    → ℕ
    → Option ℕ
    → Store
    → List Session
    → Store × (List Session × Bool)
verify_in code_hash admin request code fresh now none st sessions = (st, (sessions, false))
verify_in code_hash admin request code fresh now (some id) st sessions =
    let p = check code_hash (is_session id) request code now st in
    (p.0, opened_for admin id fresh now p.1 sessions)

-- `code_verify`: the codes, the sessions and whether the window was opened.
unfoldable pub code_verify :
    (ℕ → Text → Text)
    → Option ℕ
    → ℕ
    → ℕ
    → Text
    → ℕ
    → ℕ
    → Store
    → List Session
    → Store × (List Session × Bool)
code_verify code_hash cookie admin request code fresh now st sessions =
    verify_in code_hash admin request code fresh now (session_id_for cookie now sessions) st
      sessions
