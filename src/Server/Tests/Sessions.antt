-- ===== src/Server/Tests/Sessions.antt =====
-- Runs of server/src/confirm.rs.
use openscreentime.Common.{
  ◌+◌, ◌*◌, ◌≡◌, refl, true, false, ◌&&◌, not, none, some, List, [], ◌∷◌, arith, ltb, if◌then◌else◌,
  is_some,
}
use openscreentime.Common.Text.{Text, codes, text_eq}
use openscreentime.Server.Confirm.{
  Session, Account, handled, unauthorized, step_up_required, forbidden_for_member, exempt,
  sensitive, member_allowed, layers, is_ahead, gate_of, guard_member, require_confirm,
  require_window, open_window,
}
use openscreentime.Server.Confirm.Layers.{is_handled, layers-needs_confirm}
use openscreentime.Server.Confirm.Windows.{require_window-open_window}

abbrev evening : Session
evening = record {
  id = 1;
  admin = 5;
  tenant = 9;
  token_hash = 77;
  prev_token_hash = none;
  prev_valid_until = none;
  stepup_until = some 900;
  last_seen_at = none;
  expires_at = 2592000;
  via_voucher = false;
}

abbrev other_one : Session
other_one = record evening { id = 2; admin = 6; token_hash = 80 }

abbrev mum : Account
mum = record { id = 5; role = codes "owner"; blocked_at = none }

abbrev kid : Account
kid = record { id = 6; role = codes "member"; blocked_at = none }

abbrev keys : Text
keys = codes "/api/devices/1/unlock-code"

abbrev both : List Session
both = other_one ∷ evening ∷ []

layers-needs_confirm_example :
    is_handled (layers false keys (some 77) 1000 both (mum ∷ kid ∷ [])) ≡ (
      not (text_eq mum.role (codes "member"))
      && (not (is_some mum.blocked_at) && is_ahead evening.stepup_until 1000))
unfolding gate_of sensitive exempt
layers-needs_confirm_example =
    layers-needs_confirm false keys 77 1000 both (mum ∷ kid ∷ []) evening mum refl refl refl

require_window-open_window_example :
    (require_window (some 78) 1100 (open_window 1 78 1000 both)
      ≡ (if ltb 1100 (1000 + 15 * 60) then handled else step_up_required))
    × (require_window (some 77) 1100 (open_window 1 78 1000 both)
        ≡ (if ltb 1100 (1000 + 2 * 60) then handled else unauthorized))
require_window-open_window_example =
    require_window-open_window 1 77 78 1000 1100 both refl (refl, (refl, tt)) (refl, (refl, tt))
      refl (omega arith)

-- The window is over, and a child's page has no say in it.
asked_again : layers false keys (some 77) 1000 both (mum ∷ kid ∷ []) ≡ step_up_required
unfolding guard_member member_allowed gate_of require_confirm sensitive exempt
asked_again = refl

kept_out : layers false keys (some 80) 10 both (mum ∷ kid ∷ []) ≡ forbidden_for_member
unfolding guard_member member_allowed gate_of
kept_out = refl

-- A paused account may still ask for time.
paused_asks :
    layers true
      (codes "/api/me/ask")
      (some 80)
      10
      both
      (mum ∷ record kid { blocked_at = some 1 } ∷ [])
    ≡ handled
unfolding guard_member member_allowed require_confirm sensitive exempt
paused_asks = refl
