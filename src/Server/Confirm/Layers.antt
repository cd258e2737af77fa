-- ===== src/Server/Confirm/Layers.antt =====
-- Who gets through the layers to a sensitive path.
use openscreentime.Common.{
  ℕ, ◌≡◌, refl, inl, inr, Bool, true, false, ◌&&◌, not, some, List, [], ◌∷◌, arith, if◌then◌else◌,
  is_some, any, All, Bool-cases,
}
use openscreentime.Common.Text.{Text, codes, text_eq, text_eq→eq, starts_with}
use openscreentime.Server.Confirm.{
  Session, Account, Response, handled, unauthorized, step_up_required, forbidden_for_member, exempt,
  sensitive, needs_confirm, is_ahead, gate_of, require_confirm, member_paths, member_allowed,
  guard_member, behind, layers,
}

abbrev pub is_handled : Response → Bool
is_handled handled = true
is_handled unauthorized = false
is_handled step_up_required = false
is_handled forbidden_for_member = false

not_and : (b : Bool) → (b && false) ≡ false
not_and true = refl
not_and false = refl

plain_paths :
    (path : Text) (words : List Text)
    → All (λ w. needs_confirm w ≡ false) words
    → any (text_eq path) words ≡ true
    → needs_confirm path ≡ false
plain_paths path [] a h = ground (arith, h)
plain_paths path (w ∷ words) a h = elim (Bool-cases (text_eq path w)) [
  | inl e ↦ rw (text_eq→eq path w e) a.0
  | inr e ↦ plain_paths path words a.1 (rw e at h)
]

auth_path :
    (path : Text) → starts_with (codes "/api/auth/") path ≡ true → needs_confirm path ≡ false
unfolding exempt
auth_path path e = rw e (not_and (sensitive path))

-- What a member may reach is not sensitive, or it is exempt.
member_allowed-needs_confirm :
    (path : Text) → member_allowed path ≡ true → needs_confirm path ≡ false
unfolding member_allowed sensitive exempt
member_allowed-needs_confirm path m = elim (Bool-cases (any (text_eq path) member_paths)) [
  | inl e ↦
      plain_paths path member_paths
        (refl, (refl, (refl, (refl, (refl, (refl, (refl, (refl, tt)))))))) e
  | inr e ↦ auth_path path (rw e at m)
]

decided :
    (member blocked ahead : Bool)
    → is_handled (
        behind (if member then forbidden_for_member else handled) (
          if blocked
          then forbidden_for_member
          else if not ahead
          then step_up_required
          else handled))
      ≡ (not member && (not blocked && ahead))
decided true blocked ahead = refl
decided false true ahead = refl
decided false false true = refl
decided false false false = refl

-- A request of a live session for a sensitive path under `/api/` gets through the layers to its handler
-- exactly if the account is no member's and is not paused, and the confirm window of the session is open.
pub layers-needs_confirm :
    (mutating : Bool) (path : Text) (hash now : ℕ) (sessions : List Session)
    (accounts : List Account) (s : Session) (a : Account)
    → gate_of hash now sessions accounts ≡ some (s, a)
    → starts_with (codes "/api/") path ≡ true
    → needs_confirm path ≡ true
    → is_handled (layers mutating path (some hash) now sessions accounts) ≡ (
        not (text_eq a.role (codes "member"))
        && (not (is_some a.blocked_at) && is_ahead s.stepup_until now))
unfolding guard_member require_confirm
layers-needs_confirm mutating path hash now sessions accounts s a e api c =
    let closed : member_allowed path ≡ false = elim (Bool-cases (member_allowed path)) [
      | inl m ↦ ground (arith, member_allowed-needs_confirm path m, c)
      | inr m ↦ m
    ] in
    rw (closed, api, c, e)
      (decided (text_eq a.role (codes "member")) (is_some a.blocked_at)
        (is_ahead s.stepup_until now))
