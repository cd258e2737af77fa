-- ===== src/Server/Confirm/Windows.antt =====
-- How long a confirm window is open, and how long a cookie lives that it replaced.
use openscreentime.Common.{
  ℕ, ◌+◌, ◌*◌, ◌≤◌, ◌<◌, ◌≡◌, refl, inl, inr, Bool, true, false, ◌&&◌, ◌||◌, not, none, some, List,
  [], ◌∷◌, arith, ltb, ◌==◌, if◌then◌else◌, any, find_first, Bool-cases, All,
}
use openscreentime.Server.Confirm.{
  Session, handled, unauthorized, step_up_required, is_hash, is_session_of, window_of,
  require_window, opened, open_window,
}

abbrev pub holds : ℕ → Session → Bool
holds hash s = (s.token_hash == hash) || is_hash s.prev_token_hash hash

-- No other session holds a hash.
abbrev pub Alone : ℕ → ℕ → List Session → Type 0
Alone hash id sessions = All (λ s. ((s.id == id) || not (holds hash s)) ≡ true) sessions

abbrev pub is_one : ℕ → Session → Bool
is_one id s = s.id == id

abbrev pub is_current : ℕ → ℕ → Session → Bool
is_current id hash s = (s.id == id) && (s.token_hash == hash)

fresh_window :
    (id fresh now at : ℕ) (sessions : List Session)
    → any (is_one id) sessions ≡ true
    → Alone fresh id sessions
    → at < now + 7 * 24 * 3600
    → window_of at (find_first (is_session_of fresh at) (open_window id fresh now sessions))
      ≡ (if ltb at (now + 15 * 60) then handled else step_up_required)
unfolding open_window
fresh_window id fresh now at [] h a lt = ground (arith, h)
fresh_window id fresh now at (s ∷ sessions) h a lt = elim (Bool-cases (s.id == id)) [
  | inl e ↦
      let live : is_session_of fresh at (opened fresh now s) ≡ true = ground (arith, lt) in
      rw (e, live) refl
  | inr e ↦
      let other : is_session_of fresh at s ≡ false = ground (arith, a.0, e) in
      rw (e, other) (fresh_window id fresh now at sessions (rw e at h) a.1 lt)
]

old_window :
    (id token fresh now at : ℕ) (sessions : List Session)
    → any (is_current id token) sessions ≡ true
    → Alone token id sessions
    → at < now + 2 * 60
    → fresh == token ≡ false
    → window_of at (find_first (is_session_of token at) (open_window id fresh now sessions))
      ≡ handled
unfolding open_window
old_window id token fresh now at [] h a lt f = ground (arith, h)
old_window id token fresh now at (s ∷ sessions) h a lt f = elim (Bool-cases (s.id == id)) [
  | inl e ↦ elim (Bool-cases (s.token_hash == token)) [
    | inl t ↦
        let live : is_session_of token at (opened fresh now s) ≡ true = ground (arith, lt, t) in
        let ahead : ltb at (now + 15 * 60) ≡ true = ground (arith, lt) in rw (e, live, ahead) refl
    | inr t ↦
        let dead : is_session_of token at (opened fresh now s) ≡ false = ground (arith, f, t) in
        rw (e, dead) (old_window id token fresh now at sessions (rw (e, t) at h) a.1 lt f)
  ]
  | inr e ↦
      let other : is_session_of token at s ≡ false = ground (arith, a.0, e) in
      rw (e, other) (old_window id token fresh now at sessions (rw e at h) a.1 lt f)
]

old_gone :
    (id token fresh now at : ℕ) (sessions : List Session)
    → Alone token id sessions
    → now + 2 * 60 ≤ at
    → fresh == token ≡ false
    → find_first (is_session_of token at) (open_window id fresh now sessions) ≡ none
unfolding open_window
old_gone id token fresh now at [] a le f = refl
old_gone id token fresh now at (s ∷ sessions) a le f = elim (Bool-cases (s.id == id)) [
  | inl e ↦
      let dead : is_session_of token at (opened fresh now s) ≡ false = ground (arith, f, le) in
      rw (e, dead) (old_gone id token fresh now at sessions a.1 le f)
  | inr e ↦
      let other : is_session_of token at s ≡ false = ground (arith, a.0, e) in
      rw (e, other) (old_gone id token fresh now at sessions a.1 le f)
]

current_one :
    (id token : ℕ) (sessions : List Session)
    → any (is_current id token) sessions ≡ true
    → any (is_one id) sessions ≡ true
current_one id token [] h = h
current_one id token (s ∷ sessions) h = ground (arith, h, current_one id token sessions)

-- When the window of a session is opened with a new cookie, and no other session holds its hash or that
-- of the cookie it replaces, then at every moment before seven days are over the new cookie is let
-- through if fifteen minutes are not over and has to confirm otherwise, and the replaced one is let
-- through if two minutes are not over and is nobody's otherwise.
pub require_window-open_window :
    (id token fresh now at : ℕ) (sessions : List Session)
    → any (is_current id token) sessions ≡ true
    → Alone token id sessions
    → Alone fresh id sessions
    → fresh == token ≡ false
    → at < now + 7 * 24 * 3600
    → (require_window (some fresh) at (open_window id fresh now sessions)
        ≡ (if ltb at (now + 15 * 60) then handled else step_up_required))
      × (require_window (some token) at (open_window id fresh now sessions)
          ≡ (if ltb at (now + 2 * 60) then handled else unauthorized))
unfolding require_window
require_window-open_window id token fresh now at sessions h a b f lt = (
  fresh_window id fresh now at sessions (current_one id token sessions h) b lt,
  elim (Bool-cases (ltb at (now + 2 * 60))) [
    | inl e ↦ rw e (old_window id token fresh now at sessions h a (ground (arith, e)) f)
    | inr e ↦ rw (e, old_gone id token fresh now at sessions a (ground (arith, e)) f) refl
  ],
)
