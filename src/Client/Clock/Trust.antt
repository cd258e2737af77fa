-- ===== src/Client/Clock/Trust.antt =====
-- The trusted time over readings.
use openscreentime.Common.{
  ℕ, ◌+◌, ◌*◌, ◌/◌, ◌≤◌, ◌≡◌, true, false, ◌&&◌, not, Option, none, some, List, [], ◌∷◌, arith,
  if◌then◌else◌, is_some,
}
use openscreentime.Common.Text.{text_eq, text_eq_refl, text_eq→eq}
use openscreentime.Client.Clock.{
  milli, TrustedClock, Reading, extrapolate, is_new, re_anchor, raise, observe, observe_server,
}

-- The clock is anchored in this boot, not after the reading, and its mark is no later than what it
-- says then.
pub record IsRunning (c : TrustedClock) (r : Reading) : Type 0 where
  pub same_boot : text_eq c.boot_id r.boot_id ≡ true
  pub anchored : is_some c.anchor_wall ≡ true
  pub forward : c.anchor_boot_ms ≤ r.boot / milli

-- Within a boot and without NTP the wall clock has no say at all: neither in the trusted time nor in
-- what is kept.
observe_ignores_wall :
    (utc_now : ℕ) (c : TrustedClock) (r : Reading) (wall : ℕ)
    → IsRunning c r
    → r.ntp_synced ≡ false
    → observe utc_now c r ≡ observe utc_now c (record r { wall = wall })
unfolding observe re_anchor is_new
observe_ignores_wall utc_now c r wall v s = ground arith

-- Two readings of one boot without NTP differ by the time since boot between them, sleep included.
observe_elapsed :
    (utc_now : ℕ) (c : TrustedClock) (r r' : Reading)
    → IsRunning c r
    → text_eq c.boot_id r'.boot_id ≡ true
    → r.ntp_synced ≡ false
    → r'.ntp_synced ≡ false
    → r.boot ≤ r'.boot
    → let first = observe utc_now c r in
      (observe utc_now first.0 r').1 + r.boot / milli * milli ≡ first.1 + r'.boot / milli * milli
unfolding observe re_anchor is_new raise extrapolate
observe_elapsed utc_now c r r' v b s s' le = ground arith

-- The state after a reading r that gave the trusted time t: anchored in that boot, marked at t.
pub record Told (c : TrustedClock) (r : Reading) (t : ℕ) : Type 0 where
  pub same_boot : text_eq c.boot_id r.boot_id ≡ true
  pub anchored : is_some c.anchor_wall ≡ true
  pub forward : c.anchor_boot_ms ≤ r.boot / milli
  pub marked : c.high_water ≡ some t
  pub told : extrapolate 0 c r.boot ≡ t

-- Readings that follow one another: boottime does not go back within a boot.
abbrev pub Follows : Reading → Reading → Type 0
Follows r r' = text_eq r.boot_id r'.boot_id ≡ true → r.boot ≤ r'.boot

-- What the clock is told: to look at a reading, or the family server's time at a reading.
pub data Event : Type 0 where
  looks : Reading → Event
  hears : Reading → ℕ → Event

abbrev pub reading_of : Event → Reading
reading_of (looks r) = r
reading_of (hears r server_time) = r

-- The time that a look takes from the wall clock: NTP's, in a boot that is anchored already.
abbrev pub vouched_wall : TrustedClock → Reading → Option ℕ
vouched_wall c r = if not (is_new c r) && r.ntp_synced then some r.wall else none

-- One event: the new clock, what NTP or the server vouches for, and the trusted time.
unfoldable pub heed : ℕ → TrustedClock → Event → TrustedClock × (Option ℕ × ℕ)
heed utc_now c (looks r) = let (c', t) = observe utc_now c r in (c', (vouched_wall c r, t))
heed utc_now c (hears r server_time) =
    let c' = observe_server c r server_time in
    (c', (some server_time, extrapolate utc_now c' r.boot))

-- What is vouched for and the trusted time, for a list of events.
unfoldable pub watch : ℕ → TrustedClock → List Event → List (Option ℕ × ℕ)
watch utc_now c [] = []
watch utc_now c (e ∷ es) = let (c', p) = heed utc_now c e in p ∷ watch utc_now c' es

abbrev pub Chain : Reading → List Event → Type 0
Chain r [] = Unit {0}
Chain r (e ∷ es) = Follows r (reading_of e) × Chain (reading_of e) es

-- From the trusted time t to the next: what is vouched for is it, and otherwise it is no earlier.
abbrev pub Rise : ℕ → Option ℕ × ℕ → Type 0
Rise t (none, u) = t ≤ u
Rise t (some s, u) = u ≡ s

abbrev pub Rises : ℕ → List (Option ℕ × ℕ) → Type 0
Rises t [] = Unit {0}
Rises t (p ∷ ps) = Rise t p × Rises p.1 ps

look-Rise :
    (utc_now : ℕ) (c : TrustedClock) (r r' : Reading) (t : ℕ)
    → Told c r t
    → Follows r r'
    → Rise t (heed utc_now c (looks r')).1
unfolding heed observe re_anchor is_new raise extrapolate
look-Rise utc_now c r r' t v f = ground (arith, text_eq→eq c.boot_id r.boot_id v.same_boot)

observe-Told :
    (utc_now : ℕ) (c : TrustedClock) (r r' : Reading) (t : ℕ)
    → Told c r t
    → Follows r r'
    → Told (observe utc_now c r').0 r' (observe utc_now c r').1
unfolding observe re_anchor is_new raise extrapolate
observe-Told utc_now c r r' t v f =
    ground (arith, text_eq_refl r'.boot_id, text_eq→eq c.boot_id r.boot_id v.same_boot)

observe_server-Told : (c : TrustedClock) (r : Reading) (t : ℕ) → Told (observe_server c r t) r t
unfolding observe_server extrapolate
observe_server-Told c r t = ground (arith, text_eq_refl r.boot_id)

extrapolate-observe_server :
    (utc_now : ℕ) (c : TrustedClock) (r : Reading) (t : ℕ)
    → extrapolate utc_now (observe_server c r t) r.boot ≡ t
unfolding observe_server extrapolate
extrapolate-observe_server utc_now c r t = ground arith

heed-Rise :
    (utc_now : ℕ) (c : TrustedClock) (r : Reading) (t : ℕ) (e : Event)
    → Told c r t
    → Follows r (reading_of e)
    → Rise t (heed utc_now c e).1 × Told (heed utc_now c e).0 (reading_of e) (heed utc_now c e).1.1
unfolding heed
heed-Rise utc_now c r t (looks r') v f =
    (look-Rise utc_now c r r' t v f, observe-Told utc_now c r r' t v f)
heed-Rise utc_now c r t (hears r' s) v f =
    let now = extrapolate-observe_server utc_now c r' s in
    (now, rw now (observe_server-Told c r' s))

-- From a clock that was told the time t at a reading, and over any looks and answers of the family
-- server after it where boottime does not go back within a boot, the trusted time goes back only where
-- NTP, in a boot that is anchored already, or the server vouches for an earlier time, and is then that
-- time exactly: at every other look it is no earlier than before, however often the computer was
-- rebooted and wherever the wall clock was set.
pub watch-Rises :
    (utc_now : ℕ) (c : TrustedClock) (r : Reading) (t : ℕ) (es : List Event)
    → Told c r t
    → Chain r es
    → Rises t (watch utc_now c es)
unfolding watch
watch-Rises utc_now c r t [] v f = tt
watch-Rises utc_now c r t (e ∷ es) v f =
    let s = heed-Rise utc_now c r t e v f.0 in
    (s.0, watch-Rises utc_now (heed utc_now c e).0 (reading_of e) (heed utc_now c e).1.1 es s.1 f.1)
