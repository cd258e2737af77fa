-- ===== src/Client/Clock.antt =====
-- client/src/clock.rs: `TrustedClock`. Wall and boot times are in nanoseconds, the wall's since the
-- epoch; a time that the code could carry to before 1970 is out of the model. The three kernel clocks
-- are read by `boottime`, `ntp_synced` and `Utc::now`: a `Reading` is what they said.
pub mod Trust
use openscreentime.Common.{
  ℕ, ◌+◌, ◌-◌, ◌*◌, ◌/◌, Bool, true, false, ◌||◌, not, Option, none, some, ltb, if◌then◌else◌,
  is_some,
}
use openscreentime.Common.Text.{Text, text_eq}
use openscreentime.Common.Int.{ℤ, pos, ◌-ℤ◌}

abbrev pub milli : ℕ
milli = 1000000

pub data Source : Type 0 where
  boot ntp server : Source

pub record TrustedClock : Type 0 where
  pub boot_id : Text
  pub anchor_wall : Option ℕ
  pub anchor_boot_ms : ℕ
  pub source : Source
  pub high_water : Option ℕ

pub record Reading : Type 0 where
  pub boot_id : Text
  pub boot : ℕ
  pub wall : ℕ
  pub ntp_synced : Bool

-- `TrustedClock::anchor`.
abbrev pub anchor : TrustedClock → Reading → ℕ → Source → TrustedClock
anchor c r at source = record c {
  boot_id = r.boot_id;
  anchor_wall = some at;
  anchor_boot_ms = r.boot / milli;
  source = source;
}

-- `extrapolate`; `utc_now` is what the wall clock says, for a clock that has no anchor.
unfoldable pub extrapolate : ℕ → TrustedClock → ℕ → ℕ
extrapolate utc_now c boot_now =
    let base : ℕ = elim c.anchor_wall [ none ↦ utc_now | some a ↦ a ] in
    base + boot_now / milli * milli - c.anchor_boot_ms * milli

abbrev pub floor_of : Option ℕ → ℕ → ℕ
floor_of none wall = wall
floor_of (some hw) wall = if ltb wall hw then hw else wall

-- A new boot, or a clock that was never anchored.
unfoldable pub is_new : TrustedClock → Reading → Bool
is_new c r = not (text_eq c.boot_id r.boot_id) || not (is_some c.anchor_wall)

-- The first half of `observe`: the anchor, and whether the time is vouched for.
unfoldable pub re_anchor : TrustedClock → Reading → TrustedClock × Bool
re_anchor c r =
    if is_new c r
    then (anchor c r (floor_of c.high_water r.wall) boot, false)
    else if r.ntp_synced
    then (anchor c r r.wall ntp, true)
    else (c, false)

abbrev pub above : ℕ → Option ℕ → Bool
above now none = true
above now (some hw) = ltb hw now

-- The second half: the high-water mark.
unfoldable pub raise : ℕ → TrustedClock × Bool → TrustedClock
raise now (c, vouched) =
    if vouched || above now c.high_water then record c { high_water = some now } else c

-- `observe`: the new clock and the trusted time.
unfoldable pub observe : ℕ → TrustedClock → Reading → TrustedClock × ℕ
observe utc_now c r =
    let p = re_anchor c r in let now = extrapolate utc_now p.0 r.boot in (raise now p, now)

-- `observe_server`.
unfoldable pub observe_server : TrustedClock → Reading → ℕ → TrustedClock
observe_server c r server_time = record (anchor c r server_time server) {
  high_water = some server_time;
}

-- `wall_skew`.
unfoldable pub wall_skew : ℕ → TrustedClock → Reading → ℤ
wall_skew utc_now c r = pos r.wall -ℤ pos (extrapolate utc_now c r.boot)
