-- ===== src/Client/Activity.antt =====
-- client/src/enforce/activity.rs: whose time counts. The probes of the machine (logind, evdev, ALSA)
-- are a `Probe`; durations are in nanoseconds.
pub mod Seated
pub mod Counts
use openscreentime.Common.{
  ℕ, ◌+◌, ◌-◌, ◌*◌, ◌^◌, Bool, true, false, ◌&&◌, ◌||◌, not, Option, none, some, List, [], ◌∷◌,
  ◌++◌, map, leb, ◌==◌, if◌then◌else◌, keep, any, all, is_empty, is_some, find_first, length,
}
use openscreentime.Common.Text.{Text, codes, text_eq, trim, split_once}

abbrev pub second : ℕ
second = 1000000000

abbrev pub idle_cutoff : ℕ
idle_cutoff = 5 * 60 * second

pub record Session : Type 0 where
  pub user : Text
  pub seat : Text
  pub class : Text
  pub state : Text
  pub active : Bool

abbrev pub starts_with : Text → Text → Bool
starts_with [] s = true
starts_with (a ∷ p) [] = false
starts_with (a ∷ p) (b ∷ s) = (a == b) && starts_with p s

-- `Session::at_seat`.
unfoldable pub at_seat : Session → Bool
at_seat s =
    not (is_empty s.user)
    && not (is_empty s.seat)
    && s.active
    && (is_empty s.state || text_eq s.state (codes "active"))
    && (is_empty s.class || starts_with (codes "user") s.class)

abbrev pub default_session : Session
default_session = record { user = []; seat = []; class = []; state = []; active = false }

-- `split("\n\n")`.
unfoldable pub split_blocks : Text → Text → List Text
split_blocks seen [] = seen ∷ []
split_blocks seen (c ∷ []) = (seen ++ c ∷ []) ∷ []
split_blocks seen (c ∷ d ∷ s) =
    let cut = split_blocks [] s in
    let on = split_blocks (seen ++ c ∷ []) (d ∷ s) in
    if (c == b'\n') && (d == b'\n') then seen ∷ cut else on

-- A line without the carriage return that ends it.
abbrev strip_cr : Text → Text
strip_cr [] = []
strip_cr (c ∷ []) = if c == 13 then [] else c ∷ []
strip_cr (c ∷ d ∷ s) = c ∷ strip_cr (d ∷ s)

-- `lines`: a last line that no line feed ends counts if it is not empty.
unfoldable pub lines : Text → Text → List Text
lines seen [] = if is_empty seen then [] else seen ∷ []
lines seen (c ∷ s) =
    let next = lines [] s in
    let on = lines (seen ++ c ∷ []) s in if c == b'\n' then strip_cr seen ∷ next else on

-- The property that a line sets.
unfoldable pub set_property : Session → Text → Text → Session
set_property s k v =
    if text_eq k (codes "Name")
    then record s { user = v }
    else if text_eq k (codes "Seat")
    then record s { seat = v }
    else if text_eq k (codes "Class")
    then record s { class = v }
    else if text_eq k (codes "State")
    then record s { state = v }
    else if text_eq k (codes "Active")
    then record s { active = text_eq v (codes "yes") }
    else s

unfoldable pub read_line : Session × Bool → Text → Session × Bool
read_line (s, seen) line = elim (split_once b'=' line) [
  | none ↦ (s, seen)
  | some (k, v) ↦ (set_property s (trim k) (trim v), true)
]

unfoldable pub read_lines : Session × Bool → List Text → Session × Bool
read_lines p [] = p
read_lines p (l ∷ ls) = read_lines (read_line p l) ls

unfoldable pub read_blocks : List Text → List Session
read_blocks [] = []
read_blocks (b ∷ bs) =
    let rest = read_blocks bs in
    let (s, seen) = read_lines (default_session, false) (lines [] b) in
    if seen then s ∷ rest else rest

-- `parse_sessions`.
unfoldable pub parse_sessions : Text → List Session
unfolding read_blocks read_lines read_line set_property lines split_blocks trim split_once
parse_sessions out = read_blocks (split_blocks [] out)

-- The loop of `present`: a user is listed once, with the first seat.
unfoldable pub present_from : List (Text × Text) → List Session → List (Text × Text)
present_from out [] = out
present_from out (s ∷ ss) =
    present_from (if any (λ e. text_eq e.0 s.user) out then out else out ++ (s.user, s.seat) ∷ [])
      ss

-- `present`.
unfoldable pub present : List Session → List (Text × Text)
unfolding present_from at_seat
present sessions = present_from [] (keep at_seat sessions)

-- Whether the time on a seat counts: no input there can be read, or there was some, or sound.
unfoldable pub counts : Option ℕ → Bool → ℕ → Bool
counts none audio cutoff = true
counts (some idle) audio cutoff = leb idle cutoff || audio

-- `billable`.
unfoldable pub billable : List (Text × Text) → (Text → Option ℕ) → Bool → ℕ → List Text
unfolding counts
billable at input_idle audio cutoff =
    map (λ e. e.0) (keep (λ e. counts (input_idle e.1) audio cutoff) at)

-- `ActivityProbe`: what its three methods say at a moment.
pub record Probe : Type 0 where
  pub sessions : List Session
  pub input_idle : Text → Option ℕ
  pub audio_playing : Bool

pub record Activity : Type 0 where
  pub present : List Text
  pub billable : List Text
  pub measured : Bool

-- `sample`.
unfoldable pub sample : Probe → Activity
unfolding present billable
sample probe =
    let at = present probe.sessions in
    record {
      present = map (λ e. e.0) at;
      billable = billable at probe.input_idle probe.audio_playing idle_cutoff;
      measured = all (λ e. is_some (probe.input_idle e.1)) at;
    }

-- `Duration::MAX`.
abbrev pub max_duration : ℕ
max_duration = (2 ^ 64 - 1) * second + 999999999

pub record InputTracker : Type 0 where
  pub last : List (Text × ℕ)
  pub watching : List (Text × Text)

abbrev since : ℕ → Option (Text × ℕ) → ℕ
since boot_now none = max_duration
since boot_now (some e) = boot_now - e.1

-- `InputTracker::idle`.
unfoldable pub idle : InputTracker → Text → ℕ → Option ℕ
idle t seat boot_now =
    if any (λ e. text_eq e.1 seat) t.watching
    then some (since boot_now (find_first (λ e. text_eq e.0 seat) t.last))
    else none
