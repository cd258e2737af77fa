-- ===== src/Client/Warn.antt =====
-- client/src/warn.rs: `WarnState`, which warnings before a stop were said. Seconds left may be
-- negative; moments are seconds since the epoch, and the stop's is not before it.
pub mod Once
pub mod Countdown
use openscreentime.Common.{
  ℕ, suc, ◌+◌, ◌-◌, ◌*◌, ◌/◌, ◌≤◌, min, Bool, true, false, ◌&&◌, ◌||◌, not, Option, none, some,
  List, [], ◌∷◌, ◌++◌, ltb, leb, ◌==◌, if◌then◌else◌, contains, keep, is_some,
}
use openscreentime.Common.Int.{ℤ, pos, negsuc, ◌-ℤ◌, leb_ℤ, ltb_ℤ}
use openscreentime.Policy.Compiled.{StopReason, limit, bedtime, outside_hours, paused}

abbrev pub thresholds : List ℕ
thresholds = 15 ∷ 5 ∷ 1 ∷ []

abbrev pub back_quiet_secs : ℕ
back_quiet_secs = 90

pub record WarnState : Type 0 where
  pub reason : Option StopReason
  pub fired : List ℕ
  pub announced_at : Option ℕ
  pub back_at : Option ℤ

abbrev pub same_reason : StopReason → StopReason → Bool
same_reason limit limit = true
same_reason bedtime bedtime = true
same_reason outside_hours outside_hours = true
same_reason paused paused = true
same_reason _ _ = false

abbrev pub is_reason : Option StopReason → StopReason → Bool
is_reason none why = false
is_reason (some r) why = same_reason r why

-- `heard_back` and `clear`.
unfoldable pub heard_back : WarnState → ℤ → WarnState
heard_back w now = record w { back_at = some now }

unfoldable pub clear : WarnState → WarnState
clear w = record w { reason = none; fired = []; announced_at = none }

-- `Iterator::min`.
abbrev pub min_of : List ℕ → Option ℕ
min_of [] = none
min_of (x ∷ xs) = elim (min_of xs) [ none ↦ some x | some y ↦ some (min x y) ]

-- The smallest threshold that is reached.
unfoldable pub reached : ℤ → Option ℕ
reached secs_left = min_of (keep (λ t. leb_ℤ secs_left (pos (t * 60))) thresholds)

-- The loop that marks a threshold and those above it.
unfoldable pub mark_one : ℕ → List ℕ → ℕ → List ℕ
mark_one due fired t = if leb due t && not (contains fired t) then fired ++ t ∷ [] else fired

unfoldable pub mark_from : ℕ → List ℕ → List ℕ → List ℕ
mark_from due fired [] = fired
mark_from due fired (t ∷ ts) = mark_from due (mark_one due fired t) ts

abbrev pub mark : ℕ → List ℕ → List ℕ
mark due fired = mark_from due fired thresholds

-- A changed reason, and thresholds that are well ahead again, are announced anew.
unfoldable pub refresh : WarnState → StopReason → ℤ → WarnState
refresh w why secs_left =
    let fired = if is_reason w.reason why then w.fired else [] in
    record w { reason = some why; fired = keep (λ t. leb_ℤ secs_left (pos (t * 60 + 60))) fired }

unfoldable pub announce : WarnState → Option ℕ → WarnState × Option ℕ
announce w none = (w, none)
announce w (some due) =
    if contains w.fired due then (w, none) else (record w { fired = mark due w.fired }, some due)

-- `observe`: the new state and the threshold to announce.
unfoldable pub observe : WarnState → StopReason → ℤ → WarnState × Option ℕ
unfolding announce refresh reached mark_from mark_one
observe w why secs_left =
    let w' = refresh w why secs_left in
    if leb_ℤ secs_left (pos 0) then (w', none) else announce w' (reached secs_left)

abbrev pub apart : ℕ → ℕ → ℕ
apart a b = (a - b) + (b - a)

-- Whether the stop has moved to another minute since it was announced.
abbrev pub moved : Option ℕ → ℕ → Bool
moved none at = false
moved (some prev) at = not (at / 60 == prev / 60) && leb 30 (apart at prev)

-- Whether "You're back" was said less than `back_quiet_secs` ago.
abbrev pub welcomed : Option ℤ → ℤ → Bool
welcomed none now = false
welcomed (some b) now = leb_ℤ (pos 0) (now -ℤ b) && ltb_ℤ (now -ℤ b) (pos back_quiet_secs)

abbrev pub quiet : Bool → Option ℕ → Option ℕ
quiet hush none = none
quiet hush (some t) = if hush && ltb 1 t then none else some t

-- `observe_stop`.
unfoldable pub observe_stop : WarnState → StopReason → ℤ → ℕ → WarnState × Option ℕ
observe_stop w why secs_left at =
    let again = moved w.announced_at at && is_reason w.reason why in
    let (w', due) = observe (if again then record w { fired = [] } else w) why secs_left in
    (
      (if is_some due then record w' { announced_at = some at } else w'),
      quiet (welcomed w.back_at (pos at -ℤ secs_left)) due,
    )
