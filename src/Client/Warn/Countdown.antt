-- ===== src/Client/Warn/Countdown.antt =====
-- A countdown to a stop: the warnings that are said.
use openscreentime.Common.{
  ℕ, ◌+◌, ◌*◌, ◌/◌, ◌≤◌, ◌<◌, ◌≡◌, refl, ◌∙◌, ◌⊎◌, Bool, true, false, Option, none, some, List, [],
  ◌∷◌, arith, if◌then◌else◌, ◌&&◌, contains, inl, inr, ltb, is_some, All, Bool-cases,
}
use openscreentime.Common.Int.{ℤ, pos, ◌≤ℤ◌, ◌-ℤ◌, leb_ℤ}
use openscreentime.Policy.Compiled.{StopReason}
use openscreentime.Client.Warn.{
  WarnState, reached, announce, refresh, observe, observe_stop, is_reason, moved, welcomed, quiet,
}
use openscreentime.Client.Warn.Once.{
  IsThreshold, SaidFrom, IsStage, Holds, Steps, observe-Steps, contains-keep,
}

-- A call of `observe_stop`: the seconds left, and the moment of the stop.
pub record Call : Type 0 where
  pub secs_left : ℤ
  pub stop : ℕ

abbrev pub say : Option ℕ → List ℕ → List ℕ
say none said = said
say (some due) said = due ∷ said

-- The warnings of a list of calls.
unfoldable pub countdown : StopReason → WarnState → List Call → List ℕ
countdown why w [] = []
countdown why w (c ∷ cs) =
    let (w', due) = observe_stop w why c.secs_left c.stop in say due (countdown why w' cs)

-- Time runs: each number of seconds is at most the one before it.
abbrev pub Falls : ℤ → List Call → Type 0
Falls s [] = Unit {0}
Falls s (c ∷ cs) = (c.secs_left ≤ℤ s) × Falls c.secs_left cs

-- Two moments in the same minute, or less than half a minute apart.
abbrev pub Near : ℕ → ℕ → Type 0
Near a b = (a / 60 ≡ b / 60) ⊎ (a < b + 30) × (b < a + 30)

-- The stop stays where it is: any two calls have it at moments near each other.
abbrev pub Stays : List Call → Type 0
Stays [] = Unit {0}
Stays (c ∷ cs) = All (λ d. Near d.stop c.stop) cs × Stays cs

-- Every warning is a threshold below the one before it.
abbrev pub Descends : ℕ → List ℕ → Type 0
Descends d [] = Unit {0}
Descends d (t ∷ ts) = IsThreshold t × (t < d) × Descends t ts

Holds-on : (d : ℕ) (s u : ℤ) → Holds d s → u ≤ℤ s → Holds d u
Holds-on d s u h le = ground arith

-- The stop was announced near where the calls have it.
abbrev Announced : WarnState → List Call → Type 0
Announced w cs = (p : ℕ) × (w.announced_at ≡ some p) × All (λ c. Near c.stop p) cs

-- What the rest of a countdown needs of the step before it, at the stage d.
abbrev Rest : StopReason → ℤ → List Call → Type 0
Rest why u cs =
    (d : ℕ) (w : WarnState)
    → (d ≡ 16) ⊎ (is_reason w.reason why ≡ true) × Announced w cs
    → SaidFrom d w
    → IsStage d
    → Holds d u
    → Descends d (countdown why w cs)

Descends-le : (d e : ℕ) (ts : List ℕ) → d ≤ e → Descends d ts → Descends e ts
Descends-le d e [] le h = tt
Descends-le d e (t ∷ ts) le h = (h.0, omega arith, h.2)

-- What is due counts as said, even where it is not.
quiet-Descends :
    (d due : ℕ) (hush : Bool) (ts : List ℕ)
    → IsThreshold due
    → due < d
    → Descends due ts
    → Descends d (say (quiet hush (some due)) ts)
quiet-Descends d due hush ts t lt h = elim (Bool-cases (hush && ltb 1 due)) [
  | inl e ↦ rw e (Descends-le due d ts (omega arith) h)
  | inr e ↦ rw e (t, lt, h)
]

Near-moved : (prev at : ℕ) → Near at prev → moved (some prev) at ≡ false
Near-moved prev at h = ground arith

-- The state that `observe_stop` hands to `observe`.
abbrev recalled : WarnState → StopReason → ℕ → WarnState
recalled w why at =
    if moved w.announced_at at && is_reason w.reason why then record w { fired = [] } else w

-- What is handed on to `observe` holds the stage as the state does.
recalled-stage :
    (d : ℕ) (why : StopReason) (w : WarnState) (c : Call) (cs : List Call)
    → (d ≡ 16) ⊎ (is_reason w.reason why ≡ true) × Announced w (c ∷ cs)
    → SaidFrom d w
    → ((d ≡ 16) ⊎ (is_reason (recalled w why c.stop).reason why ≡ true))
      × SaidFrom d (recalled w why c.stop)
recalled-stage d why w c cs (inl e) said = (inl e, ground arith)
recalled-stage d why w c cs (inr (r, (p, a, near))) said =
    let still : moved w.announced_at c.stop ≡ false = rw a (Near-moved p c.stop near.0) in
    rw still (inr r, said)

announce-announced_at :
    (w : WarnState) (o : Option ℕ) → (announce w o).0.announced_at ≡ w.announced_at
unfolding announce
announce-announced_at w none = refl
announce-announced_at w (some due) = ground arith

observe-announced_at :
    (w : WarnState) (why : StopReason) (s : ℤ) → (observe w why s).0.announced_at ≡ w.announced_at
unfolding observe refresh
observe-announced_at w why s = elim (Bool-cases (leb_ℤ s (pos 0))) [
  | inl over ↦ rw over refl
  | inr ahead ↦ rw ahead (announce-announced_at (refresh w why s) (reached s))
]

-- The state and the answer of `observe_stop`, from those of `observe`.
abbrev after : ℕ → Bool → WarnState × Option ℕ → WarnState × Option ℕ
after at hush (w, due) =
    ((if is_some due then record w { announced_at = some at } else w), quiet hush due)

stepped :
    (why : StopReason) (d : ℕ) (w : WarnState) (hush : Bool) (c : Call) (cs : List Call)
    (p : WarnState × Option ℕ)
    → Rest why c.secs_left cs
    → (d ≡ 16) ⊎ Announced w (c ∷ cs)
    → p.0.announced_at ≡ w.announced_at
    → All (λ e. Near e.stop c.stop) cs
    → IsStage d
    → Holds d c.secs_left
    → Steps d why c.secs_left p
    → Descends d (say (after c.stop hush p).1 (countdown why (after c.stop hush p).0 cs))
stepped why d w hush c cs (w', none) rest (inl e) same near stage h st =
    rest d w' (inl e) st.1 stage h
stepped why d w hush c cs (w', none) rest (inr (p, a, before)) same near stage h st =
    rest d w' (inr (st.0, (p, same ∙ a, before.1))) st.1 stage h
stepped why d w hush c cs (w', some due) rest an same near stage h (r, said, lower, t, le) =
    let h' : Holds due c.secs_left = ground arith in
    quiet-Descends d due hush (countdown why (record w' { announced_at = some c.stop }) cs) t lower
      (rest due (record w' { announced_at = some c.stop }) (inr (r, (c.stop, refl, near))) said
        (inr t) h')

countdown_from : (why : StopReason) (s : ℤ) (cs : List Call) → Falls s cs → Stays cs → Rest why s cs
unfolding countdown observe_stop
countdown_from why s [] f n d w r said stage h = tt
countdown_from why s (c ∷ cs) f n d w r said stage h =
    let h' : Holds d c.secs_left = Holds-on d s c.secs_left h f.0 in
    let (r', said') = recalled-stage d why w c cs r said in
    let v : WarnState = recalled w why c.stop in
    let same : v.announced_at ≡ w.announced_at = ground arith in
    let an : (d ≡ 16) ⊎ Announced w (c ∷ cs) = elim r [ inl e ↦ inl e | inr (_, a) ↦ inr a ] in
    stepped why d w (welcomed w.back_at (pos c.stop -ℤ c.secs_left)) c cs
      (observe v why c.secs_left) (countdown_from why c.secs_left cs f.1 n.1) an
      (observe-announced_at v why c.secs_left ∙ same) n.0 stage h'
      (observe-Steps d why c.secs_left v r' said' stage h')

-- In a countdown to one stop, where the seconds left never grow and the stop stays where it is, to the
-- minute or to less than half of one, only the thresholds 15, 5 and 1 are said, each at most once and
-- the larger ones first, whatever was said before and of whichever stop.
pub countdown-Descends :
    (why : StopReason) (w : WarnState) (s : ℤ) (cs : List Call)
    → Falls s cs
    → Stays cs
    → Descends 16 (countdown why w cs)
countdown-Descends why w s cs f n =
    countdown_from why s cs f n 16 w (inl refl) (ground arith) (inl refl) (inl refl)

reached_last : (s : ℤ) → s ≤ℤ pos 60 → reached s ≡ some 1
unfolding reached
reached_last s last = ground arith

refresh_new :
    (w : WarnState) (why : StopReason) (s : ℤ)
    → (contains w.fired 1 ≡ false) ⊎ (is_reason w.reason why ≡ false)
    → contains (refresh w why s).fired 1 ≡ false
unfolding refresh
refresh_new w why s new = ground (arith, contains-keep (λ t. leb_ℤ s (pos (t * 60 + 60))) w.fired 1)

observe_last :
    (w : WarnState) (why : StopReason) (s : ℤ)
    → (contains w.fired 1 ≡ false) ⊎ (is_reason w.reason why ≡ false)
    → leb_ℤ s (pos 0) ≡ false
    → s ≤ℤ pos 60
    → (observe w why s).1 ≡ some 1
unfolding observe announce
observe_last w why s new ahead last = rw (ahead, reached_last s last, refresh_new w why s new) refl

-- In the last minute before a stop that has not been warned of the last minute, or whose reason is
-- new, the last-minute notice is given, however recently "You're back" was said.
observe_stop_last_minute :
    (w : WarnState) (why : StopReason) (s : ℤ) (at : ℕ)
    → (contains w.fired 1 ≡ false) ⊎ (is_reason w.reason why ≡ false)
    → pos 1 ≤ℤ s
    → s ≤ℤ pos 60
    → (observe_stop w why s at).1 ≡ some 1
unfolding observe_stop
observe_stop_last_minute w why s at new ahead last =
    let w' : WarnState =
      if moved w.announced_at at && is_reason w.reason why then record w { fired = [] } else w in
    let new' : (contains w'.fired 1 ≡ false) ⊎ (is_reason w'.reason why ≡ false) = ground arith in
    let e : (observe w' why s).1 ≡ some 1 = observe_last w' why s new' (ground arith) last in
    rw e (ground arith)
