-- ===== src/Client/Warn/Once.antt =====
-- What is said, and how often.
use openscreentime.Common.{
  ℕ, ◌+◌, ◌*◌, ◌≤◌, ◌<◌, ◌≡◌, refl, ◌⊎◌, Bool, true, false, ◌&&◌, ◌||◌, Option, none, some, List,
  [], ◌∷◌, ◌++◌, arith, leb, ◌==◌, contains, keep, Bool-cases, inl, inr, ==_iff, ap, any,
}
use openscreentime.Common.Int.{ℤ, pos, ◌≤ℤ◌, leb_ℤ}
use openscreentime.Policy.Compiled.{StopReason, limit, bedtime, outside_hours, paused}
use openscreentime.Client.Warn.{
  WarnState, reached, mark, mark_one, mark_from, thresholds, refresh, announce, observe, is_reason,
  same_reason,
}

contains-snoc : (xs : List ℕ) (a b : ℕ) → contains (xs ++ a ∷ []) b ≡ (contains xs b || (a == b))
contains-snoc [] a b = ground arith
contains-snoc (x ∷ xs) a b = ground (arith, contains-snoc xs a b)

pub contains-keep :
    (p : ℕ → Bool) (xs : List ℕ) (a : ℕ) → contains (keep p xs) a ≡ (contains xs a && p a)
contains-keep p [] a = refl
contains-keep p (x ∷ xs) a = elim (Bool-cases (x == a)) [
  | inl same ↦ let e : x ≡ a = (==_iff x a).0 same in ground (arith, contains-keep p xs a, ap p e)
  | inr other ↦ ground (arith, contains-keep p xs a)
]

-- One of the thresholds.
abbrev pub IsThreshold : ℕ → Type 0
IsThreshold t = (t ≡ 15) ⊎ (t ≡ 5) ⊎ (t ≡ 1)

-- Every threshold from `due` up was said.
abbrev pub SaidFrom : ℕ → WarnState → Type 0
SaidFrom due w =
    (due ≤ 15 → contains w.fired 15 ≡ true)
    × (due ≤ 5 → contains w.fired 5 ≡ true)
    × (due ≤ 1 → contains w.fired 1 ≡ true)

reached_lem : (s : ℤ) (due : ℕ) → reached s ≡ some due → IsThreshold due × (s ≤ℤ pos (due * 60))
unfolding reached
reached_lem s due h = ground arith

contains-mark_one :
    (due : ℕ) (fired : List ℕ) (t a : ℕ)
    → contains (mark_one due fired t) a ≡ (contains fired a || (leb due t && (t == a)))
unfolding mark_one
contains-mark_one due fired t a = elim (Bool-cases (t == a)) [
  | inl same ↦
      let e : contains fired t ≡ contains fired a = ap (contains fired) ((==_iff t a).0 same) in
      ground (arith, contains-snoc fired t a)
  | inr other ↦ ground (arith, contains-snoc fired t a)
]

contains-mark_from :
    (due : ℕ) (fired ts : List ℕ) (a : ℕ)
    → contains (mark_from due fired ts) a
      ≡ (contains fired a || any (λ t. leb due t && (t == a)) ts)
unfolding mark_from
contains-mark_from due fired [] a = ground arith
contains-mark_from due fired (t ∷ ts) a =
    ground
      (arith, contains-mark_from due (mark_one due fired t) ts a, contains-mark_one due fired t a)

mark-SaidFrom : (due : ℕ) (w : WarnState) → SaidFrom due (record w { fired = mark due w.fired })
mark-SaidFrom due w = ground (
  arith,
  contains-mark_from due w.fired thresholds 15,
  contains-mark_from due w.fired thresholds 5,
  contains-mark_from due w.fired thresholds 1,
)

-- A stage of the countdown: 16 before anything is said, then the threshold said last.
abbrev pub IsStage : ℕ → Type 0
IsStage d = (d ≡ 16) ⊎ IsThreshold d

-- So many seconds are left at a stage that what was said stays said.
abbrev pub Holds : ℕ → ℤ → Type 0
Holds d s = (d ≡ 16) ⊎ (s ≤ℤ pos (d * 60 + 60))

refresh-SaidFrom :
    (w : WarnState) (why : StopReason) (s : ℤ) (d : ℕ)
    → (d ≡ 16) ⊎ (is_reason w.reason why ≡ true)
    → SaidFrom d w
    → IsStage d
    → Holds d s
    → SaidFrom d (refresh w why s)
unfolding refresh
refresh-SaidFrom w why s d r said stage h = ground (
  arith,
  contains-keep (λ t. leb_ℤ s (pos (t * 60 + 60))) w.fired 15,
  contains-keep (λ t. leb_ℤ s (pos (t * 60 + 60))) w.fired 5,
  contains-keep (λ t. leb_ℤ s (pos (t * 60 + 60))) w.fired 1,
)

pub same_reason_refl : (why : StopReason) → same_reason why why ≡ true
same_reason_refl limit = refl
same_reason_refl bedtime = refl
same_reason_refl outside_hours = refl
same_reason_refl paused = refl

-- After a step: nothing was said and the stage stays, or a lower stage was reached and said.
abbrev pub Steps : ℕ → StopReason → ℤ → WarnState × Option ℕ → Type 0
Steps d why s (w, none) = (is_reason w.reason why ≡ true) × SaidFrom d w
Steps d why s (w, some due) =
    (is_reason w.reason why ≡ true)
    × SaidFrom due w
    × (due < d)
    × IsThreshold due
    × (s ≤ℤ pos (due * 60))

lower :
    (d due : ℕ) (w : WarnState)
    → SaidFrom d w
    → IsThreshold due
    → IsStage d
    → contains w.fired due ≡ false
    → due < d
lower d due w said (inl e) stage new = ground arith
lower d due w said (inr (inl e)) stage new = ground arith
lower d due w said (inr (inr e)) stage new = ground arith

announce-Steps :
    (d : ℕ) (why : StopReason) (s : ℤ) (w : WarnState) (o : Option ℕ)
    → is_reason w.reason why ≡ true
    → SaidFrom d w
    → IsStage d
    → ((due : ℕ) → o ≡ some due → IsThreshold due × (s ≤ℤ pos (due * 60)))
    → Steps d why s (announce w o)
unfolding announce
announce-Steps d why s w none r said stage h = (r, said)
announce-Steps d why s w (some due) r said stage h = elim (Bool-cases (contains w.fired due)) [
  | inl old ↦ rw old (r, said)
  | inr new ↦
      let (t, le) = h due refl in
      rw new (r, mark-SaidFrom due w, lower d due w said t stage new, t, le)
]

pub observe-Steps :
    (d : ℕ) (why : StopReason) (s : ℤ) (w : WarnState)
    → (d ≡ 16) ⊎ (is_reason w.reason why ≡ true)
    → SaidFrom d w
    → IsStage d
    → Holds d s
    → Steps d why s (observe w why s)
unfolding observe
observe-Steps d why s w r said stage h =
    let w' : WarnState = refresh w why s in
    let said' : SaidFrom d w' = refresh-SaidFrom w why s d r said stage h in
    let r' : is_reason w'.reason why ≡ true = unfold refresh in same_reason_refl why in
    elim (Bool-cases (leb_ℤ s (pos 0))) [
      | inl over ↦ rw over (r', said')
      | inr ahead ↦
          rw ahead
            (announce-Steps d why s w' (reached s) r' said' stage (λ due e. reached_lem s due e))
    ]
