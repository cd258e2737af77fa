-- ===== src/Policy/Evaluate/Walks.antt =====
-- The whole walk of `evaluate`: it ends within its fuel, and nothing stopped the person before it.
use openscreentime.Common.{
  ℕ, zero, suc, ◌+◌, ◌-◌, ◌/◌, ◌≤◌, ◌<◌, ◌≡◌, refl, ◌⊎◌, inl, inr, Bool, true, false, Option, none,
  some, arith, ltb, leb, if◌then◌else◌, Bool-cases,
}
use native.Mathlib.Decide.{dec_lt}
use openscreentime.Policy.Compiled.{StopReason, limit}
use openscreentime.Policy.Time.{IsZone, minute}
use openscreentime.Policy.Evaluate.{
  Query, Walk, Turn, stop, no_stop, on, before, horizon, clock_at, override_end, reason_at,
  round_end, runs_out, next_round, due, after_budget, after_due, turn, walk,
}
use openscreentime.Policy.Evaluate.Rounds.{Free, round_end_bounds, round_end_cases, round_end-Free}

module _ (q : Query) (v : IsZone q.zone) where
  open q use {now}

  -- Nothing stops the person from t up to u.
  abbrev pub FreeTo : ℕ → ℕ → Type 0
  FreeTo t u = (x : ℕ) → t ≤ x → x < u → Free q v x

  -- What a stop found by a walk from t says: where it lies, that nothing stopped the person before
  -- it, and that it is due to the budget or to the clock rules at that very moment.
  abbrev pub Lands : ℕ → StopReason → ℕ → Type 0
  Lands t why at =
      (t ≤ at)
      × (at ≤ horizon q)
      × (before at (override_end q) ≡ false)
      × FreeTo t at
      × ((why ≡ limit) ⊎ (clock_at q at ≡ some why))

  abbrev pub Sound : ℕ → Turn q → Type 0
  Sound t (stop why at) = Lands t why at
  Sound t no_stop = FreeTo t (horizon q)
  Sound t (on w) = (t < w.t) × (w.t ≤ horizon q) × FreeTo t w.t

  pub next_round_end : (w : Walk q) → (next_round q w).t ≡ round_end q w.t
  unfolding next_round
  next_round_end w = ground arith

  runs_out_bounds :
      (t used at : ℕ) (budget : Option ℕ)
      → runs_out q t used budget ≡ some at
      → (t ≤ at) × (at < round_end q t) × (before at (override_end q) ≡ false)
  unfolding runs_out
  runs_out_bounds t used at none h = ground arith
  runs_out_bounds t used at (some b) h = ground arith

  after_budget-Sound :
      (w : Walk q) (o : Option ℕ)
      → w.t < horizon q
      → Free q v w.t
      → runs_out q w.t w.used w.budget ≡ o
      → Sound w.t (after_budget q w o)
  unfolding after_budget
  after_budget-Sound w none h f e =
      let b = round_end_bounds q v w.t h in
      rw (next_round_end w) (b.0, b.1, λ x le lt. round_end-Free q v w.t x h f le lt)
  after_budget-Sound w (some at) h f e =
      let b = round_end_bounds q v w.t h in
      let r = runs_out_bounds w.t w.used at w.budget e in
      (r.0, omega arith, r.2, λ x le lt. round_end-Free q v w.t x h f le (omega arith), inl refl)

  due-Free : (w : Walk q) → due q w ≡ none → Free q v w.t
  unfolding due reason_at
  due-Free w e = ground arith

  pub due_lem :
      (w : Walk q) (why : StopReason)
      → due q w ≡ some why
      → (before w.t (override_end q) ≡ false) × ((why ≡ limit) ⊎ (clock_at q w.t ≡ some why))
  unfolding due reason_at
  due_lem w why e = ground arith

  after_due-Sound :
      (w : Walk q) (o : Option StopReason)
      → w.t ≤ horizon q
      → due q w ≡ o
      → Sound w.t (after_due q w o)
  unfolding after_due
  after_due-Sound w (some why) h e =
      let d = due_lem w why e in (omega arith, h, d.0, λ x le lt. absurd (omega arith), d.1)
  after_due-Sound w none h e = elim (Bool-cases (leb (horizon q) w.t)) [
    | inl last ↦ rw last (λ x le lt. absurd (ground arith))
    | inr more ↦
        rw more
          (after_budget-Sound w (runs_out q w.t w.used w.budget) (ground arith) (due-Free w e) refl)
  ]

  -- What one round finds.
  pub turn-Sound : (w : Walk q) → w.t ≤ horizon q → Sound w.t (turn q w)
  unfolding turn
  turn-Sound w h = after_due-Sound w (due q w) h refl

  abbrev flag : Bool → ℕ
  flag b = if b then 1 else 0

  -- How many rounds a walk from t can still make: the minutes to the horizon, one for the override's
  -- end and one for the horizon itself.
  abbrev pub rounds : ℕ → ℕ
  rounds t =
      (horizon q / minute - t / minute)
      + flag (before t (override_end q))
      + flag (ltb t (horizon q))

  rounds_fall : (t : ℕ) → t < horizon q → rounds (round_end q t) < rounds t
  rounds_fall t h =
      ground (arith, round_end_bounds q v t h, round_end_cases q v t h, later t (round_end q t))
    where
      later :
          (t u : ℕ) → t ≤ u → before u (override_end q) ≡ true → before t (override_end q) ≡ true
      later t u le e = ground arith

  after_budget-on :
      (w w' : Walk q) (o : Option ℕ) → after_budget q w o ≡ on w' → w'.t ≡ round_end q w.t
  unfolding after_budget next_round
  after_budget-on w w' none e = ground arith
  after_budget-on w w' (some at) e = ground arith

  pub after_due-on :
      (w w' : Walk q) (o : Option StopReason)
      → after_due q w o ≡ on w'
      → (w.t < horizon q) × (w'.t ≡ round_end q w.t)
  unfolding after_due
  after_due-on w w' none e = ground (arith, after_budget-on w w' (runs_out q w.t w.used w.budget))
  after_due-on w w' (some why) e = ground arith

  pub turn_falls : (w w' : Walk q) → turn q w ≡ on w' → rounds w'.t < rounds w.t
  unfolding turn
  turn_falls w w' e = let (h, next) = after_due-on w w' (due q w) e in rw next (rounds_fall w.t h)

  -- The walk ended, with a stop or with none.
  abbrev pub Ends : ℕ → Option (Turn q) → Type 0
  Ends t none = ⊥
  Ends t (some (on w)) = ⊥
  Ends t (some (stop why at)) = Lands t why at
  Ends t (some no_stop) = FreeTo t (horizon q)

  pub data TurnCase (o : Turn q) : Type 0 where
    stops : (why : StopReason) (at : ℕ) → o ≡ stop why at → TurnCase o
    stays : o ≡ no_stop → TurnCase o
    goes : (w : Walk q) → o ≡ on w → TurnCase o

  pub turn_case : (o : Turn q) → TurnCase o
  turn_case (stop why at) = stops why at refl
  turn_case no_stop = stays refl
  turn_case (on w) = goes w refl

  Free-trans : (t u w : ℕ) → FreeTo t u → FreeTo u w → FreeTo t w
  Free-trans t u w f g x le lt = elim (dec_lt x u) [
    | yes h ↦ f x le h
    | no h ↦ g x (omega arith) lt
  ]

  Ends-trans : (t u : ℕ) (o : Option (Turn q)) → t ≤ u → FreeTo t u → Ends u o → Ends t o
  Ends-trans t u none le f e = e
  Ends-trans t u (some (on w)) le f e = e
  Ends-trans t u (some no_stop) le f e = Free-trans t u (horizon q) f e
  Ends-trans t u (some (stop why at)) le f e = (omega arith, e.1, e.2, Free-trans t u at f e.3, e.4)

  pub walk-stops :
      (f : ℕ) (w : Walk q) (why : StopReason) (at : ℕ)
      → turn q w ≡ stop why at
      → walk q (suc f) w ≡ some (stop why at)
  unfolding walk
  walk-stops f w why at e = rw (e, walk)

  pub walk-stays : (f : ℕ) (w : Walk q) → turn q w ≡ no_stop → walk q (suc f) w ≡ some no_stop
  unfolding walk
  walk-stays f w e = rw (e, walk)

  pub walk-goes : (f : ℕ) (w w' : Walk q) → turn q w ≡ on w' → walk q (suc f) w ≡ walk q f w'
  unfolding walk
  walk-goes f w w' e = rw (e, walk)

  -- With enough fuel the walk ends, and what it says holds from where it started.
  pub walk-Ends :
      (fuel : ℕ) (w : Walk q) → w.t ≤ horizon q → rounds w.t < fuel → Ends w.t (walk q fuel w)
  walk-Ends zero w h f = absurd (omega arith)
  walk-Ends (suc fuel) w h f = elim (turn_case (turn q w)) [
    | stops why at e ↦ rw (walk-stops fuel w why at e) (rw e at (turn-Sound w h))
    | stays e ↦ rw (walk-stays fuel w e) (rw e at (turn-Sound w h))
    | goes w' e ↦
        let s : Sound w.t (on w') = rw e at (turn-Sound w h) in
        rw (walk-goes fuel w w' e) (
          Ends-trans w.t w'.t (walk q fuel w') (omega arith) s.2
            (walk-Ends fuel w' s.1 (omega (arith, turn_falls w w' e))))
  ]
