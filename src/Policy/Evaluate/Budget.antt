-- ===== src/Policy/Evaluate/Budget.antt =====
-- The forecast of the daily limit: when a budget that nothing interrupts runs out.
use openscreentime.Common.{
  ℕ, zero, suc, ◌+◌, ◌-◌, ◌*◌, ◌%◌, ◌≤◌, ◌<◌, ◌≡◌, ◌∙◌, false, none, some, arith, ltb, leb,
  Bool-cases, inl, inr,
}
use openscreentime.Policy.Compiled.{limit}
use openscreentime.Policy.Time.{IsZone, milli}
use openscreentime.Policy.Evaluate.{
  Query, Walk, stop, on, horizon, clock_at, override_end, date_of, reason_at, round_end, runs_out,
  next_round, due, after_budget, after_due, turn, walk,
}
use openscreentime.Policy.Evaluate.Rounds.{round_end_bounds, next_minute_lem}
use openscreentime.Policy.Evaluate.Walks.{rounds, walk-stops, walk-goes, turn_falls}

-- A budget of b ms that runs out at `at`: no override, no clock rule before it, no other date up to
-- it, and a clock that shows whole milliseconds.
module _ (q : Query) (v : IsZone q.zone) (b at : ℕ) (no_override : override_end q ≡ none) where
  open q use {zone, now}

  pub record Clear : Type 0 where
    pub whole : now % milli ≡ 0
    pub fits : at ≤ horizon q
    pub no_clock : (x : ℕ) → now ≤ x → x ≤ at → clock_at q x ≡ none
    pub one_date : (x : ℕ) → now ≤ x → x ≤ at → date_of q x ≡ date_of q now

  -- A walk on its way to `at`.
  pub record OnCourse (w : Walk q) : Type 0 where
    pub from_now : now ≤ w.t
    pub whole_t : w.t % milli ≡ 0
    pub has_budget : w.budget ≡ some b
    pub used_le : w.used ≤ b
    pub left : w.t + (b - w.used) * milli ≡ at

  module _ (c : Clear) where
    round_end_whole : (t : ℕ) → t % milli ≡ 0 → round_end q t % milli ≡ 0
    unfolding round_end
    round_end_whole t h = let w = c.whole in ground (arith, next_minute_lem zone v t, no_override)

    due_at : (w : Walk q) → OnCourse w → w.used ≡ b → due q w ≡ some limit
    unfolding due reason_at
    due_at w i e = ground (arith, no_override, c.no_clock w.t i.from_now (omega arith))

    due_before : (w : Walk q) → OnCourse w → w.used < b → due q w ≡ none
    unfolding due reason_at
    due_before w i e = ground (arith, no_override, c.no_clock w.t i.from_now (omega arith))

    next_round-OnCourse :
        (w : Walk q)
        → OnCourse w
        → w.t < horizon q
        → round_end q w.t ≤ at
        → OnCourse (next_round q w)
    unfolding next_round
    next_round-OnCourse w i h le = ground (
      arith,
      round_end_bounds q v w.t h,
      round_end_whole w.t i.whole_t,
      c.one_date w.t i.from_now (omega arith),
      c.one_date (round_end q w.t) (omega (arith, round_end_bounds q v w.t h)) le,
    )

    runs_out-within :
        (w : Walk q) → OnCourse w → at < round_end q w.t → runs_out q w.t w.used w.budget ≡ some at
    unfolding runs_out
    runs_out-within w i h = rw (i.has_budget, runs_out) (ground (arith, no_override, i.left))

    runs_out-later :
        (w : Walk q) → OnCourse w → round_end q w.t ≤ at → runs_out q w.t w.used w.budget ≡ none
    unfolding runs_out
    runs_out-later w i h = rw (i.has_budget, runs_out) (ground (arith, no_override, i.left))

    turn-spent : (w : Walk q) → OnCourse w → w.used ≡ b → turn q w ≡ stop limit at
    unfolding turn after_due
    turn-spent w i e = let same : w.t ≡ at = omega (arith, i.left) in rw (due_at w i e, same)

    turn-within :
        (w : Walk q) → OnCourse w → w.used < b → at < round_end q w.t → turn q w ≡ stop limit at
    unfolding turn after_due after_budget
    turn-within w i h e =
        let more : leb (horizon q) w.t ≡ false = ground (arith, i.left, c.fits) in
        rw (due_before w i h, more, runs_out-within w i e)

    turn-later :
        (w : Walk q)
        → OnCourse w
        → w.used < b
        → round_end q w.t ≤ at
        → turn q w ≡ on (next_round q w)
    unfolding turn after_due after_budget
    turn-later w i h e =
        let more : leb (horizon q) w.t ≡ false = ground (arith, i.left, c.fits) in
        rw (due_before w i h, more, runs_out-later w i e)

    -- A walk on course stops at `at`, for the limit.
    pub walk-OnCourse :
        (f : ℕ) (w : Walk q) → OnCourse w → rounds q v w.t < f → walk q f w ≡ some (stop limit at)
    walk-OnCourse zero w i h = absurd (omega arith)
    walk-OnCourse (suc f) w i h = elim (Bool-cases (ltb w.used b)) [
      | inr done ↦ walk-stops q v f w limit at (turn-spent w i (ground (arith, i.used_le)))
      | inl more ↦
          let lt : w.used < b = ground arith in
          elim (Bool-cases (ltb at (round_end q w.t))) [
            | inl last ↦ walk-stops q v f w limit at (turn-within w i lt (ground arith))
            | inr on_it ↦
                let le : round_end q w.t ≤ at = ground arith in
                let e : turn q w ≡ on (next_round q w) = turn-later w i lt le in
                walk-goes q v f w (next_round q w) e
                ∙ walk-OnCourse f (next_round q w)
                    (next_round-OnCourse w i (omega (arith, i.left, c.fits)) le)
                    (omega (arith, turn_falls q v w (next_round q w) e))
          ]
    ]
