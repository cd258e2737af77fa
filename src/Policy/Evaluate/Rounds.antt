-- ===== src/Policy/Evaluate/Rounds.antt =====
-- One round of the walk of `evaluate`: how far it goes, and what holds between its ends.
use openscreentime.Common.{
  ℕ, ◌+◌, ◌-◌, ◌*◌, ◌/◌, ◌%◌, ◌≤◌, ◌<◌, ◌≡◌, sym, ◌∙◌, ap, ◌⊎◌, inl, inr, true, false, none, arith,
}
use openscreentime.Policy.Compiled.{clock_reason}
use openscreentime.Policy.Time.{Zone, IsZone, second, minute}
use openscreentime.Policy.Evaluate.{
  Query, next_minute, before, horizon, clock_at, override_end, round_end,
}

-- The next whole minute, by division.
pub next_minute_lem : (z : Zone) → IsZone z → (t : ℕ) → next_minute z t ≡ (t / minute + 1) * minute
unfolding next_minute
next_minute_lem z v t = ground (arith, v.of_timestamp (t / second - t / second % 60 + 60))

module _ (q : Query) (v : IsZone q.zone) where
  open q use {zone, now}

  -- A round moves on, stays within one minute, and stops at the horizon.
  pub round_end_bounds :
      (t : ℕ)
      → t < horizon q
      → (t < round_end q t)
        × (round_end q t ≤ horizon q)
        × (round_end q t ≤ (t / minute + 1) * minute)
  unfolding round_end
  round_end_bounds t h = ground (arith, next_minute_lem zone v t)

  -- A round that starts within the override ends within it.
  pub round_end_override :
      (t u : ℕ)
      → before t (override_end q) ≡ true
      → u < round_end q t
      → before u (override_end q) ≡ true
  unfolding round_end
  round_end_override t u h lt = ground (arith, next_minute_lem zone v t)

  -- A round that is not the last of its minute or of the walk ends with the override.
  pub round_end_cases :
      (t : ℕ)
      → t < horizon q
      → (round_end q t ≡ (t / minute + 1) * minute)
        ⊎ (round_end q t ≡ horizon q)
        ⊎ ((before t (override_end q) ≡ true)
            × (before (round_end q t) (override_end q) ≡ false)
            × (round_end q t / minute ≡ t / minute))
  unfolding round_end
  round_end_cases t h = ground (arith, next_minute_lem zone v t)

  -- Within the override, or with no bedtime and inside the allowed hours.
  abbrev pub Free : ℕ → Type 0
  Free u = (before u (override_end q) ≡ true) ⊎ (clock_at q u ≡ none)

  same_clock : (t u : ℕ) → t / minute ≡ u / minute → clock_at q t ≡ clock_at q u
  same_clock t u e = ap (clock_reason q.rules) (v.same_minute t u e)

  -- A minute that is free where the round starts is free to the round's end.
  pub round_end-Free : (t u : ℕ) → t < horizon q → Free t → t ≤ u → u < round_end q t → Free u
  round_end-Free t u h (inl o) le lt = inl (round_end_override t u o lt)
  round_end-Free t u h (inr c) le lt =
      inr (sym (same_clock t u (omega (arith, round_end_bounds t h))) ∙ c)
