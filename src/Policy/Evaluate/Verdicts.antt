-- ===== src/Policy/Evaluate/Verdicts.antt =====
-- What the verdict of `evaluate` says.
use openscreentime.Common.{
  ℕ, suc, ◌≤◌, ◌<◌, ◌≡◌, refl, sym, ◌∙◌, ◌⊎◌, inl, inr, Bool, true, false, Option, none, some,
  arith, leb, ◌==◌, if◌then◌else◌, Option-cases, ==_iff,
}
use openscreentime.Policy.Compiled.{StopReason}
use openscreentime.Policy.Time.{IsZone}
use openscreentime.Policy.Evaluate.{
  Query, Walk, Turn, stop, no_stop, on, Verdict, horizon, reason_at, runs_out, due, after_budget,
  after_due, turn, walk, walk_fuel, start, verdict_of, answer, stopped, upcoming, unstopped,
  resume_at, next_minute, spent_now,
}
use openscreentime.Policy.Evaluate.Walks.{
  FreeTo, Lands, Sound, Ends, stops, stays, goes, turn_case, rounds, walk-Ends, turn-Sound,
  walk-stops, walk-stays, walk-goes, turn_falls,
}
use openscreentime.Policy.Evaluate.Resume.{Resumes, resume_at-Resumes}

module _ (q : Query) (v : IsZone q.zone) where
  open q use {now}

  start-Ends : Ends q v now (walk q (walk_fuel q) (start q))
  start-Ends = walk-Ends q v (walk_fuel q) (start q) (omega arith) (ground arith)

  after_budget_later :
      (w : Walk q) (why : StopReason) (at : ℕ)
      → due q w ≡ none
      → after_budget q w (runs_out q w.t w.used w.budget) ≡ stop why at
      → w.t < at
  unfolding after_budget runs_out due reason_at
  after_budget_later w why at d e = ground arith

  turn_later :
      (w : Walk q) (why : StopReason) (at : ℕ) → due q w ≡ none → turn q w ≡ stop why at → w.t < at
  unfolding turn after_due
  turn_later w why at d e = later (leb (horizon q) w.t) (rw d at e)
    where
      later :
          (b : Bool)
          → (if b then no_stop else after_budget q w (runs_out q w.t w.used w.budget)) ≡ stop why at
          → w.t < at
      later true h = cc
      later false h = after_budget_later w why at d h

  turn-due : (w : Walk q) (why : StopReason) → due q w ≡ some why → turn q w ≡ stop why w.t
  unfolding turn after_due
  turn-due w why d = rw d

  -- A walk that is not stopped where it starts is stopped later, if at all.
  walk_later :
      (f : ℕ) (w : Walk q) (why : StopReason) (at : ℕ)
      → w.t ≤ horizon q
      → rounds q v w.t < suc f
      → due q w ≡ none
      → walk q (suc f) w ≡ some (stop why at)
      → w.t < at
  walk_later f w why at h r d e = elim (turn_case q v (turn q w)) [
    | stops why' at' t ↦
        let s : some (stop why' at') ≡ some (stop why at) =
          sym (walk-stops q v f w why' at' t) ∙ e in
        let p : at' ≡ at = cc in rw (← p) (turn_later w why' at' d t)
    | stays t ↦ absurd (cc (walk-stays q v f w t))
    | goes w' t ↦
        let s : Sound q v w.t (on w') = rw t at (turn-Sound q v w h) in
        let rest : walk q f w' ≡ some (stop why at) = sym (walk-goes q v f w w' t) ∙ e in
        let ends : Lands q v w'.t why at =
          rw rest at (walk-Ends q v f w' s.1 (omega (arith, turn_falls q v w w' t))) in
        omega arith
  ]

  -- The three answers of `evaluate` to a person who is not paused.
  pub data Says (o : Option Verdict) : Type 0 where
    -- Stopped now, and why; and when the screen comes back by itself.
    stopped_now :
        (why : StopReason) (back : Option ℕ)
        → due q (start q) ≡ some why
        → Resumes q v now (spent_now q) (next_minute q.zone now) (some back)
        → o ≡ some (stopped q why back)
        → Says o
    -- A stop ahead, with nothing before it.
    stopped_later :
        (why : StopReason) (at : ℕ)
        → due q (start q) ≡ none
        → now < at
        → Lands q v now why at
        → o ≡ some (upcoming q why at)
        → Says o
    -- Nothing stops the person before the horizon.
    never_stopped :
        due q (start q) ≡ none → FreeTo q v now (horizon q) → o ≡ some (unstopped q) → Says o

  pub answer_of :
      (o : Turn q) → walk q (walk_fuel q) (start q) ≡ some o → answer q false ≡ verdict_of q o
  unfolding answer
  answer_of o e = rw (e, answer)

  resumed :
      (r : Option (Option ℕ)) → resume_at q ≡ r → (back : Option ℕ) × (resume_at q ≡ some back)
  resumed none e = absurd (rw e at (resume_at-Resumes q v))
  resumed (some back) e = (back, e)

  walk_result :
      (o : Option (Turn q))
      → walk q (walk_fuel q) (start q) ≡ o
      → ((why : StopReason) × (at : ℕ) × (walk q (walk_fuel q) (start q) ≡ some (stop why at))
          × Lands q v now why at)
        ⊎ ((walk q (walk_fuel q) (start q) ≡ some no_stop) × FreeTo q v now (horizon q))
  walk_result none e = absurd (rw e at start-Ends)
  walk_result (some (on w)) e = absurd (rw e at start-Ends)
  walk_result (some no_stop) e = inr (e, rw e at start-Ends)
  walk_result (some (stop why at)) e = inl (why, at, e, rw e at start-Ends)

  verdict_now :
      (why : StopReason) (back : Option ℕ)
      → resume_at q ≡ some back
      → verdict_of q (stop why now) ≡ some (stopped q why back)
  unfolding verdict_of
  verdict_now why back r = rw ((==_iff now now).1 refl, r)

  pub verdict_later :
      (why : StopReason) (at : ℕ) → now < at → verdict_of q (stop why at) ≡ some (upcoming q why at)
  unfolding verdict_of
  verdict_later why at h = let e : (at == now) ≡ false = ground arith in rw e

  stopped-Says : (why : StopReason) → due q (start q) ≡ some why → Says (answer q false)
  stopped-Says why d =
      let (back, r) = resumed (resume_at q) refl in
      let w = walk-stops q v 2883 (start q) why now (turn-due (start q) why d) in
      stopped_now why back d (rw r at (resume_at-Resumes q v))
        (answer_of (stop why now) w ∙ verdict_now why back r)

  free-Says : due q (start q) ≡ none → Says (answer q false)
  unfolding verdict_of
  free-Says d = elim (walk_result (walk q (walk_fuel q) (start q)) refl) [
    | inr (e, f) ↦ never_stopped d f (answer_of no_stop e)
    | inl (why, at, e, l) ↦
        let later : now < at = walk_later 2883 (start q) why at (omega arith) (ground arith) d e in
        stopped_later why at d later l (answer_of (stop why at) e ∙ verdict_later why at later)
  ]

  -- `evaluate` always answers a person who is not paused, in one of three ways. Stopped now: why, and
  -- the first moment the screen comes back. Stopped later: nothing stops the person before that
  -- moment, and the reason holds at it. Never: nothing stops the person before the horizon.
  pub answer-Says : Says (answer q false)
  answer-Says = elim (Option-cases (due q (start q))) [
    | inl d ↦ free-Says d
    | inr (why, d) ↦ stopped-Says why d
  ]
