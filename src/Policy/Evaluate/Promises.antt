-- ===== src/Policy/Evaluate/Promises.antt =====
-- When `evaluate` says that the screen comes back, and when the daily limit lands.
use openscreentime.Common.{
  ℕ, ◌+◌, ◌-◌, ◌*◌, ◌/◌, ◌%◌, ◌≤◌, ◌<◌, ◌≡◌, sym, ◌∙◌, ap, ◌≢◌, ◌⊎◌, inl, inr, true, false, Option,
  none, some, arith, is_some, eq_of_some,
}
use openscreentime.Policy.Document.{ScreenTime}
use openscreentime.Policy.Compiled.{limit, limit_secs, compile}
use openscreentime.Policy.Time.{Zone, IsZone, milli, second, minute, hour}
use openscreentime.Policy.Evaluate.{
  Day, Verdict, before, override_end, start, stopped, upcoming, unstopped, evaluate, walk_fuel,
  stop, spent_now, next_minute,
}
use openscreentime.Policy.Evaluate.Rounds.{next_minute_lem}
use openscreentime.Policy.Evaluate.Resume.{Resumes, Blocked}
use openscreentime.Policy.Evaluate.Verdicts.{
  Says, stopped_now, stopped_later, never_stopped, answer_of, verdict_later,
}
use openscreentime.Policy.Evaluate.Budget.{Clear, OnCourse, walk-OnCourse}
use openscreentime.Policy.Evaluate.Answers.{
  query, spent, said, said-clock_at, evaluate-answer, evaluate-Says,
}

module _ (z : Zone) (v : IsZone z) (st : ScreenTime) (now : ℕ) (day : Day) (ov : Option ℕ) where
  spent_now-spent : spent_now (query z st now day ov) ≡ spent st day
  unfolding limit_secs compile
  spent_now-spent = ground arith

  abbrev pub date : ℕ → ℕ
  date x = (z.naive_local x).date

  -- The clock rules stop the person at x, or the budget is spent and x lies on today's date.
  abbrev pub Held : ℕ → Type 0
  Held x =
      (is_some (said z v st now day ov x) ≡ true) ⊎ ((spent st day ≡ true) × (date x ≡ date now))

  abbrev pub HeldTo : ℕ → Type 0
  HeldTo u = (x : ℕ) → (now / minute + 1) * minute ≤ x → x < u → Held x

  abbrev pub ComesBack : Option ℕ → Type 0
  ComesBack none = HeldTo (now + 48 * hour)
  ComesBack (some u) =
      (now < u)
      × (u ≤ now + 48 * hour)
      × (said z v st now day ov u ≡ none)
      × ((spent st day ≡ false) ⊎ ((x : ℕ) × (now < x) × (x ≤ u) × (date x ≢ date now)))
      × HeldTo u

  Blocked-Held :
      (x : ℕ) → Blocked (query z st now day ov) v now (spent_now (query z st now day ov)) x → Held x
  Blocked-Held x (inl c) = inl (rw (said-clock_at z v st now day ov x) at c)
  Blocked-Held x (inr (s, d)) = inr (sym spent_now-spent ∙ s, d)

  Resumes-ComesBack :
      (back : Option ℕ)
      → Resumes
          (query z st now day ov)
          v
          now
          (spent_now (query z st now day ov))
          (next_minute z now)
          (some back)
      → ComesBack back
  Resumes-ComesBack none f = λ x le lt. Blocked-Held x (f x (rw (next_minute_lem z v now) le) lt)
  Resumes-ComesBack (some u) ((le, fits, c, m), f) =
      let n = next_minute_lem z v now in
      (
        omega arith,
        fits,
        sym (said-clock_at z v st now day ov u) ∙ c,
        met m,
        λ x lo hi. Blocked-Held x (f x (rw n lo) hi),
      )
    where
      met :
          (spent_now (query z st now day ov) ≡ false)
            ⊎ ((x : ℕ) × (next_minute z now ≤ x) × (x ≤ u) × (date x ≢ date now))
          → (spent st day ≡ false) ⊎ ((x : ℕ) × (now < x) × (x ≤ u) × (date x ≢ date now))
      met (inl e) = inl (sym spent_now-spent ∙ e)
      met (inr (x, lo, hi, ne)) = inr (x, omega (arith, next_minute_lem z v now), hi, ne)

  Says-ComesBack :
      (o : Option Verdict) (r : Verdict)
      → Says (query z st now day ov) v o
      → o ≡ some r
      → r.allowed ≡ false
      → ComesBack r.resume_at
  Says-ComesBack o r (stopped_now why back d s e) h a =
      let same : r ≡ stopped (query z st now day ov) why back = eq_of_some (sym h ∙ e) in
      rw same (Resumes-ComesBack back s)
  Says-ComesBack o r (stopped_later why at d lt l e) h a =
      let same : r ≡ upcoming (query z st now day ov) why at = eq_of_some (sym h ∙ e) in
      cc (ap (λ (x : Verdict). x.allowed) same)
  Says-ComesBack o r (never_stopped d f e) h a =
      let same : r ≡ unstopped (query z st now day ov) = eq_of_some (sym h ∙ e) in
      cc (ap (λ (x : Verdict). x.allowed) same)

  -- Someone who is stopped, but not by a pause, is told the first moment, within 48 hours, at which
  -- neither bedtime nor hours stop them and, if the budget was spent, another date has come: from the
  -- next minute on all moments before it are held. If they are told none, all 48 hours are held.
  pub evaluate-resume_at :
      (r : Verdict)
      → evaluate z st now day ov false ≡ some r
      → r.allowed ≡ false
      → ComesBack r.resume_at
  evaluate-resume_at r h a =
      Says-ComesBack (evaluate z st now day ov false) r (evaluate-Says z v st now day ov) h a

  -- A daily limit with time left, met at a whole millisecond, and nothing else on the way: no
  -- override, no clock rule and no other date from now until the time left has passed.
  pub record LimitAhead (at : ℕ) : Type 0 where
    pub enabled : st.enabled ≡ true
    pub limited : 0 < st.daily_limit_minutes
    pub time_left : day.used_secs < st.daily_limit_minutes * 60 + day.earned_secs
    pub lands : at ≡ now + (st.daily_limit_minutes * 60 + day.earned_secs - day.used_secs) * second
    pub no_override : before now ov ≡ false
    pub whole : now % milli ≡ 0
    pub in_horizon : at ≤ now + 48 * hour
    pub no_clock : (x : ℕ) → now ≤ x → x ≤ at → said z v st now day ov x ≡ none
    pub one_date : (x : ℕ) → now ≤ x → x ≤ at → date x ≡ date now

  no_override_end : before now ov ≡ false → override_end (query z st now day ov) ≡ none
  unfolding override_end
  no_override_end h = ground arith

  abbrev budget_ms : ℕ
  budget_ms = (st.daily_limit_minutes * 60 + day.earned_secs) * 1000

  start-OnCourse :
      (at : ℕ) (a : LimitAhead at)
      → OnCourse
          (query z st now day ov)
          v
          budget_ms
          at
          (no_override_end a.no_override)
          (start (query z st now day ov))
  unfolding limit_secs compile
  start-OnCourse at a = record {
    from_now = omega arith;
    whole_t = a.whole;
    has_budget = ground arith;
    used_le = omega arith;
    left = omega arith;
  }

  LimitAhead-Clear :
      (at : ℕ) (a : LimitAhead at)
      → Clear (query z st now day ov) v budget_ms at (no_override_end a.no_override)
  LimitAhead-Clear at a = record {
    whole = a.whole;
    fits = a.in_horizon;
    no_clock = λ x lo hi. said-clock_at z v st now day ov x ∙ a.no_clock x lo hi;
    one_date = a.one_date;
  }

  -- The daily limit lands exactly when the time left has passed, and is announced so from any moment
  -- before: the forecast does not move as the person keeps going.
  pub evaluate-limit :
      (at : ℕ)
      → LimitAhead at
      → evaluate z st now day ov false ≡ some (upcoming (query z st now day ov) limit at)
  evaluate-limit at a =
      let q = query z st now day ov in
      let w =
        walk-OnCourse q v budget_ms at (no_override_end a.no_override) (LimitAhead-Clear at a)
          (walk_fuel q) (start q) (start-OnCourse at a) (ground arith) in
      evaluate-answer z v st now day ov false
      ∙ answer_of q v (stop limit at) w
      ∙ verdict_later q v limit at (omega (arith, a.time_left, a.lands))
