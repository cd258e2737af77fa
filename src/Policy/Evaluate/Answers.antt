-- ===== src/Policy/Evaluate/Answers.antt =====
-- `evaluate` against the policy document: every statement is about the call that the agent makes.
use openscreentime.Common.{
  ℕ, ◌+◌, ◌-◌, ◌*◌, ◌/◌, ◌≤◌, ◌<◌, ◌≡◌, refl, sym, ◌∙◌, ap, ◌⊎◌, inl, inr, Bool, true, false, ◌&&◌,
  ◌||◌, not, Option, none, some, arith, ltb, leb, is_some, eq_of_some,
}
use openscreentime.Policy.Document.{ScreenTime}
use openscreentime.Policy.Compiled.{StopReason, limit, compile, limit_secs}
use openscreentime.Policy.Compiled.Reading.{read_clock, compile-clock_reason}
use openscreentime.Policy.Time.{Zone, IsZone, second, hour}
use openscreentime.Policy.Evaluate.{
  Query, Day, Verdict, before, clock_at, override_end, reason_at, due, start, answer, stopped,
  upcoming, unstopped, evaluate, minutes_until,
}
use openscreentime.Policy.Evaluate.Rounds.{Free}
use openscreentime.Policy.Evaluate.Walks.{Lands}
use openscreentime.Policy.Evaluate.Verdicts.{
  Says, stopped_now, stopped_later, never_stopped, answer-Says,
}

abbrev pub query : Zone → ScreenTime → ℕ → Day → Option ℕ → Query
query z st now day ov = record {
  rules = compile st;
  zone = z;
  now = now;
  day = day;
  override_until = ov;
}

-- The day's limit and what was earned are used up.
abbrev pub spent : ScreenTime → Day → Bool
spent st day =
    (st.enabled && ltb 0 st.daily_limit_minutes)
    && leb (st.daily_limit_minutes * 60 + day.earned_secs) day.used_secs

abbrev allowed_of : Option Verdict → Bool
allowed_of none = false
allowed_of (some r) = r.allowed

module _ (z : Zone) (v : IsZone z) (st : ScreenTime) (now : ℕ) (day : Day) (ov : Option ℕ) where
  -- What the document says of the instant x, on the wall clock of the zone.
  abbrev pub said : ℕ → Option StopReason
  said x = read_clock st (z.naive_local x)

  pub said-clock_at : (x : ℕ) → clock_at (query z st now day ov) x ≡ said x
  said-clock_at x =
      compile-clock_reason st (z.naive_local x)
        (record { weekday_lt = v.weekday_lt x; hour_lt = v.hour_lt x; minute_lt = v.minute_lt x })

  pub override_end-before :
      (x : ℕ) → now ≤ x → before x (override_end (query z st now day ov)) ≡ before x ov
  unfolding override_end
  override_end-before x h = ground arith

  due-start :
      is_some (due (query z st now day ov) (start (query z st now day ov)))
      ≡ (not (before now ov) && (is_some (said now) || spent st day))
  unfolding due reason_at limit_secs compile
  due-start = ground (arith, said-clock_at now, override_end-before now)

  pub evaluate-answer : (p : Bool) → evaluate z st now day ov p ≡ answer (query z st now day ov) p
  unfolding evaluate
  evaluate-answer p = refl

  -- The query that `evaluate` compiles.
  abbrev pub q : Query
  q = query z st now day ov

  pub evaluate-Says : Says q v (evaluate z st now day ov false)
  evaluate-Says = rw (evaluate-answer false) (answer-Says q v)

  evaluate-paused : evaluate z st now day ov true ≡ some (stopped q StopReason.paused none)
  unfolding answer
  evaluate-paused = evaluate-answer true ∙ refl

  Says-answers : (o : Option Verdict) → Says q v o → (r : Verdict) × (o ≡ some r)
  Says-answers o (stopped_now why back d s e) = (stopped q why back, e)
  Says-answers o (stopped_later why at d lt l e) = (upcoming q why at, e)
  Says-answers o (never_stopped d f e) = (unstopped q, e)

  -- `evaluate` always returns a verdict.
  pub evaluate_total : (p : Bool) → (r : Verdict) × (evaluate z st now day ov p ≡ some r)
  evaluate_total true = (stopped q StopReason.paused none, evaluate-paused)
  evaluate_total false = Says-answers (evaluate z st now day ov false) evaluate-Says

  Says-allowed :
      (o : Option Verdict) (r : Verdict)
      → Says q v o
      → o ≡ some r
      → r.allowed ≡ (before now ov || (not (is_some (said now)) && not (spent st day)))
  Says-allowed o r (stopped_now why back d s e) h =
      let a : r.allowed ≡ false = ap (λ (x : Option Verdict). allowed_of x) (sym h ∙ e) in
      let s : true ≡ (not (before now ov) && (is_some (said now) || spent st day)) =
        rw d at due-start in
      ground arith
  Says-allowed o r (stopped_later why at d lt l e) h =
      let a : r.allowed ≡ true = ap (λ (x : Option Verdict). allowed_of x) (sym h ∙ e) in
      let s : false ≡ (not (before now ov) && (is_some (said now) || spent st day)) =
        rw d at due-start in
      ground arith
  Says-allowed o r (never_stopped d f e) h =
      let a : r.allowed ≡ true = ap (λ (x : Option Verdict). allowed_of x) (sym h ∙ e) in
      let s : false ≡ (not (before now ov) && (is_some (said now) || spent st day)) =
        rw d at due-start in
      ground arith

  -- The person may use the screen exactly when no pause holds, and either an override runs or neither
  -- the clock rules nor a spent budget stop them: a pause beats an override, and that beats the rest.
  pub evaluate-allowed :
      (p : Bool) (r : Verdict)
      → evaluate z st now day ov p ≡ some r
      → r.allowed ≡ (not p && (before now ov || (not (is_some (said now)) && not (spent st day))))
  evaluate-allowed true r h = ap (λ (x : Option Verdict). allowed_of x) (sym h ∙ evaluate-paused)
  evaluate-allowed false r h = Says-allowed (evaluate z st now day ov false) r evaluate-Says h

  -- Nothing in the document stops the person at x, or the override still runs then.
  abbrev pub Clear : ℕ → Type 0
  Clear x = (before x ov ≡ true) ⊎ (said x ≡ none)

  Free-Clear : (x : ℕ) → now ≤ x → Free q v x → Clear x
  Free-Clear x h (inl o) = inl (sym (override_end-before x h) ∙ o)
  Free-Clear x h (inr c) = inr (sym (said-clock_at x) ∙ c)

  -- What the verdict of someone who may use the screen says of the stop ahead.
  pub record StopsAt (r : Verdict) (at : ℕ) : Type 0 where
    pub later : now < at
    pub in_horizon : at ≤ now + 48 * hour
    pub not_overridden : before at ov ≡ false
    pub clear : (x : ℕ) → now ≤ x → x < at → Clear x
    pub because : (r.reason ≡ some limit) ⊎ (said at ≡ r.reason)
    pub minutes : r.minutes_left ≡ some (((at - now) / second + 59) / 60)

  minutes_until-lt :
      (at : ℕ) → at ≤ now + 48 * hour → minutes_until now at ≡ ((at - now) / second + 59) / 60
  unfolding minutes_until
  minutes_until-lt at h = ground arith

  Lands-StopsAt :
      (why : StopReason) (at : ℕ) → now < at → Lands q v now why at → StopsAt (upcoming q why at) at
  Lands-StopsAt why at lt l = record {
    later = lt;
    in_horizon = l.1;
    not_overridden = sym (override_end-before at l.0) ∙ l.2;
    clear = λ x le h. Free-Clear x le (l.3 x le h);
    because = because l.4;
    minutes = ap some (minutes_until-lt at l.1);
  }
    where
      because :
          (why ≡ limit) ⊎ (clock_at q at ≡ some why)
          → (some why ≡ some limit) ⊎ (said at ≡ some why)
      because (inl e) = inl (ap some e)
      because (inr e) = inr (sym (said-clock_at at) ∙ e)

  Says-stop_at :
      (o : Option Verdict) (r : Verdict) (at : ℕ)
      → Says q v o
      → o ≡ some r
      → r.allowed ≡ true
      → r.stop_at ≡ some at
      → StopsAt r at
  Says-stop_at o r at (stopped_now why back d s e) h a t =
      cc (ap (λ (x : Option Verdict). allowed_of x) (sym h ∙ e))
  Says-stop_at o r at (stopped_later why at' d lt l e) h a t =
      let same : r ≡ upcoming q why at' = eq_of_some (sym h ∙ e) in
      let t' : at' ≡ at = eq_of_some (sym (ap (λ (x : Verdict). x.stop_at) same) ∙ t) in
      rw (same, ← t') (Lands-StopsAt why at' lt l)
  Says-stop_at o r at (never_stopped d f e) h a t =
      let same : r ≡ unstopped q = eq_of_some (sym h ∙ e) in
      cc (ap (λ (x : Verdict). x.stop_at) same)

  -- A stop that is announced lies ahead, within 48 hours and outside the override; from now until
  -- then neither bedtime nor hours stop the person; the reason given is the limit or is what stops
  -- them at that moment; and `minutes_left` is the whole seconds until then, rounded up to minutes.
  pub evaluate-stop_at :
      (r : Verdict) (at : ℕ)
      → evaluate z st now day ov false ≡ some r
      → r.allowed ≡ true
      → r.stop_at ≡ some at
      → StopsAt r at
  evaluate-stop_at r at h a t =
      Says-stop_at (evaluate z st now day ov false) r at evaluate-Says h a t

  Says-no_stop :
      (o : Option Verdict) (r : Verdict)
      → Says q v o
      → o ≡ some r
      → r.stop_at ≡ none
      → (x : ℕ) → now ≤ x
      → x < now + 48 * hour
      → Clear x
  Says-no_stop o r (stopped_now why back d s e) h t x le lt =
      let same : r ≡ stopped q why back = eq_of_some (sym h ∙ e) in
      cc (ap (λ (x : Verdict). x.stop_at) same)
  Says-no_stop o r (stopped_later why at d lt l e) h t x le lt' =
      let same : r ≡ upcoming q why at = eq_of_some (sym h ∙ e) in
      cc (ap (λ (x : Verdict). x.stop_at) same)
  Says-no_stop o r (never_stopped d f e) h t x le lt = Free-Clear x le (f x le lt)

  -- When no stop is announced, neither bedtime nor hours stop the person in the next 48 hours, but
  -- for what an override holds off.
  evaluate-no_stop :
      (r : Verdict)
      → evaluate z st now day ov false ≡ some r
      → r.stop_at ≡ none
      → (x : ℕ) → now ≤ x
      → x < now + 48 * hour
      → Clear x
  evaluate-no_stop r h t x le lt =
      Says-no_stop (evaluate z st now day ov false) r evaluate-Says h t x le lt
