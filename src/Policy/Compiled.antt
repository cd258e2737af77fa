-- ===== src/Policy/Compiled.antt =====
-- policy/src/rules.rs: `Compiled`, a policy's clock rules, parsed once. The arrays of seven days are
-- functions of the day, written at one index; every index that the code uses is below 7.
pub mod Windows
pub mod Reading
use openscreentime.Common.{
  ℕ, ◌+◌, ◌*◌, ◌%◌, Bool, true, false, ◌&&◌, not, Option, none, some, List, [], ◌∷◌, ◌++◌, ltb, leb,
  ◌==◌, if◌then◌else◌, any, keep,
}
use openscreentime.Policy.Document.{Window, Bedtime, ScreenTime}
use openscreentime.Policy.Hm.{day_min, span}

abbrev pub Span : Type 0
Span = ℕ × ℕ

pub data StopReason : Type 0 where
  limit bedtime outside_hours paused : StopReason

-- A local date and time, as far as the rules read it: chrono's `NaiveDateTime` to the minute, its
-- date counted in days and its weekday from Sunday.
pub record LocalTime : Type 0 where
  pub date : ℕ
  pub weekday : ℕ
  pub hour : ℕ
  pub minute : ℕ

abbrev pub minute_of_day : LocalTime → ℕ
minute_of_day t = t.hour * 60 + t.minute

-- The two arrays that the loops of `Compiled::new` fill.
pub record Week : Type 0 where
  pub restricted : ℕ → Bool
  pub allowed : ℕ → List Span

pub record Compiled : Type 0 where
  pub enabled : Bool
  pub limit_min : ℕ
  pub restricted : ℕ → Bool
  pub allowed : ℕ → List Span
  pub bedtime : List Span

abbrev pub update {ℓ} : {A : Type ℓ} → (ℕ → A) → ℕ → A → ℕ → A
update f i v j = if i == j then v else f j

abbrev pub push : (ℕ → List Span) → ℕ → Span → ℕ → List Span
push f d x = update f d (f d ++ x ∷ [])

-- The body of the inner loop, for the day d of a window from s to e.
unfoldable pub add_day : ℕ → ℕ → Week → ℕ → Week
add_day s e w d = record {
  restricted = update w.restricted d true;
  allowed =
      if ltb s e
      then push w.allowed d (s, e)
      else push (push w.allowed d (s, day_min)) ((d + 1) % 7) (0, e);
}

unfoldable pub add_days : ℕ → ℕ → Week → List ℕ → Week
add_days s e w [] = w
add_days s e w (d ∷ ds) = add_days s e (add_day s e w d) ds

abbrev pub real_days : List ℕ → List ℕ
real_days ds = keep (λ d. ltb d 7) ds

abbrev pub add_span : Option Span → List ℕ → Week → Week
add_span none ds w = w
add_span (some (s, e)) ds w = add_days s e w (real_days ds)

unfoldable pub add_windows : Week → List Window → Week
add_windows w [] = w
add_windows w (x ∷ xs) = add_windows (add_span (span x.start x.end) x.days w) xs

abbrev pub open_week : Week
open_week = record { restricted = λ d. false; allowed = λ d. [] }

-- A whole-day bedtime is never honoured.
abbrev pub bedtime_spans : Option Span → List Span
bedtime_spans none = []
bedtime_spans (some (s, e)) =
    if (s == 0) && (e == day_min)
    then []
    else if ltb s e
    then (s, e) ∷ []
    else (s, day_min) ∷ (0, e) ∷ []

abbrev pub bedtime_span : Option Bedtime → Option Span
bedtime_span none = none
bedtime_span (some b) = span b.start b.end

-- `Compiled::new`.
unfoldable pub compile : ScreenTime → Compiled
compile st = record {
  enabled = st.enabled;
  limit_min = st.daily_limit_minutes;
  restricted = (add_windows open_week st.schedule).restricted;
  allowed = (add_windows open_week st.schedule).allowed;
  bedtime = bedtime_spans (bedtime_span st.bedtime);
}

-- `Compiled::limit_secs`.
unfoldable pub limit_secs : Compiled → Option ℕ
limit_secs c = if c.enabled && ltb 0 c.limit_min then some (c.limit_min * 60) else none

abbrev pub within : ℕ → Span → Bool
within m (s, e) = leb s m && ltb m e

unfoldable pub inside : List Span → ℕ → Bool
inside spans m = any (within m) spans

-- `Compiled::clock_reason`.
unfoldable pub clock_reason : Compiled → LocalTime → Option StopReason
clock_reason c t =
    if not c.enabled
    then none
    else if inside c.bedtime (minute_of_day t)
    then some bedtime
    else if c.restricted t.weekday && not (inside (c.allowed t.weekday) (minute_of_day t))
    then some outside_hours
    else none

abbrev pub is_bedtime : Option StopReason → Bool
is_bedtime (some bedtime) = true
is_bedtime _ = false

-- `in_bedtime`.
unfoldable pub in_bedtime : ScreenTime → LocalTime → Bool
unfolding compile clock_reason
in_bedtime st t = is_bedtime (clock_reason (compile (record st { enabled = true })) t)
