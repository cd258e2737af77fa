-- ===== src/Policy/Tests/Examples.antt =====
-- The theorems about the rules at concrete inputs.
use openscreentime.Common.{◌≡◌, refl, true, false, not, ◌&&◌, ◌||◌, none, some, [], arith, is_some}
use openscreentime.Policy.Document.{ScreenTime}
use openscreentime.Policy.Compiled.{limit, bedtime, limit_secs}
use openscreentime.Policy.Evaluate.{Day, Verdict, before, evaluate, upcoming}
use openscreentime.Policy.Evaluate.Answers.{
  query, spent, said, StopsAt, evaluate_total, evaluate-allowed, evaluate-stop_at,
}
use openscreentime.Policy.Evaluate.Promises.{
  LimitAhead, ComesBack, evaluate-resume_at, evaluate-limit,
}
use openscreentime.Policy.Tests.Runs.{east, east-IsZone, at, sixty, noon, night}

abbrev half_used : Day
half_used = record { used_secs = 1800; earned_secs = 0 }

abbrev unused : Day
unused = record { used_secs = 0; earned_secs = 0 }

abbrev noon_verdict : Verdict
noon_verdict = record {
  allowed = true;
  reason = some limit;
  stop_at = some (at 12 30);
  minutes_left = some 30;
  resume_at = none;
  override_active = false;
  budget_left_secs = some 1800;
}

abbrev night_verdict : Verdict
night_verdict = record {
  allowed = false;
  reason = some bedtime;
  stop_at = some (at 23 0);
  minutes_left = some 0;
  resume_at = some (at 31 0);
  override_active = false;
  budget_left_secs = some 3600;
}

evaluate_total_example :
    (r : Verdict) × (evaluate east sixty (at 12 0) half_used none false ≡ some r)
evaluate_total_example = evaluate_total east east-IsZone sixty (at 12 0) half_used none false

evaluate-allowed_example : noon_verdict.allowed ≡ (
    not false
    && (before (at 12 0) none
        || (not (is_some (said east east-IsZone sixty (at 12 0) half_used none (at 12 0)))
            && not (spent sixty half_used))))
evaluate-allowed_example =
    evaluate-allowed east east-IsZone sixty (at 12 0) half_used none false noon_verdict noon

evaluate-stop_at_example :
    StopsAt east east-IsZone sixty (at 12 0) half_used none noon_verdict (at 12 30)
evaluate-stop_at_example =
    evaluate-stop_at east east-IsZone sixty (at 12 0) half_used none noon_verdict (at 12 30) noon
      refl refl

evaluate-resume_at_example :
    ComesBack east east-IsZone sixty (at 23 0) unused none night_verdict.resume_at
evaluate-resume_at_example =
    evaluate-resume_at east east-IsZone sixty (at 23 0) unused none night_verdict night refl

-- A limit of an hour and nothing else.
abbrev plain : ScreenTime
plain = record { enabled = true; daily_limit_minutes = 60; schedule = []; bedtime = none }

plain_ahead : LimitAhead east east-IsZone plain (at 12 0) half_used none (at 12 30)
plain_ahead = record {
  enabled = refl;
  limited = omega arith;
  time_left = omega arith;
  lands = omega arith;
  no_override = refl;
  whole = omega arith;
  in_horizon = omega arith;
  no_clock = λ x lo hi. refl;
  one_date = λ x lo hi. omega arith;
}

evaluate-limit_example :
    evaluate east plain (at 12 0) half_used none false
    ≡ some (upcoming (query east plain (at 12 0) half_used none) limit (at 12 30))
evaluate-limit_example =
    evaluate-limit east east-IsZone plain (at 12 0) half_used none (at 12 30) plain_ahead

-- No rules at all.
abbrev free : ScreenTime
free = record { enabled = false; daily_limit_minutes = 60; schedule = []; bedtime = none }

abbrev free_verdict : Verdict
free_verdict = record {
  allowed = true;
  reason = none;
  stop_at = none;
  minutes_left = none;
  resume_at = none;
  override_active = false;
  budget_left_secs = none;
}

free_run : evaluate east free (at 12 0) half_used none false ≡ some free_verdict
unfolding evaluate limit_secs
free_run = refl
