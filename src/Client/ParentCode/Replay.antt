-- ===== src/Client/ParentCode/Replay.antt =====
-- Runs of attempts: how often unlock codes and a recovery code open the door.
use openscreentime.Common.{
  ℕ, ◌+◌, ◌-◌, ◌≤◌, ◌≡◌, ap, ◌⊎◌, Bool, true, false, not, Option, none, some, List, [], ◌∷◌, ◌++◌,
  arith, if◌then◌else◌, Option-cases, Bool-cases, inl, inr, find_first, keep, any-append, All,
}
use openscreentime.Common.Text.{Text, text_eq, text_eq→eq}
use openscreentime.Client.ParentCode.{
  Verdict, ok, recovery, State, RecoveryCode, Verifier, Crypto, has_id, unspent, recovery_by,
  recovery_hit, key_of, check_code, settle, verify_at, clean, all_digits,
}
use openscreentime.Client.ParentCode.Accepts.{verify_at-fresh}

-- A code typed at an instant, with the step counter of that instant.
pub record Attempt : Type 0 where
  pub code : Text
  pub counter : ℕ
  pub now : ℕ

-- How many of some verdicts are the unlock code, and how many the recovery code `id`.
abbrev pub is_unlock : Verdict → ℕ
is_unlock ok = 1
is_unlock _ = 0

abbrev pub is_recovery : Text → Verdict → ℕ
is_recovery id (recovery used) = if text_eq used id then 1 else 0
is_recovery id _ = 0

abbrev pub total : (Verdict → ℕ) → List Verdict → ℕ
total f [] = 0
total f (r ∷ rs) = f r + total f rs

kept_passes :
    (p : RecoveryCode → Bool) (k : RecoveryCode → Bool) (cs : List RecoveryCode)
    (hit : RecoveryCode)
    → find_first p (keep k cs) ≡ some hit
    → k hit ≡ true
kept_passes p k [] hit h = cc
kept_passes p k (c ∷ cs) hit h = elim (Bool-cases (k c)) [
  | inr out ↦ kept_passes p k cs hit (rw out at h)
  | inl within ↦ elim (Bool-cases (p c)) [
    | inl here ↦ ground arith
    | inr there ↦ kept_passes p k cs hit (ground arith)
  ]
]

module _ (x : Crypto) (v : Verifier) where
  -- The verdicts of a list of attempts, each on the state that the one before it saved.
  unfoldable pub run : State → List Attempt → List Verdict × State
  run st [] = ([], st)
  run st (a ∷ more) =
      let (r, st') = verify_at x v st a.code a.counter a.now in
      let (rs, last) = run st' more in (r ∷ rs, last)

  recovery_by-new :
      (o : Option (List ℕ)) (st : State) (code : Text) (hit : RecoveryCode)
      → recovery_by x o (unspent x v st) code ≡ some hit
      → has_id hit.id st.used_recovery ≡ false
  unfolding recovery_by
  recovery_by-new none st code hit h = cc
  recovery_by-new (some key) st code hit h = elim (Bool-cases (all_digits 8 code)) [
    | inr d ↦ cc (let h' : none ≡ some hit = rw d at h in h')
    | inl d ↦
        let e =
          kept_passes (λ c. x.recovery_matches key code c.mac)
            (λ c. not (has_id c.id st.used_recovery)) v.recovery hit (rw d at h) in
        ground arith
  ]

  -- Whether a verdict is the unlock code's.
  abbrev VerdictCase : Verdict × State → State → Type 0
  VerdictCase p st = (p.0 ≡ ok) ⊎ ((is_unlock p.0 ≡ 0) × (p.1.last_counter ≡ st.last_counter))

  pub verify_at-cases :
      (st : State) (code : Text) (counter now : ℕ)
      → VerdictCase (verify_at x v st code counter now) st
  unfolding verify_at settle check_code
  verify_at-cases st code counter now = ground arith

  -- A step accepts a new counter, or leaves the last one alone.
  verify_at-counter :
      (st : State) (code : Text) (counter now : ℕ)
      → is_unlock (verify_at x v st code counter now).0 + st.last_counter
        ≤ (verify_at x v st code counter now).1.last_counter
  verify_at-counter st code counter now =
      let st' : State = (verify_at x v st code counter now).1 in
      elim (verify_at-cases st code counter now) [
        | inl e ↦
            let f =
              verify_at-fresh x v st code counter now st' (ap (λ (r : Verdict). (r, st')) e) in
            rw e (omega arith)
        | inr (z, e) ↦ rw z (omega arith)
      ]

  verify_at-counter_le :
      (st : State) (code : Text) (counter now bound : ℕ)
      → counter ≤ bound
      → st.last_counter ≤ bound + 1
      → (verify_at x v st code counter now).1.last_counter ≤ bound + 1
  verify_at-counter_le st code counter now bound h le =
      let st' : State = (verify_at x v st code counter now).1 in
      elim (verify_at-cases st code counter now) [
        | inl e ↦
            let f =
              verify_at-fresh x v st code counter now st' (ap (λ (r : Verdict). (r, st')) e) in
            omega arith
        | inr (z, e) ↦ omega arith
      ]

  run-counter :
      (bound : ℕ) (st : State) (attempts : List Attempt)
      → All (λ a. a.counter ≤ bound) attempts
      → st.last_counter ≤ bound + 1
      → total is_unlock (run st attempts).0 + st.last_counter ≤ bound + 1
  unfolding run
  run-counter bound st [] h le = omega arith
  run-counter bound st (a ∷ more) h le =
      let st' : State = (verify_at x v st a.code a.counter a.now).1 in
      omega (
        arith,
        verify_at-counter st a.code a.counter a.now,
        run-counter bound st' more h.1
            (verify_at-counter_le st a.code a.counter a.now bound h.0 le),
      )

  -- Whatever is typed, and however often, the unlock code opens the door at most once for each time
  -- step: no more often than there are steps from the last one accepted to one past the latest.
  run-unlocks :
      (bound : ℕ) (st : State) (attempts : List Attempt)
      → All (λ a. a.counter ≤ bound) attempts
      → st.last_counter ≤ bound + 1
      → total is_unlock (run st attempts).0 ≤ bound + 1 - st.last_counter
  run-unlocks bound st attempts h le = omega (arith, run-counter bound st attempts h le)

  -- A spent recovery code weighs one.
  abbrev weight : Text → State → ℕ
  weight id st = if has_id id st.used_recovery then 1 else 0

  recovery_hit-new :
      (st : State) (code : Text) (hit : RecoveryCode)
      → recovery_hit x v st code ≡ some hit
      → has_id hit.id st.used_recovery ≡ false
  unfolding recovery_hit
  recovery_hit-new st code hit h = recovery_by-new (key_of x v) st code hit h

  spend :
      (id : Text) (st : State) (hit : RecoveryCode)
      → has_id hit.id st.used_recovery ≡ false
      → is_recovery id (recovery hit.id) + weight id st
        ≤ (if has_id id (st.used_recovery ++ hit.id ∷ []) then 1 else 0)
  spend id st hit new = elim (Bool-cases (text_eq hit.id id)) [
    | inl same ↦
        let e : hit.id ≡ id = text_eq→eq hit.id id same in
        let old : has_id id st.used_recovery ≡ false = rw e at new in
        ground (arith, any-append (λ y. text_eq y id) st.used_recovery (hit.id ∷ []))
    | inr other ↦ ground (arith, any-append (λ y. text_eq y id) st.used_recovery (hit.id ∷ []))
  ]

  verify_at-weight :
      (id : Text) (st : State) (code : Text) (counter now : ℕ)
      → is_recovery id (verify_at x v st code counter now).0 + weight id st
        ≤ weight id (verify_at x v st code counter now).1
  unfolding verify_at settle check_code
  verify_at-weight id st code counter now = elim (Option-cases (recovery_hit x v st (clean code))) [
    | inl e ↦ ground arith
    | inr (hit, e) ↦ ground (arith, spend id st hit (recovery_hit-new st (clean code) hit e))
  ]

  run-weight :
      (id : Text) (st : State) (attempts : List Attempt)
      → total (is_recovery id) (run st attempts).0 + weight id st ≤ 1
  unfolding run
  run-weight id st [] = ground arith
  run-weight id st (a ∷ more) =
      let st' : State = (verify_at x v st a.code a.counter a.now).1 in
      omega (arith, verify_at-weight id st a.code a.counter a.now, run-weight id st' more)

  -- A recovery code opens the door at most once in any list of attempts, and never once it is spent.
  pub run-recovery_once :
      (id : Text) (st : State) (attempts : List Attempt)
      → total (is_recovery id) (run st attempts).0 ≤ (if has_id id st.used_recovery then 0 else 1)
  run-recovery_once id st attempts = let w = run-weight id st attempts in ground (arith, w)
