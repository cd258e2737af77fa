-- ===== src/Client/ParentCode/Waits.antt =====
-- How a lockout runs its course.
use openscreentime.Common.{
  ℕ, ◌+◌, ◌-◌, ◌*◌, ◌/◌, ◌≤◌, ◌<◌, ◌≡◌, refl, max, true, some, List, [], ◌∷◌, arith, map, All,
}
use openscreentime.Common.Text.{Text}
use openscreentime.Client.ParentCode.{
  second, locked_out, left, wait, State, Verifier, Crypto, configured, tries_at, check_code, settle,
  verify_at,
}
use openscreentime.Client.ParentCode.Replay.{Attempt, run}

-- The whole seconds from an instant to the end of a lockout, and one at least.
abbrev pub secs_to : ℕ → ℕ → ℕ
secs_to end now = max ((end - now) / second) 1

-- An instant in the `secs` seconds from `start`.
abbrev pub During : ℕ → ℕ → Attempt → Type 0
During start secs a = (start ≤ a.now) × (a.now < start + secs * second)

module _ (x : Crypto) (v : Verifier) where
  -- What a lockout leaves behind.
  record Locked (st : State) (end : ℕ) : Type 0 where
    set : configured v ≡ true
    held : st.locked_until ≡ some end
    counted : 5 ≤ st.failures

  lockout-Locked :
      (st st' : State) (code : Text) (counter now n secs : ℕ)
      → tries_at st now ≡ left n
      → verify_at x v st code counter now ≡ (locked_out secs, st')
      → Locked st' (now + secs * second)
  unfolding tries_at verify_at settle check_code
  lockout-Locked st st' code counter now n secs t e = ground arith

  verify_at-Locked :
      (st : State) (end : ℕ) (code : Text) (counter now : ℕ)
      → Locked st end
      → now < end
      → verify_at x v st code counter now ≡ (locked_out (secs_to end now), st)
  unfolding verify_at
  verify_at-Locked st end code counter now l lt = ground arith

  tries_at-Locked :
      (st : State) (end now : ℕ)
      → Locked st end
      → now < end
      → tries_at st now ≡ wait (secs_to end now)
  unfolding tries_at
  tries_at-Locked st end now l lt = ground arith

  tries_at-over : (st : State) (end now : ℕ) → Locked st end → end ≤ now → tries_at st now ≡ left 1
  unfolding tries_at
  tries_at-over st end now l le = ground arith

  run-Locked :
      (st : State) (start secs : ℕ) (attempts : List Attempt)
      → Locked st (start + secs * second)
      → All (During start secs) attempts
      → run x v st attempts
        ≡ (map (λ a. locked_out (secs_to (start + secs * second) a.now)) attempts, st)
  unfolding run
  run-Locked st start secs [] l h = refl
  run-Locked st start secs (a ∷ more) l h =
      rw
        (
          verify_at-Locked st (start + secs * second) a.code a.counter a.now l h.0.1,
          run-Locked st start secs more l h.1,
        )
        refl

  waits-Locked :
      (st : State) (start secs : ℕ) (attempts : List Attempt)
      → Locked st (start + secs * second)
      → All (During start secs) attempts
      → map (λ a. tries_at st a.now) attempts
        ≡ map (λ a. wait (secs_to (start + secs * second) a.now)) attempts
  waits-Locked st start secs [] l h = refl
  waits-Locked st start secs (a ∷ more) l h =
      rw
        (
          tries_at-Locked st (start + secs * second) a.now l h.0.1,
          waits-Locked st start secs more l h.1,
        )
        refl

  -- When a code typed while tries are left is answered with a lockout of `secs` seconds, then for that
  -- long every code typed, right or wrong and in any number, is answered with the time that is left of
  -- it, which is also what the lock screen shows, and none of them changes what is saved. From that
  -- moment on one try is left.
  pub lockout-runs :
      (st st' : State) (code : Text) (counter now n secs : ℕ) (attempts : List Attempt) (after : ℕ)
      → tries_at st now ≡ left n
      → verify_at x v st code counter now ≡ (locked_out secs, st')
      → All (During now secs) attempts
      → now + secs * second ≤ after
      → (run x v st' attempts
          ≡ (map (λ a. locked_out (secs_to (now + secs * second) a.now)) attempts, st'))
        × (map (λ a. tries_at st' a.now) attempts
            ≡ map (λ a. wait (secs_to (now + secs * second) a.now)) attempts)
        × (tries_at st' after ≡ left 1)
  lockout-runs st st' code counter now n secs attempts after t e h le =
      let l = lockout-Locked st st' code counter now n secs t e in
      (
        run-Locked st' now secs attempts l h,
        waits-Locked st' now secs attempts l h,
        tries_at-over st' (now + secs * second) after l le,
      )
