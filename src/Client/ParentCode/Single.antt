-- ===== src/Client/ParentCode/Single.antt =====
-- Runs of attempts: which counters the unlock codes that open belong to.
use openscreentime.Common.{ℕ, ◌+◌, ◌≤◌, ◌<◌, ◌≡◌, ap, some, List, [], ◌∷◌, inl, inr}
use openscreentime.Client.ParentCode.{
  Verdict, ok, State, Verifier, Crypto, key_of, clean, verify_at,
}
use openscreentime.Client.ParentCode.Accepts.{verify_at-fresh}
use openscreentime.Client.ParentCode.Replay.{Attempt, is_unlock, run, verify_at-cases}

module _ (x : Crypto) (v : Verifier) where
  open x use {totp_at}

  -- Verdicts on attempts where the counters up to `last` are used up. An attempt that opens uses a
  -- counter above it, one step from its own at most, at which the key gives the code that was typed,
  -- and uses up every counter to there.
  pub data Fresh : ℕ → List Attempt → List Verdict → Type 0 where
    over : {last : ℕ} → Fresh last [] []
    opened :
        {last : ℕ} {a : Attempt} {more : List Attempt} {rs : List Verdict}
        → (c : ℕ) (key : List ℕ) → key_of x v ≡ some key
        → last < c
        → a.counter ≤ c + 1
        → c ≤ a.counter + 1
        → totp_at key c ≡ clean a.code
        → Fresh c more rs
        → Fresh last (a ∷ more) (ok ∷ rs)
    other :
        {last : ℕ} {a : Attempt} {more : List Attempt} {r : Verdict} {rs : List Verdict}
        → is_unlock r ≡ 0
        → Fresh last more rs
        → Fresh last (a ∷ more) (r ∷ rs)

  -- Whatever is typed, whenever, an unlock code that opens is the code of a counter above that of every
  -- unlock code that opened before it and above the last one saved, and one step from the present at
  -- most: the code of a counter opens once.
  pub run-Fresh :
      (st : State) (attempts : List Attempt)
      → Fresh st.last_counter attempts (run x v st attempts).0
  unfolding run
  run-Fresh st [] = over
  run-Fresh st (a ∷ more) =
      let st' : State = (verify_at x v st a.code a.counter a.now).1 in
      let rest = run-Fresh st' more in
      elim (verify_at-cases x v st a.code a.counter a.now) [
        | inl e ↦
            let (free, new, lo, hi, (key, has_key, gives)) =
              verify_at-fresh x v st a.code a.counter a.now st'
                (ap (λ (r : Verdict). (r, st')) e) in
            rw e (opened st'.last_counter key has_key new lo hi gives rest)
        | inr (z, e) ↦ other z (rw e at rest)
      ]
