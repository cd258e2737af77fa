-- ===== src/Client/ParentCode/Lockout.antt =====
-- Wrong codes: the lockout, how long it lasts, and what the lock screen says of it.
use native.Mathlib.Nat.{pow-le-pow_right}
use openscreentime.Common.{
  ℕ, ◌+◌, ◌-◌, ◌*◌, ◌^◌, ◌≤◌, ◌<◌, ◌≡◌, refl, ap, ◌∙◌, ◌⊎◌, min, true, false, none, some, arith,
  leb, if◌then◌else◌, Bool-cases, inl, inr,
}
use openscreentime.Common.Text.{Text}
use openscreentime.Client.ParentCode.{
  second, Verdict, wrong, locked_out, accepted, left, State, Verifier, Crypto, configured,
  locked_for, tries_at, clean, check_code, lockout_secs, settle, verify_at,
}

pow_16 : (n : ℕ) → 4 ≤ n → 16 ≤ 2 ^ n
pow_16 n h = omega (arith, pow-le-pow_right {n = 2} (omega arith) h)

-- The fifth wrong code waits a minute, each further one twice as long, and none longer than fifteen
-- minutes: the cap of ten doublings in the code never shows.
lockout_secs-doubles :
    (x : Crypto) (failures : ℕ) → lockout_secs x failures ≡ min (60 * 2 ^ (failures - 5)) 900
unfolding lockout_secs
lockout_secs-doubles x failures = elim (Bool-cases (leb (failures - 5) 10)) [
  | inl few ↦ let e : min (failures - 5) 10 ≡ failures - 5 = ground arith in rw e
  | inr many ↦
      let e : min (failures - 5) 10 ≡ 10 = ground arith in
      rw e (omega (arith, pow_16 (failures - 5) (ground arith)))
]

module _ (x : Crypto) (v : Verifier) where
  check_code-refused :
      (st : State) (code : Text) (counter : ℕ)
      → accepted (check_code x v st code counter).0 ≡ false
      → check_code x v st code counter ≡ (wrong, st)
  unfolding check_code
  check_code-refused st code counter a = ground arith

  settle-refused :
      (st : State) (now : ℕ)
      → settle x now (wrong, st) ≡ (
          if leb 5 (st.failures + 1)
          then (
            locked_out (lockout_secs x (st.failures + 1)),
            record st {
              failures = st.failures + 1;
              locked_until = some (now + lockout_secs x (st.failures + 1) * second);
            },
          )
          else (wrong, record st { failures = st.failures + 1 }))
  unfolding settle
  settle-refused st now = refl

  settle-accepted :
      (p : Verdict × State) (now : ℕ) → accepted (settle x now p).0 ≡ false → accepted p.0 ≡ false
  unfolding settle
  settle-accepted (verdict, st) now a = ground arith

  pub verify_at-free :
      (st : State) (code : Text) (counter now : ℕ)
      → configured v ≡ true
      → locked_for st now ≡ none
      → verify_at x v st code counter now ≡ settle x now (check_code x v st (clean code) counter)
  unfolding verify_at
  verify_at-free st code counter now c f = ground arith

  tries_at-free : (st : State) (now n : ℕ) → tries_at st now ≡ left n → locked_for st now ≡ none
  unfolding tries_at
  tries_at-free st now n t = ground arith

  -- What a refused code does to a computer that is not locked.
  verify_at-refused :
      (st : State) (now counter : ℕ) (code : Text)
      → configured v ≡ true
      → locked_for st now ≡ none
      → accepted (verify_at x v st code counter now).0 ≡ false
      → verify_at x v st code counter now ≡ settle x now (wrong, st)
  verify_at-refused st now counter code c f a =
      let e = verify_at-free st code counter now c f in
      e
      ∙ ap (settle x now)
          (check_code-refused st (clean code) counter (settle-accepted _ now (rw e at a)))

  -- The tries that the lock screen shows are exact: a code that is refused locks the computer when one
  -- try was left, for the time of its failure count, and otherwise is just wrong and takes one away.
  pub verify_at-left :
      (st : State) (now n counter : ℕ) (code : Text)
      → configured v ≡ true
      → tries_at st now ≡ left n
      → accepted (verify_at x v st code counter now).0 ≡ false
      → (verify_at x v st code counter now).1.failures ≡ st.failures + 1
        × ((n ≡ 1)
              × ((verify_at x v st code counter now).0
                  ≡ locked_out (lockout_secs x (st.failures + 1)))
              × ((verify_at x v st code counter now).1.locked_until
                  ≡ some (now + lockout_secs x (st.failures + 1) * second))
            ⊎ (1 < n)
              × ((verify_at x v st code counter now).0 ≡ wrong)
              × (tries_at (verify_at x v st code counter now).1 now ≡ left (n - 1)))
  unfolding tries_at
  verify_at-left st now n counter code c t a =
      rw (verify_at-refused st now counter code c (tries_at-free st now n t) a)
        (rw (settle-refused st now) (ground arith))
