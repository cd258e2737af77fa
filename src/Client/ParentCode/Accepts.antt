-- ===== src/Client/ParentCode/Accepts.antt =====
-- What an accepted code is.
use native.Mathlib.Decide.{dec_lt}
use openscreentime.Common.{
  ℕ, zero, suc, ◌+◌, ◌-◌, ◌≤◌, ◌<◌, ◌≡◌, refl, inl, inr, true, ◌&&◌, ◌||◌, Option, none, some, List,
  arith, ltb, Bool-cases, is_some,
}
use openscreentime.Common.Text.{Text, text_eq, text_eq→eq, text_eq_refl}
use openscreentime.Client.ParentCode.{
  ok, State, Verifier, Crypto, configured, locked_for, clean, all_digits, key_of, find_counter,
  totp_by, totp_hit, check_code, settle, verify_at,
}
use openscreentime.Client.ParentCode.Lockout.{verify_at-free}

module _ (x : Crypto) where
  open x use {totp_at, recovery_matches, verify_pin}

  -- A counter that is found lies in the range, is new, and gives the code.
  find_counter_found :
      (key : List ℕ) (code : Text) (last n c hit : ℕ)
      → find_counter x key code last n c ≡ some hit
      → (last < hit) × (c ≤ hit) × (hit < c + n) × (totp_at key hit ≡ code)
  unfolding find_counter
  find_counter_found key code last zero c hit h = ground arith
  find_counter_found key code last (suc n) c hit h =
      ground
        (arith, find_counter_found key code last n (c + 1) hit, text_eq→eq (totp_at key c) code)

  -- A new counter in the range that gives the code is found.
  find_counter_finds :
      (key : List ℕ) (code : Text) (last n c k : ℕ)
      → last < k
      → c ≤ k
      → k < c + n
      → totp_at key k ≡ code
      → (hit : ℕ) × (find_counter x key code last n c ≡ some hit)
  unfolding find_counter
  find_counter_finds key code last zero c k lt lo hi e = absurd (omega arith)
  find_counter_finds key code last (suc n) c k lt lo hi e =
      elim (Bool-cases (ltb last c && text_eq (totp_at key c) code)) [
        | inl here ↦ (c, rw here)
        | inr not_here ↦
            let more : c < k = elim (dec_lt c k) [
              | yes h ↦ h
              | no h ↦
                  let same : c ≡ k = omega arith in
                  let hit : text_eq (totp_at key c) code ≡ true =
                    rw (same, e) (text_eq_refl code) in
                  absurd (ground arith)
            ] in
            let (hit, found) =
              find_counter_finds key code last n (c + 1) k lt (omega arith) (omega arith) e in
            (hit, rw not_here found)
      ]

  totp_by_found :
      (o : Option (List ℕ)) (last counter hit : ℕ) (code : Text)
      → totp_by x o last code counter ≡ some hit
      → (key : List ℕ) × (o ≡ some key)
        × (last < hit)
        × (counter ≤ hit + 1)
        × (hit ≤ counter + 1)
        × (totp_at key hit ≡ code)
  unfolding totp_by
  totp_by_found none last counter hit code h = cc
  totp_by_found (some key) last counter hit code h =
      let f =
        find_counter_found key code last (counter + 1 + 1 - (counter - 1)) (counter - 1) hit
          (elim (Bool-cases (all_digits 6 code)) [
            | inl d ↦ rw d at h
            | inr d ↦ cc (let h' : none ≡ some hit = rw d at h in h')
          ]) in
      (key, refl, f.0, omega arith, omega arith, f.3)

  module _ (v : Verifier) (st : State) (code : Text) (counter now : ℕ) where
    verify_at-ok :
        (st' : State)
        → verify_at x v st code counter now ≡ (ok, st')
        → (totp_hit x v st (clean code) counter ≡ some st'.last_counter)
          × (locked_for st now ≡ none)
          × (st'.used_recovery ≡ st.used_recovery)
    unfolding verify_at settle check_code
    verify_at-ok st' h = ground arith

    -- A code is accepted as the unlock code only outside a lockout, and only if it is what the secret
    -- gives at a counter within one step of now that is higher than every counter accepted before;
    -- that counter is remembered.
    pub verify_at-fresh :
        (st' : State)
        → verify_at x v st code counter now ≡ (ok, st')
        → (locked_for st now ≡ none)
          × (st.last_counter < st'.last_counter)
          × (counter ≤ st'.last_counter + 1)
          × (st'.last_counter ≤ counter + 1)
          × ((key : List ℕ) × (key_of x v ≡ some key) × (totp_at key st'.last_counter ≡ clean code))
    unfolding totp_hit
    verify_at-fresh st' h =
        let (hit, free, same) = verify_at-ok st' h in
        let (key, has_key, new, lo, hi, gives) =
          totp_by_found (key_of x v) st.last_counter counter st'.last_counter (clean code) hit in
        (free, new, lo, hi, (key, has_key, gives))

    key_of-configured : (key : List ℕ) → key_of x v ≡ some key → configured v ≡ true
    unfolding configured
    key_of-configured key h = has v.secret refl
      where
        has : (o : Option Text) → v.secret ≡ o → (is_some v.secret || is_some v.backup_hash) ≡ true
        has none e = cc (let h' : none ≡ some key = rw e at h in h')
        has (some s) e = rw e

    totp_by-digits :
        (key : List ℕ) (last : ℕ) (c : Text)
        → all_digits 6 c ≡ true
        → totp_by x (some key) last c counter
          ≡ find_counter x key c last (counter + 1 + 1 - (counter - 1)) (counter - 1)
    unfolding totp_by
    totp_by-digits key last c d = rw d

    settle-ok :
        (c : Text) (hit : ℕ)
        → totp_hit x v st c counter ≡ some hit
        → settle x now (check_code x v st c counter)
          ≡ (ok, record st { last_counter = hit; failures = 0; locked_until = none })
    unfolding settle check_code
    settle-ok c hit e = rw (check_code, e)

    -- Outside a lockout, six digits that the secret gives at a new counter within one step of now are
    -- accepted, whatever the other codes are, and the failures are forgotten.
    pub verify_at-opens :
        (key : List ℕ) (k : ℕ)
        → key_of x v ≡ some key
        → locked_for st now ≡ none
        → all_digits 6 (clean code) ≡ true
        → st.last_counter < k
        → counter ≤ k + 1
        → k ≤ counter + 1
        → totp_at key k ≡ clean code
        → ((verify_at x v st code counter now).0 ≡ ok)
          × ((verify_at x v st code counter now).1.failures ≡ 0)
          × ((verify_at x v st code counter now).1.locked_until ≡ none)
    verify_at-opens key k has_key free d new lo hi gives =
        let (hit, found) =
          find_counter_finds key (clean code) st.last_counter (counter + 1 + 1 - (counter - 1))
            (counter - 1) k new (omega arith) (omega arith) gives in
        let t : totp_hit x v st (clean code) counter ≡ some hit =
          unfold totp_hit in
          rw (has_key, totp_by-digits key st.last_counter (clean code) d) found in
        rw
          (
            verify_at-free x v st code counter now (key_of-configured key has_key) free,
            settle-ok (clean code) hit t,
          )
          (refl, refl, refl)
