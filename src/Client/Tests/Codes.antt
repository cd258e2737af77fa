-- ===== src/Client/Tests/Codes.antt =====
-- Unlock codes at concrete inputs.
use openscreentime.Common.{
  ℕ, ◌+◌, ◌-◌, ◌*◌, ◌%◌, ◌≤◌, ◌<◌, ◌≡◌, refl, ◌⊎◌, none, some, List, [], ◌∷◌, arith, if◌then◌else◌,
}
use openscreentime.Common.Text.{Text, codes, text_eq}
use openscreentime.Client.ParentCode.{
  second, ok, wrong, locked_out, Tries, wait, left, tries_at, State, Verifier, Crypto, configured,
  base32_decode, key_of, clean, find_counter, totp_by, totp_hit, recovery_hit, recovery_by,
  backup_hit, check_code, lockout_secs, settle, verify_at, locked_for, has_id,
}
use openscreentime.Client.ParentCode.Lockout.{verify_at-left}
use openscreentime.Client.ParentCode.Accepts.{verify_at-fresh, verify_at-opens}
use openscreentime.Client.ParentCode.Replay.{Attempt, run, run-recovery_once, total, is_recovery}
use openscreentime.Client.ParentCode.Single.{Fresh, run-Fresh}
use openscreentime.Client.ParentCode.Waits.{lockout-runs}

-- A code that ends in the last digit of the counter; MACs and hashes are the code itself.
abbrev toy : Crypto
toy = record {
  totp_at = λ key c. b'1' ∷ b'2' ∷ b'3' ∷ b'4' ∷ b'5' ∷ (b'0' + c % 10) ∷ [];
  recovery_matches = λ key code mac. text_eq code mac;
  verify_pin = λ code hash. text_eq code hash;
}

abbrev device : Verifier
device = record {
  secret = some (codes "GEZDGNBVGY3TQOJQ");
  recovery = record { id = codes "r1"; mac = codes "12345678" } ∷ [];
  backup_hash = none;
}

-- The secret of the shared test vectors is "1234567890".
decoded : base32_decode (codes "GEZDGNBVGY3TQOJQ") ≡ some (codes "1234567890")
unfolding base32_decode
decoded = refl

abbrev fresh : State
fresh = record { last_counter = 0; failures = 0; locked_until = none; used_recovery = [] }

abbrev opened : State
opened = record { last_counter = 7; failures = 0; locked_until = none; used_recovery = [] }

opens_run : verify_at toy device fresh (codes " 123 457") 7 0 ≡ (ok, opened)
unfolding verify_at configured base32_decode clean totp_hit totp_by find_counter check_code settle
opens_run = refl

verify_at-fresh_example :
    (locked_for fresh 0 ≡ none)
    × (0 < 7)
    × (7 ≤ 7 + 1)
    × (7 ≤ 7 + 1)
    × ((key : List ℕ) × (key_of toy device ≡ some key)
        × (toy.totp_at key 7 ≡ clean (codes " 123 457")))
verify_at-fresh_example = verify_at-fresh toy device fresh (codes " 123 457") 7 0 opened opens_run

verify_at-opens_example :
    ((verify_at toy device fresh (codes "123458") 7 0).0 ≡ ok)
    × ((verify_at toy device fresh (codes "123458") 7 0).1.failures ≡ 0)
    × ((verify_at toy device fresh (codes "123458") 7 0).1.locked_until ≡ none)
unfolding clean base32_decode
verify_at-opens_example =
    verify_at-opens toy device fresh (codes "123458") 7 0 (codes "1234567890") 8 refl refl refl
      (omega arith) (omega arith) (omega arith) refl

abbrev nearly : State
nearly = record { last_counter = 0; failures = 4; locked_until = none; used_recovery = [] }

abbrev wrong_code : Text
wrong_code = codes "000000"

verify_at-left_example :
    ((verify_at toy device nearly wrong_code 7 0).1.failures ≡ 4 + 1)
    × ((◌≡◌ {A = ℕ} 1 1)
          × ((verify_at toy device nearly wrong_code 7 0).0 ≡ locked_out (lockout_secs toy (4 + 1)))
          × ((verify_at toy device nearly wrong_code 7 0).1.locked_until
              ≡ some (0 + lockout_secs toy (4 + 1) * second))
        ⊎ (1 < 1)
          × ((verify_at toy device nearly wrong_code 7 0).0 ≡ wrong)
          × (tries_at (verify_at toy device nearly wrong_code 7 0).1 0 ≡ left (1 - 1)))
unfolding configured tries_at verify_at base32_decode clean totp_hit totp_by find_counter
    recovery_hit recovery_by backup_hit check_code settle lockout_secs
verify_at-left_example = verify_at-left toy device nearly 0 1 7 wrong_code refl refl refl

abbrev twice : List Attempt
twice =
    record { code = codes "123457"; counter = 7; now = 0 }
    ∷ record { code = codes "123457"; counter = 7; now = 1 }
    ∷ []

run-Fresh_example : Fresh toy device 0 twice (run toy device fresh twice).0
run-Fresh_example = run-Fresh toy device fresh twice

replayed : (run toy device fresh twice).0 ≡ ok ∷ wrong ∷ []
unfolding run verify_at configured base32_decode clean totp_hit totp_by find_counter recovery_hit
    recovery_by backup_hit check_code settle
replayed = refl

run-recovery_once_example :
    total (is_recovery (codes "r1")) (run toy device fresh twice).0
    ≤ (if has_id (codes "r1") [] then 0 else 1)
run-recovery_once_example = run-recovery_once toy device (codes "r1") fresh twice

-- The fifth wrong code locks for a minute.
abbrev locked : State
locked = record {
  last_counter = 0;
  failures = 5;
  locked_until = some (100 * second + 60 * second);
  used_recovery = [];
}

fifth : verify_at toy device nearly wrong_code 3 (100 * second) ≡ (locked_out 60, locked)
unfolding configured verify_at base32_decode clean totp_hit totp_by find_counter recovery_hit
    recovery_by backup_hit check_code settle lockout_secs
fifth = refl

-- A right code, ten seconds before the minute is over.
abbrev early : List Attempt
early = record { code = codes "123457"; counter = 7; now = 150 * second } ∷ []

one_left : tries_at nearly (100 * second) ≡ left 1
unfolding tries_at
one_left = refl

lockout-runs_example :
    (run toy device locked early ≡ (locked_out 10 ∷ [], locked))
    × (◌≡◌ {A = List Tries} (tries_at locked (150 * second) ∷ []) (wait 10 ∷ []))
    × (tries_at locked (160 * second) ≡ left 1)
lockout-runs_example =
    lockout-runs toy device nearly locked wrong_code 3 (100 * second) 1 60 early (160 * second)
      one_left fifth ((omega arith, omega arith), tt) (omega arith)
