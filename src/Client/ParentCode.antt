-- ===== src/Client/ParentCode.antt =====
-- client/src/parentcode.rs: the offline check of unlock, recovery and backup codes. The MACs, the
-- argon2 check and hex decoding belong to other crates: `Crypto` takes them as functions. An instant
-- is in nanoseconds since the epoch; the state is what the file holds, and saving it succeeds. The
-- failures are counted without the bound of their 32 bits.
pub mod Lockout
pub mod Accepts
pub mod Replay
pub mod Single
pub mod Waits
use openscreentime.Common.{
  ℕ, zero, suc, ◌+◌, ◌-◌, ◌*◌, ◌/◌, ◌%◌, ◌^◌, min, max, Bool, true, false, ◌&&◌, ◌||◌, not, Option,
  none, some, List, [], ◌∷◌, ◌++◌, ltb, leb, ◌==◌, if◌then◌else◌, is_some, length, all, any, keep,
  find_first,
}
use openscreentime.Common.Text.{Text, text_eq, trim, is_digit, is_whitespace}

abbrev pub second : ℕ
second = 1000000000

abbrev pub step_secs : ℕ
step_secs = 30

abbrev pub digits : ℕ
digits = 6

abbrev pub recovery_digits : ℕ
recovery_digits = 8

abbrev pub window : ℕ
window = 1

abbrev pub failures_before_lockout : ℕ
failures_before_lockout = 5

abbrev pub lockout_base_secs : ℕ
lockout_base_secs = 60

abbrev pub lockout_max_secs : ℕ
lockout_max_secs = 15 * 60

pub data Verdict : Type 0 where
  ok : Verdict
  recovery : Text → Verdict
  backup : Verdict
  wrong : Verdict
  locked_out : ℕ → Verdict
  not_configured : Verdict

-- `Verdict::accepted`.
abbrev pub accepted : Verdict → Bool
accepted ok = true
accepted (recovery id) = true
accepted backup = true
accepted wrong = false
accepted (locked_out secs) = false
accepted not_configured = false

pub data Tries : Type 0 where
  left : ℕ → Tries
  wait : ℕ → Tries

pub record State : Type 0 where
  pub last_counter : ℕ
  pub failures : ℕ
  pub locked_until : Option ℕ
  pub used_recovery : List Text

pub record RecoveryCode : Type 0 where
  pub id : Text
  pub mac : Text

pub record Verifier : Type 0 where
  pub secret : Option Text
  pub recovery : List RecoveryCode
  pub backup_hash : Option Text

-- `totp_at`, `recovery_matches` and `pin::verify_pin`, on the decoded key.
pub record Crypto : Type 0 where
  pub totp_at : List ℕ → ℕ → Text
  pub recovery_matches : List ℕ → Text → Text → Bool
  pub verify_pin : Text → Text → Bool

-- One character of a base32 text: skipped, a digit of five bits, or neither.
pub data Symbol : Type 0 where
  skip : Symbol
  digit : ℕ → Symbol
  invalid : Symbol

abbrev upper : ℕ → ℕ
upper c = if leb b'a' c && leb c b'z' then c - 32 else c

unfoldable pub symbol_of : ℕ → Symbol
unfolding is_whitespace
symbol_of c =
    let u = upper c in
    if (u == b'=') || is_whitespace u || (u == b'-')
    then skip
    else if leb b'A' u && leb u b'Z'
    then digit (u - b'A')
    else if leb b'2' u && leb u b'7'
    then digit (u - b'2' + 26)
    else invalid

-- The loop of `base32_decode`: `buf` keeps the bits seen, as the 64-bit shift does.
unfoldable pub decode_from : ℕ → ℕ → Text → Option (List ℕ)
decode_from buf bits [] = some []
decode_from buf bits (c ∷ s) = elim (symbol_of c) [
  | invalid ↦ none
  | skip ↦ decode_from buf bits s
  | digit v ↦
      let buf' = (buf * 32 + v) % 2 ^ 64 in
      elim (leb 8 (bits + 5)) [
        | true ↦ elim (decode_from buf' (bits - 3) s) [
          | none ↦ none
          | some out ↦ some ((buf' / 2 ^ (bits - 3)) % 256 ∷ out)
        ]
        | false ↦ decode_from buf' (bits + 5) s
      ]
]

-- `base32_decode`.
unfoldable pub base32_decode : Text → Option (List ℕ)
unfolding decode_from symbol_of
base32_decode s = decode_from 0 0 s

-- `Verifier::new` and `with_recovery`: blank settings count as none.
abbrev not_blank : Text → Bool
not_blank s = ltb 0 (length (trim s))

unfoldable pub new_verifier : Option Text → Option Text → List RecoveryCode → Verifier
new_verifier secret backup_hash codes = record {
  secret = elim secret [ none ↦ none | some s ↦ if not_blank s then some s else none ];
  recovery = keep (λ c. not_blank c.id && not_blank c.mac) codes;
  backup_hash = elim backup_hash [ none ↦ none | some s ↦ if not_blank s then some s else none ];
}

unfoldable pub configured : Verifier → Bool
configured v = is_some v.secret || is_some v.backup_hash

abbrev pub has_id : Text → List Text → Bool
has_id id ids = any (λ x. text_eq x id) ids

unfoldable pub recovery_codes_left : Verifier → State → ℕ
recovery_codes_left v st = length (keep (λ c. not (has_id c.id st.used_recovery)) v.recovery)

-- What is left of a lockout, in seconds; none if it is over.
abbrev pub locked_for : State → ℕ → Option ℕ
locked_for st now = elim st.locked_until [
  | none ↦ none
  | some until ↦ if ltb now until then some (max ((until - now) / second) 1) else none
]

-- `tries_at`.
unfoldable pub tries_at : State → ℕ → Tries
tries_at st now =
    let tries = left (max (failures_before_lockout - st.failures) 1) in
    elim st.locked_until [
      | none ↦ tries
      | some until ↦ if ltb now until then wait (max ((until - now) / second) 1) else tries
    ]

-- The typed code: trimmed, with its spaces taken out.
unfoldable pub clean : Text → Text
unfolding trim
clean code = keep (λ c. not (c == 32)) (trim code)

abbrev pub all_digits : ℕ → Text → Bool
all_digits n code = (length code == n) && all is_digit code

module _ (x : Crypto) where
  open x use {totp_at, recovery_matches, verify_pin}

  -- The loop over the counters `lo..=counter + window`: `n` are left, from c.
  unfoldable pub find_counter : List ℕ → Text → ℕ → ℕ → ℕ → Option ℕ
  find_counter key code last zero c = none
  find_counter key code last (suc n) c =
      let rest = find_counter key code last n (c + 1) in
      if ltb last c && text_eq (totp_at key c) code then some c else rest

  -- The key that the secret decodes to.
  abbrev pub key_of : Verifier → Option (List ℕ)
  key_of v = elim v.secret [ none ↦ none | some s ↦ base32_decode s ]

  unfoldable pub totp_by : Option (List ℕ) → ℕ → Text → ℕ → Option ℕ
  totp_by none last code counter = none
  totp_by (some key) last code counter =
      if all_digits digits code
      then find_counter key code last (counter + window + 1 - (counter - window)) (counter - window)
      else none

  unfoldable pub totp_hit : Verifier → State → Text → ℕ → Option ℕ
  totp_hit v st code counter = totp_by (key_of v) st.last_counter code counter

  -- The recovery codes that this computer has not spent.
  abbrev pub unspent : Verifier → State → List RecoveryCode
  unspent v st = keep (λ c. not (has_id c.id st.used_recovery)) v.recovery

  unfoldable pub recovery_by : Option (List ℕ) → List RecoveryCode → Text → Option RecoveryCode
  recovery_by none codes code = none
  recovery_by (some key) codes code =
      if all_digits recovery_digits code
      then find_first (λ c. recovery_matches key code c.mac) codes
      else none

  unfoldable pub recovery_hit : Verifier → State → Text → Option RecoveryCode
  recovery_hit v st code = recovery_by (key_of v) (unspent v st) code

  unfoldable pub backup_hit : Verifier → Text → Bool
  backup_hit v code = elim v.backup_hash [ none ↦ false | some hash ↦ verify_pin code hash ]

  -- The three checks in their order, each made only if those before it failed.
  unfoldable pub check_code : Verifier → State → Text → ℕ → Verdict × State
  check_code v st code counter = elim (totp_hit v st code counter) [
    | some c ↦ (ok, record st { last_counter = c })
    | none ↦ elim (recovery_hit v st code) [
      | some hit ↦ (recovery hit.id, record st { used_recovery = st.used_recovery ++ hit.id ∷ [] })
      | none ↦ (if backup_hit v code then backup else wrong, st)
    ]
  ]

  -- How long a lockout lasts after this many failures.
  unfoldable pub lockout_secs : ℕ → ℕ
  lockout_secs failures =
      min (lockout_base_secs * 2 ^ min (failures - failures_before_lockout) 10) lockout_max_secs

  -- The failure and lockout count after a verdict.
  unfoldable pub settle : ℕ → Verdict × State → Verdict × State
  settle now (verdict, st) =
      if accepted verdict
      then (verdict, record st { failures = 0; locked_until = none })
      else if leb failures_before_lockout (st.failures + 1)
      then (
        locked_out (lockout_secs (st.failures + 1)),
        record st {
          failures = st.failures + 1;
          locked_until = some (now + lockout_secs (st.failures + 1) * second);
        },
      )
      else (verdict, record st { failures = st.failures + 1 })

  -- `verify_at`: the verdict, and the state that is saved.
  unfoldable pub verify_at : Verifier → State → Text → ℕ → ℕ → Verdict × State
  verify_at v st code counter now =
      let checked = settle now (check_code v st (clean code) counter) in
      if not (configured v) then (not_configured, st) else elim st.locked_until [
        | none ↦ checked
        | some until ↦
            if ltb now until then (locked_out (max ((until - now) / second) 1), st) else checked
      ]
