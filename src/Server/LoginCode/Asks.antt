-- ===== src/Server/LoginCode/Asks.antt =====
-- How many codes a person's computers are asked to show.
use openscreentime.Common.{
  ℕ, suc, ◌<◌, ◌*◌, ◌∙◌, ◌+◌, ◌≤◌, ◌≡◌, refl, ap, ◌⊎◌, inl, inr, max, Bool, true, false, ◌&&◌, not,
  Option, none, some, List, [], ◌∷◌, ◌++◌, arith, ltb, leb, ◌==◌, if◌then◌else◌, keep, length,
  Bool-cases, All,
}
use openscreentime.Common.Text.{Text}
use openscreentime.Server.LoginCode.{
  CodeRow, Store, Purpose, Recipient, account_of, is_recent, is_account, recent_of, held_of,
  unless_held, long_gone, row_for, change_rows, is_open, use_up, count_try, max_recent_per_account,
  code_minutes, wrong_per_hour, wrong_of, issue, settle, redeem, First, refused, found,
}
use openscreentime.Server.LoginCode.Opens.{Half, reject_rows}

-- A request for a code, and the second half of a call that checks one.
pub data Event : Type 0 where
  asked : ℕ → Text → Purpose → Option Recipient → ℕ → Event
  typed : Half → Event

abbrev moment : Event → ℕ
moment (asked id code purpose to now) = now
moment (typed h) = h.at

abbrev pub UpTo : ℕ → List Event → Type 0
UpTo now es = All (λ e. moment e ≤ now) es

-- Every row runs out when the code of its moment does.
abbrev pub Dated : List CodeRow → Type 0
Dated rows = All (λ r. r.expires_at ≡ r.created_at + code_minutes * 60) rows

abbrev is_for : ℕ → Option Recipient → Bool
is_for who to = is_account (account_of to) who

module _ (code_hash : ℕ → Text → Text) where
  unfoldable pub after : Event → Store → Store
  after (asked id code purpose to now) st = (issue code_hash id code purpose to now st).0
  after (typed h) st = (settle h.id h.read h.at st).0

  -- Whether an event shows a person a code less than ten minutes before a moment.
  unfoldable pub shows : ℕ → ℕ → Event → Store → Bool
  shows who now (asked id code purpose to at) st =
      is_for who (unless_held (issue code_hash id code purpose to at st).1 to) && ltb now (at + 600)
  shows who now (typed h) st = false

  unfoldable pub shown : ℕ → ℕ → List Event → Store → ℕ
  shown who now [] st = 0
  shown who now (e ∷ es) st = (if shows who now e st then 1 else 0) + shown who now es (after e st)

-- Changes that touch neither whose a row is nor its moments.
abbrev Keeping : (CodeRow → Bool) → (CodeRow → CodeRow) → Type 0
Keeping test change =
    (r : CodeRow)
    → ((if test r then change r else r).account ≡ r.account)
      × ((if test r then change r else r).created_at ≡ r.created_at)
      × ((if test r then change r else r).expires_at ≡ r.expires_at)

change_rows-recent_of :
    (test : CodeRow → Bool) (change : CodeRow → CodeRow) (who now : ℕ) (rows : List CodeRow)
    → Keeping test change
    → recent_of who now (change_rows test change rows) ≡ recent_of who now rows
unfolding recent_of
change_rows-recent_of test change who now [] k = refl
change_rows-recent_of test change who now (r ∷ rows) k =
    let (a, c, x) = k r in
    let rest = change_rows-recent_of test change who now rows k in
    rw (a, c)
      (elim (Bool-cases (is_recent who now r)) [ inl e ↦ rw e (ap suc rest) | inr e ↦ rw e rest ])

change_rows-Dated :
    (test : CodeRow → Bool) (change : CodeRow → CodeRow) (rows : List CodeRow)
    → Keeping test change
    → Dated rows
    → Dated (change_rows test change rows)
change_rows-Dated test change [] k d = tt
change_rows-Dated test change (r ∷ rows) k d =
    let (a, c, x) = k r in (rw (c, x) d.0, change_rows-Dated test change rows k d.1)

use_up-Keeping : (id now : ℕ) → Keeping (is_open id) (use_up now)
use_up-Keeping id now r = ground arith

count_try-Keeping : (id : ℕ) → Keeping (λ r. r.id == id) count_try
count_try-Keeping id r = ground arith

recent_of-later :
    (who at now : ℕ) (rows : List CodeRow)
    → at ≤ now
    → recent_of who now rows ≤ recent_of who at rows
unfolding recent_of
recent_of-later who at now [] le = ground arith
recent_of-later who at now (r ∷ rows) le =
    let rest = recent_of-later who at now rows le in
    elim (Bool-cases (is_recent who now r)) [
      | inl e ↦
          let before : is_recent who at r ≡ true = ground (arith, e, le) in
          rw (e, before) (ground (arith, rest))
      | inr e ↦ rw e (elim (Bool-cases (is_recent who at r)) [
        | inl f ↦ rw f (ground (arith, rest))
        | inr f ↦ rw f rest
      ])
    ]

recent_of-swept :
    (who at now : ℕ) (rows : List CodeRow)
    → at ≤ now
    → Dated rows
    → recent_of who now (keep (λ r. not (long_gone at r)) rows) ≡ recent_of who now rows
unfolding recent_of
recent_of-swept who at now [] le d = refl
recent_of-swept who at now (r ∷ rows) le d =
    let rest = recent_of-swept who at now rows le d.1 in
    elim (Bool-cases (long_gone at r)) [
      | inl e ↦
          let old : is_recent who now r ≡ false = ground (arith, e, le, d.0) in rw (e, old) rest
      | inr e ↦ rw e (elim (Bool-cases (is_recent who now r)) [
        | inl f ↦ rw f (ap suc rest)
        | inr f ↦ rw f rest
      ])
    ]

swept-Dated : (test : CodeRow → Bool) (rows : List CodeRow) → Dated rows → Dated (keep test rows)
swept-Dated test [] d = d
swept-Dated test (r ∷ rows) d =
    let rest = swept-Dated test rows d.1 in
    elim (Bool-cases (test r)) [ inl e ↦ rw e (d.0, rest) | inr e ↦ rw e rest ]

recent_of-added :
    (who now : ℕ) (rows : List CodeRow) (row : CodeRow)
    → recent_of who now (rows ++ row ∷ [])
      ≡ recent_of who now rows + (if is_recent who now row then 1 else 0)
unfolding recent_of
recent_of-added who now [] row = elim (Bool-cases (is_recent who now row)) [
  | inl e ↦ rw e refl
  | inr e ↦ rw e refl
]
recent_of-added who now (r ∷ rows) row =
    let rest = recent_of-added who now rows row in
    elim (Bool-cases (is_recent who now r)) [
      | inl e ↦ rw e (ground (arith, rest))
      | inr e ↦ rw e rest
    ]

added-Dated :
    (rows : List CodeRow) (row : CodeRow) → Dated rows → Dated (row ∷ []) → Dated (rows ++ row ∷ [])
added-Dated [] row d e = e
added-Dated (r ∷ rows) row d e = (d.0, added-Dated rows row d.1 e)

-- A code that is not held back is one of five.
held_of-room :
    (who now : ℕ) (rows : List CodeRow) (to : Option Recipient)
    → is_for who (unless_held (held_of now rows to) to) ≡ true
    → recent_of who now rows < max_recent_per_account
unfolding held_of
held_of-room who now rows none e = ground arith
held_of-room who now rows (some to) e =
    elim (Bool-cases (leb wrong_per_hour (wrong_of to.account_id now rows))) [
      | inl w ↦ ground (arith, rw w at e)
      | inr w ↦ elim (Bool-cases (leb max_recent_per_account (recent_of to.account_id now rows))) [
        | inl f ↦ ground (arith, rw (w, f) at e)
        | inr f ↦
            let mine : to.account_id ≡ who = ground (arith, rw (w, f) at e) in
            let few : recent_of to.account_id now rows < max_recent_per_account =
              ground (arith, f) in
            rw mine at few
      ]
    ]

-- A second half writes nothing, or uses up the open rows, or counts a try on the rows of its request.
abbrev Written : ℕ → ℕ → List CodeRow → List CodeRow → Type 0
Written id at rows after =
    (after ≡ rows)
    ⊎ (after ≡ change_rows (is_open id) (use_up at) rows)
    ⊎ (after ≡ change_rows (λ r. r.id == id) count_try rows)

redeem-Written :
    (id tenant account at : ℕ) (st : Store)
    → Written id at st.rows (redeem id tenant account at st).0.rows
unfolding redeem
redeem-Written id tenant account at st =
    elim (Bool-cases (length (keep (is_open id) st.rows) == 1)) [
      | inl e ↦ rw e (inr (inl refl))
      | inr e ↦ rw e (inr (inl refl))
    ]

settle-Written :
    (id : ℕ) (read : First) (at : ℕ) (st : Store)
    → Written id at st.rows (settle id read at st).0.rows
unfolding settle
settle-Written id refused at st = inl refl
settle-Written id (found true (some t) (some a)) at st = redeem-Written id t a at st
settle-Written id (found true (some t) none) at st =
    inr (inr (reject_rows id (some t) none at st).0)
settle-Written id (found true none a) at st = inr (inr (reject_rows id none a at st).0)
settle-Written id (found false t a) at st = inr (inr (reject_rows id t a at st).0)

Written-recent_of :
    (who now id at : ℕ) (rows after : List CodeRow)
    → Written id at rows after
    → recent_of who now after ≡ recent_of who now rows
Written-recent_of who now id at rows after (inl e) = ap (recent_of who now) e
Written-recent_of who now id at rows after (inr (inl e)) =
    rw e (change_rows-recent_of (is_open id) (use_up at) who now rows (use_up-Keeping id at))
Written-recent_of who now id at rows after (inr (inr e)) =
    rw e (change_rows-recent_of (λ r. r.id == id) count_try who now rows (count_try-Keeping id))

Written-Dated :
    (id at : ℕ) (rows after : List CodeRow) → Written id at rows after → Dated rows → Dated after
Written-Dated id at rows after (inl e) d = rw e d
Written-Dated id at rows after (inr (inl e)) d =
    rw e (change_rows-Dated (is_open id) (use_up at) rows (use_up-Keeping id at) d)
Written-Dated id at rows after (inr (inr e)) d =
    rw e (change_rows-Dated (λ r. r.id == id) count_try rows (count_try-Keeping id) d)

-- What an event does to the count of a person.
record Does (code_hash : ℕ → Text → Text) (who now : ℕ) (e : Event) (st : Store) : Type 0 where
  dated : Dated (after code_hash e st).rows
  count :
      recent_of who now (after code_hash e st).rows
      ≡ recent_of who now st.rows + (if shows code_hash who now e st then 1 else 0)
  room : shows code_hash who now e st ≡ true → recent_of who now st.rows < max_recent_per_account

issue-Does :
    (code_hash : ℕ → Text → Text) (who now id : ℕ) (code : Text) (purpose : Purpose)
    (to : Option Recipient) (at : ℕ) (st : Store)
    → at ≤ now
    → Dated st.rows
    → Does code_hash who now (asked id code purpose to at) st
unfolding after shows issue
issue-Does code_hash who now id code purpose to at st le d =
    let row = row_for (code_hash id code) id purpose (unless_held (held_of at st.rows to) to) at in
    let all = added-Dated st.rows row d (refl, tt) in
    record {
      dated = swept-Dated (λ r. not (long_gone at r)) (st.rows ++ row ∷ []) all;
      count =
          recent_of-swept who at now (st.rows ++ row ∷ []) le all
          ∙ recent_of-added who now st.rows row;
      room = λ e.
          let here = held_of-room who at st.rows to (ground (arith, e)) in
          let later = recent_of-later who at now st.rows le in omega (arith, here, later);
    }

typed-Does :
    (code_hash : ℕ → Text → Text) (who now : ℕ) (h : Half) (st : Store)
    → Dated st.rows
    → Does code_hash who now (typed h) st
unfolding after shows
typed-Does code_hash who now h st d =
    let written = settle-Written h.id h.read h.at st in
    record {
      dated = Written-Dated h.id h.at st.rows (settle h.id h.read h.at st).0.rows written d;
      count = ground (
        arith,
        Written-recent_of who now h.id h.at st.rows (settle h.id h.read h.at st).0.rows written,
      );
      room = λ e. ground (arith, e);
    }

event-Does :
    (code_hash : ℕ → Text → Text) (who now : ℕ) (e : Event) (st : Store)
    → moment e ≤ now
    → Dated st.rows
    → Does code_hash who now e st
event-Does code_hash who now (asked id code purpose to at) st le d =
    issue-Does code_hash who now id code purpose to at st le d
event-Does code_hash who now (typed h) st le d = typed-Does code_hash who now h st d

shown-recent_of :
    (code_hash : ℕ → Text → Text) (who now : ℕ) (es : List Event) (st : Store)
    → UpTo now es
    → Dated st.rows
    → recent_of who now st.rows + shown code_hash who now es st ≤ max 5 (recent_of who now st.rows)
unfolding shown
shown-recent_of code_hash who now [] st le d = omega arith
shown-recent_of code_hash who now (e ∷ es) st le d =
    let does = event-Does code_hash who now e st le.0 d in
    let rest = shown-recent_of code_hash who now es (after code_hash e st) le.1 does.dated in
    elim (Bool-cases (shows code_hash who now e st)) [
      | inl s ↦ rw s (omega (arith, does.room s, rw s at does.count, rest))
      | inr s ↦ rw s (omega (arith, rw s at does.count, rest))
    ]

-- When every row of the table runs out five minutes after its moment, and no event comes after a
-- moment, then however requests for codes and calls of `check` follow each other, at most five codes
-- were sent for a person in the ten minutes before it.
pub shown-max_recent_per_account :
    (code_hash : ℕ → Text → Text) (who now : ℕ) (es : List Event) (st : Store)
    → UpTo now es
    → Dated st.rows
    → shown code_hash who now es st ≤ max_recent_per_account
shown-max_recent_per_account code_hash who now es st le d =
    let all = shown-recent_of code_hash who now es st le d in omega (arith, all)
