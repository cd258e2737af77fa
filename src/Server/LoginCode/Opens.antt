-- ===== src/Server/LoginCode/Opens.antt =====
-- How often a code opens, however the calls of `check` interleave.
use openscreentime.Common.{
  ℕ, ◌+◌, ◌≤◌, ◌≡◌, refl, ap, inl, inr, min, Bool, true, false, ◌&&◌, ◌||◌, not, Option, none, some,
  List, [], ◌∷◌, arith, ltb, leb, ◌==◌, if◌then◌else◌, keep, length, find_first, Bool-cases, All,
}
use openscreentime.Server.LoginCode.{
  CodeRow, Store, First, refused, found, Answer, granted, refusal, is_open, change_rows, use_up,
  count_try, max_attempts, note_wrong_code, note_for, redeem, reject, settle, out_of_tries,
  attempts_of,
}

-- The second half of a call, with what its first half read.
pub record Half : Type 0 where
  pub id : ℕ
  pub read : First
  pub at : ℕ

unfoldable pub settle_all : List Half → Store → Store
settle_all [] st = st
settle_all (h ∷ hs) st = settle_all hs (settle h.id h.read h.at st).0

abbrev is_granted : Answer → Bool
is_granted (granted tenant account) = true
is_granted (refusal why) = false

-- How many of the calls for a request are granted.
unfoldable pub grants : ℕ → List Half → Store → ℕ
grants i [] st = 0
grants i (h ∷ hs) st =
    let p = settle h.id h.read h.at st in
    (if (h.id == i) && is_granted p.1 then 1 else 0) + grants i hs p.0

-- A call that counts as a wrong try.
abbrev is_wrong : First → Bool
is_wrong refused = false
is_wrong (found true (some tenant) (some account)) = false
is_wrong (found true (some tenant) none) = true
is_wrong (found true none account) = true
is_wrong (found false tenant account) = true

abbrev pub wrongs : ℕ → List Half → ℕ
wrongs i [] = 0
wrongs i (h ∷ hs) = (if (h.id == i) && is_wrong h.read then 1 else 0) + wrongs i hs

abbrev openable : ℕ → List CodeRow → ℕ
openable i rows = length (keep (is_open i) rows)

-- Every row of the request has counted so many tries.
abbrev counted : ℕ → ℕ → CodeRow → Bool
counted i k r = not (r.id == i) || leb k r.attempts

abbrev Counted : ℕ → ℕ → List CodeRow → Type 0
Counted i k rows = All (λ r. counted i k r ≡ true) rows

Counted_less : (i k k' : ℕ) (rows : List CodeRow) → k ≤ k' → Counted i k' rows → Counted i k rows
Counted_less i k k' [] le c = tt
Counted_less i k k' (r ∷ rows) le c = (ground (arith, c.0), Counted_less i k k' rows le c.1)

openable-Counted : (i : ℕ) (rows : List CodeRow) → Counted i max_attempts rows → openable i rows ≡ 0
openable-Counted i [] c = refl
openable-Counted i (r ∷ rows) c =
    let shut : is_open i r ≡ false = ground (arith, c.0) in rw shut (openable-Counted i rows c.1)

-- A change that opens nothing, and takes no try back.
abbrev Closing : (CodeRow → Bool) → (CodeRow → CodeRow) → Type 0
Closing test change =
    (i k : ℕ) (r : CodeRow)
    → (is_open i r ≡ false → is_open i (if test r then change r else r) ≡ false)
      × (counted i k r ≡ true → counted i k (if test r then change r else r) ≡ true)

openable-change :
    (test : CodeRow → Bool) (change : CodeRow → CodeRow) (i : ℕ) (rows : List CodeRow)
    → Closing test change
    → openable i (change_rows test change rows) ≤ openable i rows
openable-change test change i [] c = omega arith
openable-change test change i (r ∷ rows) c =
    let rest = openable-change test change i rows c in
    elim (Bool-cases (is_open i r)) [
      | inl e ↦ rw e (ground (arith, rest))
      | inr e ↦ rw (e, (c i 0 r).0 e) rest
    ]

Counted-change :
    (test : CodeRow → Bool) (change : CodeRow → CodeRow) (i k : ℕ) (rows : List CodeRow)
    → Closing test change
    → Counted i k rows
    → Counted i k (change_rows test change rows)
Counted-change test change i k [] c h = tt
Counted-change test change i k (r ∷ rows) c h =
    ((c i k r).1 h.0, Counted-change test change i k rows c h.1)

use_up-Closing : (id now : ℕ) → Closing (is_open id) (use_up now)
use_up-Closing id now i k r = (λ e. ground arith, λ e. ground arith)

count_try-Closing : (id : ℕ) → Closing (λ r. r.id == id) count_try
count_try-Closing id i k r = (λ e. ground arith, λ e. ground arith)

used_up :
    (i id now : ℕ) (rows : List CodeRow)
    → id == i ≡ true
    → openable i (change_rows (is_open id) (use_up now) rows) ≡ 0
used_up i id now [] e = refl
used_up i id now (r ∷ rows) e =
    let shut : is_open i (if is_open id r then use_up now r else r) ≡ false = ground arith in
    rw shut (used_up i id now rows e)

openable-same :
    (i id : ℕ) (rows : List CodeRow) → id == i ≡ true → openable i rows ≡ openable id rows
openable-same i id rows e = let same : i ≡ id = ground arith in ap (λ n. openable n rows) same

tried :
    (i k id : ℕ) (rows : List CodeRow)
    → Counted i k rows
    → Counted i
        (k + (if (id == i) && true then 1 else 0))
        (change_rows (λ r. r.id == id) count_try rows)
tried i k id [] c = tt
tried i k id (r ∷ rows) c = (ground (arith, c.0), tried i k id rows c.1)

pub note_for_rows :
    (tenant account : Option ℕ) (now : ℕ) (st : Store)
    → (note_for tenant account now st).rows ≡ st.rows
unfolding note_wrong_code
note_for_rows none account now st = refl
note_for_rows (some tenant) none now st = refl
note_for_rows (some tenant) (some account) now st = ground arith

-- What a second half does to the rows of a request.
record Does (i k : ℕ) (h : Half) (st : Store) : Type 0 where
  shuts :
      (if (h.id == i) && is_granted (settle h.id h.read h.at st).1 then 1 else 0)
        + min 1 (openable i (settle h.id h.read h.at st).0.rows)
      ≤ min 1 (openable i st.rows)
  counts :
      Counted i k st.rows
      → Counted i
          (k + (if (h.id == i) && is_wrong h.read then 1 else 0))
          (settle h.id h.read h.at st).0.rows

pub reject_rows :
    (id : ℕ) (tenant account : Option ℕ) (now : ℕ) (st : Store)
    → ((reject id tenant account now st).0.rows ≡ change_rows (λ r. r.id == id) count_try st.rows)
      × (is_granted (reject id tenant account now st).1 ≡ false)
unfolding reject
reject_rows id tenant account now st =
    let rows = change_rows (λ r. r.id == id) count_try st.rows in
    let noted = note_for_rows tenant account now (record st { rows = rows }) in
    elim (Bool-cases (out_of_tries (attempts_of (find_first (λ r. r.id == id) rows)))) [
      | inl e ↦ rw e (noted, refl)
      | inr e ↦ rw e (noted, refl)
    ]

still :
    (i k id now : ℕ) (rows : List CodeRow)
    → Counted i k rows
    → Counted i
        (k + (if (id == i) && false then 1 else 0))
        (change_rows (is_open id) (use_up now) rows)
still i k id now [] c = tt
still i k id now (r ∷ rows) c = (ground (arith, c.0), still i k id now rows c.1)

reject-Does :
    (i k id : ℕ) (read : First) (now : ℕ) (tenant account : Option ℕ) (st : Store)
    → settle id read now st ≡ reject id tenant account now st
    → is_wrong read ≡ true
    → Does i k (record { id = id; read = read; at = now }) st
reject-Does i k id read now tenant account st e wrong =
    let (rows, denied) = reject_rows id tenant account now st in
    record {
      shuts =
          rw (e, denied, rows)
            (ground (
              arith,
              openable-change (λ r. r.id == id) count_try i st.rows (count_try-Closing id),
            ));
      counts = λ c. rw (e, rows, wrong) (tried i k id st.rows c);
    }

redeem-Does :
    (i k id now tenant account : ℕ) (st : Store)
    → Does i k (record { id = id; read = found true (some tenant) (some account); at = now }) st
unfolding settle redeem
redeem-Does i k id now tenant account st =
    let less = openable-change (is_open id) (use_up now) i st.rows (use_up-Closing id now) in
    let gone = used_up i id now st.rows in
    let same = openable-same i id st.rows in
    elim (Bool-cases (length (keep (is_open id) st.rows) == 1)) [
      | inl e ↦ record {
        shuts = rw e (elim (Bool-cases (id == i)) [
          | inl s ↦ rw (s, gone s, same s) (ground (arith, e))
          | inr s ↦ rw s (ground (arith, less))
        ]);
        counts = λ c. rw e (still i k id now st.rows c);
      }
      | inr e ↦ record {
        shuts = rw e (ground (arith, less));
        counts = λ c. rw e (still i k id now st.rows c);
      }
    ]

refused-Does :
    (i k id now : ℕ) (st : Store) → Does i k (record { id = id; read = refused; at = now }) st
unfolding settle
refused-Does i k id now st = record {
  shuts = ground arith;
  counts =
      λ c. Counted_less i (k + (if (id == i) && false then 1 else 0)) k st.rows (ground arith) c;
}

settle_read :
    (i k id now : ℕ) (read : First) (st : Store)
    → Does i k (record { id = id; read = read; at = now }) st
unfolding settle
settle_read i k id now refused st = refused-Does i k id now st
settle_read i k id now (found true (some t) (some a)) st = redeem-Does i k id now t a st
settle_read i k id now (found true (some t) none) st =
    reject-Does i k id (found true (some t) none) now (some t) none st refl refl
settle_read i k id now (found true none a) st =
    reject-Does i k id (found true none a) now none a st refl refl
settle_read i k id now (found false t a) st =
    reject-Does i k id (found false t a) now t a st refl refl

settle-Does : (i k : ℕ) (h : Half) (st : Store) → Does i k h st
settle-Does i k h st = settle_read i k h.id h.at h.read st

grants-openable :
    (i : ℕ) (hs : List Half) (st : Store) → grants i hs st ≤ min 1 (openable i st.rows)
unfolding grants
grants-openable i [] st = ground arith
grants-openable i (h ∷ hs) st =
    let rest = grants-openable i hs (settle h.id h.read h.at st).0 in
    let here = (settle-Does i 0 h st).shuts in omega (arith, rest, here)

settle_all-Counted :
    (i k : ℕ) (hs : List Half) (st : Store)
    → Counted i k st.rows
    → Counted i (k + wrongs i hs) (settle_all hs st).rows
unfolding settle_all
settle_all-Counted i k [] st c = Counted_less i (k + 0) k st.rows (ground arith) c
settle_all-Counted i k (h ∷ hs) st c =
    let w = if (h.id == i) && is_wrong h.read then 1 else 0 in
    let next = (settle h.id h.read h.at st).0 in
    let rest = settle_all-Counted i (k + w) hs next ((settle-Does i k h st).counts c) in
    Counted_less i (k + (w + wrongs i hs)) (k + w + wrongs i hs) (settle_all hs next).rows
      (omega arith) rest

uncounted : (i : ℕ) (rows : List CodeRow) → Counted i 0 rows
uncounted i [] = tt
uncounted i (r ∷ rows) = (ground arith, uncounted i rows)

-- However the calls of `check` interleave, and whatever the first half of each read before its second
-- half wrote, a request is granted at most once, and after five calls that found a wrong code, or
-- nobody's row, for it, not at all.
pub grants-settle_all :
    (i : ℕ) (before after : List Half) (st : Store)
    → grants i after (settle_all before st) ≤ (if ltb (wrongs i before) max_attempts then 1 else 0)
grants-settle_all i before after st =
    let few = grants-openable i after (settle_all before st) in
    elim (Bool-cases (ltb (wrongs i before) max_attempts)) [
      | inl e ↦ rw e (ground (arith, few))
      | inr e ↦
          let all = settle_all-Counted i 0 before st (uncounted i st.rows) in
          let enough =
            Counted_less i max_attempts (0 + wrongs i before) (settle_all before st).rows
              (ground (arith, e)) all in
          let shut = openable-Counted i (settle_all before st).rows enough in rw e (rw shut at few)
    ]
