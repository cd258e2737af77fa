-- ===== src/Server/LoginCode/Decoys.antt =====
-- A decoy answers as a person's request does.
use openscreentime.Common.{
  ℕ, ◌≡◌, refl, ap, ◌⊎◌, inl, inr, Bool, true, false, ◌||◌, not, Option, none, List, [], ◌∷◌, arith,
  ltb, ◌==◌, if◌then◌else◌, find_first, Bool-cases, All, All-imply,
}
use openscreentime.Common.Text.{Text}
use openscreentime.Server.LoginCode.{
  CodeRow, Store, First, refused, found, Answer, refusal, start_again, wrong_code, is_open,
  change_rows, count_try, matches, look, first_of, settle, reject, check, out_of_tries, attempts_of,
}
use openscreentime.Server.LoginCode.Opens.{reject_rows}

-- A row that is nobody's, and a table whose rows of one request are nobody's.
abbrev erase : CodeRow → CodeRow
erase r = record r { tenant = none; account = none }

abbrev pub erased : ℕ → List CodeRow → List CodeRow
erased id [] = []
erased id (r ∷ rows) = (if r.id == id then erase r else r) ∷ erased id rows

module _ (code_hash : ℕ → Text → Text) (binding_ok : Option Text → Option ℕ → Bool) where
  -- The answers to what is typed for a request, moment by moment.
  unfoldable pub answers : ℕ → List (Text × ℕ) → Store → List Answer
  answers id [] st = []
  answers id ((code, now) ∷ typed) st =
      let p = check code_hash binding_ok id code now st in p.1 ∷ answers id typed p.0

  -- What is typed is not the code of a row of the request.
  abbrev misses : ℕ → Text → CodeRow → Bool
  misses id code r = not (r.id == id) || not (matches code_hash binding_ok code r)

  abbrev Misses : ℕ → Text → List CodeRow → Type 0
  Misses id code rows = All (λ r. misses id code r ≡ true) rows

  abbrev pub Guessed : ℕ → List (Text × ℕ) → List CodeRow → Type 0
  Guessed id typed rows = All (λ t. Misses id t.0 rows) typed

  Misses-change :
      (id : ℕ) (code : Text) (rows : List CodeRow)
      → Misses id code rows
      → Misses id code (change_rows (λ r. r.id == id) count_try rows)
  unfolding matches
  Misses-change id code [] m = tt
  Misses-change id code (r ∷ rows) m = (ground (arith, m.0), Misses-change id code rows m.1)

  Misses-erased :
      (id : ℕ) (code : Text) (rows : List CodeRow)
      → Misses id code rows
      → Misses id code (erased id rows)
  unfolding matches
  Misses-erased id code [] m = tt
  Misses-erased id code (r ∷ rows) m = (ground (arith, m.0), Misses-erased id code rows m.1)

erased-change :
    (id : ℕ) (rows : List CodeRow)
    → change_rows (λ r. r.id == id) count_try (erased id rows)
      ≡ erased id (change_rows (λ r. r.id == id) count_try rows)
erased-change id [] = refl
erased-change id (r ∷ rows) = elim (Bool-cases (r.id == id)) [
  | inl e ↦ rw (e, e) (ap (◌∷◌ (count_try (erase r))) (erased-change id rows))
  | inr e ↦ rw (e, e) (ap (◌∷◌ r) (erased-change id rows))
]

erased-attempts_of :
    (id : ℕ) (rows : List CodeRow)
    → attempts_of (find_first (λ r. r.id == id) (erased id rows))
      ≡ attempts_of (find_first (λ r. r.id == id) rows)
erased-attempts_of id [] = refl
erased-attempts_of id (r ∷ rows) = elim (Bool-cases (r.id == id)) [
  | inl e ↦ rw (e, e) refl
  | inr e ↦ rw (e, e) (erased-attempts_of id rows)
]

-- What a call reads of a table, and of the same table where the request is nobody's.
abbrev Alike : First → First → Type 0
Alike read other =
    ((read ≡ refused) × (other ≡ refused))
    ⊎ ((t : Option ℕ) × (a : Option ℕ) × (read ≡ found false t a) × (other ≡ found false none none))

first_of-Alike :
    (code_hash : ℕ → Text → Text) (binding_ok : Option Text → Option ℕ → Bool) (id : ℕ)
    (code : Text) (now : ℕ) (rows : List CodeRow)
    → Misses code_hash binding_ok id code rows
    → Alike
        (first_of code_hash binding_ok code now (find_first (is_open id) rows))
        (first_of code_hash binding_ok code now (find_first (is_open id) (erased id rows)))
unfolding matches
first_of-Alike code_hash binding_ok id code now [] m = inl (refl, refl)
first_of-Alike code_hash binding_ok id code now (r ∷ rows) m =
    let rest = first_of-Alike code_hash binding_ok id code now rows m.1 in
    elim (Bool-cases (is_open id r)) [
      | inl e ↦
          let mine : r.id == id ≡ true = ground (arith, e) in
          let missed : matches code_hash binding_ok code r ≡ false = ground (arith, m.0, mine) in
          let there : is_open id (if r.id == id then erase r else r) ≡ true = ground (arith, e) in
          rw (e, there, mine)
            (elim (Bool-cases (ltb r.expires_at now)) [
              | inl x ↦ rw x (inl (refl, refl))
              | inr x ↦ rw (x, missed) (inr (r.tenant, r.account, refl, refl))
            ])
      | inr e ↦
          let there : is_open id (if r.id == id then erase r else r) ≡ false = ground (arith, e) in
          rw (e, there) rest
    ]

abbrev answer_of : Bool → Answer
answer_of spent = if spent then refusal start_again else refusal wrong_code

abbrev spent_in : ℕ → List CodeRow → Bool
spent_in id rows =
    out_of_tries
      (attempts_of (find_first (λ r. r.id == id) (change_rows (λ r. r.id == id) count_try rows)))

reject_answer :
    (id : ℕ) (tenant account : Option ℕ) (now : ℕ) (st : Store)
    → (reject id tenant account now st).1 ≡ answer_of (spent_in id st.rows)
unfolding reject
reject_answer id tenant account now st = elim (Bool-cases (spent_in id st.rows)) [
  | inl e ↦ rw e refl
  | inr e ↦ rw e refl
]

erased-spent_in : (id : ℕ) (rows : List CodeRow) → spent_in id (erased id rows) ≡ spent_in id rows
erased-spent_in id rows =
    rw (erased-change id rows)
      (ap out_of_tries (erased-attempts_of id (change_rows (λ r. r.id == id) count_try rows)))

-- Two calls on the two tables: one answer, and tables that differ as before.
record Same (code_hash : ℕ → Text → Text) (binding_ok : Option Text → Option ℕ → Bool) (id : ℕ)
    (st other : Store) (p q : Store × Answer) : Type 0 where
  answer : q.1 ≡ p.1
  rows : q.0.rows ≡ erased id p.0.rows
  guessed :
      (code : Text)
      → Misses code_hash binding_ok id code st.rows
      → Misses code_hash binding_ok id code p.0.rows

settle-Same :
    (code_hash : ℕ → Text → Text) (binding_ok : Option Text → Option ℕ → Bool) (id now : ℕ)
    (st other : Store) (read theirs : First)
    → other.rows ≡ erased id st.rows
    → Alike read theirs
    → Same code_hash binding_ok id st other (settle id read now st) (settle id theirs now other)
unfolding settle
settle-Same code_hash binding_ok id now st other read theirs e (inl (r, o)) =
    rw (r, o) record { answer = refl; rows = e; guessed = λ code m. m }
settle-Same code_hash binding_ok id now st other read theirs e (inr (t, a, r, o)) =
    let (mine, m) = reject_rows id t a now st in
    let (other_rows, n) = reject_rows id none none now other in
    rw (r, o)
      record {
        answer =
            rw (reject_answer id t a now st, reject_answer id none none now other, e)
              (ap answer_of (erased-spent_in id st.rows));
        rows = rw (mine, other_rows, e) (erased-change id st.rows);
        guessed = λ code g. rw mine (Misses-change code_hash binding_ok id code st.rows g);
      }

Guessed-imply :
    (code_hash : ℕ → Text → Text) (binding_ok : Option Text → Option ℕ → Bool) (id : ℕ)
    (typed : List (Text × ℕ)) (rows after : List CodeRow)
    → ((code : Text)
        → Misses code_hash binding_ok id code rows
        → Misses code_hash binding_ok id code after)
    → Guessed code_hash binding_ok id typed rows
    → Guessed code_hash binding_ok id typed after
Guessed-imply code_hash binding_ok id typed rows after f g =
    All-imply (λ t. Misses code_hash binding_ok id t.0 rows)
      (λ t. Misses code_hash binding_ok id t.0 after) typed (λ t m. f t.0 m) g

-- When no code that is typed for a request is the code of a row of it, the answers are those of a table
-- that has the same rows, but where the request is nobody's, moment by moment and whatever else the
-- server keeps.
pub answers-erased :
    (code_hash : ℕ → Text → Text) (binding_ok : Option Text → Option ℕ → Bool) (id : ℕ)
    (typed : List (Text × ℕ)) (st other : Store)
    → other.rows ≡ erased id st.rows
    → Guessed code_hash binding_ok id typed st.rows
    → answers code_hash binding_ok id typed other ≡ answers code_hash binding_ok id typed st
unfolding answers check look
answers-erased code_hash binding_ok id [] st other e g = refl
answers-erased code_hash binding_ok id ((code, now) ∷ typed) st other e g =
    let alike = first_of-Alike code_hash binding_ok id code now st.rows g.0 in
    let same =
      settle-Same code_hash binding_ok id now st other
        (first_of code_hash binding_ok code now (find_first (is_open id) st.rows))
        (first_of code_hash binding_ok code now (find_first (is_open id) other.rows)) e
        (rw e alike) in
    let rest =
      answers-erased code_hash binding_ok id typed (check code_hash binding_ok id code now st).0
        (check code_hash binding_ok id code now other).0 same.rows
        (Guessed-imply code_hash binding_ok id typed st.rows
          (check code_hash binding_ok id code now st).0.rows same.guessed g.1) in
    rw (same.answer, rest) refl
