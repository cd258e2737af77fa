-- ===== src/Server/Commands/Rows.antt =====
-- A table with a primary key, and what its statements keep.
use openscreentime.Common.{
  ℕ, ◌≡◌, refl, sym, ap, ◌∙◌, inl, inr, Bool, true, false, Option, none, some, List, [], ◌∷◌, ◌++◌,
  arith, ◌==◌, if◌then◌else◌, any, keep, find_first, contains, Bool-cases, eq_of_some, All,
}
use openscreentime.Server.Commands.{Command, update, ids_of}

-- The row of an id.
abbrev pub has_id : ℕ → Command → Bool
has_id id c = c.id == id

abbrev pub row_at : ℕ → List Command → Option Command
row_at id rows = find_first (has_id id) rows

-- No two rows have one id.
abbrev pub Keyed : List Command → Type 0
Keyed [] = Unit {0}
Keyed (c ∷ rows) = (any (has_id c.id) rows ≡ false) × Keyed rows

-- A change that keeps the id.
abbrev pub SameId : (Command → Command) → Type 0
SameId change = (c : Command) → (change c).id ≡ c.id

abbrev pub changed : (Command → Bool) → (Command → Command) → Command → Command
changed test change c = if test c then change c else c

abbrev pub changed_row : (Command → Bool) → (Command → Command) → Option Command → Option Command
changed_row test change none = none
changed_row test change (some c) = some (changed test change c)

changed_id :
    (test : Command → Bool) (change : Command → Command) (c : Command)
    → SameId change
    → (changed test change c).id ≡ c.id
changed_id test change c s = elim (Bool-cases (test c)) [ inl e ↦ rw e (s c) | inr e ↦ rw e refl ]

any-update :
    (id : ℕ) (test : Command → Bool) (change : Command → Command) (rows : List Command)
    → SameId change
    → any (has_id id) (update test change rows) ≡ any (has_id id) rows
any-update id test change [] s = refl
any-update id test change (c ∷ rows) s =
    rw (changed_id test change c s, any-update id test change rows s) refl

pub update-Keyed :
    (test : Command → Bool) (change : Command → Command) (rows : List Command)
    → SameId change
    → Keyed rows
    → Keyed (update test change rows)
update-Keyed test change [] s k = tt
update-Keyed test change (c ∷ rows) s k = (
  rw (changed_id test change c s, any-update c.id test change rows s) k.0,
  update-Keyed test change rows s k.1,
)

pub row_at-update :
    (id : ℕ) (test : Command → Bool) (change : Command → Command) (rows : List Command)
    → SameId change
    → row_at id (update test change rows) ≡ changed_row test change (row_at id rows)
row_at-update id test change [] s = refl
row_at-update id test change (c ∷ rows) s = elim (Bool-cases (has_id id c)) [
  | inl e ↦ rw (changed_id test change c s, e) refl
  | inr e ↦ rw (changed_id test change c s, e) (row_at-update id test change rows s)
]

any-keep :
    (id : ℕ) (p : Command → Bool) (rows : List Command)
    → any (has_id id) rows ≡ false
    → any (has_id id) (keep p rows) ≡ false
any-keep id p [] h = refl
any-keep id p (c ∷ rows) h = ground (arith, any-keep id p rows)

pub keep-Keyed : (p : Command → Bool) (rows : List Command) → Keyed rows → Keyed (keep p rows)
keep-Keyed p [] k = tt
keep-Keyed p (c ∷ rows) k = elim (Bool-cases (p c)) [
  | inl e ↦ rw e (any-keep c.id p rows k.0, keep-Keyed p rows k.1)
  | inr e ↦ rw e (keep-Keyed p rows k.1)
]

pub append-Keyed :
    (rows : List Command) (c : Command)
    → any (has_id c.id) rows ≡ false
    → Keyed rows
    → Keyed (rows ++ c ∷ [])
append-Keyed [] c h k = (refl, tt)
append-Keyed (d ∷ rows) c h k =
    (away d rows c k.0 (ground arith), append-Keyed rows c (ground arith) k.1)
  where
    away :
        (d : Command) (rows : List Command) (c : Command)
        → any (has_id d.id) rows ≡ false
        → (d.id == c.id) ≡ false
        → any (has_id d.id) (rows ++ c ∷ []) ≡ false
    away d [] c h e = ground arith
    away d (b ∷ rows) c h e = ground (arith, away d rows c)

pub row_at-append :
    (rows : List Command) (c : Command)
    → any (has_id c.id) rows ≡ false
    → row_at c.id (rows ++ c ∷ []) ≡ some c
row_at-append [] c h = ground arith
row_at-append (d ∷ rows) c h = ground (arith, row_at-append rows c)

module _ (P : Command → Type 0) where
  pub update-All :
      (test : Command → Bool) (change : Command → Command) (rows : List Command)
      → ((c : Command) → P c → P (changed test change c))
      → All P rows
      → All P (update test change rows)
  update-All test change [] f h = tt
  update-All test change (c ∷ rows) f h = (f c h.0, update-All test change rows f h.1)

  pub keep-All : (p : Command → Bool) (rows : List Command) → All P rows → All P (keep p rows)
  keep-All p [] h = tt
  keep-All p (c ∷ rows) h = elim (Bool-cases (p c)) [
    | inl e ↦ rw e (h.0, keep-All p rows h.1)
    | inr e ↦ rw e (keep-All p rows h.1)
  ]

  -- A change of one row at most.
  pub update_one-All :
      (id : ℕ) (test : Command → Bool) (change : Command → Command) (rows : List Command)
      (c : Command)
      → ((d : Command) → has_id id d ≡ false → test d ≡ false)
      → Keyed rows
      → row_at id rows ≡ some c
      → All P rows
      → (P c → P (changed test change c))
      → All P (update test change rows)
  update_one-All id test change [] c only k e h f = tt
  update_one-All id test change (d ∷ rows) c only k e h f = elim (Bool-cases (has_id id d)) [
    | inl i ↦
        let same : d ≡ c = eq_of_some (rw i at e) in
        let absent : any (has_id id) rows ≡ false = ground (arith, k.0) in
        (rw same (f (rw same at h.0)), others rows absent h.1)
    | inr i ↦
        let off = only d i in
        rw off (h.0, update_one-All id test change rows c only k.1 (rw i at e) h.1 f)
  ]
    where
      others :
          (rows : List Command)
          → any (has_id id) rows ≡ false
          → All P rows
          → All P (update test change rows)
      others [] a h = tt
      others (d ∷ rows) a h =
          let off = only d (ground arith) in rw off (h.0, others rows (ground arith) h.1)

pub row_at-append_kept :
    (id : ℕ) (rows : List Command) (c d : Command)
    → row_at id rows ≡ some c
    → row_at id (rows ++ d ∷ []) ≡ some c
row_at-append_kept id [] c d e = cc
row_at-append_kept id (b ∷ rows) c d e = elim (Bool-cases (has_id id b)) [
  | inl i ↦ rw i (rw i at e)
  | inr i ↦ rw i (row_at-append_kept id rows c d (rw i at e))
]

abbrev pub row_if : Bool → Command → Option Command
row_if true c = some c
row_if false c = none

row_at_absent :
    (id : ℕ) (rows : List Command) → any (has_id id) rows ≡ false → row_at id rows ≡ none
row_at_absent id [] h = refl
row_at_absent id (d ∷ rows) h = ground (arith, row_at_absent id rows)

pub row_at-keep :
    (id : ℕ) (p : Command → Bool) (rows : List Command) (c : Command)
    → Keyed rows
    → row_at id rows ≡ some c
    → row_at id (keep p rows) ≡ row_if (p c) c
row_at-keep id p [] c k e = cc
row_at-keep id p (d ∷ rows) c k e = elim (Bool-cases (has_id id d)) [
  | inl i ↦
      let same : d ≡ c = eq_of_some (rw i at e) in
      let absent : any (has_id id) rows ≡ false = ground (arith, k.0) in
      elim (Bool-cases (p d)) [
        | inl y ↦ rw (y, i, rw same at y) (ap some same)
        | inr y ↦ rw (y, rw same at y) (row_at_absent id (keep p rows) (any-keep id p rows absent))
      ]
  | inr i ↦ elim (Bool-cases (p d)) [
    | inl y ↦ rw (y, i) (row_at-keep id p rows c k.1 (rw i at e))
    | inr y ↦ rw y (row_at-keep id p rows c k.1 (rw i at e))
  ]
]

-- What a search finds is the row of its id.
pub row_at_found :
    (p : Command → Bool) (rows : List Command) (c : Command)
    → Keyed rows
    → find_first p rows ≡ some c
    → (row_at c.id rows ≡ some c) × (p c ≡ true)
row_at_found p [] c k e = cc
row_at_found p (d ∷ rows) c k e = elim (Bool-cases (p d)) [
  | inl y ↦
      let same : d ≡ c = eq_of_some (rw y at e) in
      let self : has_id c.id d ≡ true = rw same (ground arith) in
      (rw self (ap some same), rw same at y)
  | inr y ↦
      let rest = row_at_found p rows c k.1 (rw y at e) in
      let other : has_id c.id d ≡ false = differs rows k.0 rest.0 in (rw other rest.0, rest.1)
]
  where
    differs :
        (rows : List Command)
        → any (has_id d.id) rows ≡ false
        → row_at c.id rows ≡ some c
        → has_id c.id d ≡ false
    differs [] a h = cc
    differs (b ∷ rows) a h = elim (Bool-cases (has_id c.id b)) [
      | inl i ↦ ground arith
      | inr i ↦ differs rows (ground arith) (rw i at h)
    ]

ids_of-keep_absent :
    (id : ℕ) (p : Command → Bool) (rows : List Command)
    → any (has_id id) rows ≡ false
    → contains (ids_of (keep p rows)) id ≡ false
ids_of-keep_absent id p [] a = refl
ids_of-keep_absent id p (d ∷ rows) a = ground (arith, ids_of-keep_absent id p rows)

abbrev Agrees : (Command → Bool) → List ℕ → Command → Type 0
Agrees p ids c = contains ids c.id ≡ p c

one_more :
    (p : Command → Bool) (id : ℕ) (ids : List ℕ) (rows : List Command)
    → any (has_id id) rows ≡ false
    → All (Agrees p ids) rows
    → All (Agrees p (id ∷ ids)) rows
one_more p id ids [] a h = tt
one_more p id ids (c ∷ rows) a h = (ground (arith, h.0), one_more p id ids rows (ground arith) h.1)

same_ids :
    (p : Command → Bool) (ids ids' : List ℕ) (rows : List Command)
    → ids' ≡ ids
    → All (Agrees p ids) rows
    → All (Agrees p ids') rows
same_ids p ids ids' rows e h = rw e h

-- In a table with a primary key, the ids of the rows that pass a test are those rows' alone.
ids_of-keep :
    (p : Command → Bool) (rows : List Command)
    → Keyed rows
    → All (Agrees p (ids_of (keep p rows))) rows
ids_of-keep p [] k = tt
ids_of-keep p (d ∷ rows) k = elim (Bool-cases (p d)) [
  | inl e ↦
      let ids : ids_of (keep p (d ∷ rows)) ≡ d.id ∷ ids_of (keep p rows) = rw e refl in
      same_ids p (d.id ∷ ids_of (keep p rows)) (ids_of (keep p (d ∷ rows))) (d ∷ rows) ids (
        ground (arith, e),
        one_more p d.id (ids_of (keep p rows)) rows k.0 (ids_of-keep p rows k.1),
      )
  | inr e ↦
      let ids : ids_of (keep p (d ∷ rows)) ≡ ids_of (keep p rows) = rw e refl in
      same_ids p (ids_of (keep p rows)) (ids_of (keep p (d ∷ rows))) (d ∷ rows) ids
        (ids_of-keep_absent d.id p rows k.0 ∙ sym e, ids_of-keep p rows k.1)
]

update-agree :
    (test test' : Command → Bool) (change : Command → Command) (rows : List Command)
    → All (λ c. test c ≡ test' c) rows
    → update test change rows ≡ update test' change rows
update-agree test test' change [] h = refl
update-agree test test' change (c ∷ rows) h = rw (h.0, update-agree test test' change rows h.1) refl

-- To change the rows whose ids a search gave is to change the rows that it finds.
pub update-ids_of :
    (p : Command → Bool) (change : Command → Command) (rows : List Command)
    → Keyed rows
    → update (λ c. contains (ids_of (keep p rows)) c.id) change rows ≡ update p change rows
update-ids_of p change rows k =
    update-agree (λ c. contains (ids_of (keep p rows)) c.id) p change rows (ids_of-keep p rows k)
