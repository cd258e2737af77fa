-- ===== src/Server/Commands/Invariant.antt =====
-- What holds of every table that the queue's operations lead to.
use openscreentime.Common.{
  ℕ, ◌≤◌, ◌≡◌, inl, inr, Bool, true, false, ◌&&◌, ◌||◌, not, Option, some, List, [], ◌∷◌, ◌++◌,
  arith, any, keep, Bool-cases, All, All-append,
}
use openscreentime.Common.Text.{Text}
use openscreentime.Server.Commands.{
  Command, update, is_queued, open_of, coalesces, is_code, is_empty_payload, handed_over, answered,
  withdrawn, scrubbed, spent, can_ack, can_cancel, is_due, is_old_code, asks_for,
}
use openscreentime.Server.Commands.Rows.{
  has_id, row_at, Keyed, SameId, changed, update-Keyed, keep-Keyed, append-Keyed, update-All,
  keep-All, update_one-All,
}
use openscreentime.Server.Commands.Counts.{
  open_count, Opens, open_count-update, open_count-keep, open_count-append,
}

-- A row of a sign-in code holds it only while it waits for an agent that polls.
abbrev pub sealed : Command → Bool
sealed c = not (is_code c.kind) || (is_empty_payload c.payload || is_queued c.status)

abbrev pub Sealed : Command → Type 0
Sealed c = sealed c ≡ true

pub record Inv (rows : List Command) : Type 0 where
  pub keyed : Keyed rows
  pub hides : All Sealed rows
  pub single : (device : ℕ) (kind : Text) → coalesces kind ≡ true → open_count device kind rows ≤ 1

-- A change of rows that keeps the ids, opens no command and lays no code open.
pub record Calm (test : Command → Bool) (change : Command → Command) : Type 0 where
  pub same_id : SameId change
  pub opens : Opens test change
  pub seals : (c : Command) → Sealed c → Sealed (changed test change c)

pub update-Inv :
    {test : Command → Bool} {change : Command → Command} (rows : List Command)
    → Calm test change
    → Inv rows
    → Inv (update test change rows)
update-Inv {test = test} {change = change} rows k i = record {
  keyed = update-Keyed test change rows k.same_id i.keyed;
  hides = update-All Sealed test change rows k.seals i.hides;
  single = λ device kind e.
      omega (arith, open_count-update device kind test change rows k.opens, i.single device kind e);
}

pub keep-Inv : (p : Command → Bool) (rows : List Command) → Inv rows → Inv (keep p rows)
keep-Inv p rows i = record {
  keyed = keep-Keyed p rows i.keyed;
  hides = keep-All Sealed p rows i.hides;
  single =
      λ device kind e. omega (arith, open_count-keep device kind p rows, i.single device kind e);
}

pub append-Inv :
    (rows : List Command) (c : Command)
    → any (has_id c.id) rows ≡ false
    → Sealed c
    → ((device : ℕ) (kind : Text)
        → coalesces kind ≡ true
        → open_of device kind c ≡ true
        → open_count device kind rows ≡ 0)
    → Inv rows
    → Inv (rows ++ c ∷ [])
append-Inv rows c f s alone i = record {
  keyed = append-Keyed rows c f i.keyed;
  hides = All-append Sealed rows (c ∷ []) i.hides (s, tt);
  single = λ device kind e.
      rw (open_count-append device kind rows c) (elim (Bool-cases (open_of device kind c)) [
        | inl o ↦ rw (o, alone device kind e o) (omega arith)
        | inr o ↦ rw o (let one = i.single device kind e in omega arith)
      ]);
}

-- A change of one row.
pub one_row-Inv :
    (test : Command → Bool) (change : Command → Command) (id : ℕ) (rows : List Command)
    (c : Command)
    → ((d : Command) → has_id id d ≡ false → test d ≡ false)
    → row_at id rows ≡ some c
    → SameId change
    → Opens test change
    → Sealed (changed test change c)
    → Inv rows
    → Inv (update test change rows)
one_row-Inv test change id rows c only e same o s i = record {
  keyed = update-Keyed test change rows same i.keyed;
  hides = update_one-All Sealed id test change rows c only i.keyed e i.hides (λ h. s);
  single = λ device kind k.
      omega (arith, open_count-update device kind test change rows o, i.single device kind k);
}

-- The statements that change rows in place.
pub handed_over-Calm : (device now : ℕ) → Calm (is_due device now) (handed_over now)
unfolding is_due
handed_over-Calm device now = record {
  same_id = λ c. ground arith;
  opens = λ d k c o. ground arith;
  seals = λ c s. ground arith;
}

pub answered-Calm :
    (device id now : ℕ) (did_fail : Bool) (result : Option Text)
    → Calm (can_ack device id) (answered did_fail result now)
answered-Calm device id now did_fail result = record {
  same_id = λ c. ground arith;
  opens = λ d k c o. ground arith;
  seals = λ c s. ground arith;
}

pub withdrawn-Calm : (devices : List ℕ) (id : ℕ) → Calm (can_cancel devices id) withdrawn
withdrawn-Calm devices id = record {
  same_id = λ c. ground arith;
  opens = λ d k c o. ground arith;
  seals = λ c s. ground arith;
}

pub scrubbed-Calm : (now : ℕ) → Calm (is_old_code now) (scrubbed now)
unfolding is_old_code
scrubbed-Calm now = record {
  same_id = λ c. ground arith;
  opens = λ d k c o. ground arith;
  seals = λ c s. ground arith;
}

pub spent-Calm : (request : ℕ) → Calm (λ c. is_code c.kind && asks_for request c.payload) spent
spent-Calm request = record {
  same_id = λ c. ground arith;
  opens = λ d k c o. ground arith;
  seals = λ c s. ground arith;
}
