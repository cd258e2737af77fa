-- ===== src/Server/Commands/Counts.antt =====
-- How many open commands of a kind a device has.
use openscreentime.Common.{
  ℕ, ◌+◌, ◌≤◌, ◌≡◌, refl, inl, inr, Bool, false, none, some, List, [], ◌∷◌, ◌++◌, arith,
  if◌then◌else◌, keep, find_first, Bool-cases,
}
use openscreentime.Common.Text.{Text}
use openscreentime.Server.Commands.{Command, update, open_of}
use openscreentime.Server.Commands.Rows.{changed}

abbrev pub open_count : ℕ → Text → List Command → ℕ
open_count device kind [] = 0
open_count device kind (c ∷ rows) =
    (if open_of device kind c then 1 else 0) + open_count device kind rows

-- A change that opens no command of a device and kind.
abbrev pub Opens : (Command → Bool) → (Command → Command) → Type 0
Opens test change =
    (device : ℕ) (kind : Text) (c : Command)
    → open_of device kind c ≡ false
    → open_of device kind (changed test change c) ≡ false

pub open_count-update :
    (device : ℕ) (kind : Text) (test : Command → Bool) (change : Command → Command)
    (rows : List Command)
    → Opens test change
    → open_count device kind (update test change rows) ≤ open_count device kind rows
open_count-update device kind test change [] o = omega arith
open_count-update device kind test change (c ∷ rows) o =
    let rest = open_count-update device kind test change rows o in
    elim (Bool-cases (open_of device kind c)) [
      | inl e ↦ rw e (ground (arith, rest))
      | inr e ↦ rw (e, o device kind c e) (ground (arith, rest))
    ]

pub open_count-keep :
    (device : ℕ) (kind : Text) (p : Command → Bool) (rows : List Command)
    → open_count device kind (keep p rows) ≤ open_count device kind rows
open_count-keep device kind p [] = omega arith
open_count-keep device kind p (c ∷ rows) =
    let rest = open_count-keep device kind p rows in
    elim (Bool-cases (p c)) [
      | inl e ↦ rw e (ground (arith, rest))
      | inr e ↦ rw e (ground (arith, rest))
    ]

pub open_count-append :
    (device : ℕ) (kind : Text) (rows : List Command) (c : Command)
    → open_count device kind (rows ++ c ∷ [])
      ≡ open_count device kind rows + (if open_of device kind c then 1 else 0)
open_count-append device kind [] c = omega arith
open_count-append device kind (d ∷ rows) c = ground (arith, open_count-append device kind rows c)

pub none_open :
    (device : ℕ) (kind : Text) (rows : List Command)
    → find_first (open_of device kind) rows ≡ none
    → open_count device kind rows ≡ 0
none_open device kind [] e = refl
none_open device kind (c ∷ rows) e = elim (Bool-cases (open_of device kind c)) [
  | inl y ↦ let h : some c ≡ none = rw y at e in cc h
  | inr y ↦ let rest = none_open device kind rows (rw y at e) in rw y (ground (arith, rest))
]
