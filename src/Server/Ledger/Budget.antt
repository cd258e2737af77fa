-- ===== src/Server/Ledger/Budget.antt =====
-- A person's use over all their computers.
use openscreentime.Common.{
  ℕ, ◌+◌, ◌≡◌, refl, ◌∙◌, inl, inr, Bool, true, false, ◌&&◌, not, some, List, [], ◌∷◌, arith, ◌==◌,
  if◌then◌else◌, any, find_first, Bool-cases, eq_of_some,
}
use openscreentime.Common.Int.{ℤ}
use openscreentime.Server.Ledger.{
  Device, DeviceUser, LedgerRow, Db, row_of, same_key, sum_over, is_account, retired_sum, elsewhere,
}
use openscreentime.Server.Ledger.Totals.{recorded, used_of}

module _ {A : Type 0} where
  -- At most one element passes the test.
  abbrev pub once : (A → Bool) → List A → Bool
  once key [] = true
  once key (x ∷ xs) = let rest = once key xs in if key x then not (any key xs) else rest

  sum_none :
      (key : A → Bool) (g : A → ℕ) (xs : List A)
      → any key xs ≡ false
      → sum_over (λ y. if key y then g y else 0) xs ≡ 0
  sum_none key g [] h = refl
  sum_none key g (x ∷ xs) h = ground (arith, sum_none key g xs)

  sum_once :
      (key : A → Bool) (g : A → ℕ) (x : A) (xs : List A)
      → once key xs ≡ true
      → find_first key xs ≡ some x
      → sum_over (λ y. if key y then g y else 0) xs ≡ g x
  sum_once key g x [] o f = cc
  sum_once key g x (y ∷ ys) o f = elim (Bool-cases (key y)) [
    | inl e ↦
        let same : y ≡ x = eq_of_some (rw e at f) in
        rw (e, same) (ground (arith, sum_none key g ys))
    | inr e ↦ let rest = sum_once key g x ys (rw e at o) (rw e at f) in rw e (ground (arith, rest))
  ]

  sum_but_none :
      (key p : A → Bool) (g : A → ℕ) (xs : List A)
      → any key xs ≡ false
      → sum_over (λ y. if p y && not (key y) then g y else 0) xs
        ≡ sum_over (λ y. if p y then g y else 0) xs
  sum_but_none key p g [] h = refl
  sum_but_none key p g (x ∷ xs) h = ground (arith, sum_but_none key p g xs)

  -- The sum without an element, and the element.
  sum_but :
      (key p : A → Bool) (g : A → ℕ) (x : A) (xs : List A)
      → once key xs ≡ true
      → find_first key xs ≡ some x
      → p x ≡ true
      → sum_over (λ y. if p y && not (key y) then g y else 0) xs + g x
        ≡ sum_over (λ y. if p y then g y else 0) xs
  sum_but key p g x [] o f h = cc
  sum_but key p g x (y ∷ ys) o f h = elim (Bool-cases (key y)) [
    | inl e ↦
        let same : y ≡ x = eq_of_some (rw e at f) in
        let rest = sum_but_none key p g ys (ground arith) in rw (e, same, h) (ground (arith, rest))
    | inr e ↦
        let rest = sum_but key p g x ys (rw e at o) (rw e at f) h in rw e (ground (arith, rest))
  ]

row_of-sum :
    (du : ℕ) (day : ℤ) (rows : List LedgerRow)
    → once (same_key du day) rows ≡ true
    → sum_over (λ l. if same_key du day l then l.used_seconds else 0) rows
      ≡ used_of (row_of du day rows)
unfolding row_of
row_of-sum du day [] o = refl
row_of-sum du day (r ∷ rows) o = elim (Bool-cases (same_key du day r)) [
  | inl e ↦ rw e (ground (arith, sum_none (same_key du day) (λ l. l.used_seconds) rows))
  | inr e ↦ let rest = row_of-sum du day rows (rw e at o) in rw e (ground (arith, rest))
]

-- Whether a device is that of a login, in the household.
abbrev pub its_device : ℕ → DeviceUser → Device → Bool
its_device tenant u d = (d.id == u.device) && (d.tenant == tenant)

-- What a login used, as it is joined with its device.
abbrev used_on : Db → ℕ → ℤ → DeviceUser → ℕ
used_on db tenant day u =
    sum_over
      (λ d.
        if its_device tenant u d
        then sum_over (λ l. if same_key u.id day l then l.used_seconds else 0) db.ledger
        else 0)
      db.devices

-- What a person used on a day, on every computer they have or had.
abbrev pub spent : Db → ℕ → ℕ → ℤ → ℕ
spent db tenant account day =
    sum_over (λ u. if is_account u.account account then used_on db tenant day u else 0)
      db.device_users
    + retired_sum (λ r. r.used_seconds) db tenant account day

used_on-recorded :
    (db : Db) (tenant : ℕ) (day : ℤ) (du : DeviceUser) (dev : Device)
    → once (its_device tenant du) db.devices ≡ true
    → find_first (its_device tenant du) db.devices ≡ some dev
    → once (same_key du.id day) db.ledger ≡ true
    → used_on db tenant day du ≡ recorded db du.id day
used_on-recorded db tenant day du dev o f k =
    sum_once (its_device tenant du)
      (λ d. sum_over (λ l. if same_key du.id day l then l.used_seconds else 0) db.ledger) dev
      db.devices o f
    ∙ row_of-sum du.id day db.ledger k

-- The limit is one budget: what a login is told was used elsewhere and what is recorded for it make up
-- the same total on each of a person's logins, all that the person used on the day on every computer
-- they have or had. The ids of logins, the devices' ids, and login and day in the ledger are keys, and
-- the login's computer is one of the household's.
pub elsewhere-spent :
    (db : Db) (tenant account : ℕ) (day : ℤ) (du : DeviceUser) (dev : Device)
    → is_account du.account account ≡ true
    → once (λ u. u.id == du.id) db.device_users ≡ true
    → find_first (λ u. u.id == du.id) db.device_users ≡ some du
    → once (its_device tenant du) db.devices ≡ true
    → find_first (its_device tenant du) db.devices ≡ some dev
    → once (same_key du.id day) db.ledger ≡ true
    → (elsewhere db tenant account du.id day).0 + recorded db du.id day
      ≡ spent db tenant account day
unfolding elsewhere
elsewhere-spent db tenant account day du dev mine o f od fd k =
    let own = used_on-recorded db tenant day du dev od fd k in
    let but =
      sum_but (λ u. u.id == du.id) (λ u. is_account u.account account) (used_on db tenant day) du
        db.device_users o f mine in
    rw⁻¹ own (ground (arith, but))
