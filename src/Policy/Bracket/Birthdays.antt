-- ===== src/Policy/Bracket/Birthdays.antt =====
-- Brackets by birthday and by name.
use openscreentime.Common.{
  ℕ, ◌+◌, ◌≡◌, refl, Bool, true, ◌&&◌, ◌||◌, some, List, [], ◌∷◌, arith, ltb, leb, ◌==◌,
  if◌then◌else◌, find_first, sym, ◌∙◌, ◌↔◌, eq_of_some, Bool-cases, inl, inr,
}
use openscreentime.Common.Text.{Text, text_eq, text_eq→eq}
use openscreentime.Common.Int.{ℤ, pos, ◌-ℤ◌, leb_ℤ}
use openscreentime.Policy.Bracket.{
  AgeBracket, little, kid, younger_teen, older_teen, adult, all_brackets, id, parse, NaiveDate,
  from_birthdate, had_birthday, of_age,
}

-- The calendar's order on dates.
abbrev pub no_later : NaiveDate → NaiveDate → Bool
no_later a b =
    ltb a.year b.year
    || (a.year == b.year && (ltb a.month b.month || (a.month == b.month && leb a.day b.day)))

-- Whether the birthday of an age has come.
abbrev pub has_turned : ℕ → NaiveDate → NaiveDate → Bool
has_turned age birth today = no_later (record birth { year = birth.year + age }) today

-- A bracket's place among the five.
abbrev pub rank : AgeBracket → ℕ
rank little = 0
rank kid = 1
rank younger_teen = 2
rank older_teen = 3
rank adult = 4

rank-of_age :
    (age : ℤ)
    → (leb 1 (rank (of_age age)) ≡ leb_ℤ (pos 6) age)
      × (leb 2 (rank (of_age age)) ≡ leb_ℤ (pos 12) age)
      × (leb 3 (rank (of_age age)) ≡ leb_ℤ (pos 16) age)
      × (leb 4 (rank (of_age age)) ≡ leb_ℤ (pos 18) age)
rank-of_age age = ground arith

leb_ℤ-minus : (n a b : ℕ) → leb_ℤ (pos n) (pos a -ℤ pos b) ≡ leb (b + n) a
unfolding ◌-ℤ◌
leb_ℤ-minus n a b = ground arith

leb_ℤ-minus_one : (n a b : ℕ) → leb_ℤ (pos n) (pos a -ℤ pos b -ℤ pos 1) ≡ leb (b + n + 1) a
unfolding ◌-ℤ◌
leb_ℤ-minus_one n a b = ground arith

abbrev age_at : NaiveDate → NaiveDate → ℤ
age_at birth today =
    let years = pos today.year -ℤ pos birth.year in
    if had_birthday birth today then years else years -ℤ pos 1

age_at-has_turned :
    (n : ℕ) (birth today : NaiveDate)
    → leb_ℤ (pos n) (age_at birth today) ≡ has_turned n birth today
age_at-has_turned n birth today = elim (Bool-cases (had_birthday birth today)) [
  | inl had ↦ rw (had, leb_ℤ-minus n today.year birth.year) (ground arith)
  | inr had ↦ rw (had, leb_ℤ-minus_one n today.year birth.year) (ground arith)
]

-- The bracket is the one of the age in birthdays: it is Kid or above exactly from the sixth birthday
-- on, YoungerTeen or above from the twelfth, OlderTeen or above from the sixteenth, and Adult from
-- the eighteenth, those days included.
pub from_birthdate-has_turned :
    (birth today : NaiveDate)
    → (leb 1 (rank (from_birthdate birth today)) ≡ has_turned 6 birth today)
      × (leb 2 (rank (from_birthdate birth today)) ≡ has_turned 12 birth today)
      × (leb 3 (rank (from_birthdate birth today)) ≡ has_turned 16 birth today)
      × (leb 4 (rank (from_birthdate birth today)) ≡ has_turned 18 birth today)
unfolding from_birthdate
from_birthdate-has_turned birth today =
    let r = rank-of_age (age_at birth today) in
    (
      r.0 ∙ age_at-has_turned 6 birth today,
      r.1 ∙ age_at-has_turned 12 birth today,
      r.2 ∙ age_at-has_turned 16 birth today,
      r.3 ∙ age_at-has_turned 18 birth today,
    )

find_first-true :
    (p : AgeBracket → Bool) (bs : List AgeBracket) (b : AgeBracket)
    → find_first p bs ≡ some b
    → p b ≡ true
find_first-true p [] b h = ground arith
find_first-true p (x ∷ xs) b h = elim (Bool-cases (p x)) [
  | inl e ↦ rw (sym (eq_of_some (rw e at h))) e
  | inr e ↦ find_first-true p xs b (rw e at h)
]

own_id : (b : AgeBracket) → parse (id b) ≡ some b
unfolding parse
own_id little = refl
own_id kid = refl
own_id younger_teen = refl
own_id older_teen = refl
own_id adult = refl

-- A text is read as a bracket exactly if it is that bracket's id.
parse-id : (b : AgeBracket) (s : Text) → (parse s ≡ some b) ↔ (s ≡ id b)
unfolding parse
parse-id b s = (
  λ h. sym (text_eq→eq (id b) s (find_first-true (λ c. text_eq (id c) s) all_brackets b h)),
  λ h. rw h (own_id b),
)
