-- ===== src/Policy/Tests/Brackets.antt =====
-- Brackets at concrete dates.
use openscreentime.Common.{◌≡◌, refl, false, some, leb}
use openscreentime.Common.Text.{codes}
use openscreentime.Common.Int.{◌-ℤ◌}
use openscreentime.Policy.Bracket.{
  kid, little, NaiveDate, from_birthdate, parse_theme, calm, any_rule, allows_everything,
  default_dns,
}
use openscreentime.Policy.Bracket.Birthdays.{rank, has_turned, from_birthdate-has_turned}

-- Born on a leap day: six from the first of March on in a common year.
abbrev leap : NaiveDate
leap = record { year = 2020; month = 2; day = 29 }

abbrev february : NaiveDate
february = record { year = 2026; month = 2; day = 28 }

abbrev march : NaiveDate
march = record { year = 2026; month = 3; day = 1 }

five : from_birthdate leap february ≡ little
unfolding from_birthdate ◌-ℤ◌
five = refl

six : from_birthdate leap march ≡ kid
unfolding from_birthdate ◌-ℤ◌
six = refl

from_birthdate-has_turned_example :
    (leb 1 (rank (from_birthdate leap march)) ≡ has_turned 6 leap march)
    × (leb 2 (rank (from_birthdate leap march)) ≡ has_turned 12 leap march)
    × (leb 3 (rank (from_birthdate leap march)) ≡ has_turned 16 leap march)
    × (leb 4 (rank (from_birthdate leap march)) ≡ has_turned 18 leap march)
from_birthdate-has_turned_example = from_birthdate-has_turned leap march

themed : parse_theme (codes "calm") ≡ some calm
unfolding parse_theme
themed = refl

not_everything : allows_everything default_dns ≡ false
unfolding allows_everything
not_everything = refl

-- Days offline alone are no network rule, but no default either.
offline_only :
    (any_rule (record {
      force_dns = false;
      block_doh = false;
      block_dot = false;
      block_tor = false;
      block_vpn = false;
      offline_lockdown_days = 3;
    }))
    ≡ false
unfolding any_rule
offline_only = refl
