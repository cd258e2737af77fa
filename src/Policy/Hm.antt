-- ===== src/Policy/Hm.antt =====
-- policy/src/rules.rs: `parse_hm` and `span`.
pub mod Laws
use openscreentime.Common.{
  ℕ, ◌+◌, ◌*◌, ◌^◌, Bool, ◌&&◌, Option, none, some, ltb, ◌==◌, not, if◌then◌else◌,
}
use openscreentime.Common.Text.{Text, trim, split_once, parse_unsigned}

abbrev pub day_min : ℕ
day_min = 24 * 60

-- `h: u16`, `m: u16`; the product and sum stay below 1440 when the test passes.
abbrev pub in_day : ℕ → ℕ → Option ℕ
in_day h m = if ltb h 24 && ltb m 60 then some (h * 60 + m) else none

hours_minutes : Option (Text × Text) → Option ℕ
hours_minutes none = none
hours_minutes (some (h, m)) = elim (parse_unsigned (2 ^ 16) h) [
  | none ↦ none
  | some h' ↦ elim (parse_unsigned (2 ^ 16) m) [ none ↦ none | some m' ↦ in_day h' m' ]
]

unfoldable pub parse_hm : Text → Option ℕ
unfolding hours_minutes trim split_once parse_unsigned
parse_hm s = hours_minutes (split_once b':' (trim s))

-- An end of 00:00 is midnight at the end of the day.
abbrev pub end_of_span : ℕ → ℕ
end_of_span e = if e == 0 then day_min else e

abbrev pub span_of : Option ℕ → Option ℕ → Option (ℕ × ℕ)
span_of none e = none
span_of (some s) none = none
span_of (some s) (some e) = if s == end_of_span e then none else some (s, end_of_span e)

unfoldable pub span : Text → Text → Option (ℕ × ℕ)
span start end = span_of (parse_hm start) (parse_hm end)
