-- ===== src/Policy/Bracket.antt =====
-- policy/src/lib.rs: `AgeBracket`, `Theme`, and the tests on `NetworkLockdown`, `DnsPolicy`,
-- `FirewallPolicy` and `AppBlocks`. Dates are chrono's, in the years from 0 on.
pub mod Birthdays
use openscreentime.Common.{
  ℕ, ◌+◌, ◌*◌, Bool, true, false, ◌&&◌, ◌||◌, not, Option, none, some, List, [], ◌∷◌, ltb, leb,
  ◌==◌, if◌then◌else◌, is_empty, find_first, any,
}
use openscreentime.Common.Text.{Text, codes, text_eq}
use openscreentime.Common.Int.{ℤ, pos, ◌-ℤ◌, leb_ℤ}

pub data AgeBracket : Type 0 where
  little kid younger_teen older_teen adult : AgeBracket

abbrev pub all_brackets : List AgeBracket
all_brackets = little ∷ kid ∷ younger_teen ∷ older_teen ∷ adult ∷ []

-- `AgeBracket::id` and `parse`.
abbrev pub id : AgeBracket → Text
id little = codes "little"
id kid = codes "kid"
id younger_teen = codes "younger_teen"
id older_teen = codes "older_teen"
id adult = codes "adult"

unfoldable pub parse : Text → Option AgeBracket
parse s = find_first (λ b. text_eq (id b) s) all_brackets

abbrev pub label : AgeBracket → Text
label little = codes "Little"
label kid = codes "Kid"
label younger_teen = codes "Younger teen"
label older_teen = codes "Older teen"
label adult = codes "Adult"

abbrev pub range : AgeBracket → Text
range little = codes "0–6"
range kid = codes "6–12"
range younger_teen = codes "12–16"
range older_teen = codes "16–18"
range adult = codes "18+"

pub record NaiveDate : Type 0 where
  pub year : ℕ
  pub month : ℕ
  pub day : ℕ

abbrev pub had_birthday : NaiveDate → NaiveDate → Bool
had_birthday birth today =
    ltb birth.month today.month || (birth.month == today.month && leb birth.day today.day)

abbrev pub of_age : ℤ → AgeBracket
of_age age =
    if leb_ℤ age (pos 5)
    then little
    else if leb_ℤ age (pos 11)
    then kid
    else if leb_ℤ age (pos 15)
    then younger_teen
    else if leb_ℤ age (pos 17)
    then older_teen
    else adult

-- `AgeBracket::from_birthdate`.
unfoldable pub from_birthdate : NaiveDate → NaiveDate → AgeBracket
from_birthdate birth today =
    let years = pos today.year -ℤ pos birth.year in
    of_age (if had_birthday birth today then years else years -ℤ pos 1)

pub data Theme : Type 0 where
  playful calm plain : Theme

abbrev pub default_theme : AgeBracket → Theme
default_theme little = playful
default_theme kid = playful
default_theme younger_teen = calm
default_theme older_teen = calm
default_theme adult = plain

abbrev pub can_request_time : AgeBracket → Bool
can_request_time little = false
can_request_time adult = false
can_request_time _ = true

abbrev pub is_managed : AgeBracket → Bool
is_managed adult = false
is_managed _ = true

abbrev pub wind_down_secs : AgeBracket → ℕ
wind_down_secs younger_teen = 120
wind_down_secs older_teen = 120
wind_down_secs kid = 60
wind_down_secs little = 30
wind_down_secs adult = 0

abbrev pub theme_id : Theme → Text
theme_id playful = codes "playful"
theme_id calm = codes "calm"
theme_id plain = codes "plain"

-- `Theme::parse`.
unfoldable pub parse_theme : Text → Option Theme
parse_theme s =
    if text_eq s (codes "playful")
    then some playful
    else if text_eq s (codes "calm")
    then some calm
    else if text_eq s (codes "plain")
    then some plain
    else none

pub record AppBlocks : Type 0 where
  pub apps : List Text
  pub categories : List Text
  pub custom_domains : List Text

abbrev pub blocks_nothing : AppBlocks → Bool
blocks_nothing b = is_empty b.apps && is_empty b.categories && is_empty b.custom_domains

pub record NetworkLockdown : Type 0 where
  pub force_dns : Bool
  pub block_doh : Bool
  pub block_dot : Bool
  pub block_tor : Bool
  pub block_vpn : Bool
  pub offline_lockdown_days : ℕ

-- `NetworkLockdown::any` and `is_default`.
unfoldable pub any_rule : NetworkLockdown → Bool
any_rule l = l.force_dns || l.block_doh || l.block_dot || l.block_tor || l.block_vpn

unfoldable pub is_off : NetworkLockdown → Bool
is_off l =
    not l.force_dns
    && not l.block_doh
    && not l.block_dot
    && not l.block_tor
    && not l.block_vpn
    && l.offline_lockdown_days == 0

pub record DnsPolicy : Type 0 where
  pub mode : Text
  pub allowlist : List Text
  pub blocklist : List Text
  pub safe_search : Bool
  pub upstream : Text

abbrev pub default_dns : DnsPolicy
default_dns = record {
  mode = codes "allow_all";
  allowlist = [];
  blocklist = [];
  safe_search = true;
  upstream = codes "1.1.1.2";
}

-- `DnsPolicy::is_default_deny` and `FirewallPolicy::is_default_deny`, on the mode.
abbrev pub is_default_deny : Text → Bool
is_default_deny mode = text_eq mode (codes "default_deny")

unfoldable pub allows_everything : DnsPolicy → Bool
allows_everything p = any (λ d. text_eq d (codes "*")) p.allowlist
