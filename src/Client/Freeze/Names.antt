-- ===== src/Client/Freeze/Names.antt =====
-- client/src/enforce/screentime/freeze.rs: the names of units, `unescape` and `is_plumbing`.
use openscreentime.Common.{
  ℕ, zero, suc, ◌+◌, ◌-◌, ◌*◌, ◌/◌, ◌%◌, Bool, true, false, ◌&&◌, ◌||◌, Option, none, some, List,
  [], ◌∷◌, ◌++◌, map, ltb, leb, ◌==◌, if◌then◌else◌, any,
}
use mathlib.Core.List.{reverse}
use openscreentime.Common.Text.{Text, codes, text_eq}

-- A digit to the base 16, of either case.
abbrev hex : ℕ → Option ℕ
hex c =
    if leb b'0' c && leb c b'9'
    then some (c - b'0')
    else if leb b'a' c && leb c b'f'
    then some (c - b'a' + 10)
    else if leb b'A' c && leb c b'F'
    then some (c - b'A' + 10)
    else none

abbrev pair_of : Option ℕ → Option ℕ → Option ℕ
pair_of none l = none
pair_of (some h) none = none
pair_of (some h) (some l) = some (h * 16 + l)

-- `u8::from_str_radix` of two characters to the base 16; a plus sign may come first.
unfoldable pub from_hex : ℕ → ℕ → Option ℕ
from_hex h l = if h == b'+' then hex l else pair_of (hex h) (hex l)

-- `unescape`, to bytes: the backslash is 92.
unfoldable pub unescape : Text → Text
unescape [] = []
unescape (a ∷ []) = a ∷ []
unescape (a ∷ b ∷ []) = a ∷ unescape (b ∷ [])
unescape (a ∷ b ∷ h ∷ []) = a ∷ unescape (b ∷ h ∷ [])
unescape (a ∷ b ∷ h ∷ l ∷ s) =
    let plain = a ∷ unescape (b ∷ h ∷ l ∷ s) in
    let cut = unescape s in
    if (a == 92) && (b == b'x')
    then (elim (from_hex h l) [ none ↦ plain | some v ↦ v ∷ cut ])
    else plain

-- `to_ascii_lowercase`.
abbrev pub lower : Text → Text
lower s = map (λ c. if leb b'A' c && leb c b'Z' then c + 32 else c) s

-- `starts_with` and `contains`.
abbrev pub starts_with : Text → Text → Bool
starts_with s [] = true
starts_with [] (b ∷ p) = false
starts_with (a ∷ s) (b ∷ p) = (a == b) && starts_with s p

unfoldable pub contains : Text → Text → Bool
contains [] p = starts_with [] p
contains (a ∷ s) p = starts_with (a ∷ s) p || contains s p

-- `rsplit_once('.')`, the part before the last dot, or the whole.
abbrev before_dot : Text → Option Text
before_dot [] = none
before_dot (c ∷ s) = elim (before_dot s) [
  | some t ↦ some (c ∷ t)
  | none ↦ if c == b'.' then some [] else none
]

unfoldable pub stem : Text → Text
stem s = elim (before_dot s) [ none ↦ s | some t ↦ t ]

unfoldable pub plumbing : List Text
plumbing =
    codes "gnome-session"
    ∷ codes "ksmserver"
    ∷ codes "gnome-keyring"
    ∷ codes "kwallet"
    ∷ codes "gcr-ssh-agent"
    ∷ codes "ssh-agent"
    ∷ codes "gpg-agent"
    ∷ codes "polkit"
    ∷ codes "policykit"
    ∷ codes "at-spi"
    ∷ codes "xdg-desktop-portal"
    ∷ codes "xdg-document-portal"
    ∷ codes "xdg-permission-store"
    ∷ codes "dconf"
    ∷ codes "gvfs"
    ∷ codes "pipewire"
    ∷ codes "wireplumber"
    ∷ codes "pulseaudio"
    ∷ codes "ibus"
    ∷ codes "fcitx"
    ∷ codes "org.gnome.shell"
    ∷ codes "gnome-shell"
    ∷ codes "org.gnome.settingsdaemon"
    ∷ codes "kwin"
    ∷ codes "kded"
    ∷ codes "kglobalaccel"
    ∷ codes "evolution-source-registry"
    ∷ codes "evolution-calendar-factory"
    ∷ codes "evolution-addressbook-factory"
    ∷ []

unfoldable pub launchers : List Text
launchers =
    codes "gdm-session-wor"
    ∷ codes "gdm-wayland-ses"
    ∷ codes "gdm-x-session"
    ∷ codes "gnome-session"
    ∷ codes "gnome-session-b"
    ∷ codes "sddm-helper"
    ∷ codes "sddm-helper-sta"
    ∷ codes "startplasma-way"
    ∷ codes "startplasma-x11"
    ∷ codes "lightdm"
    ∷ codes "Xorg"
    ∷ codes "Xwayland"
    ∷ codes "X"
    ∷ codes "dbus-run-sessio"
    ∷ codes "dbus-daemon"
    ∷ codes "dbus-broker"
    ∷ codes "dbus-broker-lau"
    ∷ codes "ssh-agent"
    ∷ codes "gpg-agent"
    ∷ codes "im-launch"
    ∷ codes "systemctl"
    ∷ []

-- `is_plumbing`.
unfoldable pub is_plumbing : Text → Bool
unfolding unescape stem contains plumbing
is_plumbing unit =
    let name = lower (unescape unit) in
    text_eq (stem name) (codes "dbus")
    || text_eq (stem name) (codes "dbus-broker")
    || any (λ p. contains name p) plumbing

-- `strip_prefix` and `strip_suffix`.
unfoldable pub strip_prefix : Text → Text → Option Text
strip_prefix s [] = some s
strip_prefix [] (b ∷ p) = none
strip_prefix (a ∷ s) (b ∷ p) = let rest = strip_prefix s p in if a == b then rest else none

unfoldable pub strip_suffix : Text → Text → Option Text
unfolding strip_prefix
strip_suffix s p = elim (strip_prefix (reverse s) (reverse p)) [
  | none ↦ none
  | some t ↦ some (reverse t)
]

-- `session_id`.
unfoldable pub session_id : Text → Option Text
unfolding strip_prefix strip_suffix
session_id scope = elim (strip_prefix scope (codes "session-")) [
  | none ↦ none
  | some rest ↦ strip_suffix rest (codes ".scope")
]

-- A `u32` in decimal digits, of which it has ten at most.
unfoldable pub decimal : ℕ → ℕ → Text
decimal zero n = []
decimal (suc fuel) n =
    let high = decimal fuel (n / 10) in
    if ltb n 10 then (b'0' + n) ∷ [] else high ++ (b'0' + n % 10) ∷ []

-- `format!("user@{uid}.service")`.
unfoldable pub manager_name : ℕ → Text
unfolding decimal
manager_name uid = codes "user@" ++ (decimal 10 uid ++ codes ".service")
