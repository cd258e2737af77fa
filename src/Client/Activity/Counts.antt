-- ===== src/Client/Activity/Counts.antt =====
-- Whose time counts.
use openscreentime.Common.{
  ◌≡◌, refl, Bool, false, Option, none, some, List, [], ◌∷◌, map, arith, keep, is_some, find_first,
  Bool-cases, inl, inr, any,
}
use openscreentime.Common.Text.{Text, text_eq}
use openscreentime.Client.Activity.{
  Session, at_seat, present, counts, billable, Probe, sample, idle_cutoff,
}
use openscreentime.Client.Activity.Seated.{
  is_of, seat_of, Once, listed, holds, seated, present_from-find_first, present_from-Once,
  find_first-keep, listed-none, listed-keep,
}

-- The first session of a person at a seat is on a seat where input cannot be read, or was lately, or
-- there is sound.
abbrev pub counts_for : Probe → Text → Bool
counts_for p u = elim (seated p.sessions u) [
  | none ↦ false
  | some s ↦ counts (p.input_idle s.seat) p.audio_playing idle_cutoff
]

present-find_first :
    (u : Text) (ss : List Session) → find_first (is_of u) (present ss) ≡ seat_of (seated ss u)
unfolding present
present-find_first u ss =
    rw
      (
        present_from-find_first u [] (keep at_seat ss),
        find_first-keep at_seat (λ s. text_eq s.user u) ss,
      )
      refl

present-Once : (ss : List Session) → Once (present ss)
unfolding present
present-Once ss = present_from-Once [] (keep at_seat ss) tt

listed-all :
    (u : Text) (xs : List (Text × Text))
    → listed u (map (λ e. e.0) xs) ≡ is_some (find_first (is_of u) xs)
listed-all u [] = refl
listed-all u (x ∷ xs) = ground (arith, listed-all u xs)

listed-any : (u : Text) (xs : List (Text × Text)) → listed u (map (λ e. e.0) xs) ≡ any (is_of u) xs
listed-any u [] = refl
listed-any u (x ∷ xs) = ground (arith, listed-any u xs)

is_some-seat_of : (o : Option Session) → is_some (seat_of o) ≡ is_some o
is_some-seat_of none = refl
is_some-seat_of (some s) = refl

holds-seat_of :
    (p : Probe) (o : Option Session)
    → holds (λ e. counts (p.input_idle e.1) p.audio_playing idle_cutoff) (seat_of o)
      ≡ elim o [ none ↦ false | some s ↦ counts (p.input_idle s.seat) p.audio_playing idle_cutoff ]
holds-seat_of p none = refl
holds-seat_of p (some s) = refl

-- Exactly the people with a session at a seat are present, and exactly those of them count for whom
-- the seat of their first such session has input that cannot be read, or input in the last five
-- minutes, or there is sound.
pub sample-listed :
    (p : Probe) (u : Text)
    → (listed u (sample p).billable ≡ counts_for p u)
      × (listed u (sample p).present ≡ is_some (seated p.sessions u))
unfolding sample billable
sample-listed p u =
    let kept =
      listed-keep u (λ e. counts (p.input_idle e.1) p.audio_playing idle_cutoff)
        (present p.sessions) (present-Once p.sessions) in
    (
      rw (kept, present-find_first u p.sessions) (holds-seat_of p (seated p.sessions u)),
      rw (listed-all u (present p.sessions), present-find_first u p.sessions)
          (is_some-seat_of (seated p.sessions u)),
    )

-- No name comes twice.
abbrev pub Distinct : List Text → Type 0
Distinct [] = Unit {0}
Distinct (x ∷ xs) = (listed x xs ≡ false) × Distinct xs

keep-Distinct :
    (f : Text × Text → Bool) (xs : List (Text × Text))
    → Once xs
    → Distinct (map (λ e. e.0) (keep f xs))
keep-Distinct f [] o = tt
keep-Distinct f (x ∷ xs) o = elim (Bool-cases (f x)) [
  | inl h ↦ rw h (listed-none x.0 f xs o.0, keep-Distinct f xs o.1)
  | inr h ↦ rw h (keep-Distinct f xs o.1)
]

all-Distinct : (xs : List (Text × Text)) → Once xs → Distinct (map (λ e. e.0) xs)
all-Distinct [] o = tt
all-Distinct (x ∷ xs) o = (rw (listed-any x.0 xs) o.0, all-Distinct xs o.1)

-- However many sessions a person has, they are present at most once and their minute counts at most
-- once.
sample-Distinct : (p : Probe) → Distinct (sample p).present × Distinct (sample p).billable
unfolding sample billable
sample-Distinct p = (
  all-Distinct (present p.sessions) (present-Once p.sessions),
  keep-Distinct (λ e. counts (p.input_idle e.1) p.audio_playing idle_cutoff) (present p.sessions)
      (present-Once p.sessions),
)
