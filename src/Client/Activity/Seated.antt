-- ===== src/Client/Activity/Seated.antt =====
-- The list of people at a seat, person by person.
use openscreentime.Common.{
  ◌≡◌, refl, Bool, true, false, ◌&&◌, Option, none, some, List, [], ◌∷◌, ◌++◌, map, arith,
  if◌then◌else◌, keep, any, is_some, find_first, Bool-cases, inl, inr, any-append, sym, ap,
}
use openscreentime.Common.Text.{Text, text_eq, text_eq_refl, text_eq→eq}
use openscreentime.Client.Activity.{Session, at_seat, present_from}

abbrev pub is_of : Text → Text × Text → Bool
is_of u e = text_eq e.0 u

abbrev pub seat_of : Option Session → Option (Text × Text)
seat_of none = none
seat_of (some s) = some (s.user, s.seat)

abbrev or_else : Option (Text × Text) → Option (Text × Text) → Option (Text × Text)
or_else none o = o
or_else (some e) o = some e

find_first-append :
    (u : Text) (xs : List (Text × Text)) (e : Text × Text)
    → find_first (is_of u) (xs ++ e ∷ [])
      ≡ or_else (find_first (is_of u) xs) (if is_of u e then some e else none)
find_first-append u [] e = refl
find_first-append u (x ∷ xs) e = elim (Bool-cases (is_of u x)) [
  | inl h ↦ rw h refl
  | inr h ↦ rw h (find_first-append u xs e)
]

find_first_none :
    (u : Text) (xs : List (Text × Text))
    → any (is_of u) xs ≡ true
    → is_some (find_first (is_of u) xs) ≡ true
find_first_none u [] h = ground arith
find_first_none u (x ∷ xs) h = elim (Bool-cases (is_of u x)) [
  | inl mine ↦ rw mine refl
  | inr other ↦ rw other (find_first_none u xs (ground arith))
]

or_else-none : (o : Option (Text × Text)) → or_else o none ≡ o
or_else-none none = refl
or_else-none (some e) = refl

or_else-some : (o a b : Option (Text × Text)) → is_some o ≡ true → or_else o a ≡ or_else o b
or_else-some none a b h = ground arith
or_else-some (some e) a b h = refl

or_else_assoc : (o a b : Option (Text × Text)) → or_else (or_else o a) b ≡ or_else o (or_else a b)
or_else_assoc none a b = refl
or_else_assoc (some e) a b = refl

-- The entry of a user after a loop is the one there was, or the first session's.
pub present_from-find_first :
    (u : Text) (out : List (Text × Text)) (ss : List Session)
    → find_first (is_of u) (present_from out ss)
      ≡ or_else (find_first (is_of u) out) (seat_of (find_first (λ s. text_eq s.user u) ss))
unfolding present_from
present_from-find_first u out [] = sym (or_else-none (find_first (is_of u) out))
present_from-find_first u out (s ∷ ss) = elim (Bool-cases (any (is_of s.user) out)) [
  | inl listed ↦ elim (Bool-cases (text_eq s.user u)) [
    | inl mine ↦
        let there = find_first_none u out (rw (sym (text_eq→eq s.user u mine)) listed) in
        let rest = find_first (λ s'. text_eq s'.user u) ss in
        rw (listed, mine, present_from-find_first u out ss)
          (or_else-some (find_first (is_of u) out) (seat_of rest) (some (s.user, s.seat)) there)
    | inr other ↦ rw (listed, other) (present_from-find_first u out ss)
  ]
  | inr new ↦
      let e : Text × Text = (s.user, s.seat) in
      let rest = seat_of (find_first (λ s'. text_eq s'.user u) ss) in
      let own : Option (Text × Text) = if is_of u e then some e else none in
      let step = present_from-find_first u (out ++ e ∷ []) ss in
      let here = find_first (is_of u) out in
      rw (new, step, find_first-append u out e, or_else_assoc here own rest)
        (elim (Bool-cases (text_eq s.user u)) [
          | inl mine ↦ rw mine refl
          | inr other ↦ rw other refl
        ])
]

-- No user has two entries.
abbrev pub Once : List (Text × Text) → Type 0
Once [] = Unit {0}
Once (e ∷ es) = (any (is_of e.0) es ≡ false) × Once es

text_eq_sym : (s t : Text) → text_eq s t ≡ false → text_eq t s ≡ false
text_eq_sym s t h = elim (Bool-cases (text_eq t s)) [
  | inl same ↦ let e : t ≡ s = text_eq→eq t s same in cc (h, ap (text_eq s) e, text_eq_refl s)
  | inr other ↦ other
]

append-Once :
    (xs : List (Text × Text)) (e : Text × Text)
    → any (is_of e.0) xs ≡ false
    → Once xs
    → Once (xs ++ e ∷ [])
append-Once [] e new o = (refl, tt)
append-Once (x ∷ xs) e new o =
    let apart : text_eq e.0 x.0 ≡ false = text_eq_sym x.0 e.0 (ground arith) in
    (ground (arith, any-append (is_of x.0) xs (e ∷ [])), append-Once xs e (ground arith) o.1)

pub present_from-Once :
    (out : List (Text × Text)) (ss : List Session) → Once out → Once (present_from out ss)
unfolding present_from
present_from-Once out [] o = o
present_from-Once out (s ∷ ss) o = elim (Bool-cases (any (is_of s.user) out)) [
  | inl h ↦ rw h (present_from-Once out ss o)
  | inr h ↦
      rw h
        (present_from-Once (out ++ (s.user, s.seat) ∷ []) ss (append-Once out (s.user, s.seat) h o))
]

pub find_first-keep :
    (p q : Session → Bool) (ss : List Session)
    → find_first q (keep p ss) ≡ find_first (λ s. p s && q s) ss
find_first-keep p q [] = refl
find_first-keep p q (s ∷ ss) = elim (Bool-cases (p s)) [
  | inl h ↦ rw (h, find_first-keep p q ss) refl
  | inr h ↦ rw (h, find_first-keep p q ss) refl
]

abbrev pub listed : Text → List Text → Bool
listed u xs = any (λ v. text_eq v u) xs

abbrev pub holds : (Text × Text → Bool) → Option (Text × Text) → Bool
holds p none = false
holds p (some e) = p e

pub listed-none :
    (u : Text) (p : Text × Text → Bool) (xs : List (Text × Text))
    → any (is_of u) xs ≡ false
    → listed u (map (λ e. e.0) (keep p xs)) ≡ false
listed-none u p [] h = refl
listed-none u p (x ∷ xs) h = ground (arith, listed-none u p xs)

pub listed-keep :
    (u : Text) (p : Text × Text → Bool) (xs : List (Text × Text))
    → Once xs
    → listed u (map (λ e. e.0) (keep p xs)) ≡ holds p (find_first (is_of u) xs)
listed-keep u p [] o = refl
listed-keep u p (x ∷ xs) o = elim (Bool-cases (is_of u x)) [
  | inl mine ↦
      let away : any (is_of u) xs ≡ false = rw (sym (text_eq→eq x.0 u mine)) o.0 in
      ground (arith, listed-none u p xs away)
  | inr other ↦ ground (arith, listed-keep u p xs o.1)
]

-- The first session of a person that is at a seat.
abbrev pub seated : List Session → Text → Option Session
seated ss u = find_first (λ s. at_seat s && text_eq s.user u) ss
