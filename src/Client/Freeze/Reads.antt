-- ===== src/Client/Freeze/Reads.antt =====
-- What one write of `cgroup.freeze` does to what a path reads.
use openscreentime.Common.{
  ◌≡◌, refl, ap, inl, inr, Bool, true, false, ◌||◌, Option, none, some, [], ◌∷◌, arith, is_some,
  Bool-cases,
}
use openscreentime.Common.Text.{Text, text_eq, text_eq_refl, text_eq→eq}
use openscreentime.Client.Freeze.{
  Cgroup, cgroup, Children, nil, cons, name, frozen, Location, child, child_of, frozen_at,
  or_frozen,
}
use openscreentime.Client.Freeze.Plans.{begins}
use openscreentime.Client.Freeze.Writes.{modify, write_freeze}

pub name-write_freeze :
    (t : Location) (on : Bool) (c : Cgroup) → name (write_freeze t on c) ≡ name c
unfolding write_freeze
name-write_freeze [] on (cgroup n ps ks f) = refl
name-write_freeze (m ∷ t) on (cgroup n ps ks f) = refl

abbrev map_child : (Cgroup → Cgroup) → Option Cgroup → Option Cgroup
map_child g none = none
map_child g (some k) = some (g k)

-- Writing below one child changes what is found under its name.
child_of-modify :
    (t : Location) (on : Bool) (m : Text) (ks : Children)
    → child_of (modify m (write_freeze t on) ks) m ≡ map_child (write_freeze t on) (child_of ks m)
unfolding child_of modify
child_of-modify t on m nil = refl
child_of-modify t on m (cons k ks) = elim (Bool-cases (text_eq (name k) m)) [
  | inl e ↦ rw (e, name-write_freeze t on k, e) refl
  | inr e ↦ rw (e, e) (child_of-modify t on m ks)
]

child_of-modify_other :
    (t : Location) (on : Bool) (m n : Text) (ks : Children)
    → text_eq m n ≡ false
    → child_of (modify m (write_freeze t on) ks) n ≡ child_of ks n
unfolding child_of modify
child_of-modify_other t on m n nil h = refl
child_of-modify_other t on m n (cons k ks) h = elim (Bool-cases (text_eq (name k) m)) [
  | inl e ↦
      let other : text_eq (name k) n ≡ false = rw (text_eq→eq (name k) m e) h in
      rw (e, name-write_freeze t on k, other, child_of-modify_other t on m n ks h) refl
  | inr e ↦ rw (e, child_of-modify_other t on m n ks h) refl
]

abbrev pub stands : Option Bool → Bool
stands none = false
stands (some f) = f

-- The cgroup is still there, and reads frozen if it did or if `hit`.
abbrev pub Better : Option Bool → Option Bool → Bool → Type 0
Better o o' hit = (is_some o' ≡ true) × ((stands o || hit) ≡ true → stands o' ≡ true)

pub Better-refl : (o : Option Bool) → is_some o ≡ true → Better o o false
Better-refl none h = (h, λ g. ground arith)
Better-refl (some f) h = (refl, λ g. ground arith)

-- What a path reads below a child that was looked up.
abbrev pub under : Bool → Option Cgroup → Location → Option Bool
under f none q = none
under f (some k) q = or_frozen f (frozen_at k q)

or_frozen-Better :
    (f hit : Bool) (o o' : Option Bool)
    → Better o o' hit
    → Better (or_frozen f o) (or_frozen f o') hit
or_frozen-Better f hit none none b = (b.0, λ g. cc (b.0))
or_frozen-Better f hit (some x) none b = (cc (b.0), λ g. cc (b.0))
or_frozen-Better f hit none (some y) b = (refl, λ g. ground (arith, b.1))
or_frozen-Better true hit (some x) (some y) b = (refl, λ g. refl)
or_frozen-Better false hit (some x) (some y) b = (refl, b.1)

under_frozen :
    (f : Bool) (o : Option Cgroup) (q : Location)
    → is_some (under f o q) ≡ true
    → Better (under f o q) (under true o q) true
under_frozen f none q h = (h, λ g. cc h)
under_frozen f (some k) q h = above f (frozen_at k q) h
  where
    above :
        (f : Bool) (o : Option Bool)
        → is_some (or_frozen f o) ≡ true
        → Better (or_frozen f o) (or_frozen true o) true
    above f none h = (h, λ g. cc h)
    above f (some x) h = (refl, λ g. refl)

pub some_under : (f : Bool) (o : Option Bool) → is_some (or_frozen f o) ≡ true → is_some o ≡ true
some_under f none h = h
some_under f (some x) h = refl

under-Better :
    (t q : Location) (hit f : Bool) (o : Option Cgroup)
    → ((k : Cgroup)
        → is_some (frozen_at k q) ≡ true
        → Better (frozen_at k q) (frozen_at (write_freeze t true k) q) hit)
    → is_some (under f o q) ≡ true
    → Better (under f o q) (under f (map_child (write_freeze t true) o) q) hit
under-Better t q hit f none ih h = (h, λ g. cc h)
under-Better t q hit f (some k) ih h =
    or_frozen-Better f hit (frozen_at k q) (frozen_at (write_freeze t true k) q)
      (ih k (some_under f (frozen_at k q) h))

pub frozen_at_cons :
    (c : Cgroup) (n : Text) (q : Location) → frozen_at c (n ∷ q) ≡ under (frozen c) (child c n) q
unfolding frozen_at
frozen_at_cons c n q =
    elim (child c n)
      as (λ o.
        ◌≡◌ {A = Option Bool}
          (elim o [ none ↦ none | some k ↦ or_frozen (frozen c) (frozen_at k q) ])
          (under (frozen c) o q)) [ none ↦ refl | some k ↦ refl ]

different : (m j : Text) → text_eq m j ≡ false → text_eq j m ≡ false
different m j h = elim (Bool-cases (text_eq j m)) [
  | inl e ↦ cc (h, ap (text_eq m) (text_eq→eq j m e), text_eq_refl m)
  | inr e ↦ e
]

-- A cgroup that is there reads frozen, by itself or an ancestor, after a freeze of it or above it, and
-- stays so through any freeze.
pub write_freeze-Better :
    (t q : Location) (c : Cgroup)
    → is_some (frozen_at c q) ≡ true
    → Better (frozen_at c q) (frozen_at (write_freeze t true c) q) (begins q t)
unfolding write_freeze
write_freeze-Better [] [] (cgroup n ps ks f) h = unfold frozen_at in (refl, λ d. refl)
write_freeze-Better [] (m ∷ q) (cgroup n ps ks f) h =
    rw (frozen_at_cons (cgroup n ps ks f) m q, frozen_at_cons (cgroup n ps ks true) m q)
      (under_frozen f (child_of ks m) q (rw (frozen_at_cons (cgroup n ps ks f) m q) at h))
write_freeze-Better (m ∷ t) [] (cgroup n ps ks f) h = unfold frozen_at in (refl, λ d. ground arith)
write_freeze-Better (m ∷ t) (j ∷ q) (cgroup n ps ks f) h =
    let ks' = modify m (write_freeze t true) ks in
    let h' = rw (frozen_at_cons (cgroup n ps ks f) j q) at h in
    rw (frozen_at_cons (cgroup n ps ks f) j q, frozen_at_cons (cgroup n ps ks' f) j q)
      (elim (Bool-cases (text_eq m j)) [
        | inl e ↦
            let same = text_eq→eq m j e in
            let mine : text_eq j m ≡ true = rw same (text_eq_refl j) in
            let found : child_of ks' j ≡ map_child (write_freeze t true) (child_of ks j) =
              rw same (child_of-modify t true j ks) in
            rw (mine, found)
              (under-Better t q (begins q t) f (child_of ks j) (λ k. write_freeze-Better t q k) h')
        | inr e ↦
            rw (different m j e, child_of-modify_other t true m j ks e)
              (Better-refl (under f (child_of ks j) q) h')
      ])
