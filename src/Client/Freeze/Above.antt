-- ===== src/Client/Freeze/Above.antt =====
-- Cgroups above a path, and what a path reads with the slice's own flag left aside.
use openscreentime.Common.{
  ◌≡◌, refl, Bool, true, false, Option, none, some, [], ◌∷◌, arith, is_some, is_empty,
}
use openscreentime.Common.Text.{Text, text_eq→eq}
use openscreentime.Client.Freeze.{Cgroup, cgroup, frozen, Location, child, at, frozen_at, or_frozen}
use openscreentime.Client.Freeze.Plans.{begins}
use openscreentime.Client.Freeze.Reads.{
  stands, Better, under, some_under, frozen_at_cons, write_freeze-Better,
}
use openscreentime.Client.Freeze.Writes.{write_freeze, reads_frozen}

-- What a path reads, the slice's own flag left aside.
abbrev pub below_slice : Cgroup → Location → Option Bool
below_slice c q = frozen_at (write_freeze [] false c) q

abbrev pub Proper : Location → Type 0
Proper t = is_empty t ≡ false

write_freeze_swap :
    (m : Text) (t : Location) (c : Cgroup)
    → write_freeze [] false (write_freeze (m ∷ t) true c)
      ≡ write_freeze (m ∷ t) true (write_freeze [] false c)
unfolding write_freeze
write_freeze_swap m t (cgroup n ps ks f) = refl

pub write_freeze_twice :
    (c : Cgroup) → write_freeze [] false (write_freeze [] false c) ≡ write_freeze [] false c
unfolding write_freeze
write_freeze_twice (cgroup n ps ks f) = refl

pub write_below :
    (t q : Location) (c : Cgroup)
    → Proper t
    → is_some (below_slice c q) ≡ true
    → Better (below_slice c q) (below_slice (write_freeze t true c) q) (begins q t)
write_below [] q c e h = cc e
write_below (m ∷ t) q c e h =
    rw (write_freeze_swap m t c) (write_freeze-Better (m ∷ t) q (write_freeze [] false c) h)

stands_or : (f : Bool) (o : Option Bool) → stands o ≡ true → stands (or_frozen f o) ≡ true
stands_or f none h = h
stands_or f (some g) h = ground (arith, h)

stands-under :
    (f : Bool) (o : Option Cgroup) (q : Location)
    → is_some (under f o q) ≡ true
    → f ≡ true
    → stands (under f o q) ≡ true
stands-under f none q h e = h
stands-under f (some k) q h e = rw e (frozen_or (frozen_at k q) (some_under f (frozen_at k q) h))
  where
    frozen_or : (o : Option Bool) → is_some o ≡ true → stands (or_frozen true o) ≡ true
    frozen_or none h = h
    frozen_or (some g) h = refl

abbrev at_child : Option Cgroup → Location → Option Cgroup
at_child none t = none
at_child (some k) t = at k t

at_cons : (c : Cgroup) (m : Text) (t : Location) → at c (m ∷ t) ≡ at_child (child c m) t
unfolding at
at_cons c m t =
    elim (child c m)
      as (λ o. ◌≡◌ {A = Option Cgroup} (elim o [ none ↦ none | some k ↦ at k t ]) (at_child o t)) [
        | none ↦ refl
        | some k ↦ refl
      ]

-- The cgroup found is there, and its flag is one of those that are read.
abbrev pub Above : Option Cgroup → Option Bool → Type 0
Above a o = (is_some a ≡ true) × (reads_frozen a ≡ true → stands o ≡ true)

under-Above :
    (f : Bool) (o : Option Cgroup) (q t : Location)
    → is_some (under f o q) ≡ true
    → ((k : Cgroup) → is_some (frozen_at k q) ≡ true → Above (at k t) (frozen_at k q))
    → Above (at_child o t) (under f o q)
under-Above f none q t h ih = (h, λ r. r)
under-Above f (some k) q t h ih =
    let a = ih k (some_under f (frozen_at k q) h) in (a.0, λ r. stands_or f (frozen_at k q) (a.1 r))

-- A cgroup above one that is there is there, and freezes it if it is frozen.
pub at-Above :
    (q t : Location) (c : Cgroup)
    → is_some (frozen_at c q) ≡ true
    → begins q t ≡ true
    → Above (at c t) (frozen_at c q)
at-Above [] [] c h b = unfold frozen_at at in (refl, λ r. r)
at-Above (j ∷ q) [] c h b =
    unfold at in
    rw (frozen_at_cons c j q)
      (refl, λ r. stands-under (frozen c) (child c j) q (rw (frozen_at_cons c j q) at h) r)
at-Above [] (m ∷ t) c h b = cc b
at-Above (j ∷ q) (m ∷ t) c h b =
    let same : j ≡ m = text_eq→eq j m (ground arith) in
    let b' : begins q t ≡ true = ground arith in
    rw (at_cons c m t, frozen_at_cons c j q, same)
      (under-Above (frozen c) (child c m) q t (rw (frozen_at_cons c j q, same) at h)
        (λ k i. at-Above q t k i b'))
