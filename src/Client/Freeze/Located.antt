-- ===== src/Client/Freeze/Located.antt =====
-- Where a tree is frozen, and that the walks of it find every such place.
use openscreentime.Common.{◌≡◌, inl, inr, Bool, true, false, List, [], ◌∷◌, ◌++◌, arith, Bool-cases}
use mathlib.Core.List.{append_assoc, append-nil}
use openscreentime.Common.Text.{Text}
use openscreentime.Client.Freeze.{
  Proc, Cgroup, cgroup, Children, nil, cons, name, Location, any_frozen, any_frozen_in,
  frozen_below, frozen_below_in,
}
use openscreentime.Client.Freeze.Targets.{Child, first, later}

-- The cgroup at a path below c is frozen.
pub data FrozenAt : Cgroup → Location → Type 0 where
  here : {n : Text} {ps : List Proc} {ks : Children} → FrozenAt (cgroup n ps ks true) []
  below :
      {n : Text} {ps : List Proc} {ks : Children} {f : Bool} {k : Cgroup} {p : Location}
      → Child k ks
      → FrozenAt k p
      → FrozenAt (cgroup n ps ks f) (name k ∷ p)

-- Membership in a list of paths.
pub data Among (t : Location) : List Location → Type 0 where
  first_of : {ts : List Location} → Among t (t ∷ ts)
  later_of : {u : Location} {ts : List Location} → Among t ts → Among t (u ∷ ts)

pub Among-append_left : {t : Location} (ts us : List Location) → Among t ts → Among t (ts ++ us)
Among-append_left [] us i = elim i [ ]
Among-append_left (t ∷ ts) us first_of = first_of
Among-append_left (u ∷ ts) us (later_of i) = later_of (Among-append_left ts us i)

pub Among-append_right : {t : Location} (ts us : List Location) → Among t us → Among t (ts ++ us)
Among-append_right [] us i = i
Among-append_right (u ∷ ts) us i = later_of (Among-append_right ts us i)

frozen_below_in_Child :
    {k : Cgroup} {t : Location} (ks : Children) (path : Location)
    → Child k ks
    → Among t (frozen_below k (path ++ name k ∷ []))
    → Among t (frozen_below_in ks path)
unfolding frozen_below
frozen_below_in_Child nil path i m = elim i [ ]
frozen_below_in_Child (cons k ks) path first m =
    Among-append_left (frozen_below k (path ++ name k ∷ [])) (frozen_below_in ks path) m
frozen_below_in_Child (cons j ks) path (later i) m =
    Among-append_right (frozen_below j (path ++ name j ∷ [])) (frozen_below_in ks path)
      (frozen_below_in_Child ks path i m)

-- `frozen_paths` finds them all.
pub frozen_below-FrozenAt :
    {c : Cgroup} {t : Location} (path : Location)
    → FrozenAt c t
    → Among (path ++ t) (frozen_below c path)
unfolding frozen_below
frozen_below-FrozenAt path here = rw (append-nil path) first_of
frozen_below-FrozenAt path (below {ks = ks} {f = f} {k = k} {p = p} i l) =
    let inner : Among (path ++ name k ∷ p) (frozen_below k (path ++ name k ∷ [])) =
      rw⁻¹ (append_assoc path (name k ∷ []) p) (frozen_below-FrozenAt (path ++ name k ∷ []) l) in
    elim (Bool-cases f) [
      | inl e ↦ rw e (later_of (frozen_below_in_Child ks path i inner))
      | inr e ↦ rw e (frozen_below_in_Child ks path i inner)
    ]

mutual
  unfolding any_frozen

  pub any_frozen-FrozenAt : (c : Cgroup) → any_frozen c ≡ true → (t : Location) × FrozenAt c t
  any_frozen-FrozenAt (cgroup n ps ks true) h = ([], here)
  any_frozen-FrozenAt (cgroup n ps ks false) h =
      let (k, t, i, l) = any_frozen_in-FrozenAt ks h in (name k ∷ t, below i l)

  any_frozen_in-FrozenAt :
      (ks : Children)
      → any_frozen_in ks ≡ true
      → (k : Cgroup) × (t : Location) × Child k ks × FrozenAt k t
  any_frozen_in-FrozenAt nil h = cc
  any_frozen_in-FrozenAt (cons k ks) h = elim (Bool-cases (any_frozen k)) [
    | inl e ↦ let (t, l) = any_frozen-FrozenAt k e in (k, t, first, l)
    | inr e ↦ let (j, t, i, l) = any_frozen_in-FrozenAt ks (ground arith) in (j, t, later i, l)
  ]
