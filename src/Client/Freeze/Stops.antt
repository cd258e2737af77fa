-- ===== src/Client/Freeze/Stops.antt =====
-- A plan that is made and applied freezes every app of the person.
use openscreentime.Common.{
  ℕ, ◌≡◌, refl, ◌∙◌, inl, inr, Bool, true, false, Option, none, some, List, [], ◌∷◌, is_some,
  Bool-cases, eq_of_some, All, All-imply,
}
use openscreentime.Common.Text.{Text, text_eq, text_eq→eq}
use openscreentime.Client.Freeze.{
  Cgroup, cgroup, Children, nil, cons, name, children, frozen, Location, child, child_of, frozen_at,
  or_frozen,
}
use openscreentime.Client.Freeze.Names.{manager_name}
use openscreentime.Client.Freeze.Plans.{Login, AppExec, Stray, apps, plan}
use openscreentime.Client.Freeze.Targets.{
  found, spared, Stopped, login_scope, unit, plan-Stopped_apps,
}
use openscreentime.Client.Freeze.Complete.{Leaf, here, below, plan-covered}
use openscreentime.Client.Freeze.Reads.{frozen_at_cons}
use openscreentime.Client.Freeze.Above.{below_slice, Proper}
use openscreentime.Client.Freeze.Applied.{LeavesAlone, apply-covered}
use openscreentime.Client.Freeze.Writes.{write_freeze, apply}

name-child_of : {k : Cgroup} (ks : Children) (n : Text) → child_of ks n ≡ some k → name k ≡ n
unfolding child_of
name-child_of nil n h = cc
name-child_of {k = k} (cons j ks) n h = elim (Bool-cases (text_eq (name j) n)) [
  | inl e ↦ let same : j ≡ k = eq_of_some (rw e at h) in rw⁻¹ same (text_eq→eq (name j) n e)
  | inr e ↦ name-child_of ks n (rw e at h)
]

is_some_or : (f : Bool) (o : Option Bool) → is_some o ≡ true → is_some (or_frozen f o) ≡ true
is_some_or f none h = h
is_some_or f (some x) h = refl

-- Below a child that is there, what is there is there.
there_below :
    {k : Cgroup} (c : Cgroup) (n : Text) (q : Location)
    → child c n ≡ some k
    → is_some (frozen_at k q) ≡ true
    → is_some (frozen_at c (n ∷ q)) ≡ true
there_below {k = k} c n q e h =
    rw (frozen_at_cons c n q, e) (is_some_or (frozen c) (frozen_at k q) h)

there_Leaf : {c : Cgroup} {p : Location} → Leaf c p → is_some (frozen_at c p) ≡ true
there_Leaf (here e a) = unfold frozen_at in refl
there_Leaf (below {n = n} {ps = ps} {ks = ks} {f = f} {k = k} {p = p} e i l) =
    there_below (cgroup n ps ks f) (name k) p i (there_Leaf l)

child_slice : (slice : Cgroup) (n : Text) → child (write_freeze [] false slice) n ≡ child slice n
unfolding write_freeze
child_slice (cgroup m ps ks f) n = refl

Stopped-Proper :
    (slice : Cgroup) (uid : ℕ) (logins : List Login) (t : Location)
    → Stopped slice uid logins t
    → Proper t
Stopped-Proper slice uid logins t (login_scope i e g s) = rw s refl
Stopped-Proper slice uid logins t (unit m i k c s) = rw s refl

-- Once no graphical login is still starting, the plan of a person's apps, applied to the tree it was
-- made from, freezes every cgroup that their user manager runs outside `init.scope` and
-- `session.slice`, has no cgroups in it, is not `app.slice` itself, and is neither plumbing nor below
-- any: it reads frozen by itself or by a cgroup above it below the slice, also where the freeze of the
-- whole slice comes off. Filing a stray leaves what the cgroup reads as it is.
pub apply-below_slice :
    (adopt : Cgroup → Stray → Cgroup × Option Text) (slice : Cgroup) (uid : ℕ) (logins : List Login)
    (installed : List AppExec) (targets : List Location) (ss : List Stray) (m c : Cgroup)
    (p : Location)
    → plan slice uid logins installed ≡ some (apps targets ss)
    → (found slice uid logins installed targets ss).starting ≡ false
    → child slice (manager_name uid) ≡ some m
    → child m (name c) ≡ some c
    → spared (name c) ≡ false
    → Leaf c p
    → LeavesAlone adopt (manager_name uid ∷ name c ∷ p)
    → below_slice (apply adopt uid slice (apps targets ss)).0 (manager_name uid ∷ name c ∷ p)
      ≡ some true
apply-below_slice adopt slice uid logins installed targets ss m c p h settled e i k l leaves =
    let q = manager_name uid ∷ name c ∷ p in
    let named : name m ≡ manager_name uid = name-child_of (children slice) (manager_name uid) e in
    let there : is_some (below_slice slice q) ≡ true =
      there_below (write_freeze [] false slice) (manager_name uid) (name c ∷ p)
        (child_slice slice (manager_name uid) ∙ e) (there_below m (name c) p i (there_Leaf l)) in
    let proper : All Proper targets =
      All-imply (Stopped slice uid logins) Proper targets (Stopped-Proper slice uid logins)
        (plan-Stopped_apps slice uid logins installed targets ss h) in
    apply-covered adopt q uid slice targets ss leaves proper there
      (rw named at (plan-covered slice uid logins installed targets ss m c p h settled e i k l))
