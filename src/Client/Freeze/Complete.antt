-- ===== src/Client/Freeze/Complete.antt =====
-- Everything of the user manager's that is no plumbing is frozen.
use openscreentime.Common.{
  ℕ, ◌≡◌, refl, inl, inr, Bool, true, false, ◌&&◌, not, some, List, [], ◌∷◌, ◌++◌, arith, any,
  any-append, any-append_right, eq_of_some, Bool-cases,
}
use mathlib.Core.List.{append_assoc}
use openscreentime.Common.Text.{Text, codes, text_eq, text_eq_refl}
use openscreentime.Client.Freeze.{
  Proc, Cgroup, cgroup, Children, nil, cons, name, children, Location, child, child_of,
}
use openscreentime.Client.Freeze.Names.{is_plumbing, manager_name}
use openscreentime.Client.Freeze.Plans.{
  Login, AppExec, Stray, apps, plumbing_in, holds_plumbing, collect, collect_in, begins,
  kept_running, manager_targets, plan,
}
use openscreentime.Client.Freeze.Targets.{Child, first, later, found, session_plan_targets}

-- The cgroup at a path below c has no cgroups in it and is not `app.slice`; neither it nor any on the
-- way is plumbing.
pub data Leaf : Cgroup → Location → Type 0 where
  here :
      {n : Text} {ps : List Proc} {f : Bool}
      → is_plumbing n ≡ false
      → text_eq n (codes "app.slice") ≡ false
      → Leaf (cgroup n ps nil f) []
  below :
      {n : Text} {ps : List Proc} {ks : Children} {f : Bool} {k : Cgroup} {p : Location}
      → is_plumbing n ≡ false
      → child_of ks (name k) ≡ some k
      → Leaf k p
      → Leaf (cgroup n ps ks f) (name k ∷ p)

pub child_of-Child : {k : Cgroup} (ks : Children) (n : Text) → child_of ks n ≡ some k → Child k ks
unfolding child_of
child_of-Child nil n h = cc
child_of-Child {k = k} (cons j ks) n h = elim (Bool-cases (text_eq (name j) n)) [
  | inl e ↦ let same : j ≡ k = eq_of_some (rw e at h) in rw same first
  | inr e ↦ later (child_of-Child ks n (rw e at h))
]

-- One of the targets is the path or above it.
abbrev pub covered : List Location → Location → Bool
covered targets path = any (begins path) targets

begins-append : (path p : Location) → begins (path ++ p) path ≡ true
begins-append [] [] = refl
begins-append [] (n ∷ p) = refl
begins-append (m ∷ path) p = ground (arith, text_eq_refl m, begins-append path p)

collect_in_covers :
    {k : Cgroup} (ks : Children) (path q : Location)
    → Child k ks
    → covered (collect k (path ++ name k ∷ [])) q ≡ true
    → covered (collect_in ks path) q ≡ true
unfolding collect
collect_in_covers nil path q i h = elim i [ ]
collect_in_covers (cons k ks) path q first h =
    rw (any-append (begins q) (collect k (path ++ name k ∷ [])) (collect_in ks path), h) refl
collect_in_covers (cons j ks) path q (later i) h =
    any-append_right (begins q) (collect j (path ++ name j ∷ [])) (collect_in ks path)
      (collect_in_covers ks path q i h)

collect_covers :
    {c : Cgroup} {p : Location} (path : Location)
    → Leaf c p
    → covered (collect c path) (path ++ p) ≡ true
unfolding collect holds_plumbing
collect_covers path (here e a) = rw (e, a) (ground (arith, begins-append path []))
collect_covers path (below {n = n} {ks = ks} {k = k} {p = p} e i l) =
    elim (Bool-cases (not (text_eq n (codes "app.slice")) && not (plumbing_in ks))) [
      | inl w ↦ rw (e, w) (ground (arith, begins-append path (name k ∷ p)))
      | inr w ↦
          let inner : covered (collect k (path ++ name k ∷ [])) (path ++ name k ∷ p) ≡ true =
            rw⁻¹ (append_assoc path (name k ∷ []) p) (collect_covers (path ++ name k ∷ []) l) in
          rw (e, w)
            (collect_in_covers ks path (path ++ name k ∷ p) (child_of-Child ks (name k) i) inner)
    ]

manager_targets_covers :
    {c : Cgroup} {p : Location} (m : Text) (ks : Children)
    → Child c ks
    → kept_running (name c) ≡ false
    → Leaf c p
    → covered (manager_targets m ks) (m ∷ name c ∷ p) ≡ true
unfolding manager_targets
manager_targets_covers m nil i e l = elim i [ ]
manager_targets_covers {p = p} m (cons c ks) first e l =
    let here = collect_covers (m ∷ name c ∷ []) l in
    rw
      (
        e,
        any-append (begins (m ∷ name c ∷ p)) (collect c (m ∷ name c ∷ [])) (manager_targets m ks),
        here,
      )
      refl
manager_targets_covers {c = c} {p = p} m (cons j ks) (later i) e l =
    let rest = manager_targets_covers m ks i e l in
    elim (Bool-cases (kept_running (name j))) [
      | inl k ↦ rw k rest
      | inr k ↦ rw k (
          any-append_right (begins (m ∷ name c ∷ p)) (collect j (m ∷ name j ∷ []))
            (manager_targets m ks) rest)
    ]

-- A plan of apps has a target at or above every such leaf.
pub plan-covered :
    (slice : Cgroup) (uid : ℕ) (logins : List Login) (installed : List AppExec)
    (targets : List Location) (ss : List Stray) (m c : Cgroup) (p : Location)
    → plan slice uid logins installed ≡ some (apps targets ss)
    → (found slice uid logins installed targets ss).starting ≡ false
    → child slice (manager_name uid) ≡ some m
    → child m (name c) ≡ some c
    → kept_running (name c) ≡ false
    → Leaf c p
    → covered targets (name m ∷ name c ∷ p) ≡ true
unfolding plan
plan-covered slice uid logins installed targets ss m c p h settled e i k l =
    let s = found slice uid logins installed targets ss in
    let made : s.targets ++ manager_targets (name m) (children m) ≡ targets =
      session_plan_targets s m (child m (codes "session.slice")) installed targets ss
        (rw (settled, e) at h) in
    rw⁻¹ made (
      any-append_right (begins (name m ∷ name c ∷ p)) s.targets
        (manager_targets (name m) (children m))
        (manager_targets_covers (name m) (children m) (child_of-Child (children m) (name c) i) k l))
