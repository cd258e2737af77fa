-- ===== src/Client/Freeze/Families.antt =====
-- The loops over the processes of a unit end within their fuel, so `plan` returns a plan.
use openscreentime.Common.{
  ℕ, zero, suc, ◌+◌, ◌≤◌, ◌≡◌, refl, ◌∙◌, inl, inr, true, false, ◌&&◌, ◌||◌, not, Option, none,
  some, List, [], ◌∷◌, ◌++◌, arith, ◌==◌, contains, keep, length, length-append, length-keep, All,
  All-imply, is_some, Bool-cases,
}
use mathlib.Core.List.{append_assoc}
use openscreentime.Common.Text.{codes}
use openscreentime.Client.Freeze.{
  Proc, Cgroup, cgroup, Children, nil, cons, Location, name, children, child,
}
use openscreentime.Client.Freeze.Names.{manager_name}
use openscreentime.Client.Freeze.Plans.{
  AppExec, Stray, Login, joining, grow, family_of, strays_among, strays, strays_in, with_stray,
  both, app_of, main_of, manager_targets, no_scopes, Scopes, scopes_from, session_plan,
  manager_plan, plan, with_strays,
}

contains-append :
    (xs ys : List ℕ) (a : ℕ) → contains (xs ++ ys) a ≡ (contains xs a || contains ys a)
contains-append [] ys a = refl
contains-append (x ∷ xs) ys a = ground (arith, contains-append xs ys a)

contains_self : (xs : List ℕ) → All (λ x. contains xs x ≡ true) xs
contains_self [] = tt
contains_self (x ∷ xs) = (
  ground arith,
  All-imply (λ y. contains xs y ≡ true) (λ y. contains (x ∷ xs) y ≡ true) xs
      (λ y h. rw h (ground arith)) (contains_self xs),
)

-- The processes that are not in a family.
abbrev unseen : List Proc → List ℕ → ℕ
unseen ps family = length (keep (λ k. not (contains family k.pid)) ps)

unseen-joining :
    (ps : List Proc) (family new : List ℕ) (p : ℕ)
    → All (λ x. contains new x ≡ true) (joining ps family p)
    → unseen ps (family ++ new) + length (joining ps family p) ≤ unseen ps family
unseen-joining [] family new p h = omega arith
unseen-joining (k ∷ ps) family new p h =
    let both = contains-append family new k.pid in
    elim (Bool-cases (contains family k.pid)) [
      | inl e ↦
          let skipped : ((k.ppid == p) && not (contains family k.pid)) ≡ false = ground arith in
          let old : contains (family ++ new) k.pid ≡ true = ground arith in
          rw (skipped, old, e) (unseen-joining ps family new p (rw skipped at h))
      | inr e ↦ elim (Bool-cases (k.ppid == p)) [
        | inl f ↦
            let joins : ((k.ppid == p) && not (contains family k.pid)) ≡ true = ground arith in
            let h' : All (λ x. contains new x ≡ true) (k.pid ∷ joining ps family p) =
              rw joins at h in
            let old : contains (family ++ new) k.pid ≡ true = both ∙ ground (arith, h'.0) in
            let rest = unseen-joining ps family new p h'.1 in
            rw (joins, old, e) (omega (arith, rest))
        | inr f ↦
            let skipped : ((k.ppid == p) && not (contains family k.pid)) ≡ false = ground arith in
            let rest = unseen-joining ps family new p (rw skipped at h) in
            rw (skipped, e) (ground (arith, rest))
      ]
    ]

grow_total :
    (fuel : ℕ) (ps : List Proc) (done rest : List ℕ)
    → unseen ps (done ++ rest) + length rest ≤ fuel
    → (family : List ℕ) × (grow fuel ps done rest ≡ some family)
unfolding grow
grow_total fuel ps done [] h = (done, refl)
grow_total zero ps done (p ∷ rest) h = absurd (omega arith)
grow_total (suc fuel) ps done (p ∷ rest) h =
    let family = done ++ p ∷ rest in
    let new = joining ps family p in
    let less = unseen-joining ps family new p (contains_self new) in
    let same : (done ++ p ∷ []) ++ (rest ++ new) ≡ family ++ new = simp append_assoc in
    grow_total fuel ps (done ++ p ∷ []) (rest ++ new)
      (rw (same, length-append rest new) (omega (arith, less, h)))

family_of_total : (ps : List Proc) (pid : ℕ) → (family : List ℕ) × (family_of ps pid ≡ some family)
family_of_total ps pid =
    grow_total (suc (length ps)) ps [] (pid ∷ [])
      (omega (arith, length-keep (λ k. not (contains (pid ∷ []) k.pid)) ps))

with_stray_total :
    (app : AppExec) (family : List ℕ) (o : Option (List Stray))
    → is_some o ≡ true
    → is_some (with_stray app family o) ≡ true
with_stray_total app family none h = cc
with_stray_total app family (some out) h = refl

both_total :
    (a b : Option (List Stray)) → is_some a ≡ true → is_some b ≡ true → is_some (both a b) ≡ true
both_total none b h k = cc
both_total (some a) none h k = cc
both_total (some a) (some b) h k = refl

-- What one process adds, once the rest of the loop is known to end.
one_total :
    (ps : List Proc) (p : Proc) (taken : List ℕ) (rest : List ℕ → Option (List Stray))
    (o : Option AppExec)
    → ((t : List ℕ) → is_some (rest t) ≡ true)
    → is_some (elim o [
      | none ↦ rest taken
      | some app ↦ elim (family_of ps p.pid) [
        | none ↦ none
        | some family ↦ with_stray app family (rest (taken ++ family))
      ]
    ])
      ≡ true
one_total ps p taken rest none h = h taken
one_total ps p taken rest (some app) h =
    let (family, e) = family_of_total ps p.pid in
    rw e (with_stray_total app family (rest (taken ++ family)) (h (taken ++ family)))

strays_among_total :
    (ps : List Proc) (main : Option ℕ) (installed : List AppExec) (taken : List ℕ)
    (more : List Proc)
    → is_some (strays_among ps main installed taken more) ≡ true
unfolding strays_among
strays_among_total ps main installed taken [] = refl
strays_among_total ps main installed taken (p ∷ more) =
    one_total ps p taken (λ t. strays_among ps main installed t more)
      (app_of main installed taken p) (λ t. strays_among_total ps main installed t more)

mutual
  unfolding strays

  strays_total : (c : Cgroup) (installed : List AppExec) → is_some (strays c installed) ≡ true
  strays_total (cgroup n ps ks f) installed =
      both_total (strays_among ps (main_of ps) installed [] ps) (strays_in ks installed)
        (strays_among_total ps (main_of ps) installed [] ps) (strays_in_total ks installed)

  strays_in_total :
      (ks : Children) (installed : List AppExec) → is_some (strays_in ks installed) ≡ true
  strays_in_total nil installed = refl
  strays_in_total (cons k ks) installed =
      both_total (strays_in ks installed) (strays k installed) (strays_in_total ks installed)
        (strays_total k installed)

with_strays_total :
    (targets : List Location) (o : Option (List Stray))
    → is_some o ≡ true
    → is_some (with_strays targets o) ≡ true
with_strays_total targets none h = cc
with_strays_total targets (some ss) h = refl

session_plan_total :
    (s : Scopes) (m : Cgroup) (o : Option Cgroup) (installed : List AppExec)
    → is_some (session_plan s m o installed) ≡ true
session_plan_total s m none installed = refl
session_plan_total s m (some session) installed = elim (Bool-cases s.legacy) [
  | inl e ↦ rw e refl
  | inr e ↦ rw e (
      with_strays_total (s.targets ++ manager_targets (name m) (children m))
        (strays session installed) (strays_total session installed))
]

manager_plan_total :
    (s : Scopes) (o : Option Cgroup) (installed : List AppExec)
    → is_some (manager_plan s o installed) ≡ true
manager_plan_total s none installed = refl
manager_plan_total s (some m) installed =
    session_plan_total s m (child m (codes "session.slice")) installed

-- `plan` always returns a plan.
pub plan_total :
    (slice : Cgroup) (uid : ℕ) (logins : List Login) (installed : List AppExec)
    → is_some (plan slice uid logins installed) ≡ true
unfolding plan
plan_total slice uid logins installed =
    let s = scopes_from logins (children slice) no_scopes in
    elim (Bool-cases s.starting) [
      | inl e ↦ rw e refl
      | inr e ↦ rw e (manager_plan_total s (child slice (manager_name uid)) installed)
    ]
