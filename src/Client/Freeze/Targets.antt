-- ===== src/Client/Freeze/Targets.antt =====
-- What a plan freezes, and what it leaves running.
use openscreentime.Common.{
  ℕ, ◌≡◌, ◌||◌, refl, sym, ap, ◌∙◌, inl, inr, Bool, false, ◌&&◌, not, Option, none, some, List, [],
  ◌∷◌, ◌++◌, arith, All, All-append, All-imply, Bool-cases,
}
use mathlib.Core.List.{append_assoc, append-nil}
use openscreentime.Common.Text.{Text, codes, text_eq}
use openscreentime.Client.Freeze.{
  Proc, Cgroup, cgroup, Children, nil, cons, name, children, Location, child,
}
use openscreentime.Client.Freeze.Names.{is_plumbing, manager_name}
use openscreentime.Client.Freeze.Plans.{
  Login, AppExec, Stray, Plan, whole, apps, plumbing_in, collect, collect_in, kept_running,
  manager_targets, manager_plan, session_plan, with_strays, plan, Scopes, no_scopes, scopes_from,
  add_scope, login_of, strays,
}

pub data Child (k : Cgroup) : Children → Type 0 where
  first : {ks : Children} → Child k (cons k ks)
  later : {j : Cgroup} {ks : Children} → Child k ks → Child k (cons j ks)

-- The manager itself, and the session.
abbrev pub spared : Text → Bool
spared n = text_eq n (codes "init.scope") || text_eq n (codes "session.slice")

abbrev app_slice : Text
app_slice = codes "app.slice"

-- The cgroup at a path below c is not `app.slice`, no plumbing is in it, and none is on the way.
pub data Clean : Cgroup → Location → Type 0 where
  here :
      {n : Text} {ps : List Proc} {ks : Children} {f : Bool}
      → is_plumbing n ≡ false
      → text_eq n app_slice ≡ false
      → plumbing_in ks ≡ false
      → Clean (cgroup n ps ks f) []
  below :
      {n : Text} {ps : List Proc} {ks : Children} {f : Bool} {k : Cgroup} {p : Location}
      → is_plumbing n ≡ false
      → Child k ks
      → Clean k p
      → Clean (cgroup n ps ks f) (name k ∷ p)

abbrev From : Cgroup → Location → Location → Type 0
From c path t = (p : Location) × (t ≡ path ++ p) × Clean c p

abbrev FromIn : Children → Location → Location → Type 0
FromIn ks path t = (k : Cgroup) × (p : Location) × (t ≡ path ++ name k ∷ p) × Child k ks × Clean k p

mutual
  unfolding collect

  collect-Clean : (c : Cgroup) (path : Location) → All (From c path) (collect c path)
  collect-Clean (cgroup n ps ks f) path = elim (Bool-cases (is_plumbing n)) [
    | inl e ↦ rw e tt
    | inr e ↦ elim (Bool-cases (not (text_eq n (codes "app.slice")) && not (plumbing_in ks))) [
      | inl w ↦ rw (e, w) (([], sym (append-nil path), here e (ground arith) (ground arith)), tt)
      | inr w ↦
          rw (e, w)
            (All-imply (FromIn ks path) (From (cgroup n ps ks f) path) (collect_in ks path)
              (λ t d. (name d.0 ∷ d.1, d.2, below e d.3 d.4)) (collect_in-Clean ks path))
    ]
  ]

  collect_in-Clean : (ks : Children) (path : Location) → All (FromIn ks path) (collect_in ks path)
  collect_in-Clean nil path = tt
  collect_in-Clean (cons k ks) path =
      All-append (FromIn (cons k ks) path) (collect k (path ++ name k ∷ [])) (collect_in ks path)
        (All-imply (From k (path ++ name k ∷ [])) (FromIn (cons k ks) path)
          (collect k (path ++ name k ∷ []))
          (λ t d. (k, d.0, d.1 ∙ append_assoc path (name k ∷ []) d.0, first, d.2))
          (collect-Clean k (path ++ name k ∷ [])))
        (All-imply (FromIn ks path) (FromIn (cons k ks) path) (collect_in ks path)
          (λ t d. (d.0, d.1, d.2, later d.3, d.4)) (collect_in-Clean ks path))

-- Why a plan freezes a path: it is the scope of a text or SSH login, or a clean cgroup that the user
-- manager runs, outside `init.scope` and `session.slice`.
pub data Stopped (slice : Cgroup) (uid : ℕ) (logins : List Login) (t : Location) : Type 0 where
  login_scope :
      {c : Cgroup} {l : Login}
      → Child c (children slice)
      → login_of logins (name c) ≡ some l
      → l.graphical ≡ false
      → t ≡ name c ∷ []
      → Stopped slice uid logins t
  unit :
      {m c : Cgroup} {p : Location}
      → child slice (manager_name uid) ≡ some m
      → Child c (children m)
      → spared (name c) ≡ false
      → Clean c p
      → t ≡ name m ∷ name c ∷ p
      → Stopped slice uid logins t

module _ (logins : List Login) (P : Location → Type 0) where
  abbrev Adds : Children → Type 0
  Adds ks =
      (c : Cgroup) (l : Login)
      → Child c ks
      → login_of logins (name c) ≡ some l
      → l.graphical ≡ false
      → P (name c ∷ [])

  add_scope-All :
      (c : Cgroup) (o : Option Login) (s : Scopes)
      → ((l : Login) → o ≡ some l → l.graphical ≡ false → P (name c ∷ []))
      → All P s.targets
      → All P (add_scope c o s).targets
  unfolding add_scope
  add_scope-All c none s f h = h
  add_scope-All c (some l) s f h = elim (Bool-cases l.graphical) [
    | inl e ↦ let kept : (add_scope c (some l) s).targets ≡ s.targets = ground arith in rw kept h
    | inr e ↦ rw e (All-append P s.targets ((name c ∷ []) ∷ []) h (f l refl e, tt))
  ]

  scopes_from-All :
      (ks : Children) (s : Scopes)
      → Adds ks
      → All P s.targets
      → All P (scopes_from logins ks s).targets
  unfolding scopes_from
  scopes_from-All nil s f h = h
  scopes_from-All (cons c ks) s f h =
      scopes_from-All ks (add_scope c (login_of logins (name c)) s)
        (λ d l i e g. f d l (later i) e g)
        (add_scope-All c (login_of logins (name c)) s (λ l e g. f c l first e g) h)

abbrev UnitOf : Text → Children → Location → Type 0
UnitOf m ks t =
    (c : Cgroup) × (p : Location) × Child c ks
    × (kept_running (name c) ≡ false)
    × Clean c p
    × (t ≡ m ∷ name c ∷ p)

manager_targets-All : (m : Text) (ks : Children) → All (UnitOf m ks) (manager_targets m ks)
unfolding manager_targets
manager_targets-All m nil = tt
manager_targets-All m (cons c ks) =
    let rest =
      All-imply (UnitOf m ks) (UnitOf m (cons c ks)) (manager_targets m ks)
        (λ t d. (d.0, d.1, later d.2, d.3, d.4, d.5)) (manager_targets-All m ks) in
    elim (Bool-cases (kept_running (name c))) [
      | inl e ↦ rw e rest
      | inr e ↦ rw e (
          All-append (UnitOf m (cons c ks)) (collect c (m ∷ name c ∷ [])) (manager_targets m ks)
            (All-imply (From c (m ∷ name c ∷ [])) (UnitOf m (cons c ks))
              (collect c (m ∷ name c ∷ [])) (λ t d. (c, d.0, first, e, d.2, d.1))
              (collect-Clean c (m ∷ name c ∷ [])))
            rest)
    ]

abbrev targets_of : Option Plan → List Location
targets_of none = []
targets_of (some whole) = []
targets_of (some (apps targets ss)) = targets

with_strays_targets :
    (ts targets : List Location) (o : Option (List Stray)) (ss : List Stray)
    → with_strays ts o ≡ some (apps targets ss)
    → ts ≡ targets
with_strays_targets ts targets none ss h = cc
with_strays_targets ts targets (some st) ss h = ap targets_of h

pub session_plan_targets :
    (s : Scopes) (m : Cgroup) (o : Option Cgroup) (installed : List AppExec)
    (targets : List Location) (ss : List Stray)
    → session_plan s m o installed ≡ some (apps targets ss)
    → s.targets ++ manager_targets (name m) (children m) ≡ targets
session_plan_targets s m none installed targets ss h = cc
session_plan_targets s m (some session) installed targets ss h = elim (Bool-cases s.legacy) [
  | inl e ↦ let h' : some whole ≡ some (apps targets ss) = rw e at h in cc h'
  | inr e ↦
      with_strays_targets (s.targets ++ manager_targets (name m) (children m)) targets
        (strays session installed) ss (rw e at h)
]

-- What a plan of apps is made of.
MadeOf : Scopes → Option Cgroup → List Location → Type 0
MadeOf s o targets =
    (m : Cgroup) × (o ≡ some m) × (s.targets ++ manager_targets (name m) (children m) ≡ targets)

manager_plan-MadeOf :
    (s : Scopes) (o : Option Cgroup) (installed : List AppExec) (targets : List Location)
    (ss : List Stray)
    → manager_plan s o installed ≡ some (apps targets ss)
    → MadeOf s o targets
unfolding MadeOf
manager_plan-MadeOf s none installed targets ss h = cc
manager_plan-MadeOf s (some m) installed targets ss h =
    (m, refl, session_plan_targets s m (child m (codes "session.slice")) installed targets ss h)

module _ (slice : Cgroup) (uid : ℕ) (logins : List Login) (installed : List AppExec)
    (targets : List Location) (ss : List Stray) where
  abbrev pub found : Scopes
  found = scopes_from logins (children slice) no_scopes

  found-Stopped : All (Stopped slice uid logins) found.targets
  found-Stopped =
      scopes_from-All logins (Stopped slice uid logins) (children slice) no_scopes
        (λ c l i e g. login_scope i e g refl) tt

  MadeOf-Stopped :
      MadeOf found (child slice (manager_name uid)) targets → All (Stopped slice uid logins) targets
  unfolding MadeOf
  MadeOf-Stopped (m, e, made) = rw⁻¹ made (
      All-append (Stopped slice uid logins) found.targets (manager_targets (name m) (children m))
        found-Stopped
        (All-imply (UnitOf (name m) (children m)) (Stopped slice uid logins)
          (manager_targets (name m) (children m)) (λ t d. unit e d.2 d.3 d.4 d.5)
          (manager_targets-All (name m) (children m))))

  pub plan-Stopped_apps :
      plan slice uid logins installed ≡ some (apps targets ss)
      → All (Stopped slice uid logins) targets
  unfolding plan
  plan-Stopped_apps h = elim (Bool-cases found.starting) [
    | inl e ↦
        let same : found.targets ≡ targets = ap targets_of (rw e at h) in rw⁻¹ same found-Stopped
    | inr e ↦ MadeOf-Stopped (
        manager_plan-MadeOf found (child slice (manager_name uid)) installed targets ss (rw e at h))
  ]
