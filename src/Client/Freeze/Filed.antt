-- ===== src/Client/Freeze/Filed.antt =====
-- The strays that a plan files: the processes that the session started of installed apps.
use openscreentime.Common.{
  ℕ, zero, suc, ◌≡◌, ◌≢◌, refl, ap, inl, inr, ◌&&◌, not, Option, none, some, List, [], ◌∷◌, ◌++◌,
  arith, ◌==◌, ==_iff, contains, find_first, length, All, All-append, All-imply, Bool-cases,
  Option-cases,
}
use openscreentime.Common.Text.{codes}
use openscreentime.Client.Freeze.{Proc, Cgroup, cgroup, Children, nil, cons, procs, children, child}
use openscreentime.Client.Freeze.Names.{manager_name}
use openscreentime.Client.Freeze.Plans.{
  AppExec, Stray, joining, grow, family_of, with_stray, app_of, strays_among, both, main_of, runs,
  strays, strays_in,
}
use openscreentime.Client.Freeze.Targets.{Child, first, later}

-- A process of a list.
pub data Member (p : Proc) : List Proc → Type 0 where
  head_of : {ps : List Proc} → Member p (p ∷ ps)
  tail_of : {q : Proc} {ps : List Proc} → Member p ps → Member p (q ∷ ps)

-- The pid is that of the process `root`, or of one below it by the parents that the processes name.
pub data Descendant (ps : List Proc) (root : ℕ) : ℕ → Type 0 where
  itself : Descendant ps root root
  child_process :
      {pid : ℕ} {k : Proc}
      → Member k ps
      → Descendant ps root k.ppid
      → k.pid ≡ pid
      → Descendant ps root pid

-- A stray of a cgroup with the processes ps: one that is not the main process and runs an installed
-- app, with processes below it.
pub data FiledIn (ps : List Proc) (installed : List AppExec) (s : Stray) : Type 0 where
  stray_of :
      {p : Proc} {app : AppExec}
      → Member p ps
      → (main_of ps ≢ some p.pid)
      → find_first (runs p.argv) installed ≡ some app
      → s.app ≡ app.id
      → All (Descendant ps p.pid) s.pids
      → FiledIn ps installed s

-- A cgroup, or one below it.
pub data Within (c : Cgroup) : Cgroup → Type 0 where
  top : Within c c
  under : {d k : Cgroup} → Child k (children d) → Within c k → Within c d

abbrev pub FiledBelow : Cgroup → List AppExec → Stray → Type 0
FiledBelow session installed s = (c : Cgroup) × Within c session × FiledIn (procs c) installed s

-- Why a plan files a stray: it is one of a cgroup in the session of the person's user manager.
pub data Filed (slice : Cgroup) (uid : ℕ) (installed : List AppExec) (s : Stray) : Type 0 where
  of_session :
      {m session c : Cgroup}
      → child slice (manager_name uid) ≡ some m
      → child m (codes "session.slice") ≡ some session
      → Within c session
      → FiledIn (procs c) installed s
      → Filed slice uid installed s

module _ (ps : List Proc) (root : ℕ) where
  joining-Descendant :
      (qs : List Proc) (family : List ℕ) (parent : ℕ)
      → ((k : Proc) → Member k qs → Member k ps)
      → Descendant ps root parent
      → All (Descendant ps root) (joining qs family parent)
  joining-Descendant [] family parent f d = tt
  joining-Descendant (k ∷ qs) family parent f d =
      let rest = joining-Descendant qs family parent (λ j i. f j (tail_of i)) d in
      elim (Bool-cases ((k.ppid == parent) && not (contains family k.pid))) [
        | inl e ↦
            let same : k.ppid ≡ parent = (==_iff k.ppid parent).0 (ground arith) in
            rw e (child_process (f k head_of) (rw same d) refl, rest)
        | inr e ↦ rw e rest
      ]

  grow-Descendant :
      (fuel : ℕ) (done rest family : List ℕ)
      → All (Descendant ps root) done
      → All (Descendant ps root) rest
      → grow fuel ps done rest ≡ some family
      → All (Descendant ps root) family
  unfolding grow
  grow-Descendant fuel done [] family d r h =
      let e : done ≡ family = ap (λ (o : Option (List ℕ)). elim o [ none ↦ [] | some x ↦ x ]) h in
      rw⁻¹ e d
  grow-Descendant zero done (p ∷ rest) family d r h = cc
  grow-Descendant (suc fuel) done (p ∷ rest) family d r h =
      grow-Descendant fuel (done ++ p ∷ []) (rest ++ joining ps (done ++ p ∷ rest) p) family
        (All-append (Descendant ps root) done (p ∷ []) d (r.0, tt))
        (All-append (Descendant ps root) rest (joining ps (done ++ p ∷ rest) p) r.1
          (joining-Descendant ps (done ++ p ∷ rest) p (λ k i. i) r.0))
        h

app_of-some :
    (main : Option ℕ) (installed : List AppExec) (taken : List ℕ) (p : Proc) (app : AppExec)
    → app_of main installed taken p ≡ some app
    → (main ≢ some p.pid) × (find_first (runs p.argv) installed ≡ some app)
app_of-some none installed taken p app h = (λ e. cc e, ground arith)
app_of-some (some m) installed taken p app h = elim (Bool-cases (m == p.pid)) [
  | inl e ↦ cc (let h' : none ≡ some app = rw e at h in h')
  | inr e ↦ (λ (s : some m ≡ some p.pid). ground arith, ground arith)
]

list_of : Option (List Stray) → List Stray
list_of none = []
list_of (some ss) = ss

module _ (ps : List Proc) (installed : List AppExec) where
  one-FiledIn :
      (p : Proc) (taken : List ℕ) (rest : List ℕ → Option (List Stray)) (ss : List Stray)
      (o : Option AppExec)
      → Member p ps
      → app_of (main_of ps) installed taken p ≡ o
      → ((t : List ℕ) (out : List Stray) → rest t ≡ some out → All (FiledIn ps installed) out)
      → ◌≡◌ {A = Option (List Stray)}
          (elim o [
            | none ↦ rest taken
            | some app ↦ elim (family_of ps p.pid) [
              | none ↦ none
              | some family ↦ with_stray app family (rest (taken ++ family))
            ]
          ])
          (some ss)
      → All (FiledIn ps installed) ss
  unfolding list_of
  one-FiledIn p taken rest ss none i e f h = f taken ss h
  one-FiledIn p taken rest ss (some app) i e f h = elim (Option-cases (family_of ps p.pid)) [
    | inl n ↦ cc (let h' : none ≡ some ss = rw n at h in h')
    | inr (family, n) ↦ elim (Option-cases (rest (taken ++ family))) [
      | inl r ↦ cc (let h' : none ≡ some ss = rw (n, r) at h in h')
      | inr (out, r) ↦
          let new : Stray = record { app = app.id; pids = family } in
          let h' : some (new ∷ out) ≡ some ss = rw (n, r) at h in
          let same : new ∷ out ≡ ss = ap list_of h' in
          let (guarded, found) = app_of-some (main_of ps) installed taken p app e in
          let below =
            grow-Descendant ps p.pid (suc (length ps)) [] (p.pid ∷ []) family tt (itself, tt) n in
          rw⁻¹ same (stray_of i guarded found refl below, f (taken ++ family) out r)
    ]
  ]

  strays_among-FiledIn :
      (taken : List ℕ) (more : List Proc) (ss : List Stray)
      → ((k : Proc) → Member k more → Member k ps)
      → strays_among ps (main_of ps) installed taken more ≡ some ss
      → All (FiledIn ps installed) ss
  unfolding strays_among list_of
  strays_among-FiledIn taken [] ss f h = let same : [] ≡ ss = ap list_of h in rw⁻¹ same tt
  strays_among-FiledIn taken (p ∷ more) ss f h =
      one-FiledIn p taken (λ t. strays_among ps (main_of ps) installed t more) ss
        (app_of (main_of ps) installed taken p) (f p head_of) refl
        (λ t out e. strays_among-FiledIn t more out (λ k i. f k (tail_of i)) e) h

both-All :
    (P : Stray → Type 0) (a b : Option (List Stray)) (ss : List Stray)
    → ((out : List Stray) → a ≡ some out → All P out)
    → ((out : List Stray) → b ≡ some out → All P out)
    → both a b ≡ some ss
    → All P ss
unfolding list_of
both-All P none b ss f g h = cc
both-All P (some a) none ss f g h = cc
both-All P (some a) (some b) ss f g h =
    let same : a ++ b ≡ ss = ap list_of h in rw⁻¹ same (All-append P a b (f a refl) (g b refl))

-- A stray of a cgroup below one of some children.
abbrev FiledUnder : Children → List AppExec → Stray → Type 0
FiledUnder ks installed s =
    (k : Cgroup) × (c : Cgroup) × Child k ks × Within c k × FiledIn (procs c) installed s

mutual
  unfolding strays list_of

  pub strays-FiledBelow :
      (c : Cgroup) (installed : List AppExec) (ss : List Stray)
      → strays c installed ≡ some ss
      → All (FiledBelow c installed) ss
  strays-FiledBelow (cgroup n ps ks f) installed ss h =
      both-All (FiledBelow (cgroup n ps ks f) installed)
        (strays_among ps (main_of ps) installed [] ps) (strays_in ks installed) ss
        (λ out e.
          All-imply (FiledIn ps installed) (FiledBelow (cgroup n ps ks f) installed) out
            (λ s d. (cgroup n ps ks f, top, d))
            (strays_among-FiledIn ps installed [] ps out (λ k i. i) e))
        (λ out e.
          All-imply (FiledUnder ks installed) (FiledBelow (cgroup n ps ks f) installed) out
            (λ s d. (d.1, under d.2 d.3, d.4)) (strays_in-FiledUnder ks installed out e))
        h

  strays_in-FiledUnder :
      (ks : Children) (installed : List AppExec) (ss : List Stray)
      → strays_in ks installed ≡ some ss
      → All (FiledUnder ks installed) ss
  strays_in-FiledUnder nil installed ss h = let same : [] ≡ ss = ap list_of h in rw⁻¹ same tt
  strays_in-FiledUnder (cons k ks) installed ss h =
      both-All (FiledUnder (cons k ks) installed) (strays_in ks installed) (strays k installed) ss
        (λ out e.
          All-imply (FiledUnder ks installed) (FiledUnder (cons k ks) installed) out
            (λ s d. (d.0, d.1, later d.2, d.3, d.4)) (strays_in-FiledUnder ks installed out e))
        (λ out e.
          All-imply (FiledBelow k installed) (FiledUnder (cons k ks) installed) out
            (λ s d. (k, d.0, first, d.1, d.2)) (strays-FiledBelow k installed out e))
        h
