-- ===== src/Client/Freeze/Plans.antt =====
-- client/src/enforce/screentime/freeze.rs: `plan`, `collect`, `strays` and `holds`.
-- Durations are in seconds.
use openscreentime.Common.{
  ℕ, zero, suc, Bool, true, false, ◌&&◌, ◌||◌, not, Option, none, some, List, [], ◌∷◌, ◌++◌, map,
  ltb, leb, ◌==◌, if◌then◌else◌, all, any, keep, contains, find_first, is_empty, length,
}
use openscreentime.Common.Text.{Text, codes, text_eq}
use openscreentime.Client.Freeze.{
  Proc, Cgroup, cgroup, Children, nil, cons, name, children, frozen, Location, child, frozen_at,
  all_procs,
}
use openscreentime.Client.Freeze.Names.{is_plumbing, launchers, session_id, manager_name}

abbrev pub settle : ℕ
settle = 60

pub record Login : Type 0 where
  pub id : Text
  pub graphical : Bool
  pub age : Option ℕ

pub record AppExec : Type 0 where
  pub id : Text
  pub argv : List Text

pub record Stray : Type 0 where
  pub app : Text
  pub pids : List ℕ

pub data Plan : Type 0 where
  whole : Plan
  apps : List Location → List Stray → Plan

-- `holds_plumbing`.
unfoldable mutual
  pub holds_plumbing : Cgroup → Bool
  holds_plumbing (cgroup n ps ks f) = plumbing_in ks

  pub plumbing_in : Children → Bool
  plumbing_in nil = false
  plumbing_in (cons k ks) = (is_plumbing (name k) || holds_plumbing k) || plumbing_in ks

-- `launchers_only`.
unfoldable pub launchers_only : Cgroup → Bool
launchers_only scope = all (λ p. any (text_eq p.comm) launchers) (all_procs scope)

-- `collect`: the paths that it adds, for a cgroup at `path`.
unfoldable mutual
  pub collect : Cgroup → Location → List Location
  collect (cgroup n ps ks f) path =
      let below = collect_in ks path in
      if is_plumbing n
      then []
      else if not (text_eq n (codes "app.slice")) && not (plumbing_in ks)
      then path ∷ []
      else below

  pub collect_in : Children → Location → List Location
  collect_in nil path = []
  collect_in (cons k ks) path = collect k (path ++ name k ∷ []) ++ collect_in ks path

abbrev pub begins : List Text → List Text → Bool
begins argv [] = true
begins [] (b ∷ p) = false
begins (a ∷ argv) (b ∷ p) = text_eq a b && begins argv p

abbrev starts : List Text → List Text → Bool
starts command argv = not (is_empty command) && begins argv command

-- `runs`: the command line, or that of a script behind its interpreter.
unfoldable pub runs : List Text → AppExec → Bool
runs [] app = starts app.argv []
runs (a ∷ argv) app = starts app.argv (a ∷ argv) || starts app.argv argv

-- The process of a unit that started first (`min_by_key`).
abbrev earlier : Proc → Proc → Proc
earlier p q = if ltb q.start p.start || (q.start == p.start && ltb q.pid p.pid) then q else p

unfoldable pub main_from : Proc → List Proc → Proc
main_from p [] = p
main_from p (q ∷ ps) = main_from (earlier p q) ps

abbrev pub main_of : List Proc → Option ℕ
main_of [] = none
main_of (p ∷ ps) = some (main_from p ps).pid

-- The children of a process that are not in a family yet.
abbrev pub joining : List Proc → List ℕ → ℕ → List ℕ
joining ps family parent =
    map (λ k. k.pid) (keep (λ k. (k.ppid == parent) && not (contains family k.pid)) ps)

-- The loop that grows a family: `done` is before the index i, the rest from it on; `none` means that
-- the fuel ran out.
unfoldable pub grow : ℕ → List Proc → List ℕ → List ℕ → Option (List ℕ)
grow fuel ps done [] = some done
grow zero ps done (p ∷ rest) = none
grow (suc fuel) ps done (p ∷ rest) =
    grow fuel ps (done ++ p ∷ []) (rest ++ joining ps (done ++ p ∷ rest) p)

-- Each process joins a family once.
abbrev pub family_of : List Proc → ℕ → Option (List ℕ)
family_of ps pid = grow (suc (length ps)) ps [] (pid ∷ [])

abbrev pub with_stray : AppExec → List ℕ → Option (List Stray) → Option (List Stray)
with_stray app family none = none
with_stray app family (some out) = some (record { app = app.id; pids = family } ∷ out)

-- The app that a process runs, unless it is the unit's main process or taken.
abbrev pub app_of : Option ℕ → List AppExec → List ℕ → Proc → Option AppExec
app_of main installed taken p =
    if (elim main [ none ↦ false | some m ↦ m == p.pid ]) || contains taken p.pid
    then none
    else find_first (runs p.argv) installed

-- The strays of one unit, with the processes that are taken.
unfoldable pub strays_among :
    List Proc → Option ℕ → List AppExec → List ℕ → List Proc → Option (List Stray)
strays_among ps main installed taken [] = some []
strays_among ps main installed taken (p ∷ more) = elim (app_of main installed taken p) [
  | none ↦ strays_among ps main installed taken more
  | some app ↦ elim (family_of ps p.pid) [
    | none ↦ none
    | some family ↦ with_stray app family (strays_among ps main installed (taken ++ family) more)
  ]
]

abbrev pub both : Option (List Stray) → Option (List Stray) → Option (List Stray)
both none b = none
both (some a) none = none
both (some a) (some b) = some (a ++ b)

-- `strays`: the stack takes a cgroup's last child first, with all that is below it.
unfoldable mutual
  pub strays : Cgroup → List AppExec → Option (List Stray)
  strays (cgroup n ps ks f) installed =
      both (strays_among ps (main_of ps) installed [] ps) (strays_in ks installed)

  pub strays_in : Children → List AppExec → Option (List Stray)
  strays_in nil installed = some []
  strays_in (cons k ks) installed = both (strays_in ks installed) (strays k installed)

-- The loop of `plan` over the children of the slice.
pub record Scopes : Type 0 where
  pub targets : List Location
  pub starting : Bool
  pub legacy : Bool

abbrev pub settled : Login → Bool
settled l = elim l.age [ none ↦ true | some a ↦ leb settle a ]

abbrev pub login_of : List Login → Text → Option Login
login_of logins n = elim (session_id n) [
  | none ↦ none
  | some id ↦ find_first (λ l. text_eq l.id id) logins
]

unfoldable pub add_scope : Cgroup → Option Login → Scopes → Scopes
add_scope c none s = s
add_scope c (some l) s =
    if not l.graphical
    then record s { targets = s.targets ++ (name c ∷ []) ∷ [] }
    else if not (settled l)
    then record s { starting = true }
    else if not (launchers_only c)
    then record s { legacy = true }
    else s

unfoldable pub scopes_from : List Login → Children → Scopes → Scopes
scopes_from logins nil s = s
scopes_from logins (cons c ks) s = scopes_from logins ks (add_scope c (login_of logins (name c)) s)

abbrev pub kept_running : Text → Bool
kept_running n = text_eq n (codes "init.scope") || text_eq n (codes "session.slice")

-- The loop over the units of the user manager m.
unfoldable pub manager_targets : Text → Children → List Location
manager_targets m nil = []
manager_targets m (cons c ks) =
    let rest = manager_targets m ks in
    if kept_running (name c) then rest else collect c (m ∷ name c ∷ []) ++ rest

abbrev pub with_strays : List Location → Option (List Stray) → Option Plan
with_strays targets none = none
with_strays targets (some ss) = some (apps targets ss)

abbrev pub session_plan : Scopes → Cgroup → Option Cgroup → List AppExec → Option Plan
session_plan s m none installed = some whole
session_plan s m (some session) installed =
    if s.legacy
    then some whole
    else with_strays (s.targets ++ manager_targets (name m) (children m)) (strays session installed)

abbrev pub manager_plan : Scopes → Option Cgroup → List AppExec → Option Plan
manager_plan s none installed = some whole
manager_plan s (some m) installed = session_plan s m (child m (codes "session.slice")) installed

abbrev pub no_scopes : Scopes
no_scopes = record { targets = []; starting = false; legacy = false }

-- `plan`; `none` would mean that the fuel of a family ran out.
unfoldable pub plan : Cgroup → ℕ → List Login → List AppExec → Option Plan
plan slice uid logins installed =
    let s = scopes_from logins (children slice) no_scopes in
    if s.starting
    then some (apps s.targets [])
    else manager_plan s (child slice (manager_name uid)) installed

abbrev pub is_frozen : Option Bool → Bool
is_frozen none = true
is_frozen (some f) = f

-- `holds`.
unfoldable pub holds : Cgroup → Plan → Bool
holds slice whole = frozen slice
holds slice (apps targets strays) =
    frozen slice || (is_empty strays && all (λ t. is_frozen (frozen_at slice t)) targets)
