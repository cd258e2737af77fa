-- ===== src/Client/Freeze/Planned.antt =====
-- What a plan freezes and files, all told.
use openscreentime.Common.{ℕ, ◌≡◌, Option, none, some, List, All}
use openscreentime.Common.Text.{codes}
use openscreentime.Client.Freeze.{Cgroup, children, child}
use openscreentime.Client.Freeze.Names.{manager_name}
use openscreentime.Client.Freeze.Plans.{
  AppExec, Stray, Login, Plan, whole, apps, Scopes, scopes_from, no_scopes,
}
use openscreentime.Client.Freeze.Targets.{Stopped}
use openscreentime.Client.Freeze.Filed.{Filed}
use openscreentime.Client.Freeze.Wholes.{OldIn, Settled}

-- Why the whole slice is frozen: the person has no user manager, its session is not in a slice of its
-- own, or a desktop of old is there.
pub data NoApps (slice : Cgroup) (uid : ℕ) (logins : List Login) : Type 0 where
  no_manager : child slice (manager_name uid) ≡ none → NoApps slice uid logins
  no_session :
      {m : Cgroup}
      → child slice (manager_name uid) ≡ some m
      → child m (codes "session.slice") ≡ none
      → NoApps slice uid logins
  old_desktop : OldIn logins (children slice) → NoApps slice uid logins

-- What a plan may hold.
abbrev pub Justified : Cgroup → ℕ → List Login → List AppExec → Plan → Type 0
Justified slice uid logins installed whole =
    NoApps slice uid logins × Settled logins (children slice)
Justified slice uid logins installed (apps targets ss) =
    All (Stopped slice uid logins) targets × All (Filed slice uid installed) ss

filed_of : Option Plan → Option (List Stray)
filed_of none = none
filed_of (some whole) = none
filed_of (some (apps targets ss)) = some ss

module _ (slice : Cgroup) (uid : ℕ) (logins : List Login) (installed : List AppExec) where
  abbrev found : Scopes
  found = scopes_from logins (children slice) no_scopes
