-- ===== src/Client/Tests/Freezes.antt =====
-- Stops: runs on concrete values.
use openscreentime.Common.{
  ℕ, zero, suc, ◌≡◌, refl, true, false, Option, none, some, List, [], ◌∷◌, arith,
}
use openscreentime.Common.Text.{Text, codes}
use openscreentime.Client.Freeze.{
  Proc, Cgroup, cgroup, nil, cons, Location, child_of, all_procs, any_frozen, at, frozen_below,
}
use openscreentime.Client.Freeze.Names.{
  from_hex, unescape, contains, stem, plumbing, launchers, is_plumbing, strip_prefix, strip_suffix,
  session_id, decimal, manager_name,
}
use openscreentime.Client.Freeze.Plans.{
  Login, AppExec, Stray, apps, holds_plumbing, launchers_only, collect, runs, main_from, grow,
  strays_among, strays, add_scope, scopes_from, manager_targets, plan,
}
use openscreentime.Client.Freeze.Reading.{height, count, read_tree, read_cgroup, read_procs}
use openscreentime.Client.Freeze.Complete.{here, below}
use openscreentime.Client.Freeze.Above.{below_slice}
use openscreentime.Client.Freeze.Thawed.{thaw-any_frozen}
use openscreentime.Client.Freeze.Stops.{apply-below_slice}
use openscreentime.Client.Freeze.Writes.{
  modify, write_freeze, freeze_one, freeze_all, adopt_all, apply, unfreeze_all, thaw,
}

manager_1000 : manager_name 1000 ≡ codes "user@1000.service"
unfolding manager_name decimal
manager_1000 = refl

session_3 : session_id (codes "session-3.scope") ≡ some (codes "3")
unfolding session_id strip_prefix strip_suffix
session_3 = refl

plumbing_escaped : is_plumbing (codes "app-gnome\\x2dsession\\x2dmanager.slice") ≡ true
unfolding is_plumbing unescape from_hex stem contains plumbing
plumbing_escaped = refl

abbrev leaf : Text → List Proc → Cgroup
leaf n ps = cgroup n ps nil false

abbrev proc : ℕ → ℕ → ℕ → Text → List Text → Proc
proc pid ppid start comm argv = record {
  pid = pid;
  ppid = ppid;
  start = start;
  comm = comm;
  argv = argv;
}

abbrev totem : AppExec
totem = record {
  id = codes "org.gnome.Totem";
  argv = codes "totem" ∷ codes "--gapplication-service" ∷ [];
}

-- The session bus, with the video player that it started.
abbrev bus : Cgroup
bus = leaf (codes "dbus.service") (
    proc 614 590 10 (codes "dbus-daemon") (codes "dbus-daemon" ∷ [])
    ∷ proc 4069 590 20 (codes "totem") totem.argv
    ∷ proc 4100 4069 21 (codes "helper") (codes "helper" ∷ [])
    ∷ [])

abbrev app_units : Cgroup
app_units =
    cgroup (codes "app.slice") []
      (cons (leaf (codes "kwin.service") []) (cons (leaf (codes "game.scope") []) nil)) false

abbrev user_units : Cgroup
user_units =
    cgroup (codes "user@1000.service") []
      (cons (leaf (codes "init.scope") [])
        (cons (cgroup (codes "session.slice") [] (cons bus nil) false) (cons app_units nil)))
      false

-- Frozen whole by an earlier version of the agent.
abbrev desktop : Cgroup
desktop =
    cgroup (codes "user-1000.slice") []
      (cons (leaf (codes "session-3.scope") (proc 500 1 5 (codes "gdm-session-wor") [] ∷ []))
        (cons (leaf (codes "session-7.scope") []) (cons user_units nil)))
      true

abbrev logins : List Login
logins =
    record { id = codes "3"; graphical = true; age = some 600 }
    ∷ record { id = codes "7"; graphical = false; age = none }
    ∷ []

abbrev game : Location
game = codes "user@1000.service" ∷ codes "app.slice" ∷ codes "game.scope" ∷ []

abbrev expected : List Location
expected = (codes "session-7.scope" ∷ []) ∷ game ∷ []

abbrev filed : List Stray
filed = record { app = codes "org.gnome.Totem"; pids = 4069 ∷ 4100 ∷ [] } ∷ []

desktop_run : plan desktop 1000 logins (totem ∷ []) ≡ some (apps expected filed)
unfolding plan holds_plumbing launchers_only collect runs main_from grow strays_among strays
    add_scope scopes_from manager_targets session_id strip_prefix strip_suffix manager_name decimal
    is_plumbing unescape from_hex stem contains plumbing launchers child_of all_procs
desktop_run = refl

-- The service manager files a stray, and the scope has ended before it is written to.
abbrev filing : Cgroup → Stray → Cgroup × Option Text
filing c s = (c, some (codes "app-totem.scope"))

-- The game stays frozen while the freeze of the whole slice comes off.
apply-below_slice_example :
    below_slice (apply filing 1000 desktop (apps expected filed)).0 game ≡ some true
unfolding plan holds_plumbing launchers_only collect runs main_from grow strays_among strays
    add_scope scopes_from manager_targets session_id strip_prefix strip_suffix manager_name decimal
    is_plumbing unescape from_hex stem contains plumbing launchers child_of all_procs
apply-below_slice_example =
    apply-below_slice filing desktop 1000 logins (totem ∷ []) expected filed user_units app_units
      (codes "game.scope" ∷ []) refl refl refl refl refl (below refl refl (here refl refl))
      (λ c s. refl)

frozen_twice : (apply filing 1000 desktop (apps expected filed)).1 ≡ 2
unfolding apply adopt_all freeze_all freeze_one at child_of manager_name write_freeze modify
frozen_twice = refl

thawed : thaw (apply filing 1000 desktop (apps expected filed)).0 ≡ write_freeze [] false desktop
unfolding thaw read_tree read_cgroup read_procs unfreeze_all write_freeze modify apply adopt_all
    freeze_all freeze_one at frozen_below child_of manager_name
thawed = refl

thaw-any_frozen_example :
    any_frozen (thaw (apply filing 1000 desktop (apps expected filed)).0) ≡ false
unfolding height count apply adopt_all freeze_all freeze_one at child_of manager_name write_freeze
    modify
thaw-any_frozen_example =
    thaw-any_frozen (apply filing 1000 desktop (apps expected filed)).0 (omega arith, omega arith)

-- A frozen cgroup so many levels below the slice.
abbrev deep : ℕ → Cgroup
deep zero = cgroup (codes "a") [] nil true
deep (suc n) = cgroup (codes "a") [] (cons (deep n) nil) false

-- The tenth level is read, and the eleventh is not.
thawed_deep : any_frozen (thaw (deep 10)) ≡ false
unfolding thaw read_tree read_cgroup read_procs unfreeze_all write_freeze modify frozen_below
    any_frozen
thawed_deep = refl

kept_deeper : any_frozen (thaw (deep 11)) ≡ true
unfolding thaw read_tree read_cgroup read_procs unfreeze_all write_freeze modify frozen_below
    any_frozen
kept_deeper = refl
