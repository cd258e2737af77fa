-- ===== src/Client/Freeze.antt =====
-- client/src/enforce/screentime/freeze.rs: what a stop freezes. A cgroup's path is the list of its
-- names, as no name holds a slash; names are of ASCII characters. A plan is made of a tree that was read;
-- Reading has the bounds of the read.
pub mod Names
pub mod Reading
pub mod Plans
pub mod Families
pub mod Targets
pub mod Filed
pub mod Wholes
pub mod Planned
pub mod Complete
pub mod Writes
pub mod Reads
pub mod Above
pub mod Applied
pub mod Stops
pub mod Located
pub mod Thawed
use openscreentime.Common.{
  ℕ, ◌+◌, ◌*◌, Bool, true, false, ◌&&◌, ◌||◌, not, Option, none, some, List, [], ◌∷◌, ◌++◌, ltb,
  leb, ◌==◌, if◌then◌else◌, all, any,
}
use openscreentime.Common.Text.{Text, text_eq}

pub record Proc : Type 0 where
  pub pid : ℕ
  pub ppid : ℕ
  pub start : ℕ
  pub comm : Text
  pub argv : List Text

-- `Cgroup`, and the list of a cgroup's children.
mutual
  pub data Cgroup : Type 0 where
    cgroup : Text → List Proc → Children → Bool → Cgroup

  pub data Children : Type 0 where
    nil : Children
    cons : Cgroup → Children → Children

abbrev pub name : Cgroup → Text
name (cgroup n procs children frozen) = n

abbrev pub procs : Cgroup → List Proc
procs (cgroup n ps children frozen) = ps

abbrev pub children : Cgroup → Children
children (cgroup n procs ks frozen) = ks

abbrev pub frozen : Cgroup → Bool
frozen (cgroup n procs children f) = f

abbrev pub Location : Type 0
Location = List Text

-- `Cgroup::child`.
unfoldable pub child_of : Children → Text → Option Cgroup
child_of nil n = none
child_of (cons k ks) n = let rest = child_of ks n in if text_eq (name k) n then some k else rest

abbrev pub child : Cgroup → Text → Option Cgroup
child c n = child_of (children c) n

-- `Cgroup::at`.
unfoldable pub at : Cgroup → Location → Option Cgroup
at c [] = some c
at c (n ∷ path) = elim (child c n) [ none ↦ none | some k ↦ at k path ]

-- `Cgroup::frozen_at`.
abbrev pub or_frozen : Bool → Option Bool → Option Bool
or_frozen f none = none
or_frozen f (some g) = some (f || g)

unfoldable pub frozen_at : Cgroup → Location → Option Bool
frozen_at c [] = some (frozen c)
frozen_at c (n ∷ path) = elim (child c n) [
  | none ↦ none
  | some k ↦ or_frozen (frozen c) (frozen_at k path)
]

-- `Cgroup::any_frozen`.
unfoldable mutual
  pub any_frozen : Cgroup → Bool
  any_frozen (cgroup n procs ks f) = f || any_frozen_in ks

  pub any_frozen_in : Children → Bool
  any_frozen_in nil = false
  any_frozen_in (cons k ks) = any_frozen k || any_frozen_in ks

-- `Cgroup::all_procs`.
unfoldable mutual
  pub all_procs : Cgroup → List Proc
  all_procs (cgroup n ps ks f) = ps ++ all_procs_in ks

  pub all_procs_in : Children → List Proc
  all_procs_in nil = []
  all_procs_in (cons k ks) = all_procs k ++ all_procs_in ks

-- `frozen_paths`, in the order of its walk.
unfoldable mutual
  pub frozen_below : Cgroup → Location → List Location
  frozen_below (cgroup n procs ks f) path =
      if f then path ∷ frozen_below_in ks path else frozen_below_in ks path

  pub frozen_below_in : Children → Location → List Location
  frozen_below_in nil path = []
  frozen_below_in (cons k ks) path = frozen_below k (path ++ name k ∷ []) ++ frozen_below_in ks path

abbrev pub frozen_paths : Cgroup → List Location
frozen_paths slice = frozen_below slice []
