-- ===== src/Client/Freeze/Writes.antt =====
-- client/src/enforce/screentime.rs: `write_freeze`, `apply` and `thaw`, on the tree that the kernel
-- keeps. A write to a cgroup that is there succeeds; `adopt`, a call of the person's service manager,
-- is a parameter.
use openscreentime.Common.{
  ℕ, ◌+◌, Bool, true, false, not, Option, none, some, List, [], ◌∷◌, ◌++◌, if◌then◌else◌, is_some,
  is_empty, keep,
}
use mathlib.Core.List.{reverse}
use openscreentime.Common.Text.{Text, codes, text_eq}
use openscreentime.Client.Freeze.{
  Cgroup, cgroup, Children, nil, cons, name, frozen, Location, at, frozen_paths,
}
use openscreentime.Client.Freeze.Names.{manager_name}
use openscreentime.Client.Freeze.Reading.{read_tree}
use openscreentime.Client.Freeze.Plans.{Stray, Plan, whole, apps}

-- The children under a name, of which a cgroup has one at most.
unfoldable pub modify : Text → (Cgroup → Cgroup) → Children → Children
modify n g nil = nil
modify n g (cons k ks) = cons (if text_eq (name k) n then g k else k) (modify n g ks)

-- `write_freeze`; nothing is written where there is no cgroup.
unfoldable pub write_freeze : Location → Bool → Cgroup → Cgroup
write_freeze [] on (cgroup n ps ks f) = cgroup n ps ks on
write_freeze (m ∷ path) on (cgroup n ps ks f) = cgroup n ps (modify m (write_freeze path on) ks) f

abbrev pub reads_frozen : Option Cgroup → Bool
reads_frozen none = false
reads_frozen (some c) = frozen c

-- One target: what was read frozen is skipped, and what has ended is let go.
unfoldable pub freeze_one : Cgroup → Location → Cgroup × ℕ → Cgroup × ℕ
freeze_one tree t (live, n) =
    if reads_frozen (at tree t)
    then (live, n)
    else if is_some (at live t)
    then (write_freeze t true live, n + 1)
    else (live, n)

unfoldable pub freeze_all : Cgroup → List Location → Cgroup × ℕ → Cgroup × ℕ
freeze_all tree [] p = p
freeze_all tree (t ∷ ts) p = freeze_all tree ts (freeze_one tree t p)

module _ (adopt : Cgroup → Stray → Cgroup × Option Text) where
  -- The tree and the new targets once the strays are filed.
  unfoldable pub adopt_all : ℕ → List Stray → Cgroup → List Location → Cgroup × List Location
  adopt_all uid [] live targets = (live, targets)
  adopt_all uid (s ∷ ss) live targets = adopt_all uid ss (adopt live s).0 (elim (adopt live s).1 [
    | none ↦ targets
    | some u ↦ targets ++ (manager_name uid ∷ codes "app.slice" ∷ u ∷ []) ∷ []
  ])

  -- `apply`: the tree, and how many cgroups were newly frozen.
  unfoldable pub apply : ℕ → Cgroup → Plan → Cgroup × ℕ
  apply uid tree whole = if frozen tree then (tree, 0) else (write_freeze [] true tree, 1)
  apply uid tree (apps targets strays) =
      let (live, ts) = adopt_all uid strays tree targets in
      let (done, n) = freeze_all tree ts (live, 0) in
      (if frozen tree then write_freeze [] false done else done, n)

unfoldable pub unfreeze_all : List Location → Cgroup → Cgroup
unfreeze_all [] tree = tree
unfreeze_all (t ∷ ts) tree = unfreeze_all ts (write_freeze t false tree)

-- `thaw`: every path that reads frozen in what `read_tree` gives, the deepest first and the slice
-- itself last.
unfoldable pub thaw : Cgroup → Cgroup
thaw tree =
    let paths = keep (λ p. not (is_empty p)) (frozen_paths (read_tree tree)) in
    unfreeze_all (reverse paths ++ [] ∷ []) tree
