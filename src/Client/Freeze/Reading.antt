-- ===== src/Client/Freeze/Reading.antt =====
-- client/src/enforce/screentime/freeze.rs: `read_tree` and its bounds, on the tree that the kernel
-- keeps: a cgroup's children stand in the order of their names, and every process can be read.
use openscreentime.Common.{
  ℕ, suc, zero, ◌+◌, ◌-◌, ◌≤◌, ◌≡◌, refl, max, true, false, List, [], ◌∷◌, ◌++◌, arith, ltb, ◌==◌,
  if◌then◌else◌, length, Bool-cases, inl, inr,
}
use openscreentime.Client.Freeze.{
  Proc, Cgroup, cgroup, Children, nil, cons, name, Location, frozen_below, frozen_below_in,
}

abbrev pub max_depth : ℕ
max_depth = 10

abbrev pub max_cgroups : ℕ
max_cgroups = 4096

abbrev pub max_procs : ℕ
max_procs = 4096

-- How many cgroups and processes may still be read.
pub record Budget : Type 0 where
  pub cgroups : ℕ
  pub procs : ℕ

-- The loop over the processes of a cgroup, of which `n` may still be read.
unfoldable pub read_procs : ℕ → List Proc → List Proc
read_procs n [] = []
read_procs zero (p ∷ ps) = []
read_procs (suc n) (p ∷ ps) = p ∷ read_procs n ps

-- `read_cgroup`: what is read of a cgroup, and what is left to read.
unfoldable mutual
  pub read_cgroup : ℕ → Budget → Cgroup → Cgroup × Budget
  read_cgroup depth b (cgroup n ps ks f) =
      let ps' = read_procs b.procs ps in
      let b' : Budget = record b { procs = b.procs - length ps' } in
      let (ks', left) = read_children (depth + 1) b' ks in
      if ltb depth max_depth then (cgroup n ps' ks' f, left) else (cgroup n ps' nil f, b')

  pub read_children : ℕ → Budget → Children → Children × Budget
  read_children depth b nil = (nil, b)
  read_children depth b (cons k ks) =
      let (k', b') = read_cgroup depth (record b { cgroups = b.cgroups - 1 }) k in
      let (ks', left) = read_children depth b' ks in
      if b.cgroups == 0 then (nil, b) else (cons k' ks', left)

-- `read_tree`, for a person whose slice is there.
unfoldable pub read_tree : Cgroup → Cgroup
read_tree tree = (read_cgroup 0 (record { cgroups = max_cgroups; procs = max_procs }) tree).0

-- How many levels of cgroups are below a cgroup, and how many cgroups.
unfoldable mutual
  pub height : Cgroup → ℕ
  height (cgroup n ps ks f) = height_in ks

  pub height_in : Children → ℕ
  height_in nil = 0
  height_in (cons k ks) = max (height k + 1) (height_in ks)

unfoldable mutual
  pub count : Cgroup → ℕ
  count (cgroup n ps ks f) = count_in ks

  pub count_in : Children → ℕ
  count_in nil = 0
  count_in (cons k ks) = count k + 1 + count_in ks

-- A tree that is read whole.
abbrev pub Fits : Cgroup → Type 0
Fits tree = (height tree ≤ max_depth) × (count tree ≤ max_cgroups)

name-read_cgroup : (depth : ℕ) (b : Budget) (c : Cgroup) → name (read_cgroup depth b c).0 ≡ name c
unfolding read_cgroup
name-read_cgroup depth b (cgroup n ps ks f) = elim (Bool-cases (ltb depth 10)) [
  | inl e ↦ rw e refl
  | inr e ↦ rw e refl
]

-- What was read of a tree that fits has the same paths that read frozen.
abbrev Same : Cgroup → Budget → Cgroup × Budget → Type 0
Same c b p =
    ((path : Location) → frozen_below p.0 path ≡ frozen_below c path)
    × (p.1.cgroups + count c ≡ b.cgroups)

abbrev SameIn : Children → Budget → Children × Budget → Type 0
SameIn ks b p =
    ((path : Location) → frozen_below_in p.0 path ≡ frozen_below_in ks path)
    × (p.1.cgroups + count_in ks ≡ b.cgroups)

mutual
  unfolding read_cgroup height count frozen_below

  read_cgroup-Same :
      (depth : ℕ) (b : Budget) (c : Cgroup)
      → height c + depth ≤ 10
      → count c ≤ b.cgroups
      → Same c b (read_cgroup depth b c)
  read_cgroup-Same depth b (cgroup n ps nil f) h le = elim (Bool-cases (ltb depth 10)) [
    | inl e ↦ rw e ((λ path. refl), omega arith)
    | inr e ↦ rw e ((λ path. refl), omega arith)
  ]
  read_cgroup-Same depth b (cgroup n ps (cons k ks) f) h le =
      let b' : Budget = record b { procs = b.procs - length (read_procs b.procs ps) } in
      let (same, rest) = read_children-Same (depth + 1) b' (cons k ks) (omega arith) le in
      let e : ltb depth 10 ≡ true = ground arith in rw e ((λ path. rw (same path) refl), rest)

  read_children-Same :
      (depth : ℕ) (b : Budget) (ks : Children)
      → height_in ks + depth ≤ 11
      → count_in ks ≤ b.cgroups
      → SameIn ks b (read_children depth b ks)
  read_children-Same depth b nil h le = ((λ path. refl), omega arith)
  read_children-Same depth b (cons k ks) h le =
      let b1 : Budget = record b { cgroups = b.cgroups - 1 } in
      let (same, rest) = read_cgroup-Same depth b1 k (omega arith) (omega arith) in
      let b2 : Budget = (read_cgroup depth b1 k).1 in
      let (same', rest') = read_children-Same depth b2 ks (omega arith) (omega arith) in
      let e : (b.cgroups == 0) ≡ false = ground arith in
      rw e (
        (λ path. rw (name-read_cgroup depth b1 k, same (path ++ name k ∷ []), same' path) refl),
        omega arith,
      )

-- A tree that is no deeper and no larger than the bounds is read with all that reads frozen.
pub read_tree-frozen_below :
    (tree : Cgroup) (path : Location)
    → Fits tree
    → frozen_below (read_tree tree) path ≡ frozen_below tree path
unfolding read_tree
read_tree-frozen_below tree path fits =
    (read_cgroup-Same 0 (record { cgroups = max_cgroups; procs = max_procs }) tree (omega arith)
        fits.1).0
      path
