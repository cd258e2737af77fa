-- ===== src/Client/Freeze/Applied.antt =====
-- A plan that is applied freezes what it is meant to.
use openscreentime.Common.{
  ℕ, ◌≡◌, refl, ap, ◌∙◌, inl, inr, Bool, true, false, ◌||◌, Option, none, some, List, [], ◌∷◌, ◌++◌,
  arith, if◌then◌else◌, any-append, is_some, Bool-cases, All, All-append,
}
use openscreentime.Common.Text.{Text, codes}
use openscreentime.Client.Freeze.{Cgroup, cgroup, frozen, Location, at, frozen_at}
use openscreentime.Client.Freeze.Names.{manager_name}
use openscreentime.Client.Freeze.Plans.{Stray, apps, begins}
use openscreentime.Client.Freeze.Complete.{covered}
use openscreentime.Client.Freeze.Reads.{stands, Better, Better-refl}
use openscreentime.Client.Freeze.Above.{
  below_slice, Proper, Above, write_below, write_freeze_twice, at-Above,
}
use openscreentime.Client.Freeze.Writes.{
  write_freeze, reads_frozen, freeze_one, freeze_all, adopt_all, apply,
}

Better-trans :
    (a b c : Option Bool) (x y : Bool) → Better a b x → Better b c y → Better a c (x || y)
Better-trans a b c x y f g = (g.0, λ h. g.1 (joined (stands a) (stands b) x y f.1 h))
  where
    joined :
        (a b x y : Bool) → ((a || x) ≡ true → b ≡ true) → (a || (x || y)) ≡ true → (b || y) ≡ true
    joined true b x y f h = ground (arith, f refl)
    joined false b true y f h = ground (arith, f refl)
    joined false true false y f h = refl
    joined false false false y f h = h

-- The flag of the slice itself is not that of a cgroup below it.
at_slice : (t : Location) (c : Cgroup) → Proper t → at (write_freeze [] false c) t ≡ at c t
unfolding at write_freeze
at_slice [] c e = cc e
at_slice (m ∷ t) (cgroup n ps ks f) e = refl

-- A target above a path that is there is there.
at_covering :
    (t q : Location) (c : Cgroup)
    → Proper t
    → is_some (below_slice c q) ≡ true
    → begins q t ≡ true
    → Above (at c t) (below_slice c q)
at_covering t q c e h b = rw⁻¹ (at_slice t c e) (at-Above q t (write_freeze [] false c) h b)

already :
    (o : Option Bool) (hit : Bool)
    → is_some o ≡ true
    → (hit ≡ true → stands o ≡ true)
    → Better o o hit
already o true h f = (h, λ d. f refl)
already o false h f = Better-refl o h

module _ (tree : Cgroup) (q : Location) (there : is_some (below_slice tree q) ≡ true) where
  -- What read frozen when the plan was made still does.
  abbrev Kept : Cgroup → Type 0
  Kept live = stands (below_slice tree q) ≡ true → stands (below_slice live q) ≡ true

  freeze_one-Better :
      (t : Location) (live : Cgroup) (n : ℕ)
      → Proper t
      → is_some (below_slice live q) ≡ true
      → Kept live
      → Better (below_slice live q) (below_slice (freeze_one tree t (live, n)).0 q) (begins q t)
  unfolding freeze_one
  freeze_one-Better t live n e h k = elim (Bool-cases (reads_frozen (at tree t))) [
    | inl r ↦ rw r (
        already (below_slice live q) (begins q t) h (λ b. k ((at_covering t q tree e there b).1 r)))
    | inr r ↦ elim (Bool-cases (is_some (at live t))) [
      | inl i ↦ rw (r, i) (write_below t q live e h)
      | inr i ↦
          rw (r, i)
            (already (below_slice live q) (begins q t) h
              (λ b. cc ((at_covering t q live e h b).0, i)))
    ]
  ]

  freeze_all-Better :
      (ts : List Location) (live : Cgroup) (n : ℕ)
      → All Proper ts
      → is_some (below_slice live q) ≡ true
      → Kept live
      → Better (below_slice live q) (below_slice (freeze_all tree ts (live, n)).0 q) (covered ts q)
  unfolding freeze_all
  freeze_all-Better [] live n es h k = Better-refl (below_slice live q) h
  freeze_all-Better (t ∷ ts) live n (e, es) h k =
      let p = freeze_one tree t (live, n) in
      let one = freeze_one-Better t live n e h k in
      Better-trans (below_slice live q) (below_slice p.0 q) (below_slice (freeze_all tree ts p).0 q)
        (begins q t) (covered ts q) one
        (freeze_all-Better ts p.0 p.1 es one.0 (λ s. one.1 (ground (arith, k s))))

-- What the slice's own flag is does not matter below it.
slice_freed :
    (q : Location) (b : Bool) (c : Cgroup)
    → below_slice (if b then write_freeze [] false c else c) q ≡ below_slice c q
slice_freed q true c = ap (λ d. frozen_at d q) (write_freeze_twice c)
slice_freed q false c = refl

frozen_of_stands : (o : Option Bool) → stands o ≡ true → o ≡ some true
frozen_of_stands none h = cc
frozen_of_stands (some f) h = ap some h

any_or : (a b : Bool) → b ≡ true → (a || b) ≡ true
any_or true b e = refl
any_or false b e = e

module _ (adopt : Cgroup → Stray → Cgroup × Option Text) (q : Location) where
  -- Filing a stray leaves alone what the cgroup reads.
  abbrev pub LeavesAlone : Type 0
  LeavesAlone = (c : Cgroup) (s : Stray) → below_slice (adopt c s).0 q ≡ below_slice c q

  -- The tree still reads the same at q, and more targets are frozen.
  abbrev Filed : Cgroup → List Location → Cgroup × List Location → Type 0
  Filed live ts r =
      (below_slice r.0 q ≡ below_slice live q)
      × (All Proper ts → All Proper r.1)
      × (covered ts q ≡ true → covered r.1 q ≡ true)

  more-Filed :
      (live live' : Cgroup) (ts more : List Location) (r : Cgroup × List Location)
      → below_slice live' q ≡ below_slice live q
      → All Proper more
      → Filed live' (ts ++ more) r
      → Filed live ts r
  more-Filed live live' ts more r e m f = (
    f.0 ∙ e,
    λ a. f.1 (All-append Proper ts more a m),
    λ c. f.2 (rw (any-append (begins q) ts more, c) refl),
  )

  -- One more target, or none.
  more_targets : ℕ → List Location → Option Text → List Location
  more_targets uid ts o = elim o [
    | none ↦ ts
    | some u ↦ ts ++ (manager_name uid ∷ codes "app.slice" ∷ u ∷ []) ∷ []
  ]

  one-Filed :
      (uid : ℕ) (ss : List Stray) (live live' : Cgroup) (ts : List Location) (o : Option Text)
      → below_slice live' q ≡ below_slice live q
      → ((us : List Location) → Filed live' us (adopt_all adopt uid ss live' us))
      → Filed live ts (adopt_all adopt uid ss live' (more_targets uid ts o))
  unfolding more_targets
  one-Filed uid ss live live' ts none e ih = let f = ih ts in (f.0 ∙ e, f.1, f.2)
  one-Filed uid ss live live' ts (some u) e ih =
      let more = (manager_name uid ∷ codes "app.slice" ∷ u ∷ []) ∷ [] in
      more-Filed live live' ts more (adopt_all adopt uid ss live' (ts ++ more)) e (refl, tt)
        (ih (ts ++ more))

  adopt_all-Filed :
      (leaves : LeavesAlone) (uid : ℕ) (ss : List Stray) (live : Cgroup) (ts : List Location)
      → Filed live ts (adopt_all adopt uid ss live ts)
  unfolding adopt_all more_targets
  adopt_all-Filed leaves uid [] live ts = (refl, λ a. a, λ c. c)
  adopt_all-Filed leaves uid (s ∷ ss) live ts =
      one-Filed uid ss live (adopt live s).0 ts (adopt live s).1 (leaves live s)
        (λ us. adopt_all-Filed leaves uid ss (adopt live s).0 us)

  -- What the targets cover reads frozen below the slice once they are applied.
  pub apply-covered :
      (uid : ℕ) (tree : Cgroup) (ts : List Location) (ss : List Stray)
      → LeavesAlone
      → All Proper ts
      → is_some (below_slice tree q) ≡ true
      → covered ts q ≡ true
      → below_slice (apply adopt uid tree (apps ts ss)).0 q ≡ some true
  unfolding apply
  apply-covered uid tree ts ss leaves proper there c =
      let r = adopt_all adopt uid ss tree ts in
      let f = adopt_all-Filed leaves uid ss tree ts in
      let done = (freeze_all tree r.1 (r.0, 0)).0 in
      let better =
        freeze_all-Better tree q there r.1 r.0 0 (f.1 proper) (rw (f.0) there) (λ s. rw (f.0) s) in
      slice_freed q (frozen tree) done
      ∙ frozen_of_stands (below_slice done q)
          (better.1 (any_or (stands (below_slice r.0 q)) (covered r.1 q) (f.2 c)))
