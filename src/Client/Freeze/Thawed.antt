-- ===== src/Client/Freeze/Thawed.antt =====
-- Thawing leaves nothing frozen.
use openscreentime.Common.{
  ◌≡◌, ◌≢◌, refl, sym, ap, ◌⊎◌, inl, inr, Bool, false, not, List, [], ◌∷◌, ◌++◌, is_empty,
  Bool-cases, keep,
}
use mathlib.Core.List.{reverse, reverse_aux}
use openscreentime.Common.Text.{Text, text_eq, text_eq_refl}
use openscreentime.Client.Freeze.{
  Proc, Cgroup, cgroup, Children, nil, cons, name, Location, any_frozen, frozen_paths,
}
use openscreentime.Client.Freeze.Targets.{Child, first, later}
use openscreentime.Client.Freeze.Reading.{read_tree, Fits, read_tree-frozen_below}
use openscreentime.Client.Freeze.Reads.{name-write_freeze}
use openscreentime.Client.Freeze.Writes.{modify, write_freeze, unfreeze_all, thaw}
use openscreentime.Client.Freeze.Located.{
  FrozenAt, here, below, Among, first_of, later_of, Among-append_left, Among-append_right,
  frozen_below-FrozenAt, any_frozen-FrozenAt,
}

-- What is frozen at t after a write at u was so before, and t is another path.
abbrev Other : Cgroup → Location → Location → Type 0
Other c u t = FrozenAt c t × (t ≢ u)

unfrozen-Other :
    {n : Text} {ps : List Proc} {ks : Children} {t : Location} (f : Bool)
    → FrozenAt (cgroup n ps ks false) t
    → Other (cgroup n ps ks f) [] t
unfrozen-Other f (below i l) = (below i l, λ e. cc e)

tail_eq : {m n : Text} {p u : Location} → ◌≡◌ {A = Location} (m ∷ p) (n ∷ u) → p ≡ u
tail_eq {p = p} e = ap rest e
  where
    rest : Location → Location
    rest [] = p
    rest (m ∷ t) = t

head_eq : {m n : Text} {p u : Location} → ◌≡◌ {A = Location} (m ∷ p) (n ∷ u) → m ≡ n
head_eq {m = m} e = ap head e
  where
    head : Location → Text
    head [] = m
    head (n ∷ t) = n

-- A child that was written to, before.
abbrev Before : Children → Text → Location → Text → Location → Type 0
Before ks m u n p = (j : Cgroup) × Child j ks × (name j ≡ n) × FrozenAt j p × (n ∷ p ≢ m ∷ u)

modify-Before :
    (m : Text) (u : Location) (ks : Children) {k : Cgroup} {p : Location}
    → ((j : Cgroup) → FrozenAt (write_freeze u false j) p → Other j u p)
    → Child k (modify m (write_freeze u false) ks)
    → FrozenAt k p
    → Before ks m u (name k) p
unfolding modify
modify-Before m u nil ih i l = elim i [ ]
modify-Before m u (cons j ks) {p = p} ih first l = elim (Bool-cases (text_eq (name j) m)) [
  | inl e ↦
      let o = ih j (rw e at l) in
      rw e (j, first, sym (name-write_freeze u false j), o.0, λ s. o.1 (tail_eq s))
  | inr e ↦
      rw e (
        j,
        first,
        refl,
        (rw e at l),
        λ s. cc (e, ap (λ x. text_eq x m) (head_eq s), text_eq_refl m),
      )
]
modify-Before m u (cons j ks) ih (later i) l =
    let b = modify-Before m u ks ih i l in (b.0, later b.1, b.2, b.3, b.4)

write_freeze-Other :
    (u t : Location) (c : Cgroup) → FrozenAt (write_freeze u false c) t → Other c u t
unfolding write_freeze
write_freeze-Other [] t (cgroup n ps ks f) l = unfrozen-Other f l
write_freeze-Other (m ∷ u) t (cgroup n ps ks f) here = (here, λ e. cc e)
write_freeze-Other (m ∷ u) t (cgroup n ps ks f) (below {k = k} {p = p} i l) =
    let b = modify-Before m u ks (λ j l'. write_freeze-Other u p j l') i l in
    (rw (sym b.2) (below b.1 b.3), b.4)

still_off :
    {t u : Location} (ts : List Location) → (t ≢ u) → (Among t ts → ⊥) → Among t (u ∷ ts) → ⊥
still_off ts d n first_of = d refl
still_off ts d n (later_of i) = n i

-- What is frozen after the writes is at none of their paths.
unfreeze_all-FrozenAt :
    (ts : List Location) {t : Location} (c : Cgroup)
    → FrozenAt (unfreeze_all ts c) t
    → FrozenAt c t × (Among t ts → ⊥)
unfolding unfreeze_all
unfreeze_all-FrozenAt [] c l = (l, λ i. elim i [ ])
unfreeze_all-FrozenAt (u ∷ ts) {t = t} c l =
    let after = unfreeze_all-FrozenAt ts (write_freeze u false c) l in
    let o = write_freeze-Other u t c (after.0) in (o.0, still_off ts o.1 after.1)

reverse_aux-Among :
    {t : Location} (ts us : List Location) → Among t ts ⊎ Among t us → Among t (reverse_aux ts us)
reverse_aux-Among [] us (inl i) = elim i [ ]
reverse_aux-Among [] us (inr i) = i
reverse_aux-Among (u ∷ ts) us (inl first_of) = reverse_aux-Among ts (u ∷ us) (inr first_of)
reverse_aux-Among (u ∷ ts) us (inl (later_of i)) = reverse_aux-Among ts (u ∷ us) (inl i)
reverse_aux-Among (u ∷ ts) us (inr i) = reverse_aux-Among ts (u ∷ us) (inr (later_of i))

keep-Among :
    {t : Location} (ts : List Location)
    → is_empty t ≡ false
    → Among t ts
    → Among t (keep (λ p. not (is_empty p)) ts)
keep-Among [] e i = elim i [ ]
keep-Among (t ∷ ts) e first_of = rw e first_of
keep-Among (u ∷ ts) e (later_of i) = elim (Bool-cases (is_empty u)) [
  | inl n ↦ rw n (keep-Among ts e i)
  | inr n ↦ rw n (later_of (keep-Among ts e i))
]

thawed_paths :
    {t : Location} (ts : List Location)
    → Among t ts
    → Among t (reverse (keep (λ p. not (is_empty p)) ts) ++ [] ∷ [])
thawed_paths {t = []} ts i =
    Among-append_right (reverse (keep (λ p. not (is_empty p)) ts)) ([] ∷ []) first_of
thawed_paths {t = m ∷ t} ts i =
    Among-append_left (reverse (keep (λ p. not (is_empty p)) ts)) ([] ∷ [])
      (reverse_aux-Among (keep (λ p. not (is_empty p)) ts) [] (inl (keep-Among ts refl i)))

read_tree-Among :
    {t : Location} (tree : Cgroup)
    → Fits tree
    → Among t (frozen_paths tree)
    → Among t (frozen_paths (read_tree tree))
read_tree-Among tree fits i = rw (read_tree-frozen_below tree [] fits) i

-- Once everything is thawed, nothing in a tree that the bounds of reading let through whole is frozen,
-- whatever froze it: a tree of at most ten levels and 4096 cgroups below the slice.
pub thaw-any_frozen : (tree : Cgroup) → Fits tree → any_frozen (thaw tree) ≡ false
unfolding thaw
thaw-any_frozen tree fits = elim (Bool-cases (any_frozen (thaw tree))) [
  | inl e ↦
      let paths = keep (λ p. not (is_empty p)) (frozen_paths (read_tree tree)) in
      let (t, l) = any_frozen-FrozenAt (thaw tree) e in
      let (before, n) = unfreeze_all-FrozenAt (reverse paths ++ [] ∷ []) tree l in
      let found = read_tree-Among tree fits (frozen_below-FrozenAt [] before) in
      elim (n (thawed_paths (frozen_paths (read_tree tree)) found)) [ ]
  | inr e ↦ e
]
