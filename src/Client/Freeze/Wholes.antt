-- ===== src/Client/Freeze/Wholes.antt =====
-- When the whole slice is frozen.
use openscreentime.Common.{◌≡◌, refl, ◌⊎◌, inl, inr, true, false, Option, none, some, List, arith}
use openscreentime.Client.Freeze.{Cgroup, Children, nil, cons, name}
use openscreentime.Client.Freeze.Plans.{
  Login, Scopes, add_scope, scopes_from, login_of, launchers_only, settled,
}
use openscreentime.Client.Freeze.Targets.{Child, first, later}

-- A desktop of old: its login is graphical and settled, and more than launchers run in its scope.
abbrev IsOld : Cgroup → Login → Type 0
IsOld c l = (l.graphical ≡ true) × (settled l ≡ true) × (launchers_only c ≡ false)

abbrev pub OldIn : List Login → Children → Type 0
OldIn logins ks =
    (c : Cgroup) × (l : Login) × Child c ks × (login_of logins (name c) ≡ some l) × IsOld c l

-- No graphical login is still starting.
abbrev pub Settled : List Login → Children → Type 0
Settled logins ks =
    (c : Cgroup) (l : Login)
    → Child c ks
    → login_of logins (name c) ≡ some l
    → l.graphical ≡ true
    → settled l ≡ true

add_scope-legacy :
    (c : Cgroup) (o : Option Login) (s : Scopes)
    → (add_scope c o s).legacy ≡ true
    → (s.legacy ≡ true) ⊎ ((l : Login) × (o ≡ some l) × IsOld c l)
unfolding add_scope
add_scope-legacy c none s h = inl h
add_scope-legacy c (some l) s h =
    let old : (s.legacy ≡ true) ⊎ IsOld c l = ground arith in
    elim old [ inl e ↦ inl e | inr e ↦ inr (l, refl, e) ]

pub scopes_from-legacy :
    (logins : List Login) (ks : Children) (s : Scopes)
    → (scopes_from logins ks s).legacy ≡ true
    → (s.legacy ≡ true) ⊎ OldIn logins ks
unfolding scopes_from
scopes_from-legacy logins nil s h = inl h
scopes_from-legacy logins (cons c ks) s h =
    elim (scopes_from-legacy logins ks (add_scope c (login_of logins (name c)) s) h) [
      | inl e ↦ elim (add_scope-legacy c (login_of logins (name c)) s e) [
        | inl f ↦ inl f
        | inr (l, f, old) ↦ inr (c, l, first, f, old)
      ]
      | inr (d, l, i, f, old) ↦ inr (d, l, later i, f, old)
    ]

add_scope-starting :
    (c : Cgroup) (o : Option Login) (s : Scopes)
    → (add_scope c o s).starting ≡ false
    → (s.starting ≡ false) × ((l : Login) → o ≡ some l → l.graphical ≡ true → settled l ≡ true)
unfolding add_scope
add_scope-starting c none s h = (h, λ l e g. cc e)
add_scope-starting c (some k) s h = (ground arith, λ l e g. ground arith)

scopes_from-starting :
    (logins : List Login) (ks : Children) (s : Scopes)
    → (scopes_from logins ks s).starting ≡ false
    → (s.starting ≡ false) × Settled logins ks
unfolding scopes_from
scopes_from-starting logins nil s h = (h, λ c l i e g. elim i [ ])
scopes_from-starting logins (cons c ks) s h =
    let rest = scopes_from-starting logins ks (add_scope c (login_of logins (name c)) s) h in
    let here = add_scope-starting c (login_of logins (name c)) s rest.0 in
    (here.0, λ d l i e g. settled_child d l i e g here.1 rest.1)
  where
    settled_child :
        (d : Cgroup) (l : Login)
        → Child d (cons c ks)
        → login_of logins (name d) ≡ some l
        → l.graphical ≡ true
        → ((m : Login) → login_of logins (name c) ≡ some m → m.graphical ≡ true → settled m ≡ true)
        → Settled logins ks
        → settled l ≡ true
    settled_child d l first e g f r = f l e g
    settled_child d l (later i) e g f r = r d l i e g

pub scopes_from-Settled :
    (logins : List Login) (ks : Children) (s : Scopes)
    → (scopes_from logins ks s).starting ≡ false
    → Settled logins ks
scopes_from-Settled logins ks s h = (scopes_from-starting logins ks s h).1
