-- ===== src/Common/Maps.antt =====
-- A hash map keyed by text, as a list of entries: the first entry of a key is the one that counts.
use mathlib.Core.Path.{◌≡◌, refl, ap}
use mathlib.Core.Bool.{Bool, true, false, not}
use mathlib.Core.Option.{Option, none, some}
use mathlib.Core.List.{List, [], ◌∷◌}
use mathlib.Core.Logic.{inl, inr}
use native.Mathlib.Omega.{arith}
use openscreentime.Common.Tests.{if◌then◌else◌, Bool-cases, eq_of_some}
use openscreentime.Common.Lists.{keep}
use openscreentime.Common.Text.{Text, text_eq, text_eq_refl, text_eq→eq}

abbrev pub Map {ℓ} : Type ℓ → Type ℓ
Map V = List (Text × V)

module _ {ℓ} {V : Type ℓ} where
  unfoldable pub get : Text → Map V → Option V
  get k [] = none
  get k ((j, v) ∷ m) = let rest = get k m in if text_eq j k then some v else rest

  unfoldable pub put : Text → V → Map V → Map V
  put k v [] = (k, v) ∷ []
  put k v ((j, u) ∷ m) = let rest = put k v m in if text_eq j k then (j, v) ∷ m else (j, u) ∷ rest

  unfoldable pub erase : Text → Map V → Map V
  erase k m = keep (λ e. not (text_eq e.0 k)) m

  unfoldable pub retain : (V → Bool) → Map V → Map V
  retain p m = keep (λ e. p e.1) m

  -- `entry(..).or_insert(..)`, read.
  abbrev pub get_or : V → Option V → V
  get_or d none = d
  get_or d (some v) = v

  pub get-put : (k : Text) (v : V) (m : Map V) → get k (put k v m) ≡ some v
  unfolding get put
  get-put k v [] = ground (arith, text_eq_refl k)
  get-put k v ((j, u) ∷ m) = elim (Bool-cases (text_eq j k)) [
    | inl e ↦ rw (e, e) refl
    | inr e ↦ rw (e, e) (get-put k v m)
  ]

  pub get-put_other :
      (k j : Text) (v : V) (m : Map V) → text_eq k j ≡ false → get j (put k v m) ≡ get j m
  unfolding get put
  get-put_other k j v [] h = rw h refl
  get-put_other k j v ((i, u) ∷ m) h = elim (Bool-cases (text_eq i k)) [
    | inl e ↦ let h' : text_eq i j ≡ false = rw (text_eq→eq i k e) h in rw (e, h') refl
    | inr e ↦ rw (e, get-put_other k j v m h) refl
  ]

  pub get-erase_other : (k j : Text) (m : Map V) → text_eq k j ≡ false → get j (erase k m) ≡ get j m
  unfolding get erase
  get-erase_other k j [] h = refl
  get-erase_other k j ((i, u) ∷ m) h = elim (Bool-cases (text_eq i k)) [
    | inl e ↦
        let h' : text_eq i j ≡ false = rw (text_eq→eq i k e) h in
        rw (e, h') (get-erase_other k j m h)
    | inr e ↦ rw (e, get-erase_other k j m h) refl
  ]

  -- An entry that passes the test stays.
  pub get-retain :
      (p : V → Bool) (k : Text) (v : V) (m : Map V)
      → get k m ≡ some v
      → p v ≡ true
      → get k (retain p m) ≡ some v
  unfolding get retain
  get-retain p k v [] h t = ground arith
  get-retain p k v ((i, u) ∷ m) h t = elim (Bool-cases (text_eq i k)) [
    | inl e ↦
        let same : u ≡ v = eq_of_some (rw e at h) in
        let kept : p u ≡ true = rw same t in rw (kept, e) (ap (λ x. some x) same)
    | inr e ↦
        let rest = get-retain p k v m (rw e at h) t in
        elim (Bool-cases (p u)) [ inl kept ↦ rw (kept, e) rest | inr gone ↦ rw gone rest ]
  ]
