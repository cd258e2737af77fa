-- ===== src/Server/RateLimit/Pruning.antt =====
-- The list of buckets as a map, and what is left of it after a pruning.
use openscreentime.Common.{
  ℕ, ◌≤◌, ◌≡◌, refl, Bool, true, false, not, Option, none, some, [], ◌∷◌, arith, ltb, if◌then◌else◌,
  length, keep, inl, inr, Bool-cases, sym, ap,
}
use openscreentime.Common.Text.{text_eq_refl, text_eq→eq}
use openscreentime.Server.RateLimit.{
  Key, Bucket, Buckets, same_key, lookup, store, over, prune, prune_threshold, hit,
}

-- No two entries have the same key.
abbrev pub IsMap : Buckets → Type 0
IsMap [] = Unit {0}
IsMap ((k, b) ∷ t) = (lookup k t ≡ none) × IsMap t

pub same_key_refl : (k : Key) → same_key k k ≡ true
same_key_refl k = ground (arith, text_eq_refl k.scope, text_eq_refl k.client)

pub same_key→eq : (k k' : Key) → same_key k k' ≡ true → k ≡ k'
same_key→eq k k' h =
    let a : k.scope ≡ k'.scope = text_eq→eq k.scope k'.scope (ground arith) in
    let b : k.client ≡ k'.client = text_eq→eq k.client k'.client (ground arith) in cc (a, b)

same_key_sym : (k k' : Key) → same_key k k' ≡ false → same_key k' k ≡ false
same_key_sym k k' h = elim (Bool-cases (same_key k' k)) [
  | inl same ↦ let e : k' ≡ k = same_key→eq k' k same in cc (h, ap (same_key k) e, same_key_refl k)
  | inr other ↦ other
]

pub lookup-store : (k : Key) (b : Bucket) (t : Buckets) → lookup k (store k b t) ≡ some b
unfolding lookup store
lookup-store k b [] = ground (arith, same_key_refl k)
lookup-store k b ((k', b') ∷ t) = ground (arith, lookup-store k b t)

pub lookup-store_other :
    (k k' : Key) (b : Bucket) (t : Buckets)
    → same_key k' k ≡ false
    → lookup k (store k' b t) ≡ lookup k t
unfolding lookup store
lookup-store_other k k' b [] h = ground arith
lookup-store_other k k' b ((j, b') ∷ t) h = elim (Bool-cases (same_key j k')) [
  | inl same ↦
      let e : j ≡ k' = same_key→eq j k' same in
      let h' : same_key j k ≡ false = rw e h in ground arith
  | inr other ↦ ground (arith, lookup-store_other k k' b t h)
]

pub store-IsMap : (k : Key) (b : Bucket) (t : Buckets) → IsMap t → IsMap (store k b t)
unfolding lookup store
store-IsMap k b [] m = (refl, tt)
store-IsMap k b ((j, b') ∷ t) m = elim (Bool-cases (same_key j k)) [
  | inl same ↦ rw same m
  | inr other ↦
      let absent : lookup j (store k b t) ≡ lookup j t =
        lookup-store_other j k b t (same_key_sym j k other) in
      rw other (cc (absent, m.0), store-IsMap k b t m.1)
]

-- What is left of a bucket once the entries that fail a test are gone.
abbrev survivor : (Bucket → Bool) → Option Bucket → Option Bucket
survivor p none = none
survivor p (some b) = if p b then some b else none

lookup-keep :
    (p : Bucket → Bool) (k : Key) (t : Buckets)
    → IsMap t
    → lookup k (keep (λ e. p e.1) t) ≡ survivor p (lookup k t)
unfolding lookup
lookup-keep p k [] m = refl
lookup-keep p k ((j, b) ∷ t) m = elim (Bool-cases (same_key j k)) [
  | inl same ↦
      let e : lookup k t ≡ none = rw (sym (same_key→eq j k same)) m.0 in
      let gone : lookup k (keep (λ e. p e.1) t) ≡ none = rw (lookup-keep p k t m.1, e) refl in
      ground (arith, gone)
  | inr other ↦ ground (arith, lookup-keep p k t m.1)
]

keep-IsMap : (p : Bucket → Bool) (t : Buckets) → IsMap t → IsMap (keep (λ e. p e.1) t)
keep-IsMap p [] m = tt
keep-IsMap p ((j, b) ∷ t) m = elim (Bool-cases (p b)) [
  | inl kept ↦ rw kept (rw (lookup-keep p j t m.1, m.0) refl, keep-IsMap p t m.1)
  | inr gone ↦ rw gone (keep-IsMap p t m.1)
]

pub prune-IsMap : (now : ℕ) (t : Buckets) → IsMap t → IsMap (prune now t)
unfolding prune
prune-IsMap now t m = elim (Bool-cases (ltb prune_threshold (length t))) [
  | inl long ↦ rw long (keep-IsMap (λ b. not (over now b)) t m)
  | inr short ↦ rw short m
]

-- A bucket and what has become of it by `now`: itself, or nothing if it is over.
pub data Faded : ℕ → Option Bucket → Option Bucket → Type 0 where
  same : {now : ℕ} {b : Option Bucket} → Faded now b b
  gone : {now : ℕ} {b : Bucket} → over now b ≡ true → Faded now (some b) none

survivor-Faded : (now : ℕ) (o : Option Bucket) → Faded now o (survivor (λ b. not (over now b)) o)
survivor-Faded now none = same
survivor-Faded now (some b) = elim (Bool-cases (over now b)) [
  | inl h ↦ rw h (gone h)
  | inr h ↦ rw h same
]

pub prune-Faded :
    (now : ℕ) (k : Key) (t : Buckets) → IsMap t → Faded now (lookup k t) (lookup k (prune now t))
unfolding prune
prune-Faded now k t m = elim (Bool-cases (ltb prune_threshold (length t))) [
  | inl long ↦
      rw (long, lookup-keep (λ b. not (over now b)) k t m) (survivor-Faded now (lookup k t))
  | inr short ↦ rw short same
]

-- What is over stays over, and a bucket that is over is as good as none.
pub Faded-later :
    (now later : ℕ) (a b c : Option Bucket)
    → now ≤ later
    → Faded now a b
    → Faded later b c
    → Faded later a c
Faded-later now later a b c le same g = g
Faded-later now later a b c le (gone h) same = gone (ground arith)

pub hit-Faded : (now : ℕ) (a b : Option Bucket) → Faded now a b → hit now a ≡ hit now b
unfolding hit
hit-Faded now a b same = refl
hit-Faded now a b (gone h) = ground arith
