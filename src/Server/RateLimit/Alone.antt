-- ===== src/Server/RateLimit/Alone.antt =====
-- What the requests of one key are answered, among the others and alone.
use openscreentime.Common.{
  ℕ, ◌≤◌, ◌≡◌, refl, Bool, false, Option, some, List, [], ◌∷◌, arith, leb, if◌then◌else◌, keep, inl,
  inr, Bool-cases, sym,
}
use openscreentime.Server.RateLimit.{
  Key, Bucket, Buckets, same_key, lookup, prune, hit, check, Request,
}
use openscreentime.Server.RateLimit.Pruning.{
  IsMap, Faded, same, same_key→eq, lookup-store, lookup-store_other, store-IsMap, prune-IsMap,
  prune-Faded, Faded-later, hit-Faded,
}

-- Times do not go back.
abbrev pub Chain : ℕ → List Request → Type 0
Chain now [] = Unit {0}
Chain now (r ∷ rs) = (now ≤ r.now) × Chain r.now rs

-- What the requests of a key are answered, among the requests of all keys.
unfoldable pub answers_to : Key → Buckets → List Request → List Bool
answers_to k t [] = []
answers_to k t (r ∷ rs) =
    let (t', ok) = check r.now r.key r.budget t in
    let rest = answers_to k t' rs in if same_key r.key k then ok ∷ rest else rest

abbrev pub requests_of : Key → List Request → List Request
requests_of k rs = keep (λ r. same_key r.key k) rs

-- The same for a bucket that nothing else touches.
unfoldable pub alone : Option Bucket → List Request → List Bool
alone b [] = []
alone b (r ∷ rs) = let b' = hit r.now b in leb b'.hits r.budget ∷ alone (some b') rs

lookup-check :
    (now : ℕ) (k j : Key) (budget : ℕ) (t : Buckets)
    → IsMap t
    → same_key j k ≡ false
    → Faded now (lookup k t) (lookup k (check now j budget t).0)
unfolding check
lookup-check now k j budget t m other =
    let e = lookup-store_other k j (hit now (lookup j (prune now t))) (prune now t) other in
    rw e (prune-Faded now k t m)

check-IsMap :
    (now : ℕ) (k : Key) (budget : ℕ) (t : Buckets) → IsMap t → IsMap (check now k budget t).0
unfolding check
check-IsMap now k budget t m =
    store-IsMap k (hit now (lookup k (prune now t))) (prune now t) (prune-IsMap now t m)

check-hit :
    (now : ℕ) (k : Key) (budget : ℕ) (t : Buckets) (b : Option Bucket)
    → IsMap t
    → Faded now b (lookup k t)
    → (lookup k (check now k budget t).0 ≡ some (hit now b))
      × ((check now k budget t).1 ≡ leb (hit now b).hits budget)
unfolding check
check-hit now k budget t b m f =
    let f' : Faded now b (lookup k (prune now t)) =
      Faded-later now now b (lookup k t) (lookup k (prune now t)) (omega arith) f
        (prune-Faded now k t m) in
    let e : hit now b ≡ hit now (lookup k (prune now t)) =
      hit-Faded now b (lookup k (prune now t)) f' in
    rw e (lookup-store k (hit now (lookup k (prune now t))) (prune now t), refl)

Faded-wait : (now later : ℕ) (a b : Option Bucket) → now ≤ later → Faded now a b → Faded later a b
Faded-wait now later a b le f = Faded-later now later a b b le f same

answers_to-alone-Faded :
    (k : Key) (now : ℕ) (t : Buckets) (b : Option Bucket) (rs : List Request)
    → IsMap t
    → Chain now rs
    → Faded now b (lookup k t)
    → answers_to k t rs ≡ alone b (requests_of k rs)
unfolding answers_to alone
answers_to-alone-Faded k now t b [] m c f = refl
answers_to-alone-Faded k now t b (r ∷ rs) m c f =
    let t' = (check r.now r.key r.budget t).0 in
    let m' = check-IsMap r.now r.key r.budget t m in
    let f' = Faded-wait now r.now b (lookup k t) c.0 f in
    elim (Bool-cases (same_key r.key k)) [
      | inl mine ↦
          let e = same_key→eq r.key k mine in
          let h = check-hit r.now r.key r.budget t b m (rw e f') in
          let stored : lookup k t' ≡ some (hit r.now b) = rw (sym e) h.0 in
          let rest =
            answers_to-alone-Faded k r.now t' (some (hit r.now b)) rs m' c.1 (rw stored same) in
          rw (mine, h.1, rest) refl
      | inr other ↦
          let g = lookup-check r.now k r.key r.budget t m other in
          let h = Faded-later now r.now b (lookup k t) (lookup k t') c.0 f g in
          rw (other, answers_to-alone-Faded k r.now t' b rs m' c.1 h) refl
    ]

-- In any sequence of requests whose times do not go back, what the requests of a key are answered
-- is what a window of that key alone would answer them: other keys, and the pruning of windows that
-- are over, change nothing.
pub answers_to-alone :
    (k : Key) (now : ℕ) (t : Buckets) (rs : List Request)
    → IsMap t
    → Chain now rs
    → answers_to k t rs ≡ alone (lookup k t) (requests_of k rs)
answers_to-alone k now t rs m c = answers_to-alone-Faded k now t (lookup k t) rs m c same
