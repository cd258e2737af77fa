-- ===== src/Policy/Evaluate/Resume.antt =====
-- `resume_at`: when a stopped person could use the screen again.
use native.Mathlib.Decide.{dec_lt}
use openscreentime.Common.{
  ℕ, zero, suc, ◌+◌, ◌-◌, ◌*◌, ◌/◌, ◌≤◌, ◌<◌, ◌≡◌, sym, ◌∙◌, ap, ◌≢◌, ◌⊎◌, inl, inr, Bool, true,
  false, ◌&&◌, not, Option, none, some, arith, ltb, ◌==◌, if◌then◌else◌, is_some, Bool-cases,
}
use openscreentime.Policy.Compiled.{LocalTime, clock_reason}
use openscreentime.Policy.Time.{IsZone, minute}
use openscreentime.Policy.Evaluate.{
  Query, horizon, clock_at, date_of, next_minute, resume_walk, resume_fuel, spent_now, resume_at,
}
use openscreentime.Policy.Evaluate.Rounds.{next_minute_lem}

module _ (q : Query) (v : IsZone q.zone) where
  open q use {zone, now}

  -- Bedtime or hours stop the person at x, or the budget of `from`'s date is spent and that is x's.
  abbrev pub Blocked : ℕ → Bool → ℕ → Type 0
  Blocked from spent x =
      (is_some (clock_at q x) ≡ true) ⊎ ((spent ≡ true) × (date_of q x ≡ date_of q from))

  abbrev pub BlockedTo : ℕ → Bool → ℕ → ℕ → Type 0
  BlockedTo from spent t u = (x : ℕ) → t ≤ x → x < u → Blocked from spent x

  -- A moment at which the walk may resume: no clock rule stops the person, and a spent budget has
  -- met another date.
  abbrev pub Opens : ℕ → Bool → ℕ → ℕ → Type 0
  Opens from spent t u =
      (t ≤ u)
      × (u ≤ horizon q)
      × (clock_at q u ≡ none)
      × ((spent ≡ false) ⊎ ((x : ℕ) × (t ≤ x) × (x ≤ u) × (date_of q x ≢ date_of q from)))

  abbrev pub Resumes : ℕ → Bool → ℕ → Option (Option ℕ) → Type 0
  Resumes from spent t none = ⊥
  Resumes from spent t (some none) = BlockedTo from spent t (horizon q)
  Resumes from spent t (some (some u)) = Opens from spent t u × BlockedTo from spent t u

  abbrev still : ℕ → ℕ → Bool → Bool
  still t prev spent = if date_of q t == date_of q prev then spent else false

  resume-past :
      (f t prev : ℕ) (spent : Bool)
      → ltb (horizon q) t ≡ true
      → resume_walk q (suc f) t prev spent ≡ some none
  unfolding resume_walk
  resume-past f t prev spent e = rw e

  resume-opens :
      (f t prev : ℕ) (spent : Bool)
      → ltb (horizon q) t ≡ false
      → (not (still t prev spent) && not (is_some (clock_at q t))) ≡ true
      → resume_walk q (suc f) t prev spent ≡ some (some t)
  unfolding resume_walk
  resume-opens f t prev spent e o = rw (e, o)

  resume-goes :
      (f t prev : ℕ) (spent : Bool)
      → ltb (horizon q) t ≡ false
      → (not (still t prev spent) && not (is_some (clock_at q t))) ≡ false
      → resume_walk q (suc f) t prev spent
        ≡ resume_walk q f (next_minute zone t) t (still t prev spent)
  unfolding resume_walk
  resume-goes f t prev spent e o = rw (e, o)

  same-Blocked :
      (from t x : ℕ) (spent : Bool)
      → t / minute ≡ x / minute
      → Blocked from spent t
      → Blocked from spent x
  same-Blocked from t x spent e b =
      let s = v.same_minute t x e in
      let c = ap (clock_reason q.rules) s in
      let d = ap (λ (l : LocalTime). l.date) s in ground arith

  still-true :
      (t prev : ℕ) (spent : Bool)
      → still t prev spent ≡ true
      → (spent ≡ true) × (date_of q t ≡ date_of q prev)
  still-true t prev spent e = ground arith

  still-false :
      (t prev : ℕ) (spent : Bool)
      → still t prev spent ≡ false
      → (spent ≡ false) ⊎ (date_of q t ≢ date_of q prev)
  still-false t prev spent e = ground arith

  -- What is blocked, seen from the minute t, is blocked seen from the minute before it.
  Blocked-back :
      (t prev x : ℕ) (spent : Bool) → Blocked t (still t prev spent) x → Blocked prev spent x
  Blocked-back t prev x spent (inl c) = inl c
  Blocked-back t prev x spent (inr (e, d)) =
      let (s, same) = still-true t prev spent e in inr (s, d ∙ same)

  Opens-back :
      (t t' prev u : ℕ) (spent : Bool)
      → t ≤ t'
      → Opens t (still t prev spent) t' u
      → Opens prev spent t u
  Opens-back t t' prev u spent le (a, b, c, d) =
      (omega arith, b, c, met d (Bool-cases (still t prev spent)))
    where
      met :
          (still t prev spent ≡ false)
            ⊎ ((x : ℕ) × (t' ≤ x) × (x ≤ u) × (date_of q x ≢ date_of q t))
          → (still t prev spent ≡ true) ⊎ (still t prev spent ≡ false)
          → (spent ≡ false) ⊎ ((x : ℕ) × (t ≤ x) × (x ≤ u) × (date_of q x ≢ date_of q prev))
      met d (inr e) = elim (still-false t prev spent e) [
        | inl f ↦ inl f
        | inr f ↦ inr (t, omega arith, omega arith, f)
      ]
      met (inl e) (inl s) = cc
      met (inr (x, lo, hi, ne)) (inl s) =
          inr (x, omega arith, hi, λ e. ne (e ∙ sym (still-true t prev spent s).1))

  BlockedTo-cons :
      (t t' u prev : ℕ) (spent : Bool)
      → t' ≡ (t / minute + 1) * minute
      → Blocked prev spent t
      → BlockedTo t (still t prev spent) t' u
      → BlockedTo prev spent t u
  BlockedTo-cons t t' u prev spent e b rest x le lt = elim (dec_lt x t') [
    | yes h ↦ same-Blocked prev t x spent (omega arith) b
    | no h ↦ Blocked-back t prev x spent (rest x (omega arith) lt)
  ]

  Resumes-back :
      (t t' prev : ℕ) (spent : Bool) (r : Option (Option ℕ))
      → t' ≡ (t / minute + 1) * minute
      → Blocked prev spent t
      → Resumes t (still t prev spent) t' r
      → Resumes prev spent t r
  Resumes-back t t' prev spent none e b r = r
  Resumes-back t t' prev spent (some none) e b r = BlockedTo-cons t t' (horizon q) prev spent e b r
  Resumes-back t t' prev spent (some (some u)) e b r =
      (Opens-back t t' prev u spent (omega arith) r.0, BlockedTo-cons t t' u prev spent e b r.1)

  not_open :
      (t prev : ℕ) (spent : Bool)
      → (not (still t prev spent) && not (is_some (clock_at q t))) ≡ false
      → Blocked prev spent t
  not_open t prev spent e = ground (arith, still-true t prev spent)

  is_open :
      (t prev : ℕ) (spent : Bool)
      → (not (still t prev spent) && not (is_some (clock_at q t))) ≡ true
      → (clock_at q t ≡ none) × (still t prev spent ≡ false)
  is_open t prev spent e = ground arith

  Opens-here :
      (t prev : ℕ) (spent : Bool)
      → t ≤ horizon q
      → (not (still t prev spent) && not (is_some (clock_at q t))) ≡ true
      → Opens prev spent t t
  Opens-here t prev spent h o =
      let (c, s) = is_open t prev spent o in
      (
        omega arith,
        h,
        c,
        elim (still-false t prev spent s) [
          | inl f ↦ inl f
          | inr f ↦ inr (t, omega arith, omega arith, f)
        ],
      )

  -- With fuel for every minute to the horizon the walk ends, at the first moment that is not blocked
  -- or with everything blocked up to the horizon.
  pub resume_walk-Resumes :
      (f t prev : ℕ) (spent : Bool)
      → horizon q / minute + 1 - t / minute < f
      → Resumes prev spent t (resume_walk q f t prev spent)
  resume_walk-Resumes zero t prev spent h = absurd (omega arith)
  resume_walk-Resumes (suc f) t prev spent h = elim (Bool-cases (ltb (horizon q) t)) [
    | inl past ↦ rw (resume-past f t prev spent past) (λ x le lt. absurd (ground arith))
    | inr e ↦ elim (Bool-cases (not (still t prev spent) && not (is_some (clock_at q t)))) [
      | inl o ↦
          rw (resume-opens f t prev spent e o)
            (Opens-here t prev spent (ground arith) o, λ x le lt. absurd (omega arith))
      | inr o ↦
          let t' : ℕ = next_minute zone t in
          let n : t' ≡ (t / minute + 1) * minute = next_minute_lem zone v t in
          let le : t ≤ horizon q = ground arith in
          rw (resume-goes f t prev spent e o) (
            Resumes-back t t' prev spent (resume_walk q f t' t (still t prev spent)) n
              (not_open t prev spent o)
              (resume_walk-Resumes f t' t (still t prev spent) (omega arith)))
    ]
  ]

  -- `resume_at` always answers. A moment that it returns is a later one within the horizon at which
  -- neither bedtime nor hours stop the person, past midnight if the budget was spent, and the first:
  -- from the next minute on everything before it is blocked. Without one, all is, to the horizon.
  pub resume_at-Resumes : Resumes now (spent_now q) (next_minute zone now) (resume_at q)
  unfolding resume_at
  resume_at-Resumes =
      let n = next_minute_lem zone v now in
      resume_walk-Resumes (resume_fuel q) (next_minute zone now) now (spent_now q) (omega arith)
