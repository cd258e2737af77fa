-- ===== src/Policy/Compiled/Windows.antt =====
-- The compiled week against a direct reading of each window.
use openscreentime.Common.{
  ℕ, ◌+◌, ◌%◌, ◌<◌, ◌≡◌, refl, Bool, false, ◌&&◌, ◌||◌, Option, none, some, List, [], ◌∷◌, ◌++◌,
  arith, ltb, leb, ◌==◌, if◌then◌else◌, any, any-append, contains,
}
use openscreentime.Policy.Document.{Window}
use openscreentime.Policy.Hm.{day_min, span}
use openscreentime.Policy.Compiled.{
  Span, Week, add_day, add_days, real_days, add_span, add_windows, within, inside,
}

-- What one readable window says about minute m of weekday d: its own day, or the tail of the day
-- before if it crosses midnight.
abbrev pub span_covers : ℕ → ℕ → List ℕ → ℕ → ℕ → Bool
span_covers s e days d m =
    if ltb s e
    then contains days d && (leb s m && ltb m e)
    else (contains days d && leb s m) || (contains days ((d + 6) % 7) && ltb m e)

abbrev pub covers_by : Option Span → List ℕ → ℕ → ℕ → Bool
covers_by none days d m = false
covers_by (some (s, e)) days d m = span_covers s e days d m

abbrev pub covers : ℕ → ℕ → Window → Bool
covers d m w = covers_by (span w.start w.end) w.days d m

abbrev pub opens_by : Option Span → List ℕ → ℕ → Bool
opens_by none days d = false
opens_by (some x) days d = contains days d

-- Whether a readable window names the weekday d.
abbrev pub opens : ℕ → Window → Bool
opens d w = opens_by (span w.start w.end) w.days d

pub contains-real_days : (ds : List ℕ) (d : ℕ) → d < 7 → contains (real_days ds) d ≡ contains ds d
contains-real_days [] d h = refl
contains-real_days (x ∷ ds) d h = ground (arith, contains-real_days ds d)

inside-snoc :
    (xs : List Span) (x : Span) (m : ℕ) → inside (xs ++ x ∷ []) m ≡ (inside xs m || within m x)
unfolding inside
inside-snoc xs x m = ground (arith, any-append (within m) xs (x ∷ []))

-- One day of one window adds that day's part of the window.
add_day-inside :
    (s e : ℕ) (w : Week) (x d m : ℕ)
    → x < 7
    → d < 7
    → m < day_min
    → inside ((add_day s e w x).allowed d) m
      ≡ (inside (w.allowed d) m || span_covers s e (x ∷ []) d m)
unfolding add_day
add_day-inside s e w x d m hx hd hm = ground (
  arith,
  inside-snoc (w.allowed d) (s, e) m,
  inside-snoc (w.allowed d) (s, day_min) m,
  inside-snoc (w.allowed d) (0, e) m,
  inside-snoc (w.allowed d ++ (s, day_min) ∷ []) (0, e) m,
)

add_day-restricted :
    (s e : ℕ) (w : Week) (x d : ℕ) → (add_day s e w x).restricted d ≡ ((x == d) || w.restricted d)
unfolding add_day
add_day-restricted s e w x d = ground arith

span_covers-cons :
    (s e x : ℕ) (ds : List ℕ) (d m : ℕ)
    → span_covers s e (x ∷ ds) d m ≡ (span_covers s e (x ∷ []) d m || span_covers s e ds d m)
span_covers-cons s e x ds d m = ground arith

abbrev AllReal : List ℕ → Type 0
AllReal [] = Unit {0}
AllReal (d ∷ ds) = (d < 7) × AllReal ds

real_days-AllReal : (ds : List ℕ) → AllReal (real_days ds)
real_days-AllReal [] = tt
real_days-AllReal (d ∷ ds) = ground (arith, real_days-AllReal ds)

add_days-inside :
    (s e : ℕ) (w : Week) (ds : List ℕ) (d m : ℕ)
    → AllReal ds
    → d < 7
    → m < day_min
    → inside ((add_days s e w ds).allowed d) m ≡ (inside (w.allowed d) m || span_covers s e ds d m)
unfolding add_days
add_days-inside s e w [] d m hs hd hm = ground arith
add_days-inside s e w (x ∷ ds) d m hs hd hm = ground (
  arith,
  add_days-inside s e (add_day s e w x) ds d m hs.1 hd hm,
  add_day-inside s e w x d m hs.0 hd hm,
  span_covers-cons s e x ds d m,
)

add_days-restricted :
    (s e : ℕ) (w : Week) (ds : List ℕ) (d : ℕ)
    → (add_days s e w ds).restricted d ≡ (contains ds d || w.restricted d)
unfolding add_days
add_days-restricted s e w [] d = refl
add_days-restricted s e w (x ∷ ds) d =
    ground (arith, add_days-restricted s e (add_day s e w x) ds d, add_day-restricted s e w x d)

span_covers-real_days :
    (s e : ℕ) (ds : List ℕ) (d m : ℕ)
    → d < 7
    → span_covers s e (real_days ds) d m ≡ span_covers s e ds d m
span_covers-real_days s e ds d m hd =
    ground (arith, contains-real_days ds d hd, contains-real_days ds ((d + 6) % 7) (omega arith))

add_span-inside :
    (o : Option Span) (ds : List ℕ) (w : Week) (d m : ℕ)
    → d < 7
    → m < day_min
    → inside ((add_span o ds w).allowed d) m ≡ (inside (w.allowed d) m || covers_by o ds d m)
add_span-inside none ds w d m hd hm = ground arith
add_span-inside (some (s, e)) ds w d m hd hm = ground (
  arith,
  add_days-inside s e w (real_days ds) d m (real_days-AllReal ds) hd hm,
  span_covers-real_days s e ds d m hd,
)

add_span-restricted :
    (o : Option Span) (ds : List ℕ) (w : Week) (d : ℕ)
    → d < 7
    → (add_span o ds w).restricted d ≡ (opens_by o ds d || w.restricted d)
add_span-restricted none ds w d hd = refl
add_span-restricted (some (s, e)) ds w d hd =
    ground (arith, add_days-restricted s e w (real_days ds) d, contains-real_days ds d hd)

pub add_windows-inside :
    (w : Week) (xs : List Window) (d m : ℕ)
    → d < 7
    → m < day_min
    → inside ((add_windows w xs).allowed d) m ≡ (inside (w.allowed d) m || any (covers d m) xs)
unfolding add_windows
add_windows-inside w [] d m hd hm = ground arith
add_windows-inside w (x ∷ xs) d m hd hm = ground (
  arith,
  add_windows-inside (add_span (span x.start x.end) x.days w) xs d m hd hm,
  add_span-inside (span x.start x.end) x.days w d m hd hm,
)

pub add_windows-restricted :
    (w : Week) (xs : List Window) (d : ℕ)
    → d < 7
    → (add_windows w xs).restricted d ≡ (any (opens d) xs || w.restricted d)
unfolding add_windows
add_windows-restricted w [] d hd = refl
add_windows-restricted w (x ∷ xs) d hd = ground (
  arith,
  add_windows-restricted (add_span (span x.start x.end) x.days w) xs d hd,
  add_span-restricted (span x.start x.end) x.days w d hd,
)
