-- ===== src/Server/RateLimit/Budget.antt =====
-- The budget of a window.
use openscreentime.Common.{
  ℕ, ◌+◌, ◌-◌, ◌*◌, ◌^◌, ◌≤◌, ◌<◌, ◌≡◌, Bool, Option, none, some, List, [], ◌∷◌, arith, is_some,
  leb, if◌then◌else◌, length,
}
use openscreentime.Server.RateLimit.{Key, Bucket, Buckets, lookup, hit, Request, window}
use openscreentime.Server.RateLimit.Pruning.{IsMap}
use openscreentime.Server.RateLimit.Alone.{Chain, answers_to, requests_of, alone, answers_to-alone}

abbrev pub admitted : List Bool → ℕ
admitted [] = 0
admitted (x ∷ xs) = (if x then 1 else 0) + admitted xs

-- The requests have this budget and come within one window from an instant.
abbrev pub Within : ℕ → ℕ → List Request → Type 0
Within from budget [] = Unit {0}
Within from budget (r ∷ rs) =
    (r.budget ≡ budget) × (from ≤ r.now) × (r.now < from + window) × Within from budget rs

abbrev pub hits_of : Option Bucket → ℕ
hits_of none = 0
hits_of (some b) = b.hits

-- How many hits a bucket may still admit within a window from an instant.
abbrev room : ℕ → ℕ → Option Bucket → ℕ
room from budget none = budget
room from budget (some b) = if leb from b.start then budget - b.hits else budget - b.hits + budget

hit-room :
    (from budget now : ℕ) (b : Option Bucket)
    → from ≤ now
    → now < from + window
    → hits_of b + 1 < 2 ^ 32
    → (if leb (hit now b).hits budget then 1 else 0) + room from budget (some (hit now b))
        ≤ room from budget b
      × ((hit now b).hits ≤ hits_of b + 1)
unfolding hit
hit-room from budget now none ge lt small = ground arith
hit-room from budget now (some b) ge lt small = ground arith

alone-room :
    (from budget : ℕ) (b : Option Bucket) (rs : List Request)
    → Within from budget rs
    → hits_of b + length rs < 2 ^ 32
    → admitted (alone b rs) ≤ room from budget b
unfolding alone
alone-room from budget b [] w small = omega arith
alone-room from budget b (r ∷ rs) (e, ge, lt, w) small =
    let h = hit-room from budget r.now b ge lt (omega arith) in
    let rest = alone-room from budget (some (hit r.now b)) rs w (let le = h.1 in omega arith) in
    rw e (let le = h.0 in omega arith)

room_most :
    (from budget : ℕ) (b : Option Bucket)
    → room from budget b ≤ (if is_some b then 2 * budget else budget)
room_most from budget none = omega arith
room_most from budget (some b) = ground arith

-- Of requests whose times do not go back, where those of a key all have one budget and come within
-- one window's length from some instant, the key gets at most twice the budget admitted, and at most
-- the budget from a table that does not know it, if the hits to count are fewer than 2 ^ 32.
pub answers_to-admitted :
    (k : Key) (now from budget : ℕ) (t : Buckets) (rs : List Request)
    → IsMap t
    → Chain now rs
    → Within from budget (requests_of k rs)
    → hits_of (lookup k t) + length (requests_of k rs) < 2 ^ 32
    → admitted (answers_to k t rs) ≤ (if is_some (lookup k t) then 2 * budget else budget)
answers_to-admitted k now from budget t rs m c w small =
    let e = answers_to-alone k now t rs m c in
    let le = alone-room from budget (lookup k t) (requests_of k rs) w small in
    let most = room_most from budget (lookup k t) in rw e (omega arith)
