-- ===== src/Server/Tests/Limits.antt =====
-- Rate limits at concrete requests.
use openscreentime.Common.{
  ℕ, ◌*◌, ◌≤◌, ◌≡◌, refl, true, false, some, List, [], ◌∷◌, arith, is_some, if◌then◌else◌,
}
use openscreentime.Common.Text.{codes, trim}
use openscreentime.Server.RateLimit.{
  Key, Buckets, Request, lookup, hit, prune, store, check, client_key, last_hop,
}
use openscreentime.Server.RateLimit.Pruning.{IsMap}
use openscreentime.Server.RateLimit.Alone.{answers_to, requests_of, alone, answers_to-alone}
use openscreentime.Server.RateLimit.Budget.{admitted, answers_to-admitted}

abbrev here : Key
here = record { scope = codes "auth"; client = codes "1.2.3.4" }

abbrev there : Key
there = record { scope = codes "auth"; client = codes "5.6.7.8" }

-- A window of `here` that is nearly used up, and a request of each key.
abbrev table : Buckets
table = (here, record { start = 5; hits = 9 }) ∷ []

abbrev asked : Key → ℕ → Request
asked k now = record { now = now; key = k; budget = 10 }

abbrev requests : List Request
requests = asked here 7 ∷ asked there 8 ∷ asked here 9 ∷ []

was-IsMap : IsMap table
unfolding lookup
was-IsMap = (refl, tt)

answered : answers_to here table requests ≡ true ∷ false ∷ []
unfolding answers_to check prune hit lookup store
answered = refl

answers_to-alone_example :
    answers_to here table requests ≡ alone (lookup here table) (requests_of here requests)
answers_to-alone_example =
    answers_to-alone here 0 table requests was-IsMap (omega arith, (omega arith, (omega arith, tt)))

answers_to-admitted_example :
    admitted (answers_to here table requests) ≤ (if is_some (lookup here table) then 2 * 10 else 10)
unfolding lookup
answers_to-admitted_example =
    answers_to-admitted here 0 6 10 table requests was-IsMap
      (omega arith, (omega arith, (omega arith, tt)))
      (refl, omega arith, omega arith, (refl, omega arith, omega arith, tt)) (omega arith)

-- The key is the last hop, without the space before it.
keyed :
    client_key true (some (codes "203.0.113.9, 10.0.0.5")) (some (codes "172.17.0.1"))
    ≡ codes "10.0.0.5"
unfolding client_key last_hop trim
keyed = refl
