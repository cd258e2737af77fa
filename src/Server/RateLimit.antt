-- ===== src/Server/RateLimit.antt =====
-- server/src/rate_limit.rs: fixed windows of hits per scope and client. Instants are in nanoseconds;
-- the hash map is a list of entries, and u32 counts wrap around. The environment, the headers and
-- the peer's address are read by other crates and come as optional texts.
pub mod Pruning
pub mod Alone
pub mod Budget
pub mod Hops
use openscreentime.Common.{
  ℕ, ◌+◌, ◌-◌, ◌*◌, ◌%◌, ◌^◌, Bool, true, false, ◌&&◌, not, Option, none, some, List, [], ◌∷◌, ◌++◌,
  ltb, leb, ◌==◌, if◌then◌else◌, length, keep, is_empty,
}
use openscreentime.Common.Text.{Text, codes, text_eq, trim}

abbrev pub window : ℕ
window = 60 * 1000000000

abbrev pub auth_max : ℕ
auth_max = 10

abbrev pub enroll_max : ℕ
enroll_max = 5

abbrev pub dist_max : ℕ
dist_max = 30

abbrev pub parent_max : ℕ
parent_max = 60

abbrev pub prune_threshold : ℕ
prune_threshold = 10000

pub record Key : Type 0 where
  pub scope : Text
  pub client : Text

pub record Bucket : Type 0 where
  pub start : ℕ
  pub hits : ℕ

abbrev pub Buckets : Type 0
Buckets = List (Key × Bucket)

abbrev pub same_key : Key → Key → Bool
same_key k k' = text_eq k.scope k'.scope && text_eq k.client k'.client

unfoldable pub lookup : Key → Buckets → Option Bucket
lookup k [] = none
lookup k ((k', b) ∷ t) = let rest = lookup k t in if same_key k' k then some b else rest

unfoldable pub store : Key → Bucket → Buckets → Buckets
store k b [] = (k, b) ∷ []
store k b ((k', b') ∷ t) =
    let rest = store k b t in if same_key k' k then (k', b) ∷ t else (k', b') ∷ rest

-- Whether a window is over. The time since an instant is never below 0.
abbrev pub over : ℕ → Bucket → Bool
over now b = leb window (now - b.start)

unfoldable pub prune : ℕ → Buckets → Buckets
prune now t = if ltb prune_threshold (length t) then keep (λ e. not (over now e.1)) t else t

-- The bucket of a request: a new one, the old one afresh, or the old one; and its hit.
unfoldable pub hit : ℕ → Option Bucket → Bucket
hit now none = record { start = now; hits = 1 }
hit now (some b) =
    if over now b
    then record { start = now; hits = 1 }
    else record b { hits = (b.hits + 1) % 2 ^ 32 }

-- `RateLimiter::check`: the buckets, and whether the request is within the budget.
unfoldable pub check : ℕ → Key → ℕ → Buckets → Buckets × Bool
check now k budget t =
    let t' = prune now t in let b = hit now (lookup k t') in (store k b t', leb b.hits budget)

-- `from_env`: what OST_TRUST_PROXY says.
unfoldable pub trust_proxy : Option Text → Bool
unfolding trim
trust_proxy none = true
trust_proxy (some v) = not (text_eq (trim v) (codes "0"))

-- `rsplit(',').next()`: what follows the last comma.
unfoldable pub last_hop : Text → Text → Text
last_hop seen [] = seen
last_hop seen (c ∷ s) = if c == b',' then last_hop [] s else last_hop (seen ++ c ∷ []) s

unfoldable pub peer_key : Option Text → Text
peer_key none = codes "unknown"
peer_key (some ip) = ip

abbrev non_empty_or : Text → Text → Text
non_empty_or other [] = other
non_empty_or other (c ∷ s) = c ∷ s

-- `client_key`, from the X-Forwarded-For header and the peer's address.
unfoldable pub client_key : Bool → Option Text → Option Text → Text
unfolding last_hop trim peer_key
client_key true (some xff) peer = non_empty_or (peer_key peer) (trim (last_hop [] xff))
client_key true none peer = peer_key peer
client_key false xff peer = peer_key peer

pub record Request : Type 0 where
  pub now : ℕ
  pub key : Key
  pub budget : ℕ

pub data Response : Type 0 where
  next_run too_many_requests : Response

-- What a request says of its client: the header and the peer's address.
pub record Origin : Type 0 where
  pub xff : Option Text
  pub peer : Option Text

-- `limit`: whether the handler runs.
unfoldable pub limit : Bool → Text → ℕ → ℕ → Origin → Buckets → Buckets × Response
limit trusted scope budget now o t =
    let key : Key = record { scope = scope; client = client_key trusted o.xff o.peer } in
    let (t', ok) = check now key budget t in (t', if ok then next_run else too_many_requests)

abbrev pub limit_auth : Bool → ℕ → Origin → Buckets → Buckets × Response
limit_auth trusted = limit trusted (codes "auth") auth_max

abbrev pub limit_enroll : Bool → ℕ → Origin → Buckets → Buckets × Response
limit_enroll trusted = limit trusted (codes "enroll") enroll_max

abbrev pub limit_dist : Bool → ℕ → Origin → Buckets → Buckets × Response
limit_dist trusted = limit trusted (codes "dist") dist_max

abbrev pub limit_parent : Bool → ℕ → Origin → Buckets → Buckets × Response
limit_parent trusted = limit trusted (codes "parent") parent_max
