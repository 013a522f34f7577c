-- ===== src/Api/RateLimit.antt =====
-- internal/api/ratelimit.go. Tokens are counted in billionths, and the monotonic clock in nanoseconds, so
-- that the refill, which the source computes in floating point, is exact: a rate of r tokens each second is
-- r billionths each nanosecond. The rate and the capacity are configured counts. Locking makes each call
-- one step.
pub mod Bounds
use gpu_cluster_scheduler.Common.{
  ℕ, zero, suc, ◌+◌, ◌-◌, ◌*◌, ltb, leb, String, str_eq, Bool, true, false, if◌then◌else◌, Option,
  none, some, List, [], ◌∷◌,
}

abbrev pub token : ℕ
token = 1_000_000_000

pub record TokenBucket : Type 0 where
  pub tokens : ℕ
  pub capacity : ℕ
  pub rate : ℕ
  pub last : ℕ

unfoldable pub new_bucket : ℕ → ℕ → ℕ → TokenBucket
new_bucket rate capacity now = record {
  tokens = capacity * token;
  capacity = capacity * token;
  rate = rate;
  last = now;
}

-- The tokens after the refill, cut to the capacity.
unfoldable pub refill : TokenBucket → ℕ → ℕ
refill b now =
    let tokens = b.tokens + (now - b.last) * b.rate in
    if ltb b.capacity tokens then b.capacity else tokens

unfoldable pub allow : TokenBucket → ℕ → TokenBucket × Bool
unfolding refill
allow b now =
    let tokens = refill b now in
    if leb token tokens
    then (record b { tokens = tokens - token; last = now }, true)
    else (record b { tokens = tokens; last = now }, false)

pub record RateLimiter : Type 0 where
  pub buckets : List (String × TokenBucket)
  pub rate : ℕ
  pub capacity : ℕ

unfoldable pub new_rate_limiter : ℕ → ℕ → RateLimiter
new_rate_limiter rps burst = record { buckets = []; rate = rps; capacity = burst }

unfoldable pub bucket : String → List (String × TokenBucket) → Option TokenBucket
bucket k [] = none
bucket k ((j, b) ∷ m) = let rest = bucket k m in if str_eq j k then some b else rest

put : String → TokenBucket → List (String × TokenBucket) → List (String × TokenBucket)
put k b [] = (k, b) ∷ []
put k b ((j, c) ∷ m) = let rest = put k b m in if str_eq j k then (k, b) ∷ m else (j, c) ∷ rest

-- The client's bucket: a full one if the client is new.
unfoldable pub bucket_of : RateLimiter → String → ℕ → TokenBucket
unfolding bucket new_bucket
bucket_of rl key now = elim (bucket key rl.buckets) [
  | none ↦ new_bucket rl.rate rl.capacity now
  | some b ↦ b
]

unfoldable pub allow_key : RateLimiter → String → ℕ → RateLimiter × Bool
unfolding bucket_of allow put
allow_key rl key now =
    let (b, allowed) = allow (bucket_of rl key now) now in
    (record rl { buckets = put key b rl.buckets }, allowed)
