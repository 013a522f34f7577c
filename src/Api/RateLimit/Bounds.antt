-- ===== src/Api/RateLimit/Bounds.antt =====
-- How many requests the limiter of internal/api/ratelimit.go lets through.
use gpu_cluster_scheduler.Common.{
  ℕ, zero, suc, ◌+◌, ◌-◌, ◌*◌, ◌≤◌, String, str_eq, str_eq_iff, Bool, Bool-cases, true,
  if◌then◌else◌, inl, inr, some, List, [], ◌∷◌, ◌≡◌, refl, ap, subst, arith,
}
use gpu_cluster_scheduler.Api.RateLimit.{
  token, TokenBucket, refill, allow, RateLimiter, bucket, put, bucket_of, allow_key,
}

-- Requests to one bucket, each a time after the one before: the bucket at the end, and how many passed.
unfoldable pub serve_gaps : TokenBucket → List ℕ → TokenBucket × ℕ
unfolding allow
serve_gaps b [] = (b, 0)
serve_gaps b (gap ∷ gaps) =
    let (b', allowed) = allow b (b.last + gap) in
    let (end, passed) = serve_gaps b' gaps in (end, if allowed then suc passed else passed)

abbrev pub total : List ℕ → ℕ
total [] = 0
total (gap ∷ gaps) = gap + total gaps

abbrev replicate : ℕ → ℕ → List ℕ
replicate zero x = []
replicate (suc n) x = x ∷ replicate n x

bucket-put :
    (k j : String) (b : TokenBucket) (m : List (String × TokenBucket))
    → bucket j (put k b m) ≡ (if str_eq k j then some b else bucket j m)
unfolding bucket put
bucket-put k j b [] = refl
bucket-put k j b ((i, c) ∷ m) =
    ground (arith, str_eq_iff k j, str_eq_iff i k, str_eq_iff i j, bucket-put k j b m)

-- A request costs a token, and time brings at most `rate` billionths a nanosecond.
abbrev Spent : TokenBucket → ℕ → TokenBucket × Bool → Type 0
Spent b gap (b', allowed) =
    (b'.tokens + (if allowed then token else 0) ≤ b.tokens + gap * b.rate) × (b'.rate ≡ b.rate)

refill-le : (b : TokenBucket) (gap : ℕ) → refill b (b.last + gap) ≤ b.tokens + gap * b.rate
unfolding refill
refill-le b gap =
    let elapsed : b.last + gap - b.last ≡ gap = omega arith in rw elapsed (ground arith)

allow-Spent : (b : TokenBucket) (gap : ℕ) → Spent b gap (allow b (b.last + gap))
unfolding allow
allow-Spent b gap = ground (arith, refill-le b gap)

-- The tokens spent and left are at most those at the start and the refill for the time of the run.
serve_gaps_bound :
    (gaps : List ℕ) (b : TokenBucket)
    → (serve_gaps b gaps).1 * token + (serve_gaps b gaps).0.tokens ≤ b.tokens + total gaps * b.rate
unfolding serve_gaps
serve_gaps_bound [] b = omega arith
serve_gaps_bound (gap ∷ gaps) b =
    let b' = (allow b (b.last + gap)).0 in
    let (cost, same) = allow-Spent b gap in
    let rest : (serve_gaps b' gaps).1 * token + (serve_gaps b' gaps).0.tokens
        ≤ b'.tokens + total gaps * b.rate =
      subst
        (λ r.
          (serve_gaps b' gaps).1 * token + (serve_gaps b' gaps).0.tokens
          ≤ b'.tokens + total gaps * r)
        same (serve_gaps_bound gaps b') in
    elim (Bool-cases (allow b (b.last + gap)).1) [
      | inl e ↦ let paid = rw e at cost in rw e (omega arith)
      | inr e ↦ let free = rw e at cost in rw e (omega arith)
    ]

refill-capacity : (b : TokenBucket) (now : ℕ) → refill b now ≤ b.capacity
unfolding refill
refill-capacity b now = ground arith

-- After a request the bucket holds no more than its capacity, less what the request took.
allow-capacity :
    (b : TokenBucket) (now : ℕ)
    → let (b', allowed) = allow b now in
      (b'.tokens + (if allowed then token else 0) ≤ b.capacity) × (b'.rate ≡ b.rate)
unfolding allow
allow-capacity b now = ground (arith, refill-capacity b now)

-- However long a bucket was idle before, of any run of requests it lets through no more than its
-- capacity and its rate times the time from the first request of the run to the last, less the tokens
-- that are left; and no more than the tokens at the start and the refill for the whole time.
pub serve_gaps-capacity :
    (idle : ℕ) (gaps : List ℕ) (b : TokenBucket)
    → let (end, passed) = serve_gaps b (idle ∷ gaps) in
      (passed * token + end.tokens ≤ b.capacity + total gaps * b.rate)
      × (passed * token + end.tokens ≤ b.tokens + (idle + total gaps) * b.rate)
unfolding serve_gaps
serve_gaps-capacity idle gaps b =
    let b' = (allow b (b.last + idle)).0 in
    let (held, same) = allow-capacity b (b.last + idle) in
    let rest : (serve_gaps b' gaps).1 * token + (serve_gaps b' gaps).0.tokens
        ≤ b'.tokens + total gaps * b.rate =
      subst
        (λ r.
          (serve_gaps b' gaps).1 * token + (serve_gaps b' gaps).0.tokens
          ≤ b'.tokens + total gaps * r)
        same (serve_gaps_bound gaps b') in
    (
      elim (Bool-cases (allow b (b.last + idle)).1) [
        | inl e ↦ let paid = rw e at held in rw e (omega arith)
        | inr e ↦ let free = rw e at held in rw e (omega arith)
      ],
      serve_gaps_bound (idle ∷ gaps) b,
    )

refill_at_once : (b : TokenBucket) → b.tokens ≤ b.capacity → refill b (b.last + 0) ≡ b.tokens
unfolding refill
refill_at_once b c =
    let elapsed : b.last + 0 - b.last ≡ 0 = omega arith in rw elapsed (ground arith)

allow_at_once :
    (b : TokenBucket)
    → token ≤ b.tokens
    → b.tokens ≤ b.capacity
    → allow b (b.last + 0) ≡ (record b { tokens = b.tokens - token; last = b.last + 0 }, true)
unfolding allow
allow_at_once b h c =
    let full : refill b (b.last + 0) ≡ b.tokens = refill_at_once b c in ground (arith, full)

-- A bucket with tokens for that many requests at once serves them all, if it holds no more than its
-- capacity.
pub serve_gaps_burst :
    (n : ℕ) (b : TokenBucket)
    → n * token ≤ b.tokens
    → b.tokens ≤ b.capacity
    → (serve_gaps b (replicate n 0)).1 ≡ n
unfolding serve_gaps
serve_gaps_burst zero b h c = refl
serve_gaps_burst (suc n) b h c = rw (allow_at_once b (omega arith) c) (
    ap suc (
      serve_gaps_burst n (record b { tokens = b.tokens - token; last = b.last + 0 }) (omega arith)
        (omega arith)))

-- A call for one client leaves the bucket of every other as it was, and stores its own after it.
pub bucket-allow_key :
    (rl : RateLimiter) (key other : String) (now : ℕ)
    → bucket other (allow_key rl key now).0.buckets ≡ (
        if str_eq key other
        then some (allow (bucket_of rl key now) now).0
        else bucket other rl.buckets)
unfolding allow_key
bucket-allow_key rl key other now = bucket-put key other _ rl.buckets
