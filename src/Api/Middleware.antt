-- ===== src/Api/Middleware.antt =====
-- The middleware of internal/api/middleware.go that can stop a request. The JWT library is a parameter: what it finds in a token under a secret.
pub mod Admission
use text.Mathlib.Text.{starts_with}
use gpu_cluster_scheduler.Common.{
  ℕ, String, str_eq, Bool, not, true, false, if◌then◌else◌, Option, none, some,
}
use gpu_cluster_scheduler.Common.Numbers.{trim_prefix}
use gpu_cluster_scheduler.Configuration.{AuthConfig}
use gpu_cluster_scheduler.Api.RateLimit.{RateLimiter, allow_key}

pub record Request : Type 0 where
  pub method : String
  pub client_ip : String
  pub authorization : String  -- "" is no header

-- A request that goes on, with the user that its token names, or the status that answers it.
pub data Verdict : Type 0 where
  passes : Option String → Verdict
  aborts : ℕ → Verdict

-- A token that the secret verifies: whether its signing method is of the HMAC family, and its subject if it has one.
pub record Token : Type 0 where
  pub hmac : Bool
  pub subject : Option String

abbrev pub Verify : Type 0
Verify = String → String → Option Token

-- The key function refuses a token of another signing method, which makes the parser fail.
unfoldable pub auth : Verify → AuthConfig → Request → Verdict
unfolding trim_prefix
auth verify cfg r =
    if not cfg.enabled
    then passes none
    else if not (starts_with r.authorization "Bearer ")
    then aborts 401
    else elim (verify cfg.jwt_secret (trim_prefix r.authorization "Bearer ")) [
      | none ↦ aborts 401
      | some token ↦ if token.hmac then passes token.subject else aborts 401
    ]

unfoldable pub rate_limit : RateLimiter → ℕ → Request → Verdict × RateLimiter
unfolding allow_key
rate_limit rl now r =
    let (rl', allowed) = allow_key rl r.client_ip now in
    if allowed then (passes none, rl') else (aborts 429, rl')

unfoldable pub cors : Request → Verdict
cors r = if str_eq r.method "OPTIONS" then aborts 204 else passes none
