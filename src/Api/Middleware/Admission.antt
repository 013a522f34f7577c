-- ===== src/Api/Middleware/Admission.antt =====
-- Which tokens `auth` of internal/api/middleware.go lets through.
use text.Mathlib.Text.{starts_with}
use gpu_cluster_scheduler.Common.{
  Bool, Bool-cases, Option-cases, true, false, inl, inr, some, ◌≡◌, arith,
}
use gpu_cluster_scheduler.Common.Numbers.{trim_prefix}
use gpu_cluster_scheduler.Configuration.{AuthConfig}
use gpu_cluster_scheduler.Api.Middleware.{Request, Verdict, passes, aborts, Token, Verify, auth}

abbrev pub is_passed : Verdict → Bool
is_passed (passes user) = true
is_passed (aborts status) = false

-- A request with a good token, if tokens are asked for.
abbrev pub IsTrusted : Verify → AuthConfig → Request → Type 0
IsTrusted verify cfg r =
    cfg.enabled ≡ true
    → (token : Token) × (starts_with r.authorization "Bearer " ≡ true)
      × (verify cfg.jwt_secret (trim_prefix r.authorization "Bearer ") ≡ some token)
      × (token.hmac ≡ true)

pub auth-IsTrusted :
    (verify : Verify) (cfg : AuthConfig) (r : Request)
    → is_passed (auth verify cfg r) ≡ true
    → IsTrusted verify cfg r
unfolding auth
auth-IsTrusted verify cfg r h on = elim (Bool-cases (starts_with r.authorization "Bearer ")) [
  | inl c ↦ elim (Option-cases (verify cfg.jwt_secret (trim_prefix r.authorization "Bearer "))) [
    | inl e ↦ absurd (ground arith)
    | inr (token, e) ↦ (token, c, e, ground (arith, c, e, on, h))
  ]
  | inr c ↦ absurd (ground arith)
]

pub IsTrusted→auth :
    (verify : Verify) (cfg : AuthConfig) (r : Request)
    → IsTrusted verify cfg r
    → is_passed (auth verify cfg r) ≡ true
unfolding auth
IsTrusted→auth verify cfg r h = elim (Bool-cases cfg.enabled) [
  | inl on ↦ let (token, c, e, m) = h on in ground (arith, c, e, m)
  | inr off ↦ ground arith
]
