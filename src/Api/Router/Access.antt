-- ===== src/Api/Router/Access.antt =====
-- Which requests internal/api/server.go brings to which handler.
use gpu_cluster_scheduler.Common.{
  ℕ, String, str_eq, Bool, Bool-cases, Option-cases, not, true, false, inl, inr, Option, none, some,
  List, [], ◌∷◌, All, ◌≡◌, refl, subst, sym, ◌↔◌, arith,
}
use mathlib.Core.Option.{some-injective}
use gpu_cluster_scheduler.Configuration.{AuthConfig}
use gpu_cluster_scheduler.Api.RateLimit.{RateLimiter, allow_key}
use gpu_cluster_scheduler.Api.Middleware.{
  Request, Verdict, passes, aborts, Verify, auth, rate_limit, cors,
}
use gpu_cluster_scheduler.Api.Middleware.Admission.{
  is_passed, IsTrusted, auth-IsTrusted, IsTrusted→auth,
}
use gpu_cluster_scheduler.Api.Router.{
  Handler, health, ready, Route, routes, Found, find_route, match_path, Dispatch, runs, refuses,
  after_auth, dispatch_found, dispatch,
}

-- The handlers that need no token.
abbrev pub is_open : Handler → Bool
is_open health = true
is_open ready = true
is_open h = false

-- `auth` guards every handler but those.
routes_guarded : All (λ (r : Route). (i : String) → r.guarded ≡ not (is_open (r.handler i))) routes
unfolding routes
routes_guarded = (
  λ i. refl,
  (
    λ i. refl,
    (
      λ i. refl,
      (
        λ i. refl,
        (
          λ i. refl,
          (
            λ i. refl,
            (
              λ i. refl,
              (λ i. refl, (λ i. refl, (λ i. refl, (λ i. refl, (λ i. refl, (λ i. refl, tt)))))),
            ),
          ),
        ),
      ),
    ),
  ),
)

find_route-guarded :
    (rs : List Route) (method : String) (path : List String) {f : Found}
    → All (λ (r : Route). (i : String) → r.guarded ≡ not (is_open (r.handler i))) rs
    → find_route rs method path ≡ some f
    → f.guarded ≡ not (is_open f.handler)
unfolding find_route
find_route-guarded [] method path h e = absurd (ground arith)
find_route-guarded (r ∷ rs) method path {f} h e = elim (Bool-cases (str_eq r.method method)) [
  | inr other ↦ find_route-guarded rs method path h.1 (ground (arith, other))
  | inl same ↦ elim (Option-cases (match_path r.pattern path)) [
    | inl m ↦ find_route-guarded rs method path h.1 (ground (arith, same, m))
    | inr (i, m) ↦
        let found : record { handler = r.handler i; guarded = r.guarded } ≡ f =
          ground (arith, same, m) in
        subst (λ (x : Found). x.guarded ≡ not (is_open x.handler)) found (h.0 i)
  ]
]

-- This handler runs.
abbrev pub Runs : Handler → Dispatch → Type 0
Runs h (runs k user) = k ≡ h
Runs h (refuses status) = ⊥

pub record IsServed (verify : Verify) (cfg : AuthConfig) (rl : RateLimiter) (now : ℕ) (r : Request)
    (path : List String) (h : Handler) : Type 0 where
  pub no_preflight : str_eq r.method "OPTIONS" ≡ false
  pub within_rate : (allow_key rl r.client_ip now).1 ≡ true
  pub routed : (f : Found) × (find_route routes r.method path ≡ some f) × (f.handler ≡ h)
  pub trusted : is_open h ≡ false → IsTrusted verify cfg r

after_auth-Runs :
    (h k : Handler) (v : Verdict) → Runs h (after_auth k v) ↔ ((is_passed v ≡ true) × (k ≡ h))
unfolding after_auth
after_auth-Runs h k (passes user) = (λ e. (refl, e), λ e. e.1)
after_auth-Runs h k (aborts status) = (λ e. absurd e, λ e. absurd (ground arith))

module _ (verify : Verify) (cfg : AuthConfig) (r : Request) (h : Handler) where
  abbrev Routed : Option Found → Type 0
  Routed o = (f : Found) × (o ≡ some f) × (f.handler ≡ h)

  abbrev Trusted : Type 0
  Trusted = is_open h ≡ false → IsTrusted verify cfg r

  guarded-Runs :
      (f : Found)
      → f.guarded ≡ not (is_open f.handler)
      → f.guarded ≡ true
      → Runs h (dispatch_found verify cfg r (some f)) ↔ (Routed (some f) × Trusted)
  unfolding dispatch_found
  guarded-Runs f g e =
      let by_auth = after_auth-Runs h f.handler (auth verify cfg r) in
      let value : dispatch_found verify cfg r (some f) ≡ after_auth f.handler (auth verify cfg r) =
        ground (arith, e) in
      subst (λ d. Runs h d ↔ (Routed (some f) × Trusted)) (sym value)
        (
          λ x.
              let (ok, same) = by_auth.0 x in
              ((f, refl, same), λ c. auth-IsTrusted verify cfg r ok),
          λ (x : Routed (some f) × Trusted).
              let same : f.handler ≡ h =
                subst (λ (k : Found). k.handler ≡ h) (sym (some-injective _ _ x.0.1)) x.0.2 in
              let closed : is_open h ≡ false = subst (λ k. is_open k ≡ false) same (ground arith) in
              by_auth.1 (IsTrusted→auth verify cfg r (x.1 closed), same),
        )

  open-Runs :
      (f : Found)
      → f.guarded ≡ not (is_open f.handler)
      → f.guarded ≡ false
      → Runs h (dispatch_found verify cfg r (some f)) ↔ (Routed (some f) × Trusted)
  unfolding dispatch_found
  open-Runs f g e =
      let value : dispatch_found verify cfg r (some f) ≡ runs f.handler none = ground (arith, e) in
      subst (λ d. Runs h d ↔ (Routed (some f) × Trusted)) (sym value)
        (
          λ (x : f.handler ≡ h).
              let opened : is_open h ≡ true = subst (λ k. is_open k ≡ true) x (ground arith) in
              ((f, refl, x), λ c. cc),
          λ (x : Routed (some f) × Trusted).
              subst (λ (k : Found). k.handler ≡ h) (sym (some-injective _ _ x.0.1)) x.0.2,
        )

  found-Runs :
      (o : Option Found)
      → ((f : Found) → o ≡ some f → f.guarded ≡ not (is_open f.handler))
      → Runs h (dispatch_found verify cfg r o) ↔ (Routed o × Trusted)
  unfolding dispatch_found
  found-Runs none g = (λ x. absurd x, λ (x : Routed none × Trusted). cc x.0.1)
  found-Runs (some f) g = elim (Bool-cases f.guarded) [
    | inl e ↦ guarded-Runs f (g f refl) e
    | inr e ↦ open-Runs f (g f refl) e
  ]

-- A handler runs for a request exactly if the request is no preflight request, the limiter has a token
-- for its client, the router has a route of its method and path to this handler, and, unless that is
-- one of the two health checks, it carries a bearer token that verifies under the configured secret,
-- where that is switched on.
pub dispatch-IsServed :
    (verify : Verify) (cfg : AuthConfig) (rl : RateLimiter) (now : ℕ) (r : Request)
    (path : List String) (h : Handler)
    → Runs h (dispatch verify cfg rl now r path).0 ↔ IsServed verify cfg rl now r path h
unfolding dispatch cors rate_limit
dispatch-IsServed verify cfg rl now r path h = elim (Bool-cases (str_eq r.method "OPTIONS")) [
  | inl p ↦
      let value : (dispatch verify cfg rl now r path).0 ≡ refuses 204 = ground (arith, p) in
      subst (λ d. Runs h d ↔ IsServed verify cfg rl now r path h) (sym value)
        (λ x. absurd x, λ (a : IsServed verify cfg rl now r path h). cc a.no_preflight)
  | inr p ↦ elim (Bool-cases (allow_key rl r.client_ip now).1) [
    | inl ok ↦
        let inner =
          found-Runs verify cfg r h (find_route routes r.method path)
            (λ f e. find_route-guarded routes r.method path routes_guarded e) in
        let value : (dispatch verify cfg rl now r path).0
            ≡ dispatch_found verify cfg r (find_route routes r.method path) =
          ground (arith, p, ok) in
        subst (λ d. Runs h d ↔ IsServed verify cfg rl now r path h) (sym value)
          (
            λ x.
                let (routed, trusted) = inner.0 x in
                record { no_preflight = p; within_rate = ok; routed = routed; trusted = trusted },
            λ (a : IsServed verify cfg rl now r path h). inner.1 (a.routed, a.trusted),
          )
    | inr full ↦
        let value : (dispatch verify cfg rl now r path).0 ≡ refuses 429 = ground (arith, p, full) in
        subst (λ d. Runs h d ↔ IsServed verify cfg rl now r path h) (sym value)
          (λ x. absurd x, λ (a : IsServed verify cfg rl now r path h). cc a.within_rate)
  ]
]
