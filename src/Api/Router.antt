-- ===== src/Api/Router.antt =====
-- `buildRouter` and the two health handlers of internal/api/server.go. A path is the list of its segments; the matching
-- of gin, its redirects left out, is that of the first route that fits. The middleware that only observes is
-- left out.
pub mod Access
use gpu_cluster_scheduler.Common.{
  ℕ, String, str_eq, Bool, not, true, false, ◌&&◌, if◌then◌else◌, Option, none, some, List, [], ◌∷◌,
  ◌++◌, map,
}
use gpu_cluster_scheduler.Configuration.{AuthConfig}
use gpu_cluster_scheduler.Api.RateLimit.{RateLimiter}
use gpu_cluster_scheduler.Api.Middleware.{
  Request, Verdict, passes, aborts, Verify, auth, rate_limit, cors,
}

-- The handlers, with the `:id` that some take from the path.
pub data Handler : Type 0 where
  health ready submit_job list_jobs list_nodes utilization events : Handler
  get_job cancel_job job_logs cordon_node drain_node uncordon_node : String → Handler

pub data Segment : Type 0 where
  fixed : String → Segment
  id : Segment

-- The value of `c.Param("id")`, "" if the pattern has none; `none` if the path does not fit.
unfoldable pub match_path : List Segment → List String → Option String
match_path [] [] = some ""
match_path [] (s ∷ ss) = none
match_path (p ∷ ps) [] = none
match_path (fixed t ∷ ps) (s ∷ ss) =
    let rest = match_path ps ss in if str_eq s t then rest else none
match_path (id ∷ ps) (s ∷ ss) = elim (match_path ps ss) [
  | none ↦ none
  | some deeper ↦ if str_eq s "" then none else some s
]

pub record Route : Type 0 where
  pub method : String
  pub pattern : List Segment
  pub handler : String → Handler
  pub guarded : Bool  -- by `auth`

abbrev public : String → String → Handler → Route
public method name h = record {
  method = method;
  pattern = fixed name ∷ [];
  handler = λ i. h;
  guarded = false;
}

abbrev in_v1 : String → List Segment → (String → Handler) → Route
in_v1 method pattern h = record {
  method = method;
  pattern = fixed "api" ∷ fixed "v1" ∷ pattern;
  handler = h;
  guarded = true;
}

unfoldable pub routes : List Route
routes =
    public "GET" "healthz" health
    ∷ public "GET" "readyz" ready
    ∷ in_v1 "POST" (fixed "jobs" ∷ []) (λ i. submit_job)
    ∷ in_v1 "GET" (fixed "jobs" ∷ []) (λ i. list_jobs)
    ∷ in_v1 "GET" (fixed "jobs" ∷ id ∷ []) get_job
    ∷ in_v1 "DELETE" (fixed "jobs" ∷ id ∷ []) cancel_job
    ∷ in_v1 "GET" (fixed "jobs" ∷ id ∷ fixed "logs" ∷ []) job_logs
    ∷ in_v1 "GET" (fixed "nodes" ∷ []) (λ i. list_nodes)
    ∷ in_v1 "POST" (fixed "nodes" ∷ id ∷ fixed "cordon" ∷ []) cordon_node
    ∷ in_v1 "POST" (fixed "nodes" ∷ id ∷ fixed "drain" ∷ []) drain_node
    ∷ in_v1 "POST" (fixed "nodes" ∷ id ∷ fixed "uncordon" ∷ []) uncordon_node
    ∷ in_v1 "GET" (fixed "cluster" ∷ fixed "utilization" ∷ []) (λ i. utilization)
    ∷ in_v1 "GET" (fixed "scheduling-events" ∷ []) (λ i. events)
    ∷ []

-- A handler that is found, and whether `auth` comes before it.
pub record Found : Type 0 where
  pub handler : Handler
  pub guarded : Bool

unfoldable pub find_route : List Route → String → List String → Option Found
unfolding match_path
find_route [] method path = none
find_route (r ∷ rs) method path =
    let rest = find_route rs method path in
    if not (str_eq r.method method) then rest else elim (match_path r.pattern path) [
      | none ↦ rest
      | some i ↦ some (record { handler = r.handler i; guarded = r.guarded })
    ]

-- A handler that runs, with the user of the token, or the status that answers instead.
pub data Dispatch : Type 0 where
  runs : Handler → Option String → Dispatch
  refuses : ℕ → Dispatch

unfoldable pub after_auth : Handler → Verdict → Dispatch
after_auth h (passes user) = runs h user
after_auth h (aborts status) = refuses status

unfoldable pub dispatch_found : Verify → AuthConfig → Request → Option Found → Dispatch
unfolding after_auth auth
dispatch_found verify cfg r none = refuses 404
dispatch_found verify cfg r (some found) =
    if found.guarded then after_auth found.handler (auth verify cfg r) else runs found.handler none

-- The chain of the router: CORS, the limiter, and then the route.
unfoldable pub dispatch :
    Verify → AuthConfig → RateLimiter → ℕ → Request → List String → Dispatch × RateLimiter
unfolding cors rate_limit dispatch_found find_route routes
dispatch verify cfg rl now r path = elim (cors r) [
  | aborts status ↦ (refuses status, rl)
  | passes _ ↦
      let (v, rl') = rate_limit rl now r in
      elim v [
        | aborts status ↦ (refuses status, rl')
        | passes _ ↦ (dispatch_found verify cfg r (find_route routes r.method path), rl')
      ]
]

-- The status of `handleHealth`, and of `handleReady` with the answer of the database's ping.
abbrev pub handle_health : ℕ
handle_health = 200

unfoldable pub handle_ready : Bool → ℕ
handle_ready pings = if not pings then 503 else 200
