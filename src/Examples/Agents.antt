-- ===== src/Examples/Agents.antt =====
-- The theorems on internal/agent, internal/metricsvc and internal/config at concrete inputs.
use gpu_cluster_scheduler.Common.{
  leb_ℤ, ◌++◌, ℕ, ltb, ℤ, pos, pos_part, String, Bool, str_eq, not, false, ◌&&◌, if◌then◌else◌,
  Option, none, some, List, [], ◌∷◌, length, All, ◌≡◌, refl, arith,
}
use gpu_cluster_scheduler.Agent.{register}
use gpu_cluster_scheduler.Agent.Waits.{IsWait, register-waits}
use gpu_cluster_scheduler.Configuration.{
  Environment, default_secret, secret_required, get_bool, get_env, load, validate,
}
use gpu_cluster_scheduler.Configuration.Valid.{validate-load}
use gpu_cluster_scheduler.Logs.{last, ListStore, IsListStore, LogLine, stream_logs, fetch_logs}
use gpu_cluster_scheduler.Logs.Tail.{printed, fetch_logs-stream_logs}

abbrev third : ℕ → Bool
third n = not (ltb n 2)

register-waits_example :
    (waits : List ℕ) × (register 5 third ≡ some waits) × (length waits ≡ 2) × All IsWait waits
register-waits_example = register-waits 2 5 third (refl, (refl, refl)) (omega arith)

-- Authentication is on, and no secret is set.
abbrev insecure : Environment
insecure name = if str_eq name "AUTH_ENABLED" then some "true" else none

abbrev unread : {A : Type 0} → String → Option A
unread t = none

validate-load_example : validate {Number = ℕ} (load 1 unread unread insecure "api-gateway") ≡ (
    if get_bool insecure "AUTH_ENABLED" false
      && str_eq (get_env insecure "JWT_SECRET" default_secret) default_secret
    then some secret_required
    else none)
validate-load_example = validate-load 1 unread unread insecure "api-gateway"

-- Lists in memory.
abbrev lists : ListStore
lists = record {
  State = String → List String;
  entries = λ s key. s key;
  r_push = λ s key text other. if str_eq key other then s other ++ text ∷ [] else s other;
  l_trim = λ s key n other. if str_eq key other then last n (s other) else s other;
  l_range = λ s key n. last n (s key);
}

lists-IsListStore : IsListStore lists
lists-IsListStore = record {
  pushed = λ s key text other. refl;
  trimmed = λ s key n other. refl;
  ranged = λ s key n. refl;
}

abbrev lines : List LogLine
lines =
    record { job_id = "low"; timestamp = pos 1; line = "start" }
    ∷ record { job_id = "small"; timestamp = pos 2; line = "other" }
    ∷ record { job_id = "low"; timestamp = pos 3; line = "end" }
    ∷ []

abbrev no_time : ℤ → String
no_time t = "t"

fetch_logs-stream_logs_example :
    fetch_logs lists no_time (stream_logs lists no_time lines (some (λ key. []))) "low" (pos 1)
    ≡ last
        (pos_part (if leb_ℤ (pos 1) (pos 0) then pos 200 else pos 1))
        (last 500 (printed no_time "low" lines))
fetch_logs-stream_logs_example =
    fetch_logs-stream_logs lists lists-IsListStore no_time "low" (pos 1) lines (λ key. []) refl
