-- ===== src/Agent.antt =====
-- The node agent: internal/agent/agent.go and the random parts of internal/agent/executor.go. The mutex makes
-- each use of the set of running jobs one step. Waits are in nanoseconds.
pub mod Claims
pub mod Waits
pub mod Execution
pub mod Reporting
pub mod Outcome
pub mod Seeds
pub mod Loops
use gpu_cluster_scheduler.Common.{
  ℕ, zero, suc, ◌+◌, ◌*◌, ◌/◌, ltb, length, ℤ, pos, pos_part, ◌+ℤ◌, ltb_ℤ, eqb_ℤ, String, str_eq,
  Bool, true, false, ◌&&◌, ◌||◌, if◌then◌else◌, Option, none, some, List, [], ◌∷◌,
}
use gpu_cluster_scheduler.Models.{Duration, Ratio, zero_ratio}
use gpu_cluster_scheduler.NodeServer.Handlers.{RegisterRequest, Assignment}

abbrev pub second : ℕ
second = 1_000_000_000

pub record AgentConfig : Type 0 where
  pub node_id : String
  pub hostname : String
  pub gpu_capacity : ℤ
  pub cpu_capacity : ℤ
  pub memory_capacity : ℤ
  pub gpu_model : String
  pub spot : Bool
  pub heartbeat_interval : Duration
  pub poll_interval : Duration
  pub mean_job_seconds : ℤ

or_default : ℤ → ℤ → ℤ
or_default v fallback = if eqb_ℤ v (pos 0) then fallback else v

-- The defaults that `New` fills in.
unfoldable pub with_defaults : AgentConfig → AgentConfig
unfolding or_default
with_defaults c = record c {
  heartbeat_interval = or_default c.heartbeat_interval (pos (10 * second));
  poll_interval = or_default c.poll_interval (pos (3 * second));
  mean_job_seconds = or_default c.mean_job_seconds (pos 20);
}

unfoldable pub register_request : AgentConfig → RegisterRequest
register_request c = record {
  node_id = c.node_id;
  hostname = c.hostname;
  gpu = c.gpu_capacity;
  cpu = c.cpu_capacity;
  memory_gb = c.memory_capacity;
  gpu_model = c.gpu_model;
  spot = c.spot;
}

unfoldable pub next_backoff : ℕ → ℕ
next_backoff backoff = if ltb backoff (15 * second) then backoff * 2 else backoff

-- The loop of `register`, from its `attempt`-th call on, where `answers n` says whether the n-th call
-- succeeds: the waits before the one that did. The context is not cancelled. `none` is fuel run out.
unfoldable pub register_from : ℕ → (ℕ → Bool) → ℕ → ℕ → Option (List ℕ)
unfolding next_backoff
register_from zero answers attempt backoff = none
register_from (suc fuel) answers attempt backoff =
    let rest = register_from fuel answers (suc attempt) (next_backoff backoff) in
    if answers attempt
    then some []
    else elim rest [ none ↦ none | some waits ↦ some (backoff ∷ waits) ]

unfoldable pub register : ℕ → (ℕ → Bool) → Option (List ℕ)
unfolding register_from
register fuel answers = register_from fuel answers 0 second

-- The jobs that run, each once.
unfoldable pub is_running : String → List String → Bool
is_running id [] = false
is_running id (j ∷ js) = str_eq j id || is_running id js

unfoldable pub claim : String → List String → List String × Bool
unfolding is_running
claim id running = if is_running id running then (running, false) else (id ∷ running, true)

unfoldable pub finish : String → List String → List String
finish id [] = []
finish id (j ∷ js) = let rest = finish id js in if str_eq j id then rest else j ∷ rest

-- One answer of the poll: what `pollLoop` starts, and what runs then.
unfoldable pub poll : List Assignment → List String → List Assignment × List String
unfolding claim
poll [] running = ([], running)
poll (a ∷ assigned) running =
    let (running', claimed) = claim a.job_id running in
    let (started, after) = poll assigned running' in
    if claimed then (a ∷ started, after) else (started, after)

unfoldable pub current_gpu_util : AgentConfig → List String → Ratio
current_gpu_util c running =
    let n = pos (length running) in
    if eqb_ℤ c.gpu_capacity (pos 0)
    then zero_ratio
    else if ltb_ℤ (pos 0) c.gpu_capacity && ltb_ℤ c.gpu_capacity n
    then record { num = pos 1; den = pos 1 }
    else record { num = n; den = c.gpu_capacity }

-- `rng.intn`, where `draw n` is what the generator gives below n.
unfoldable pub intn : (ℤ → ℤ) → ℤ → ℤ
intn draw n = if ltb_ℤ (pos 0) n then draw n else pos 0

-- The simulated duration, in seconds.
unfoldable pub job_seconds : (ℤ → ℤ) → AgentConfig → ℤ
unfolding intn
job_seconds draw c =
    let mean = if ltb_ℤ c.mean_job_seconds (pos 2) then pos 2 else c.mean_job_seconds in
    pos (pos_part mean / 2) +ℤ intn draw mean
