-- ===== src/Services.antt =====
-- The commands: cmd/scheduler/main.go, cmd/api-gateway/main.go, cmd/metrics/main.go and cmd/node-agent/main.go. What a
-- library answers to a step is an argument. `os.Exit` runs no deferred call.
pub mod Startup
use gpu_cluster_scheduler.Common.{
  ℕ, ℤ, pos, String, str_eq, Bool, true, false, if◌then◌else◌, Option, none, some, List, [], ◌∷◌,
}
use gpu_cluster_scheduler.Common.Numbers.{atoi, parse_bool}
use gpu_cluster_scheduler.Configuration.{Environment, Config, validate}
use gpu_cluster_scheduler.Strategies.Float.{Float64}
use gpu_cluster_scheduler.Strategies
use gpu_cluster_scheduler.Store.Migrations.{Postgres, new_store, MigrateError}
use gpu_cluster_scheduler.Runtime.{clean, End, Member, Server, serve, serve_grpc}
use gpu_cluster_scheduler.Agent.{AgentConfig}

-- What a process holds.
pub data Resource : Type 0 where
  tracer postgres redis connection : Resource

-- What it holds with a deferred call that gives it back, the newest first, and without.
pub record Held : Type 0 where
  pub deferred : List Resource
  pub kept : List Resource

pub data Finish : Type 0 where
  runs_on : Finish  -- the group never returns
  exits : (code : ℕ) (closed : List Resource) → Held → Finish

-- A part of `main`: it ends the process, or goes on with what is held.
pub data Progress : Type 0 where
  ends : Finish → Progress
  goes : Held → Progress

infixl 5 ◌>>◌
abbrev pub ◌>>◌ : Progress → (Held → Progress) → Progress
ends f >> k = ends f
goes h >> k = k h

abbrev pub nothing_held : Held
nothing_held = record { deferred = []; kept = [] }

-- `if err != nil { …; os.Exit(1) }`
unfoldable pub check : Bool → Held → Progress
check ok h = if ok then goes h else ends (exits 1 [] h)

-- The same, and `defer` on what was opened.
unfoldable pub open_deferred : Resource → Bool → Held → Progress
open_deferred r ok h =
    if ok then goes (record h { deferred = r ∷ h.deferred }) else ends (exits 1 [] h)

-- A resource that the process does without, and does not give back.
unfoldable pub open_kept : Resource → Bool → Held → Progress
open_kept r ok h = goes (if ok then record h { kept = r ∷ h.kept } else h)

-- The end of `main`, with what `RunGroup` returns: the deferred calls run unless there is an error.
unfoldable pub finish : Option (Option String) → Held → Progress
finish none h = ends runs_on
finish (some (some text)) h = ends (exits 1 [] h)
finish (some none) h = ends (exits 0 h.deferred (record h { deferred = [] }))

-- `main` ends with its last part.
unfoldable pub finish_of : Progress → Finish
finish_of (ends f) = f
finish_of (goes h) = exits 0 h.deferred (record h { deferred = [] })

unfoldable pub is_none : {A : Type 0} → Option A → Bool
is_none none = true
is_none (some a) = false

unfoldable pub is_some : {A : Type 0} → Option A → Bool
is_some none = false
is_some (some a) = true

-- What the libraries answer, and what `RunGroup` returns.
pub record Answers : Type 0 where
  pub tracing : Bool
  pub postgres : Postgres
  pub migration : Option MigrateError
  pub redis : Bool
  pub group : Option (Option String)

unfoldable pub connects : Postgres → Bool
unfolding is_none new_store
connects p = is_none (new_store p).0

unfoldable pub migrates : Option MigrateError → Bool
unfolding is_none
migrates e = is_none e

module _ (float : Float64) where
  -- The algorithm's name is taken lower-cased and trimmed.
  unfoldable pub known : String → Bool
  unfolding is_some Strategies.new
  known algorithm = is_some (Strategies.new float algorithm)

  unfoldable pub scheduler_main : String → Answers → Finish
  unfolding check open_deferred finish finish_of connects migrates known
  scheduler_main algorithm a = finish_of (
      open_deferred tracer a.tracing nothing_held
      >> open_deferred postgres (connects a.postgres)
      >> check (migrates a.migration)
      >> open_deferred redis a.redis
      >> check (known algorithm)
      >> finish a.group)

module _ {Number : Type 0} where
  unfoldable pub gateway_main : Config Number → Answers → Finish
  unfolding check open_deferred open_kept finish finish_of connects migrates is_none validate
  gateway_main cfg a = finish_of (
      check (is_none (validate cfg)) nothing_held
      >> open_deferred tracer a.tracing
      >> open_deferred postgres (connects a.postgres)
      >> check (migrates a.migration)
      >> open_kept redis a.redis
      >> finish a.group)

unfoldable pub metrics_main : Answers → Finish
unfolding open_deferred finish finish_of connects
metrics_main a =
    finish_of (open_deferred postgres (connects a.postgres) nothing_held >> finish a.group)

-- `agent.New` dials: whether that succeeds.
unfoldable pub node_agent_main : Bool → Option (Option String) → Finish
unfolding open_deferred finish finish_of
node_agent_main dials group =
    finish_of (open_deferred connection dials nothing_held >> finish group)

-- `envDefault`, `envInt`, `envBool`: an unset variable is an empty one.
module _ (env : Environment) where
  unfoldable pub getenv : String → String
  getenv key = elim (env key) [ none ↦ "" | some v ↦ v ]

  unfoldable pub env_default : String → String → String
  unfolding getenv
  env_default key fallback = let v = getenv key in if str_eq v "" then fallback else v

  unfoldable pub env_parsed : {A : Type 0} → (String → Option A) → String → A → A
  unfolding getenv
  env_parsed parse key fallback =
      let v = getenv key in
      if str_eq v "" then fallback else elim (parse v) [ none ↦ fallback | some a ↦ a ]

  unfoldable pub env_int : String → ℤ → ℤ
  unfolding env_parsed atoi
  env_int key fallback = env_parsed atoi key fallback

  unfoldable pub env_bool : String → Bool → Bool
  unfolding env_parsed parse_bool
  env_bool key fallback = env_parsed parse_bool key fallback

  -- The agent's configuration, with the host's name and the configured address of the scheduler; the two
  -- intervals are left to `New`.
  unfoldable pub agent_config : String → AgentConfig
  unfolding env_default env_int env_bool
  agent_config hostname = record {
    node_id = env_default "NODE_ID" hostname;
    hostname = env_default "NODE_HOSTNAME" hostname;
    gpu_capacity = env_int "NODE_GPU_CAPACITY" (pos 8);
    cpu_capacity = env_int "NODE_CPU_CAPACITY" (pos 128);
    memory_capacity = env_int "NODE_MEMORY_CAPACITY" (pos 1024);
    gpu_model = env_default "NODE_GPU_MODEL" "A100-80GB";
    spot = env_bool "NODE_SPOT" false;
    heartbeat_interval = pos 0;
    poll_interval = pos 0;
    mean_job_seconds = env_int "NODE_MEAN_JOB_SECONDS" (pos 20);
  }

-- `elector.Run`, which returns when the context ends.
unfoldable pub leading : Member
leading none = none
leading (some t) = some (record { time = t; exit = clean })

-- The group of the scheduler: its gRPC server, which may fail to listen, its metrics, and the elector.
unfoldable pub scheduler_group : Option String → Option End → Server → List Member
unfolding serve_grpc serve leading
scheduler_group refused fails metrics = serve_grpc refused fails ∷ serve metrics ∷ leading ∷ []

-- `Run` of internal/api/server.go, the metrics endpoint of cmd/metrics/main.go, and the groups of these commands.
unfoldable pub run_gateway : Server → Member
unfolding serve
run_gateway server = serve server

unfoldable pub serve_collector : Server → Member
unfolding serve
serve_collector server = serve server

unfoldable pub gateway_group : Server → Server → List Member
unfolding run_gateway serve
gateway_group server metrics = run_gateway server ∷ serve metrics ∷ []

-- The collector returns nil when the context ends, as the elector does.
unfoldable pub metrics_group : Server → List Member
unfolding leading serve_collector
metrics_group server = leading ∷ serve_collector server ∷ []
