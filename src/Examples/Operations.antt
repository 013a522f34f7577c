-- ===== src/Examples/Operations.antt =====
-- The theorems on the router, the migrations and the processes at concrete inputs.
use gpu_cluster_scheduler.Common.{
  String, str_eq, true, ◌&&◌, if◌then◌else◌, none, some, List, [], ◌∷◌, ◌≡◌, refl, ◌↔◌,
}
use gpu_cluster_scheduler.Common.Numbers.{trim_prefix}
use gpu_cluster_scheduler.Configuration.{AuthConfig}
use gpu_cluster_scheduler.Store.Migrations.{migrate}
use gpu_cluster_scheduler.Store.Migrations.Scripts.{Schema, migration_files, exec_script}
use gpu_cluster_scheduler.Store.Migrations.Embedded.{IsMigrated, migrate-IsMigrated}
use gpu_cluster_scheduler.Api.RateLimit.{new_rate_limiter}
use gpu_cluster_scheduler.Api.Middleware.{Request, Verify}
use gpu_cluster_scheduler.Api.Router.{get_job, dispatch}
use gpu_cluster_scheduler.Api.Router.Access.{Runs, IsServed, dispatch-IsServed}
use gpu_cluster_scheduler.Runtime.{clean, Server, run_group}
use gpu_cluster_scheduler.Runtime.Group.{Outcome, run_group-Outcome}
use gpu_cluster_scheduler.Services.{
  tracer, postgres, redis, Answers, connects, migrates, known, scheduler_group, scheduler_main,
}
use gpu_cluster_scheduler.Services.Startup.{Ends, scheduler_main-Ends}
use gpu_cluster_scheduler.Store.Database.{Database, no_faults}
use gpu_cluster_scheduler.Metrics.{Gauges}
use gpu_cluster_scheduler.Metrics.Collector.{run, IsCurrent, run-IsCurrent}
use gpu_cluster_scheduler.Samples.{whole, low, tables}

-- A library that trusts one token under one secret.
abbrev one_token : Verify
one_token secret token =
    if str_eq secret "key" && str_eq token "good"
    then some (record { hmac = true; subject = some "ada" })
    else none

abbrev guarded : AuthConfig
guarded = record { jwt_secret = "key"; enabled = true }

abbrev signed : Request
signed = record { method = "GET"; client_ip = "10.0.0.1"; authorization = "Bearer good" }

abbrev path : List String
path = "api" ∷ "v1" ∷ "jobs" ∷ "7" ∷ []

dispatch-IsServed_example :
    Runs (get_job "7") (dispatch one_token guarded (new_rate_limiter 1 2) 7 signed path).0
    ↔ IsServed one_token guarded (new_rate_limiter 1 2) 7 signed path (get_job "7")
dispatch-IsServed_example =
    dispatch-IsServed one_token guarded (new_rate_limiter 1 2) 7 signed path (get_job "7")

served : Runs (get_job "7") (dispatch one_token guarded (new_rate_limiter 1 2) 7 signed path).0
unfolding dispatch trim_prefix new_rate_limiter
served = refl

-- A server that has the first table already.
abbrev half_made : Schema
half_made = record { tables = "nodes" ∷ []; indexes = []; quotas = [] }

migrate-IsMigrated_example :
    (t : Schema) × (migrate migration_files exec_script half_made ≡ (none, t))
    × IsMigrated t
    × (migrate migration_files exec_script t ≡ (none, t))
migrate-IsMigrated_example = migrate-IsMigrated half_made

-- The gRPC server cannot listen, and the context ends at 9.
abbrev endpoint : Server
endpoint = record { fails = none; shutdown = clean }

run_group-Outcome_example :
    Outcome
      (some 9)
      (scheduler_group (some "listen") none endpoint)
      (run_group (some 9) (scheduler_group (some "listen") none endpoint))
run_group-Outcome_example =
    run_group-Outcome (some 9) (scheduler_group (some "listen") none endpoint)

reported : run_group (some 9) (scheduler_group (some "listen") none endpoint) ≡ some (some "listen")
unfolding run_group scheduler_group
reported = refl

abbrev answers : Answers
answers = record {
  tracing = true;
  postgres = record { parses = true; creates = true; pings = true };
  migration = none;
  redis = true;
  group = some none;
}

scheduler_main-Ends_example :
    Ends
      (answers.tracing
        && connects answers.postgres
        && migrates answers.migration
        && answers.redis
        && known whole "best-fit")
      answers.group
      (redis ∷ postgres ∷ tracer ∷ [])
      []
      (scheduler_main whole "best-fit" answers)
scheduler_main-Ends_example = scheduler_main-Ends whole "best-fit" answers

-- Between the two samples a job is put into the table.
abbrev work : Database → Database
work db = record db { jobs = low ∷ db.jobs }

abbrev unset : Gauges
unset = record { cluster = none; jobs_by_status = []; average_runtime = none }

run-IsCurrent_example :
    let after = run no_faults (work ∷ []) unset tables in IsCurrent after.0 after.1
run-IsCurrent_example = run-IsCurrent (work ∷ []) unset tables
