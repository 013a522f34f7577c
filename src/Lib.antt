-- ===== src/Lib.antt =====
-- A model of the GPU cluster scheduler, and what holds of it.
--
-- The program. A REST gateway (internal/api) takes jobs and puts them into PostgreSQL (internal/store) as
-- queued. The scheduler (internal/scheduler) runs a pass every few seconds: it marks nodes without a
-- heartbeat as down and rescues their jobs, loads nodes and jobs, orders the queue by the configured
-- policy, and places each job on a node, with preemption for urgent or starving jobs. Node agents
-- (internal/agent) register over gRPC (internal/grpc), send heartbeats, poll for assigned jobs, run them
-- and report their ends, which gives the resources back. A metrics service (internal/metricsvc) samples
-- the tables. All of them are configured from the environment (internal/config), and share the database,
-- and Redis for the lease of the leading scheduler and for logs.
--
-- The files.
--   Common and its children: integers over the native numbers (Common/Int), Boolean tests, lists, texts,
--     the stable sort of sort.SliceStable (Common/Sort), strconv.Atoi and ParseBool (Common/Numbers).
--   Models (Jobs, Nodes, Scheduling): internal/models. Models/Capacity: resources against capacity.
--   Placement: internal/scheduler/placement.go (firstFitNode, bestFitNode, byCreatedAt). FirstFit and
--     BestFit say what is chosen, by the order of Scores.
--   Strategies: internal/scheduler/algorithm.go and strategies.go. Float is the interface for float64,
--     Ordering the order of attempts, Laws what the engine relies on of a policy.
--   Preemption: internal/scheduler/preemption.go (FindPreemption). Victims, Plan and Room say what is
--     chosen.
--   Fragmentation: internal/scheduler/fragmentation.go (Fragmentation, ClusterSnapshot).
--   Store: internal/store. Database has the tables and a query, Jobs, Nodes and Events the repositories,
--     Migrations is New and Migrate of postgres.go (Migrations/Scripts
--     the files of internal/store/migrations, Migrations/Embedded what they leave), Keys and Post the proof rules (Keys/Copies for lists
--     that hold the rows of a table), Soundness the invariant of the
--     tables, Queries what queries answer.
--   Engine: internal/scheduler/engine.go. Pass is placeOne, commitPlacement and applyPreemption, Tick is
--     Tick, reconcileDeadNodes and teamShares. WriteBack, Agreement, Invariants, Placing, Sweep and
--     Capacity are about the invariant of the tables; Frame is a proof rule for what a pass keeps, and Finished uses it;
--     Preempting and Retrying are about the retry after a preemption. Loop is Run, Gauges is publishGauges; Rescue and Reconcile are about the
--     jobs of dead nodes, Races about a pass and a report that write one node, Placed about a job that waits
--     alone, and Conserving about the jobs that a pass leaves waiting.
--   NodeServer: internal/grpc/server.go (Register, Heartbeat, GetAssignments, UpdateJobStatus) in
--     Handlers; Soundness, Registration, Transitions and Changes say what the calls do.
--   Api: internal/api/handlers.go in Handlers, with Soundness and Submission, Api/RateLimit for
--     internal/api/ratelimit.go, and Api/Middleware for internal/api/middleware.go, with the JWT library
--     as a parameter; Api/Router and its Access are buildRouter and the health checks of internal/api/server.go.
--   Agent: internal/agent/agent.go and executor.go. Execution is execute and report, Seeds is hashString, Loops the
--     heartbeats, polls and executions that interleave; Claims, Waits, Reporting and Outcome say what they do.
--   Runtime: internal/runtimex/runtimex.go and the servers that run under it; Runtime/Group is about RunGroup.
--   Telemetry: internal/telemetry/metrics.go and tracing.go. Services: the commands of cmd, and
--     Services/Startup how they end.
--   Metrics: internal/metricsvc/collector.go; Metrics/Collector is New and Run.
--   Logs: StreamLogs and FetchLogs of internal/grpc/server.go and handleJobLogs of internal/api/handlers.go,
--     with the lists of Redis as an interface; Logs/Tail is about what a reader gets.
--   Leader: internal/redisx/leader.go, with Redis as an interface; Leader/Lease is about single
--     leadership.
--   Configuration: internal/config/config.go.
--   System: the calls of all services, in any order, as a relation of reachability; Lifecycle takes one job
--     through a pass, a poll and the reports of its agent.
--   Samples and Examples: a small cluster, and the theorems at it.
--
-- How the code is modelled. Go's int, time.Time and time.Duration are unbounded integers: the columns are
-- 32-bit INTEGERs, so sums of them do not reach 64 bits, and times are nanoseconds. A pointer to a node is
-- its index in the slice of a pass, whose structs and the rows of the database are kept apart. A statement
-- of SQL is a function on the tables; queries are numbered, and a map says which of them fail, so a
-- theorem for every such map covers every pattern of errors; a failed query changes nothing. Each
-- statement is one step, and the calls of the services interleave as whole calls, but for Races, where a pass
-- and a report interleave by statements. A pass reads the clock
-- once. The floats of the policies are an interface with the laws that a theorem names; utilizations and
-- the fragmentation index are exact fractions. Go leaves int(x) of a float that does not fit undefined; the
-- interface has an integer for every float, and a theorem that needs its monotony says so. The rate limiter counts billionths of a token. In the
-- election Redis and the instances have one clock, a call or its answer can be lost, and an instance whose
-- renewal fails stops at once. The only fuel is that of the agent's registration, which asks until it
-- succeeds: any fuel above the number of failures is enough.
--
-- What is not modelled: the expiry of logs in Redis and its failing pipelines, the scanning of rows, the HTTP and
-- gRPC servers themselves, signals and tickers, the log of the services, spans, the counters and histograms of
-- Prometheus, and the generated code of gRPC. They are I/O and calls of libraries. Prices, labels, event ids
-- and latencies, which no code reads, are left out of the records.
pub mod Common
pub mod Models
pub mod Placement
pub mod Strategies
pub mod Preemption
pub mod Fragmentation
pub mod Store
pub mod Engine
pub mod NodeServer
pub mod Api
pub mod System
pub mod Agent
pub mod Metrics
pub mod Configuration
mod Samples
mod Examples
pub mod Leader
pub mod Logs
pub mod Runtime
pub mod Services
pub mod Telemetry
