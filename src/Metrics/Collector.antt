-- ===== src/Metrics/Collector.antt =====
-- The collector of internal/metricsvc/collector.go: what `New` registers, and the samples of `Run`.
use gpu_cluster_scheduler.Common.{
  ◌*◌, ℕ, ◌+◌, leb_ℤ, ◌<ℤ◌, pos, length, if◌then◌else◌, Option, none, some, List, [], ◌∷◌, map,
  select, take, ◌≡◌, refl, ap, arith, ◌∙◌,
}
use gpu_cluster_scheduler.Models.{
  Job, JobStatus, status_eq, queued, scheduled, running, completed, failed, cancelled, preempted,
  Duration,
}
use gpu_cluster_scheduler.Store.Database.{Database, Faults, no_faults}
use gpu_cluster_scheduler.Store.Jobs
use gpu_cluster_scheduler.Store.Nodes
use gpu_cluster_scheduler.Store.Keys.{IsUnique}
use gpu_cluster_scheduler.Fragmentation.{cluster_snapshot}
use gpu_cluster_scheduler.Api.Handlers.{counted}
use gpu_cluster_scheduler.Agent.{second}
use gpu_cluster_scheduler.Telemetry.{
  Instrument, gauge, plain, by_label, find_instrument, register_all,
}
use gpu_cluster_scheduler.Telemetry.Registry.{IsFree, IsRegistered, register_all-IsRegistered}
use gpu_cluster_scheduler.Metrics.{
  Gauges, completed_filter, averaged, update_runtime, count_each, sample_nodes, sample,
}

-- The gauges that `New` registers, in its order.
unfoldable pub collector_gauges : List Instrument
collector_gauges =
    plain "cluster_gpu_utilization_ratio" gauge
    ∷ plain "cluster_cpu_utilization_ratio" gauge
    ∷ plain "cluster_memory_utilization_ratio" gauge
    ∷ plain "cluster_fragmentation_index" gauge
    ∷ plain "cluster_nodes_ready_count" gauge
    ∷ plain "cluster_nodes_total_count" gauge
    ∷ plain "job_runtime_seconds_avg" gauge
    ∷ by_label "cluster_jobs_by_status" gauge ("status" ∷ [])
    ∷ []

pub record Collector : Type 0 where
  pub interval : Duration
  pub registry : List Instrument
  pub gauges : Gauges

-- `none` is the panic of `MustRegister`.
collector_of : Duration → Option (List Instrument) → Option Collector
collector_of interval none = none
collector_of interval (some registry) = some (record {
  interval = if leb_ℤ interval (pos 0) then pos (10 * second) else interval;
  registry = registry;
  gauges = record { cluster = none; jobs_by_status = []; average_runtime = none };
})

unfoldable pub new_collector : Duration → Option Collector
unfolding collector_of
new_collector interval = collector_of interval (register_all [] collector_gauges)

-- A sample at once and after each tick, with what the other services do to the database before it.
unfoldable pub run : Faults → List (Database → Database) → Gauges → Database → Gauges × Database
unfolding sample
run faults [] g db = sample faults g db
run faults (work ∷ rest) g db = let (g', db') = sample faults g db in run faults rest g' (work db')

abbrev count : JobStatus → List Job → ℕ
count s js = length (select (λ j. status_eq j.status s) js)

-- The statuses divide the jobs.
abbrev Divided : List Job → Type 0
Divided js =
    count queued js
      + count scheduled js
      + count running js
      + count completed js
      + count failed js
      + count cancelled js
      + count preempted js
    ≡ length js

Divided-step :
    (j : Job) (js : List Job) (s : JobStatus) → j.status ≡ s → Divided js → Divided (j ∷ js)
unfolding status_eq
Divided-step j js queued e h = rw e (omega (arith, h))
Divided-step j js scheduled e h = rw e (omega (arith, h))
Divided-step j js running e h = rw e (omega (arith, h))
Divided-step j js completed e h = rw e (omega (arith, h))
Divided-step j js failed e h = rw e (omega (arith, h))
Divided-step j js cancelled e h = rw e (omega (arith, h))
Divided-step j js preempted e h = rw e (omega (arith, h))

all-Divided : (js : List Job) → Divided js
all-Divided [] = refl
all-Divided (j ∷ js) = Divided-step j js j.status refl (all-Divided js)

unfoldable pub total : List (JobStatus × ℕ) → ℕ
total [] = 0
total ((s, n) ∷ rest) = n + total rest

averaged-keeps :
    (js : List Job) (g : Gauges)
    → ((averaged js g).jobs_by_status ≡ g.jobs_by_status) × ((averaged js g).cluster ≡ g.cluster)
unfolding averaged
averaged-keeps [] g = (refl, refl)
averaged-keeps (j ∷ js) g = (ground arith, ground arith)

-- The gauges say what the tables hold.
pub record IsCurrent (g : Gauges) (db : Database) : Type 0 where
  pub jobs : total g.jobs_by_status ≡ length db.jobs
  pub cluster :
      g.cluster
      ≡ some (
          cluster_snapshot
            (Nodes.by_hostname db.nodes)
            (pos (count running db.jobs + count scheduled db.jobs))
            (pos (count queued db.jobs)))

averaged-IsCurrent :
    (js : List Job) (g : Gauges) (db : Database) → IsCurrent g db → IsCurrent (averaged js g) db
averaged-IsCurrent js g db h = record {
  jobs = ap total (averaged-keeps js g).0 ∙ h.jobs;
  cluster = (averaged-keeps js g).1 ∙ h.cluster;
}

sample-IsCurrent :
    (g : Gauges) (db : Database)
    → (let after = sample no_faults g db in
        IsCurrent after.0 after.1
        × (after.1.jobs ≡ db.jobs)
        × (after.1.nodes ≡ db.nodes)
        × (after.1.events ≡ db.events))
unfolding sample sample_nodes update_runtime count_each total Nodes.list Jobs.list
    Jobs.count_by_status counted
sample-IsCurrent g db =
    let counts : Gauges = record {
      cluster = some (
          cluster_snapshot (Nodes.by_hostname db.nodes)
            (pos (count running db.jobs + count scheduled db.jobs)) (pos (count queued db.jobs)));
      jobs_by_status =
          (queued, count queued db.jobs)
          ∷ (scheduled, count scheduled db.jobs)
          ∷ (running, count running db.jobs)
          ∷ (completed, count completed db.jobs)
          ∷ (failed, count failed db.jobs)
          ∷ (cancelled, count cancelled db.jobs)
          ∷ (preempted, count preempted db.jobs)
          ∷ [];
      average_runtime = g.average_runtime;
    } in
    let current : IsCurrent counts db = record {
      jobs = omega (arith, all-Divided db.jobs);
      cluster = refl;
    } in
    (
      averaged-IsCurrent
          (take 100 (Jobs.newest_first (select (Jobs.matches completed_filter) db.jobs))) counts _
          (record { jobs = current.jobs; cluster = current.cluster }),
      refl,
      refl,
      refl,
    )

-- Whatever the other services do to the tables between its samples, after a run of the collector the
-- counts by status add up to the number of jobs in the tables, and the cluster view is that of their
-- nodes, with the running and scheduled jobs as running and the queued ones as queued; where no query
-- fails.
pub run-IsCurrent :
    (works : List (Database → Database)) (g : Gauges) (db : Database)
    → let after = run no_faults works g db in IsCurrent after.0 after.1
unfolding run
run-IsCurrent [] g db = (sample-IsCurrent g db).0
run-IsCurrent (work ∷ rest) g db =
    let (g', db') = sample no_faults g db in run-IsCurrent rest g' (work db')

gauges-IsUnique : IsUnique (map (λ i. i.name) collector_gauges)
unfolding collector_gauges
gauges-IsUnique = ground arith

gauges-IsFree : IsFree [] collector_gauges
unfolding collector_gauges find_instrument
gauges-IsFree = ground arith

-- The collector can be made, and its ticker gets a positive interval.
pub new_collector-IsRegistered :
    (interval : Duration)
    → (c : Collector) × (new_collector interval ≡ some c)
      × (pos 0 <ℤ c.interval)
      × IsRegistered c.registry collector_gauges
unfolding new_collector collector_of
new_collector-IsRegistered interval =
    let (registry, made, found) =
      register_all-IsRegistered collector_gauges [] gauges-IsUnique gauges-IsFree in
    let c : Collector = record {
      interval = if leb_ℤ interval (pos 0) then pos (10 * second) else interval;
      registry = registry;
      gauges = record { cluster = none; jobs_by_status = []; average_runtime = none };
    } in
    (c, ap (collector_of interval) made, ground arith, found)
