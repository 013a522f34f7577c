-- ===== src/Metrics.antt =====
-- The metrics service, internal/metricsvc/collector.go: its gauges after a sample. A gauge that was never set
-- reads zero.
pub mod Averages
pub mod Collector
use gpu_cluster_scheduler.Common.{
  ℕ, zero, suc, ◌+◌, ℤ, pos, ◌+ℤ◌, ◌-ℤ◌, ◌*ℤ◌, ◌≤ℤ◌, leb_ℤ, String, Bool, Option, none, some, List,
  [], ◌∷◌, All, if◌then◌else◌, ◌≡◌, refl, arith, int_laws,
}
use gpu_cluster_scheduler.Models.{
  Job, JobStatus, queued, scheduled, running, completed, failed, cancelled, preempted, Duration,
  Node, ClusterUtilization,
}
use gpu_cluster_scheduler.Fragmentation.{cluster_snapshot}
use gpu_cluster_scheduler.Store.Database.{Database, Result, ok, err, Faults}
use gpu_cluster_scheduler.Store.Jobs
use gpu_cluster_scheduler.Store.Nodes
use gpu_cluster_scheduler.Api.Handlers.{counted}

-- The total of the runtimes, and their number.
pub record Runtimes : Type 0 where
  pub total : Duration
  pub count : ℕ

pub record Gauges : Type 0 where
  pub cluster : Option ClusterUtilization
  pub jobs_by_status : List (JobStatus × ℕ)
  pub average_runtime : Option Runtimes  -- the average is `total / count`

-- `CompletedAt.Sub(*StartedAt)`, of a job that has both.
unfoldable pub runtime_of : Job → Option Duration
runtime_of j = elim j.started_at [
  | none ↦ none
  | some s ↦ elim j.completed_at [ none ↦ none | some c ↦ some (c -ℤ s) ]
]

unfoldable pub add_runtime : Runtimes → Option Duration → Runtimes
add_runtime t none = t
add_runtime t (some d) = record { total = t.total +ℤ d; count = suc t.count }

unfoldable pub sum_runtimes : Runtimes → List Job → Runtimes
unfolding runtime_of add_runtime
sum_runtimes t [] = t
sum_runtimes t (j ∷ js) = sum_runtimes (add_runtime t (runtime_of j)) js

unfoldable pub averaged : List Job → Gauges → Gauges
unfolding sum_runtimes
averaged [] g = g
averaged (j ∷ js) g =
    let t = sum_runtimes (record { total = pos 0; count = 0 }) (j ∷ js) in
    elim t.count [ zero ↦ g | suc n ↦ record g { average_runtime = some t } ]

abbrev pub completed_filter : Jobs.JobFilter
completed_filter = record {
  status = some completed;
  user_id = "";
  team_id = "";
  statuses = [];
  limit = pos 100;
}

module _ (faults : Faults) where
  unfoldable pub update_runtime : Gauges → Database → Gauges × Database
  unfolding averaged Jobs.list
  update_runtime g db =
      let (r, db') = Jobs.list faults completed_filter db in
      elim r [ err _ ↦ (g, db') | ok jobs ↦ (averaged jobs g, db') ]

  unfoldable pub count_each : List JobStatus → Database → List (JobStatus × ℕ) × Database
  unfolding Jobs.count_by_status counted
  count_each [] db = ([], db)
  count_each (s ∷ ss) db =
      let (r, db') = Jobs.count_by_status faults s db in
      let (rest, db'') = count_each ss db' in ((s, counted r) ∷ rest, db'')

  sample_nodes : Gauges → Result (List Node) → Database → Gauges × Database
  unfolding count_each update_runtime cluster_snapshot Jobs.count_by_status counted
  sample_nodes g (err _) db = (g, db)
  sample_nodes g (ok nodes) db =
      let (r, db₁) = Jobs.count_by_status faults running db in
      let (s, db₂) = Jobs.count_by_status faults scheduled db₁ in
      let (q, db₃) = Jobs.count_by_status faults queued db₂ in
      let snap = cluster_snapshot nodes (pos (counted r + counted s)) (pos (counted q)) in
      let (each, db₄) =
        count_each (queued ∷ scheduled ∷ running ∷ completed ∷ failed ∷ cancelled ∷ preempted ∷ [])
          db₃ in
      update_runtime (record g { cluster = some snap; jobs_by_status = each }) db₄

  unfoldable pub sample : Gauges → Database → Gauges × Database
  unfolding sample_nodes Nodes.list
  sample g db = let (r, db') = Nodes.list faults db in sample_nodes g r db'
