-- ===== src/Engine/Tick.antt =====
-- One scheduling pass, `Tick` of internal/scheduler/engine.go.
use gpu_cluster_scheduler.Common.{
  ℕ, suc, ℤ, pos, ◌+ℤ◌, leb_ℤ, eqb_ℤ, String, str_eq, Bool, not, false, ◌||◌, if◌then◌else◌, Option,
  none, some, List, [], ◌∷◌, map,
}
use gpu_cluster_scheduler.Models.{Job, JobStatus, queued, scheduled, running, failed, Time, Node}
use gpu_cluster_scheduler.Preemption.{Running}
use gpu_cluster_scheduler.Strategies.Float.{Float64}
use gpu_cluster_scheduler.Strategies.{Algorithm}
use gpu_cluster_scheduler.Store.Database.{Database, ok, err, Faults, Store, ◌>>=◌, ◌>>◌}
use gpu_cluster_scheduler.Store.Jobs
use gpu_cluster_scheduler.Store.Nodes
use gpu_cluster_scheduler.Engine.Pass.{SchedulerConfig, add_running, place_all}

-- `deadSet[id]`
unfoldable pub in_set : List String → String → Bool
in_set [] id = false
in_set (d ∷ ds) id = str_eq d id || in_set ds id

abbrev pub active_statuses : List JobStatus
active_statuses = scheduled ∷ running ∷ []

-- The queue depth in the bands of `publishGauges`.
pub record QueueDepth : Type 0 where
  pub low : ℕ
  pub normal : ℕ
  pub high : ℕ

unfoldable pub queue_depth : List Job → QueueDepth
queue_depth [] = record { low = 0; normal = 0; high = 0 }
queue_depth (j ∷ js) =
    let d = queue_depth js in
    if leb_ℤ (pos 8) j.priority
    then record d { high = suc d.high }
    else if leb_ℤ (pos 4) j.priority
    then record d { normal = suc d.normal }
    else record d { low = suc d.low }

-- The map from nodes to the jobs that occupy them.
unfoldable pub running_from : Running → List Job → Running
unfolding add_running
running_from r [] = r
running_from r (j ∷ js) =
    running_from (if not (str_eq j.node_id "") then add_running r j.node_id j else r) js

unfoldable pub total_gpus : List Node → ℤ
total_gpus [] = pos 0
total_gpus (n ∷ ns) = n.gpu_capacity +ℤ total_gpus ns

module _ (float : Float64) (faults : Faults) (alg : Algorithm float)
    (cfg : SchedulerConfig float) where
  unfoldable pub team_shares :
      List Node → Database → Option (List (String × float.Carrier)) × Database
  unfolding total_gpus Jobs.team_gpu_usage
  team_shares nodes db =
      let total = total_gpus nodes in
      let (r, db') = Jobs.team_gpu_usage faults db in
      elim r [
        | err _ ↦ (none, db')
        | ok usage ↦ if eqb_ℤ total (pos 0) then (none, db') else (
          some (map (λ (t, g). (t, float.over (float.of_int g) (float.of_int total))) usage),
          db',
        )
      ]

  -- One round of the loop of `reconcileDeadNodes`.
  unfoldable pub rescue : Time → List String → Job → Database → Database
  unfolding in_set Jobs.update_status Jobs.requeue
  rescue now dead job db =
      if not (in_set dead job.node_id)
      then db
      else if leb_ℤ job.max_retries job.retry_count
      then (Jobs.update_status faults now job.job_id failed db).1
      else (Jobs.requeue faults job.job_id queued db).1

  unfoldable pub rescue_all : Time → List String → List Job → Database → Database
  unfolding rescue
  rescue_all now dead [] db = db
  rescue_all now dead (j ∷ js) db = rescue_all now dead js (rescue now dead j db)

  unfoldable pub rescue_from : Time → List String → Database → Database
  unfolding rescue_all Jobs.list_by_statuses
  rescue_from now [] db = db
  rescue_from now (d ∷ ds) db =
      let (r, db') = Jobs.list_by_statuses faults active_statuses db in
      elim r [ err _ ↦ db' | ok active ↦ rescue_all now (d ∷ ds) active db' ]

  unfoldable pub reconcile_dead_nodes : Time → Database → Database
  unfolding rescue_from Nodes.mark_stale_down
  reconcile_dead_nodes now db =
      let (r, db') = Nodes.mark_stale_down faults now cfg.heartbeat_ttl db in
      elim r [ err _ ↦ db' | ok dead ↦ rescue_from now dead db' ]

  unfoldable pub place_queue : Time → List Node → List Job → List Job → Database → Database
  unfolding team_shares running_from place_all
  place_queue now nodes [] active db = db
  place_queue now nodes (j ∷ js) active db =
      let (shares, db') = team_shares nodes db in
      let ordered =
        alg.order (j ∷ js) (record { team_usage = shares; aging_factor = cfg.aging_factor }) now in
      (place_all float faults alg cfg now ordered
        (record { nodes = nodes; running = running_from (λ _. []) active; db = db' })).db

  unfoldable pub tick : Time → Store Unit
  unfolding reconcile_dead_nodes place_queue Nodes.list Jobs.list_by_statuses
  tick now = do
    (λ db. (ok tt, reconcile_dead_nodes now db))
    nodes ← Nodes.list faults
    waiting ← Jobs.list_by_statuses faults (queued ∷ [])
    active ← Jobs.list_by_statuses faults active_statuses
    (λ db. (ok tt, place_queue now nodes waiting active db))
