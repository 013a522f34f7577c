-- ===== src/Engine/Pass.antt =====
-- The body of the loop in `Tick` (internal/scheduler/engine.go): one job is placed, or not.
use gpu_cluster_scheduler.Common.{
  ℕ, pos, leb_ℤ, String, str_eq, Bool, true, false, ◌&&◌, if◌then◌else◌, none, some, List, [], ◌∷◌,
  ◌++◌, set,
}
use gpu_cluster_scheduler.Models.{
  Job, queued, preempted, Time, Duration, age, resource_request, Node, reserve, release, Reason,
  by_preemption, no_capacity,
}
use gpu_cluster_scheduler.Placement.{placed, unplaced}
use gpu_cluster_scheduler.Preemption.{Running, PreemptionPlan, find_preemption}
use gpu_cluster_scheduler.Strategies.Float.{Float64}
use gpu_cluster_scheduler.Strategies.{Algorithm}
use gpu_cluster_scheduler.Store.Database.{Database, Result, ok, err, Faults}
use gpu_cluster_scheduler.Store.Jobs
use gpu_cluster_scheduler.Store.Nodes
use gpu_cluster_scheduler.Store.Events

-- The part of config.SchedulerConfig that the engine reads.
pub record SchedulerConfig (float : Float64) : Type 0 where
  pub aging_factor : float.Carrier
  pub starvation_threshold : Duration
  pub enable_preemption : Bool
  pub heartbeat_ttl : Duration

-- What a pass changes: the node structs in memory, the map of what runs where, and the database.
pub record Pass : Type 0 where
  pub nodes : List Node
  pub running : Running
  pub db : Database

unfoldable pub add_running : Running → String → Job → Running
add_running r id job other = if str_eq other id then r other ++ job ∷ [] else r other

module _ (float : Float64) (faults : Faults) (alg : Algorithm float)
    (cfg : SchedulerConfig float) where
  unfoldable pub record_event : Job → String → Reason → Bool → Time → Database → Database
  unfolding Events.record_event
  record_event job node_id reason success now db =
      (Events.record_event faults
        (record {
          job_id = job.job_id;
          selected_node = node_id;
          scheduling_reason = reason;
          algorithm = alg.name;
          success = success;
          timestamp = now;
        })
        db).1

  -- After the statement that schedules the job, with its result.
  unfoldable pub commit_end_of :
      Job → ℕ → Node → Reason → Time → Pass → Result (Unit {0}) → Database → Pass
  unfolding add_running record_event Nodes.update_availability
  commit_end_of job i node reason now s (err e) db =
      let req = resource_request job in
      record {
        nodes = set s.nodes i (release (reserve node req) req);
        running = add_running s.running node.node_id job;
        db = db;
      }
  commit_end_of job i node reason now s (ok _) db =
      let n = reserve node (resource_request job) in
      let db' =
        (Nodes.update_availability faults n.node_id n.gpu_available n.cpu_available
          n.memory_available db).1 in
      record {
        nodes = set s.nodes i n;
        running = add_running s.running node.node_id job;
        db = record_event job n.node_id reason true now db';
      }

  unfoldable pub commit_placement : Job → ℕ → Node → Reason → Time → Pass → Pass
  unfolding commit_end_of Jobs.schedule
  commit_placement job i node reason now s =
      let (r, db) = Jobs.schedule faults job.job_id node.node_id s.db in
      commit_end_of job i node reason now s r db

  -- One round of the loop over the victims.
  unfoldable pub evict : Time → Job → Database → Database
  unfolding Jobs.requeue Jobs.update_status
  evict now v db =
      let (r, db') = Jobs.requeue faults v.job_id preempted db in
      elim r [ err _ ↦ db' | ok _ ↦ (Jobs.update_status faults now v.job_id queued db').1 ]

  unfoldable pub evict_all : Time → List Job → Node → Database → Node × Database
  unfolding evict
  evict_all now [] node db = (node, db)
  evict_all now (v ∷ vs) node db =
      evict_all now vs (release node (resource_request v)) (evict now v db)

  unfoldable pub apply_preemption : PreemptionPlan → Time → Pass → Pass
  unfolding evict_all Nodes.update_availability
  apply_preemption plan now s =
      let (node, db) = evict_all now plan.victims plan.node s.db in
      record s {
        nodes = set s.nodes plan.index node;
        db =
            (Nodes.update_availability faults node.node_id node.gpu_available node.cpu_available
              node.memory_available db).1;
      }

  unfoldable pub should_preempt : Job → Time → Bool
  unfolding age
  should_preempt job now =
      if leb_ℤ cfg.starvation_threshold (age job now) then true else leb_ℤ (pos 8) job.priority

  -- Give up on the job for now.
  unfoldable pub give_up : Job → Reason → Time → Pass → Pass
  unfolding record_event
  give_up job reason now s = record s {
    db = record_event job "" (no_capacity reason) false now s.db;
  }

  unfoldable pub retry_placement : Job → Time → Pass → Pass
  unfolding commit_placement give_up
  retry_placement job now s = elim (alg.place job s.nodes) [
    | placed i node reason ↦ commit_placement job i node (by_preemption reason) now s
    | unplaced reason ↦ give_up job reason now s
  ]

  unfoldable pub preempt_for : Job → Reason → Time → Pass → Pass
  unfolding retry_placement apply_preemption give_up
  preempt_for job reason now s = elim (find_preemption job s.nodes s.running) [
    | none ↦ give_up job reason now s
    | some plan ↦ retry_placement job now (apply_preemption plan now s)
  ]

  unfoldable pub place_one : Time → Job → Pass → Pass
  unfolding commit_placement preempt_for should_preempt give_up
  place_one now job s = elim (alg.place job s.nodes) [
    | placed i node reason ↦ commit_placement job i node reason now s
    | unplaced reason ↦
        if cfg.enable_preemption && should_preempt job now
        then preempt_for job reason now s
        else give_up job reason now s
  ]

  unfoldable pub place_all : Time → List Job → Pass → Pass
  unfolding place_one
  place_all now [] s = s
  place_all now (job ∷ jobs) s = place_all now jobs (place_one now job s)
