-- ===== src/Engine/Retrying.antt =====
-- The retry after a preemption of internal/scheduler/engine.go: the job that asked for it gets its node.
use gpu_cluster_scheduler.Common.{
  ℕ, String, str_eq, str_eq_refl, Bool-cases, true, inl, inr, some, List, [], ◌∷◌, get_elem?, All,
  Any, ◌≡◌, refl, sym, ap, subst, ◌∙◌, arith,
}
use gpu_cluster_scheduler.Models.{
  Job, preempted, queued, scheduled, resource_request, Time, Node, fits, reserve, release, Reason,
  by_preemption,
}
use gpu_cluster_scheduler.Models.Capacity.{IsNonneg}
use gpu_cluster_scheduler.Placement.{Placement, placed, unplaced}
use gpu_cluster_scheduler.Preemption.{PreemptionPlan, find_preemption}
use gpu_cluster_scheduler.Preemption.Room.{release_all, IsWithinCapacity}
use gpu_cluster_scheduler.Strategies.Float.{Float64}
use gpu_cluster_scheduler.Strategies.{Algorithm}
use gpu_cluster_scheduler.Strategies.Laws.{PlaceSpec, IsLawful}
use gpu_cluster_scheduler.Store.Database.{
  Database, no_faults, find_where, update_where, job_key, node_key,
}
use gpu_cluster_scheduler.Store.Jobs
use gpu_cluster_scheduler.Store.Nodes
use gpu_cluster_scheduler.Store.Keys.{find_where-update_where}
use gpu_cluster_scheduler.Store.Keys.Copies.{get_elem?-Any}
use gpu_cluster_scheduler.Engine.Pass.{
  SchedulerConfig, Pass, evict, evict_all, apply_preemption, commit_placement, retry_placement,
  preempt_for,
}
use gpu_cluster_scheduler.Engine.Preempting.{
  IsPlaced, plan-at, evict_all-node, apply_preemption-IsPlaced,
}
use gpu_cluster_scheduler.Engine.Conserving.{
  IsMirror, IsListed, current, replaced-IsMirror, IsWritten, written, written-IsMirror,
}

-- An update that keeps the key keeps a listed job listed.
update-IsListed :
    (id other : String) (f : Job → Job) (js : List Job)
    → ((j : Job) → job_key (f j) ≡ job_key j)
    → IsListed id js
    → IsListed id (update_where job_key other f js)
update-IsListed id other f js keep (row, found) = elim (Bool-cases (str_eq other id)) [
  | inl e ↦ (f row, find_where-update_where job_key other id f js keep ∙ rw (e, found) refl)
  | inr e ↦ (row, find_where-update_where job_key other id f js keep ∙ rw (e, found) refl)
]

-- A release changes what is available, and nothing else.
release_all-available :
    (m : Node) (vs : List Job)
    → let n = release_all m vs in
      Nodes.set_available n.gpu_available n.cpu_available n.memory_available m ≡ n
unfolding Nodes.set_available release
release_all-available m [] = refl
release_all-available m (v ∷ vs) = release_all-available (release m (resource_request v)) vs

release_all-key : (m : Node) (vs : List Job) → (release_all m vs).node_id ≡ m.node_id
unfolding release
release_all-key m [] = refl
release_all-key m (v ∷ vs) = release_all-key (release m (resource_request v)) vs

-- The job has the node: it had room after the evictions, the row of the job is scheduled there, and the row of the
-- node has the request reserved.
pub record HasNode (job : Job) (evicted after : Pass) (m : Node) : Type 0 where
  pub there : Any (λ k. k ≡ m) evicted.nodes
  pub room : fits m (resource_request job) ≡ true
  pub scheduled_row :
      (row : Job) × (find_where job_key job.job_id after.db.jobs ≡ some row)
      × (row.status ≡ scheduled)
      × (row.node_id ≡ m.node_id)
  pub reserved_row :
      find_where node_key m.node_id after.db.nodes ≡ some (reserve m (resource_request job))

module _ (float : Float64) (alg : Algorithm float) (cfg : SchedulerConfig float) where
  -- What the evictions leave of the tables.
  record Evicted (id : String) (before after : Database) : Type 0 where
    nodes : after.nodes ≡ before.nodes
    listed : IsListed id before.jobs → IsListed id after.jobs

  evict-Evicted :
      (id : String) (now : Time) (v : Job) (db : Database)
      → Evicted id db (evict float no_faults alg cfg now v db)
  unfolding evict Jobs.requeue Jobs.update_status
  evict-Evicted id now v db = record {
    nodes = refl;
    listed = λ h.
        update-IsListed id v.job_id (Jobs.set_status queued now) _ (λ j. refl)
          (update-IsListed id v.job_id (Jobs.set_requeued preempted) db.jobs (λ j. refl) h);
  }

  evict_all-Evicted :
      (id : String) (now : Time) (vs : List Job) (n : Node) (db : Database)
      → Evicted id db (evict_all float no_faults alg cfg now vs n db).1
  unfolding evict_all
  evict_all-Evicted id now [] n db = record { nodes = refl; listed = λ h. h }
  evict_all-Evicted id now (v ∷ vs) n db =
      let first = evict-Evicted id now v db in
      let rest =
        evict_all-Evicted id now vs (release n (resource_request v))
          (evict float no_faults alg cfg now v db) in
      record { nodes = rest.nodes ∙ first.nodes; listed = λ h. rest.listed (first.listed h) }

  apply_preemption-IsMirror :
      (plan : PreemptionPlan) (now : Time) (s : Pass)
      → IsMirror s
      → get_elem? s.nodes plan.index ≡ some plan.node
      → IsMirror (apply_preemption float no_faults alg cfg plan now s)
  unfolding apply_preemption Nodes.update_availability
  apply_preemption-IsMirror plan now s mirror at =
      let evicted = evict_all float no_faults alg cfg now plan.victims plan.node s.db in
      let n = evicted.0 in
      let f = Nodes.set_available n.gpu_available n.cpu_available n.memory_available in
      let value : n ≡ release_all plan.node plan.victims =
        evict_all-node float no_faults alg cfg now plan.victims plan.node s.db in
      let key : n.node_id ≡ plan.node.node_id =
        ap (λ (k : Node). k.node_id) value ∙ release_all-key plan.node plan.victims in
      let rows : evicted.1.nodes ≡ s.db.nodes =
        (evict_all-Evicted "" now plan.victims plan.node s.db).nodes in
      let available =
        subst
          (λ (k : Node).
            Nodes.set_available k.gpu_available k.cpu_available k.memory_available plan.node ≡ k)
          (sym value) (release_all-available plan.node plan.victims) in
      let moved : update_where node_key n.node_id f evicted.1.nodes
          ≡ update_where node_key plan.node.node_id f s.db.nodes =
        ap (λ k. update_where node_key k f evicted.1.nodes) key
        ∙ ap (update_where node_key plan.node.node_id f) rows in
      replaced-IsMirror plan.index plan.node n f s _ mirror at key (λ x. refl) available refl moved

  apply_preemption-IsListed :
      (id : String) (plan : PreemptionPlan) (now : Time) (s : Pass)
      → IsListed id s.db.jobs
      → IsListed id (apply_preemption float no_faults alg cfg plan now s).db.jobs
  unfolding apply_preemption Nodes.update_availability
  apply_preemption-IsListed id plan now s h =
      (evict_all-Evicted id now plan.victims plan.node s.db).listed h

  written-HasNode :
      (job : Job) (i : ℕ) (m : Node) (s after : Pass)
      → IsMirror s
      → get_elem? s.nodes i ≡ some m
      → fits m (resource_request job) ≡ true
      → IsListed job.job_id s.db.jobs
      → IsWritten job i m s after
      → HasNode job s after m
  unfolding Jobs.set_scheduled reserve
  written-HasNode job i m s after mirror at room (row, found) w =
      let (f, keep, value, wrote) = w.rows in
      record {
        there = get_elem?-Any s.nodes i m at;
        room = room;
        scheduled_row = (
          Jobs.set_scheduled m.node_id row,
          rw w.jobs (
              find_where-update_where job_key job.job_id job.job_id (Jobs.set_scheduled m.node_id)
                s.db.jobs (λ x. refl)
              ∙ rw (str_eq_refl job.job_id, found) refl),
          refl,
          refl,
        );
        reserved_row = rw wrote (
            find_where-update_where node_key m.node_id m.node_id f s.db.nodes keep
            ∙ rw (str_eq_refl m.node_id, current s m i mirror at, value) refl);
      }

  retry_placement-commits :
      (job : Job) (now : Time) (s : Pass) (i : ℕ) (m : Node) (reason : Reason)
      → alg.place job s.nodes ≡ placed i m reason
      → retry_placement float no_faults alg cfg job now s
        ≡ commit_placement float no_faults alg cfg job i m (by_preemption reason) now s
  unfolding retry_placement
  retry_placement-commits job now s i m reason e = ground (arith, e)

  preempt_for-retries :
      (job : Job) (reason : Reason) (now : Time) (s : Pass) (plan : PreemptionPlan)
      → find_preemption job s.nodes s.running ≡ some plan
      → preempt_for float no_faults alg cfg job reason now s
        ≡ retry_placement float no_faults alg cfg job now
            (apply_preemption float no_faults alg cfg plan now s)
  unfolding preempt_for
  preempt_for-retries job reason now s plan e = ground (arith, e)

  retry-HasNode :
      (job : Job) (now : Time) (s : Pass) (p : Placement)
      → alg.place job s.nodes ≡ p
      → PlaceSpec job s.nodes p
      → IsPlaced p
      → IsMirror s
      → IsListed job.job_id s.db.jobs
      → (m : Node) × HasNode job s (retry_placement float no_faults alg cfg job now s) m
        × IsMirror (retry_placement float no_faults alg cfg job now s)
  retry-HasNode job now s (unplaced reason) e spec there mirror listed = absurd (cc there)
  retry-HasNode job now s (placed i m reason) e spec there mirror listed =
      let wrote =
        written float alg cfg job i m (by_preemption reason) now s (current s m i mirror spec.0) in
      let value : retry_placement float no_faults alg cfg job now s
          ≡ commit_placement float no_faults alg cfg job i m (by_preemption reason) now s =
        retry_placement-commits job now s i m reason e in
      (
        m,
        subst (λ a. HasNode job s a m) (sym value)
            (written-HasNode job i m s _ mirror spec.0 spec.1 listed wrote),
        subst IsMirror (sym value) (written-IsMirror job i m s _ mirror spec.0 wrote),
      )

  -- Where there is a preemption plan for a job, the attempt to preempt ends with the job on a node:
  -- after it the row of the job is scheduled on a node that has room for it once the victims are gone,
  -- and the row of that node has the request reserved. The nodes in memory and their rows are again
  -- the same at every key, as they have to be before. No query fails, the job is in the table, no job
  -- that runs on the node of the plan asks for a negative amount, the job asks for no more than that
  -- node as a whole, and the policy is lawful.
  pub preempt_for-HasNode :
      (lawful : IsLawful float alg) (job : Job) (reason : Reason) (now : Time) (s : Pass)
      {plan : PreemptionPlan}
      → find_preemption job s.nodes s.running ≡ some plan
      → All (λ v. IsNonneg (resource_request v)) (s.running plan.node.node_id)
      → IsWithinCapacity (resource_request job) plan.node
      → IsMirror s
      → IsListed job.job_id s.db.jobs
      → let after = preempt_for float no_faults alg cfg job reason now s in
        (m : Node) × HasNode job (apply_preemption float no_faults alg cfg plan now s) after m
        × IsMirror after
  preempt_for-HasNode lawful job reason now s {plan} found nonneg whole mirror listed =
      let evicted = apply_preemption float no_faults alg cfg plan now s in
      let value : preempt_for float no_faults alg cfg job reason now s
          ≡ retry_placement float no_faults alg cfg job now evicted =
        preempt_for-retries job reason now s plan found in
      subst (λ a. (m : Node) × HasNode job evicted a m × IsMirror a) (sym value)
        (retry-HasNode job now evicted (alg.place job evicted.nodes) refl
          (lawful.place_lem job evicted.nodes)
          (apply_preemption-IsPlaced float no_faults alg cfg lawful job now s found nonneg whole)
          (apply_preemption-IsMirror plan now s mirror (plan-at job s.nodes s.running found))
          (apply_preemption-IsListed job.job_id plan now s listed))
