-- ===== src/Engine/Races.antt =====
-- A pass of internal/scheduler/engine.go and a report to internal/grpc/server.go at the same time, statement by
-- statement: both write the availability of a node from a row that they read before.
use gpu_cluster_scheduler.Common.{
  ℕ, suc, String, str_eq, str_eq_iff, str_eq_refl, false, some, ◌≡◌, refl, sym, subst,
}
use gpu_cluster_scheduler.Models.{
  Job, JobStatus, Time, Node, Reason, reserve, release, resource_request,
}
use gpu_cluster_scheduler.Strategies.Float.{Float64}
use gpu_cluster_scheduler.Strategies.{Algorithm}
use gpu_cluster_scheduler.Store.Database.{
  Database, ok, no_faults, find_where, update_where, job_key, node_key,
}
use gpu_cluster_scheduler.Store.Jobs
use gpu_cluster_scheduler.Store.Nodes
use gpu_cluster_scheduler.Store.Events
use gpu_cluster_scheduler.Store.Events
use gpu_cluster_scheduler.Store.Keys.{find_where-update_where, find_where-key}
use gpu_cluster_scheduler.Engine.Pass.{
  SchedulerConfig, Pass, record_event, commit_end_of, commit_placement,
}
use gpu_cluster_scheduler.NodeServer.Handlers.{parse_status, release_on, update_job_status}
use gpu_cluster_scheduler.NodeServer.Transitions.{Ends, Ended, Holding, hit, update_job_status-Ends}

pub schedule-found :
    (id node_id : String) (row : Node) (db : Database)
    → find_where node_key node_id db.nodes ≡ some row
    → Jobs.schedule no_faults id node_id db ≡ (
      ok tt,
      record db {
        jobs = update_where job_key id (Jobs.set_scheduled node_id) db.jobs;
        queries = suc db.queries;
      },
    )
unfolding Jobs.schedule
schedule-found id node_id row db found = rw (found, Jobs.schedule_row) refl

module _ (float : Float64) (alg : Algorithm float) (cfg : SchedulerConfig float) where
  -- A placement writes what the copy of the node says, whatever the row says by then.
  pub committed :
      (job : Job) (i : ℕ) (copy row : Node) (reason : Reason) (now : Time) (s : Pass)
      → find_where node_key copy.node_id s.db.nodes ≡ some row
      → (let after = (commit_placement float no_faults alg cfg job i copy reason now s).db in
          let n = reserve copy (resource_request job) in
          (find_where node_key copy.node_id after.nodes
            ≡ some (Nodes.set_available n.gpu_available n.cpu_available n.memory_available row))
          × (after.jobs
              ≡ update_where job_key job.job_id (Jobs.set_scheduled copy.node_id) s.db.jobs))
  unfolding commit_placement commit_end_of record_event Events.record_event
      Nodes.update_availability reserve
  committed job i copy row reason now s found =
      rw (schedule-found job.job_id copy.node_id row s.db found) (
        hit node_key copy.node_id copy.node_id
            (Nodes.set_available (reserve copy (resource_request job)).gpu_available
              (reserve copy (resource_request job)).cpu_available
              (reserve copy (resource_request job)).memory_available)
            s.db.nodes (λ x. refl) refl found,
        refl,
      )

  -- A pass reads a node, then a job on it reports its end, and only then the pass places another job
  -- on its copy of the node. No query fails, and the rows are there. Then the job has ended, but the
  -- row of the node is that of the copy less the placed job: what the ended job gave back is lost.
  pub commit_placement-loses :
      (job j : Job) (i : ℕ) (n : Node) (reason : Reason) (now later : Time) (s : Pass)
      (id text : String) (status : JobStatus)
      → Ends status
      → parse_status text ≡ some status
      → Holding id j n s.db
      → str_eq job.job_id id ≡ false
      → let reported = (update_job_status no_faults now id text s.db).1 in
        let after =
          (commit_placement float no_faults alg cfg job i n reason later
            (record s { db = reported })).db in
        (find_where job_key id after.jobs ≡ some (Jobs.set_status status now j))
        × (find_where node_key n.node_id after.nodes ≡ some (reserve n (resource_request job)))
  unfolding Ended release Nodes.set_available reserve Jobs.set_scheduled
  commit_placement-loses job j i n reason now later s id text status ends parsed h other =
      let key : n.node_id ≡ j.node_id =
        (str_eq_iff n.node_id j.node_id).0 (find_where-key node_key j.node_id s.db.nodes h.node) in
      let reported = (update_job_status no_faults now id text s.db).1 in
      let ended = update_job_status-Ends now id text status j n s.db ends parsed h in
      let found : find_where node_key n.node_id reported.nodes
          ≡ some (release n (resource_request j)) =
        subst (λ k. find_where node_key k reported.nodes ≡ some (release n (resource_request j)))
          (sym key) ended.2 in
      let wrote =
        committed job i n (release n (resource_request j)) reason later (record s { db = reported })
          found in
      (
        rw
            (
              wrote.1,
              find_where-update_where job_key job.job_id id (Jobs.set_scheduled n.node_id)
                  reported.jobs (λ x. refl),
              other,
            )
            ended.1,
        wrote.0,
      )

  -- A report reads a node, then a pass places a job on it, and only then the report gives back what
  -- its own job held. No query fails, and the rows are there. Then the placed job is in the table as
  -- scheduled on the node, but the row of the node is that which the report read, with its own job
  -- released: what the placed job takes is lost, and the node can be given out twice.
  pub release_on-loses :
      (job j row : Job) (i : ℕ) (n : Node) (reason : Reason) (now : Time) (s : Pass)
      → find_where node_key n.node_id s.db.nodes ≡ some n
      → find_where job_key job.job_id s.db.jobs ≡ some row
      → let placed = (commit_placement float no_faults alg cfg job i n reason now s).db in
        let after = release_on no_faults j (ok n) placed in
        (find_where job_key job.job_id after.jobs ≡ some (Jobs.set_scheduled n.node_id row))
        × (find_where node_key n.node_id after.nodes ≡ some (release n (resource_request j)))
  unfolding release_on Nodes.update_availability Nodes.set_available release reserve
      Jobs.set_scheduled
  release_on-loses job j row i n reason now s found there =
      let wrote = committed job i n n reason now s found in
      let m = release n (resource_request j) in
      (
        rw
            (
              wrote.1,
              find_where-update_where job_key job.job_id job.job_id (Jobs.set_scheduled n.node_id)
                  s.db.jobs (λ x. refl),
              str_eq_refl job.job_id,
              there,
            )
            refl,
        hit node_key n.node_id n.node_id
            (Nodes.set_available m.gpu_available m.cpu_available m.memory_available) _ (λ x. refl)
            refl wrote.0,
      )
