-- ===== src/System/Reachable.antt =====
-- What holds of the database after every history of calls.
use gpu_cluster_scheduler.Common.{ℤ}
use gpu_cluster_scheduler.Strategies.Float.{Float64}
use gpu_cluster_scheduler.Strategies.{Algorithm}
use gpu_cluster_scheduler.Strategies.Laws.{IsLawful}
use gpu_cluster_scheduler.Fragmentation.{cluster_snapshot}
use gpu_cluster_scheduler.Fragmentation.Bounds.{IsConsistent, cluster_snapshot-IsConsistent}
use gpu_cluster_scheduler.Store.Database.{Database, Faults}
use gpu_cluster_scheduler.Store.Soundness.{IsSound}
use gpu_cluster_scheduler.Engine.Pass.{SchedulerConfig}
use gpu_cluster_scheduler.Engine.Capacity.{tick-IsSound}
use gpu_cluster_scheduler.NodeServer.Registration.{register-IsSound}
use gpu_cluster_scheduler.NodeServer.Soundness.{beat-IsSound, update_job_status-IsSound}
use gpu_cluster_scheduler.Api.Soundness.{
  handle_submit_job-IsSound, handle_cancel_job-IsSound, set_node_status-IsSound,
}
use gpu_cluster_scheduler.System.{
  Call, ticks, registers, beats, reports, submits, cancels, marks, Allowed, serve, Reach, here,
  next, empty,
}

module _ (float : Float64) (faults : Faults) (alg : Algorithm float) (cfg : SchedulerConfig float)
    (lawful : IsLawful float alg) where
  serve-IsSound :
      (c : Call) (db : Database)
      → Allowed c db
      → IsSound db
      → IsSound (serve float faults alg cfg c db)
  unfolding serve
  serve-IsSound (ticks now) db a h = tick-IsSound float faults alg cfg lawful now db h
  serve-IsSound (registers now req) db a h = register-IsSound faults now req db a h
  serve-IsSound (beats now id) db a h = beat-IsSound faults now id db h
  serve-IsSound (reports now id text) db a h = update_job_status-IsSound faults now id text db h
  serve-IsSound (submits id retries now req) db a h =
      handle_submit_job-IsSound faults id retries now req db h
  serve-IsSound (cancels now id) db a h = handle_cancel_job-IsSound faults now id db h
  serve-IsSound (marks id s) db a h = set_node_status-IsSound faults id s db h

  Reach-IsSound :
      {start db : Database} → IsSound start → Reach float faults alg cfg start db → IsSound db
  Reach-IsSound h here = h
  Reach-IsSound h (next {db = d} r c a) = serve-IsSound c d a (Reach-IsSound h r)

  -- After every history of calls on an empty database (scheduling passes, registrations, heartbeats,
  -- status reports, submissions, cancellations and node marks, in any order), with any failing queries
  -- and any lawful policy, keys are unique, the free part of every node lies between nothing and its
  -- capacity, and no job asks for a negative amount; if no registration has a negative capacity, or
  -- one below what is available on the node that it names.
  pub reachable-IsSound : (db : Database) → Reach float faults alg cfg empty db → IsSound db
  reachable-IsSound db r =
      Reach-IsSound (record { job_keys = tt; node_keys = tt; within = tt; nonneg = tt }) r

  -- After every history of calls on an empty database the cluster view is consistent: no resource has
  -- more in use than there is, and the utilizations and the fragmentation index are proper fractions;
  -- for any failing queries, any lawful policy, and no registration that has a negative capacity, or
  -- one below what is available on the node that it names.
  pub reachable-IsConsistent :
      (db : Database) (jobs_running jobs_queued : ℤ)
      → Reach float faults alg cfg empty db
      → IsConsistent (cluster_snapshot db.nodes jobs_running jobs_queued)
  reachable-IsConsistent db r q h =
      cluster_snapshot-IsConsistent db.nodes r q (reachable-IsSound db h).within
