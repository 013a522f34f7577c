-- ===== src/Engine/Sweep.antt =====
-- The sweep for dead nodes of internal/scheduler/engine.go keeps the tables sound.
use gpu_cluster_scheduler.Common.{
  suc, leb_ℤ, String, Bool-cases, inl, inr, List, [], ◌∷◌, All, All-select, select, ◌≡◌, refl,
}
use gpu_cluster_scheduler.Common.Sort.{All-sort_stable}
use gpu_cluster_scheduler.Models.{Job, JobStatus, Node, Time, failed, queued}
use gpu_cluster_scheduler.Strategies.Float.{Float64}
use gpu_cluster_scheduler.Strategies.{Algorithm}
use gpu_cluster_scheduler.Store.Database.{Database, Result, ok, err, Faults}
use gpu_cluster_scheduler.Store.Jobs
use gpu_cluster_scheduler.Store.Post.{Post, PostOf, query-Post}
use gpu_cluster_scheduler.Store.Soundness.{
  IsSound, IsNonnegJob, asked-IsSound, update_status-IsSound, requeue-IsSound,
  mark_stale_down-IsSound,
}
use gpu_cluster_scheduler.Engine.Pass.{SchedulerConfig}
use gpu_cluster_scheduler.Engine.Tick.{
  in_set, rescue, rescue_all, rescue_from, active_statuses, reconcile_dead_nodes,
}

-- Jobs with a property, and tables with one whose nodes are these.
abbrev pub Listed : (Job → Type 0) → (Database → Type 0) → List Node → List Job → Database → Type 0
Listed P E rows js d = All P js × E d × (d.nodes ≡ rows)

module _ (faults : Faults) where
  -- A listing returns jobs of the table, and leaves the tables as they were.
  pub list_by_statuses-Post :
      (P : Job → Type 0) (E : Database → Type 0) (ss : List JobStatus) (db : Database)
      → All P db.jobs
      → E (record db { queries = suc db.queries })
      → Post (Listed P E db.nodes) E (Jobs.list_by_statuses faults ss db)
  unfolding Jobs.list_by_statuses
  list_by_statuses-Post P E ss db h e =
      query-Post (Listed P E db.nodes) E faults (Jobs.select_rows (Jobs.status_filter ss)) db e (
        All-sort_stable _ P (select (Jobs.matches (Jobs.status_filter ss)) db.jobs)
            (All-select P _ db.jobs h),
        e,
        refl,
      )

module _ (float : Float64) (faults : Faults) (alg : Algorithm float)
    (cfg : SchedulerConfig float) where
  rescue-IsSound :
      (now : Time) (dead : List String) (j : Job) (db : Database)
      → IsSound db
      → IsSound (rescue float faults alg cfg now dead j db)
  unfolding rescue
  rescue-IsSound now dead j db h = elim (Bool-cases (in_set dead j.node_id)) [
    | inl e ↦ elim (Bool-cases (leb_ℤ j.max_retries j.retry_count)) [
      | inl f ↦ rw (e, f) (update_status-IsSound faults now j.job_id failed db h)
      | inr f ↦ rw (e, f) (requeue-IsSound faults j.job_id queued db h)
    ]
    | inr e ↦ rw e h
  ]

  rescue_all-IsSound :
      (now : Time) (dead : List String) (js : List Job) (db : Database)
      → IsSound db
      → IsSound (rescue_all float faults alg cfg now dead js db)
  unfolding rescue_all
  rescue_all-IsSound now dead [] db h = h
  rescue_all-IsSound now dead (j ∷ js) db h =
      rescue_all-IsSound now dead js (rescue float faults alg cfg now dead j db)
        (rescue-IsSound now dead j db h)

  rescue_end :
      (now : Time) (dead : List String) (rows : List Node) (r : Result (List Job)) (db : Database)
      → PostOf (Listed IsNonnegJob IsSound rows) IsSound r db
      → IsSound
          (elim r [ err _ ↦ db | ok active ↦ rescue_all float faults alg cfg now dead active db ])
  rescue_end now dead rows (ok js) db h = rescue_all-IsSound now dead js db h.1
  rescue_end now dead rows (err e) db h = h

  rescue_from-IsSound :
      (now : Time) (dead : List String) (db : Database)
      → IsSound db
      → IsSound (rescue_from float faults alg cfg now dead db)
  unfolding rescue_from
  rescue_from-IsSound now [] db h = h
  rescue_from-IsSound now (d ∷ ds) db h = rescue_end now (d ∷ ds) db.nodes _ _ (
      list_by_statuses-Post faults IsNonnegJob IsSound active_statuses db h.nonneg
        (asked-IsSound h))

  reconcile_end :
      (now : Time) (r : Result (List String)) (db : Database)
      → IsSound db
      → IsSound (elim r [ err _ ↦ db | ok dead ↦ rescue_from float faults alg cfg now dead db ])
  reconcile_end now (ok dead) db h = rescue_from-IsSound now dead db h
  reconcile_end now (err e) db h = h

  pub reconcile_dead_nodes-IsSound :
      (now : Time) (db : Database)
      → IsSound db
      → IsSound (reconcile_dead_nodes float faults alg cfg now db)
  unfolding reconcile_dead_nodes
  reconcile_dead_nodes-IsSound now db h =
      reconcile_end now _ _ (mark_stale_down-IsSound faults now cfg.heartbeat_ttl db h)
