-- ===== src/Engine/Frame.antt =====
-- A proof rule for the pass of internal/scheduler/engine.go: what every statement on a job of the pass
-- keeps of the database, the whole pass keeps.
use gpu_cluster_scheduler.Common.{
  ℕ, suc, ℤ, leb_ℤ, String, str_eq, Bool, Bool-cases, true, false, ◌&&◌, if◌then◌else◌, inl, inr,
  Option, none, some, List, [], ◌∷◌, ◌++◌, All, All-append, select, ◌≡◌, refl, sym, subst, arith,
}
use gpu_cluster_scheduler.Common.Sort.{All-sort_stable}
use gpu_cluster_scheduler.Models.{
  Job, JobStatus, Node, Time, Duration, Reason, by_preemption, queued, preempted, failed,
  SchedulingEvent,
}
use gpu_cluster_scheduler.Placement.{Placement, placed, unplaced}
use gpu_cluster_scheduler.Preemption.{Running, PreemptionPlan, find_preemption}
use gpu_cluster_scheduler.Preemption.Room.{All-victims}
use gpu_cluster_scheduler.Strategies.Float.{Float64}
use gpu_cluster_scheduler.Strategies.{Algorithm}
use gpu_cluster_scheduler.Strategies.Laws.{IsLawful}
use gpu_cluster_scheduler.Store.Database.{Database, Result, ok, err, Faults, Store, ◌>>=◌}
use gpu_cluster_scheduler.Store.Jobs
use gpu_cluster_scheduler.Store.Nodes
use gpu_cluster_scheduler.Store.Events
use gpu_cluster_scheduler.Store.Post.{Post, PostOf, bind-Post, query-Post}
use gpu_cluster_scheduler.Engine.Pass.{
  SchedulerConfig, Pass, add_running, record_event, commit_end_of, commit_placement, evict,
  evict_all, apply_preemption, should_preempt, give_up, retry_placement, preempt_for, place_one,
  place_all,
}
use gpu_cluster_scheduler.Engine.Tick.{
  in_set, running_from, team_shares, rescue, rescue_all, rescue_from, active_statuses,
  reconcile_dead_nodes, place_queue, tick,
}
pub mod Tick

-- `D` is kept by each statement of the pass on a job with `J`, and the jobs that the pass lists have `J`.
pub record IsFrame (faults : Faults) (D : Database → Type 0) (J : Job → Type 0) : Type 0 where
  pub asked : (db : Database) → D db → D (record db { queries = suc db.queries })
  pub update_status :
      (now : Time) (j : Job) (s : JobStatus) (db : Database)
      → J j
      → D db
      → D (Jobs.update_status faults now j.job_id s db).1
  pub requeue :
      (j : Job) (s : JobStatus) (db : Database)
      → J j
      → D db
      → D (Jobs.requeue faults j.job_id s db).1
  pub schedule :
      (j : Job) (id : String) (db : Database)
      → J j
      → D db
      → D (Jobs.schedule faults j.job_id id db).1
  pub update_availability :
      (id : String) (g c m : ℤ) (db : Database)
      → D db
      → D (Nodes.update_availability faults id g c m db).1
  pub record_event :
      (e : SchedulingEvent) (db : Database) → D db → D (Events.record_event faults e db).1
  pub mark_stale_down :
      (now : Time) (ttl : Duration) (db : Database)
      → D db
      → D (Nodes.mark_stale_down faults now ttl db).1
  pub listed_queued :
      (db : Database)
      → D db
      → All J (select (Jobs.matches (Jobs.status_filter (queued ∷ []))) db.jobs)
  pub listed_active :
      (db : Database)
      → D db
      → All J (select (Jobs.matches (Jobs.status_filter active_statuses)) db.jobs)
  pub priority_free : (j : Job) (e : ℤ) → J j → J (record j { effective_priority = e })

module _ (float : Float64) (faults : Faults) (alg : Algorithm float) (cfg : SchedulerConfig float)
    (D : Database → Type 0) (J : Job → Type 0) (frame : IsFrame faults D J) where
  pub record Holds (s : Pass) : Type 0 where
    pub db : D s.db
    pub runs : (id : String) → All J (s.running id)

  pub add_running-J :
      (r : Running) (id : String) (j : Job)
      → J j
      → ((k : String) → All J (r k))
      → (k : String) → All J (add_running r id j k)
  unfolding add_running
  add_running-J r id j p h k = elim (Bool-cases (str_eq k id)) [
    | inl e ↦ rw e (All-append J (r k) (j ∷ []) (h k) (p, tt))
    | inr e ↦ rw e (h k)
  ]

  give_up-Holds :
      (j : Job) (r : Reason) (now : Time) (s : Pass)
      → Holds s
      → Holds (give_up float faults alg cfg j r now s)
  unfolding give_up
  give_up-Holds j r now s h = record { db = frame.record_event _ s.db h.db; runs = h.runs }

  commit_end-Holds :
      (j : Job) (i : ℕ) (n : Node) (reason : Reason) (now : Time) (s : Pass) (r : Result (Unit {0}))
      (db : Database)
      → Holds s
      → J j
      → D db
      → Holds (commit_end_of float faults alg cfg j i n reason now s r db)
  unfolding commit_end_of
  commit_end-Holds j i n reason now s (err e) db h p d = record {
    db = d;
    runs = add_running-J s.running n.node_id j p h.runs;
  }
  commit_end-Holds j i n reason now s (ok x) db h p d = record {
    db = frame.record_event _ _ (frame.update_availability _ _ _ _ db d);
    runs = add_running-J s.running n.node_id j p h.runs;
  }

  commit-Holds :
      (j : Job) (i : ℕ) (n : Node) (reason : Reason) (now : Time) (s : Pass)
      → Holds s
      → J j
      → Holds (commit_placement float faults alg cfg j i n reason now s)
  unfolding commit_placement
  commit-Holds j i n reason now s h p =
      commit_end-Holds j i n reason now s _ _ h p (frame.schedule j n.node_id s.db p h.db)

  evict_end-D :
      (now : Time) (v : Job) (r : Result (Unit {0})) (db : Database)
      → J v
      → D db
      → D (elim r [ err _ ↦ db | ok _ ↦ (Jobs.update_status faults now v.job_id queued db).1 ])
  evict_end-D now v (err e) db p d = d
  evict_end-D now v (ok x) db p d = frame.update_status now v queued db p d

  evict_all-D :
      (now : Time) (vs : List Job) (n : Node) (db : Database)
      → All J vs
      → D db
      → D (evict_all float faults alg cfg now vs n db).1
  unfolding evict_all evict
  evict_all-D now [] n db p d = d
  evict_all-D now (v ∷ vs) n db p d =
      evict_all-D now vs _ _ p.1 (evict_end-D now v _ _ p.0 (frame.requeue v preempted db p.0 d))

  apply-Holds :
      (plan : PreemptionPlan) (now : Time) (s : Pass)
      → All J plan.victims
      → Holds s
      → Holds (apply_preemption float faults alg cfg plan now s)
  unfolding apply_preemption
  apply-Holds plan now s p h = record {
    db = frame.update_availability _ _ _ _ _ (evict_all-D now plan.victims plan.node s.db p h.db);
    runs = h.runs;
  }

  retry_end-Holds :
      (j : Job) (now : Time) (s : Pass) (p : Placement)
      → J j
      → Holds s
      → Holds (elim p [
        | placed i n reason ↦
            commit_placement float faults alg cfg j i n (by_preemption reason) now s
        | unplaced reason ↦ give_up float faults alg cfg j reason now s
      ])
  retry_end-Holds j now s (placed i n reason) p h =
      commit-Holds j i n (by_preemption reason) now s h p
  retry_end-Holds j now s (unplaced reason) p h = give_up-Holds j reason now s h

  preempt_end-Holds :
      (j : Job) (reason : Reason) (now : Time) (s : Pass) (found : Option PreemptionPlan)
      → find_preemption j s.nodes s.running ≡ found
      → J j
      → Holds s
      → Holds (elim found [
        | none ↦ give_up float faults alg cfg j reason now s
        | some plan ↦
            retry_placement float faults alg cfg j now
              (apply_preemption float faults alg cfg plan now s)
      ])
  unfolding retry_placement
  preempt_end-Holds j reason now s none e p h = give_up-Holds j reason now s h
  preempt_end-Holds j reason now s (some plan) e p h =
      retry_end-Holds j now _ _ p
        (apply-Holds plan now s (All-victims J j s.nodes s.running e (h.runs plan.node.node_id)) h)

  place_end-Holds :
      (j : Job) (now : Time) (s : Pass) (p : Placement)
      → J j
      → Holds s
      → Holds (elim p [
        | placed i n reason ↦ commit_placement float faults alg cfg j i n reason now s
        | unplaced reason ↦
            if cfg.enable_preemption && should_preempt float faults alg cfg j now
            then preempt_for float faults alg cfg j reason now s
            else give_up float faults alg cfg j reason now s
      ])
  unfolding preempt_for
  place_end-Holds j now s (placed i n reason) p h = commit-Holds j i n reason now s h p
  place_end-Holds j now s (unplaced reason) p h =
      elim (Bool-cases (cfg.enable_preemption && should_preempt float faults alg cfg j now)) [
        | inl e ↦ rw e (preempt_end-Holds j reason now s _ refl p h)
        | inr e ↦ rw e (give_up-Holds j reason now s h)
      ]

  pub place_all-Holds :
      (now : Time) (js : List Job) (s : Pass)
      → All J js
      → Holds s
      → Holds (place_all float faults alg cfg now js s)
  unfolding place_all place_one
  place_all-Holds now [] s p h = h
  place_all-Holds now (j ∷ js) s p h =
      place_all-Holds now js _ p.1 (place_end-Holds j now s (alg.place j s.nodes) p.0 h)
