-- ===== src/Engine/Frame/Tick.antt =====
-- The proof rule of the pass, for all of `Tick` of internal/scheduler/engine.go.
use gpu_cluster_scheduler.Common.{
  suc, leb_ℤ, String, str_eq, Bool-cases, inl, inr, List, [], ◌∷◌, All, select, ◌≡◌, sym, subst,
  arith,
}
use gpu_cluster_scheduler.Common.Sort.{All-sort_stable}
use gpu_cluster_scheduler.Models.{Job, JobStatus, Node, Time, queued, failed}
use gpu_cluster_scheduler.Preemption.{Running}
use gpu_cluster_scheduler.Strategies.Float.{Float64}
use gpu_cluster_scheduler.Strategies.{Algorithm}
use gpu_cluster_scheduler.Strategies.Laws.{IsLawful}
use gpu_cluster_scheduler.Store.Database.{Database, Result, ok, err, Faults, Store, ◌>>=◌}
use gpu_cluster_scheduler.Store.Jobs
use gpu_cluster_scheduler.Store.Nodes
use gpu_cluster_scheduler.Store.Post.{Post, PostOf, bind-Post, query-Post}
use gpu_cluster_scheduler.Engine.Pass.{SchedulerConfig, add_running}
use gpu_cluster_scheduler.Engine.Tick.{
  in_set, running_from, team_shares, rescue, rescue_all, rescue_from, active_statuses,
  reconcile_dead_nodes, place_queue, tick,
}
use gpu_cluster_scheduler.Engine.Frame.{IsFrame, add_running-J, place_all-Holds}

module _ (float : Float64) (faults : Faults) (alg : Algorithm float) (cfg : SchedulerConfig float)
    (D : Database → Type 0) (J : Job → Type 0) (frame : IsFrame faults D J) where
  abbrev Both : List Job → Database → Type 0
  Both js d = All J js × D d

  listed-Post :
      (ss : List JobStatus) (db : Database)
      → D db
      → All J (select (Jobs.matches (Jobs.status_filter ss)) db.jobs)
      → Post Both D (Jobs.list_by_statuses faults ss db)
  unfolding Jobs.list_by_statuses
  listed-Post ss db h l =
      query-Post Both D faults (Jobs.select_rows (Jobs.status_filter ss)) db (frame.asked db h) (
        All-sort_stable _ J (select (Jobs.matches (Jobs.status_filter ss)) db.jobs) l,
        frame.asked db h,
      )

  rescue-D :
      (now : Time) (dead : List String) (j : Job) (db : Database)
      → J j
      → D db
      → D (rescue float faults alg cfg now dead j db)
  unfolding rescue
  rescue-D now dead j db p h = elim (Bool-cases (in_set dead j.node_id)) [
    | inl e ↦ elim (Bool-cases (leb_ℤ j.max_retries j.retry_count)) [
      | inl f ↦ rw (e, f) (frame.update_status now j failed db p h)
      | inr f ↦ rw (e, f) (frame.requeue j queued db p h)
    ]
    | inr e ↦ rw e h
  ]

  rescue_all-D :
      (now : Time) (dead : List String) (js : List Job) (db : Database)
      → All J js
      → D db
      → D (rescue_all float faults alg cfg now dead js db)
  unfolding rescue_all
  rescue_all-D now dead [] db p h = h
  rescue_all-D now dead (j ∷ js) db p h =
      rescue_all-D now dead js (rescue float faults alg cfg now dead j db) p.1
        (rescue-D now dead j db p.0 h)

  rescue_end-D :
      (now : Time) (dead : List String) (r : Result (List Job)) (db : Database)
      → PostOf Both D r db
      → D (elim r [ err _ ↦ db | ok active ↦ rescue_all float faults alg cfg now dead active db ])
  rescue_end-D now dead (ok js) db h = rescue_all-D now dead js db h.0 h.1
  rescue_end-D now dead (err e) db h = h

  rescue_from-D :
      (now : Time) (dead : List String) (db : Database)
      → D db
      → D (rescue_from float faults alg cfg now dead db)
  unfolding rescue_from
  rescue_from-D now [] db h = h
  rescue_from-D now (d ∷ ds) db h =
      rescue_end-D now (d ∷ ds) _ _ (listed-Post active_statuses db h (frame.listed_active db h))

  reconcile_end-D :
      (now : Time) (r : Result (List String)) (db : Database)
      → D db
      → D (elim r [ err _ ↦ db | ok dead ↦ rescue_from float faults alg cfg now dead db ])
  reconcile_end-D now (ok dead) db h = rescue_from-D now dead db h
  reconcile_end-D now (err e) db h = h

  reconcile_dead_nodes-D :
      (now : Time) (db : Database) → D db → D (reconcile_dead_nodes float faults alg cfg now db)
  unfolding reconcile_dead_nodes
  reconcile_dead_nodes-D now db h =
      reconcile_end-D now _ _ (frame.mark_stale_down now cfg.heartbeat_ttl db h)

  running_from-J :
      (js : List Job) (r : Running)
      → All J js
      → ((k : String) → All J (r k))
      → (k : String) → All J (running_from r js k)
  unfolding running_from
  running_from-J [] r p h = h
  running_from-J (j ∷ js) r p h = elim (Bool-cases (str_eq j.node_id "")) [
    | inl e ↦ rw e (running_from-J js r p.1 h)
    | inr e ↦ rw e (
        running_from-J js (add_running r j.node_id j) p.1
          (add_running-J float faults alg cfg D J frame r j.node_id j p.0 h))
  ]

  team_shares-D :
      (nodes : List Node) (db : Database) → D db → D (team_shares float faults alg cfg nodes db).1
  unfolding team_shares
  team_shares-D nodes db h =
      let same : (team_shares float faults alg cfg nodes db).1
          ≡ record db { queries = suc db.queries } =
        ground arith in
      subst D (sym same) (frame.asked db h)

  module _ (lawful : IsLawful float alg) where
    place_queue-D :
        (now : Time) (nodes : List Node) (waiting active : List Job) (db : Database)
        → All J waiting
        → All J active
        → D db
        → D (place_queue float faults alg cfg now nodes waiting active db)
    unfolding place_queue
    place_queue-D now nodes [] active db p q h = h
    place_queue-D now nodes (j ∷ js) active db p q h =
        (place_all-Holds float faults alg cfg D J frame now _
          (record {
            nodes = nodes;
            running = running_from (λ _. []) active;
            db = (team_shares float faults alg cfg nodes db).1;
          })
          (lawful.keeps_all J frame.priority_free (j ∷ js) _ now p)
          (record {
            db = team_shares-D nodes db h;
            runs = running_from-J active (λ _. []) q (λ _. tt);
          })).db

    D_of_Post : (r : Result (Unit {0})) (d : Database) → PostOf (λ _. D) D r d → D d
    D_of_Post (ok x) d h = h
    D_of_Post (err e) d h = h

    abbrev after_active : Time → List Node → List Job → List Job → Store (Unit {0})
    after_active now nodes waiting active db =
        (ok tt, place_queue float faults alg cfg now nodes waiting active db)

    abbrev after_waiting : Time → List Node → List Job → Store (Unit {0})
    after_waiting now nodes waiting =
        Jobs.list_by_statuses faults active_statuses >>= after_active now nodes waiting

    abbrev after_nodes : Time → List Node → Store (Unit {0})
    after_nodes now nodes = Jobs.list_by_statuses faults (queued ∷ []) >>= after_waiting now nodes

    after_waiting-Post :
        (now : Time) (nodes : List Node) (waiting : List Job) (d : Database)
        → All J waiting
        → D d
        → Post (λ (_ : Unit {0}). D) D (after_waiting now nodes waiting d)
    after_waiting-Post now nodes waiting d p h =
        bind-Post {B = Unit {0}} Both (λ _. D) D (Jobs.list_by_statuses faults active_statuses)
          (after_active now nodes waiting) d
          (listed-Post active_statuses d h (frame.listed_active d h))
          (λ active e q. place_queue-D now nodes waiting active e p q.0 q.1)

    after_nodes-Post :
        (now : Time) (nodes : List Node) (d : Database)
        → D d
        → Post (λ (_ : Unit {0}). D) D (after_nodes now nodes d)
    after_nodes-Post now nodes d h =
        bind-Post {B = Unit {0}} Both (λ _. D) D (Jobs.list_by_statuses faults (queued ∷ []))
          (after_waiting now nodes) d (listed-Post (queued ∷ []) d h (frame.listed_queued d h))
          (λ waiting e q. after_waiting-Post now nodes waiting e q.0 q.1)

    nodes_list-D : (db : Database) → D db → Post (λ (_ : List Node). D) D (Nodes.list faults db)
    unfolding Nodes.list
    nodes_list-D db h =
        query-Post (λ (_ : List Node). D) D faults (λ d. (ok (Nodes.by_hostname d.nodes), d)) db
          (frame.asked db h) (frame.asked db h)

    pub tick-D : (now : Time) (db : Database) → D db → D (tick float faults alg cfg now db).1
    unfolding tick
    tick-D now db h =
        let started = reconcile_dead_nodes float faults alg cfg now db in
        D_of_Post (tick float faults alg cfg now db).0 (tick float faults alg cfg now db).1 (
          bind-Post {B = Unit {0}} (λ (_ : List Node). D) (λ _. D) D (Nodes.list faults)
            (after_nodes now) started (nodes_list-D started (reconcile_dead_nodes-D now db h))
            (λ nodes d. after_nodes-Post now nodes d))
