-- ===== src/Engine/Capacity.antt =====
-- One scheduling pass (`Tick` of internal/scheduler/engine.go) keeps the tables sound, whatever queries fail.
use gpu_cluster_scheduler.Common.{
  suc, String, str_eq, Bool-cases, inl, inr, List, [], ◌∷◌, All, ◌≡◌, refl, sym, subst, arith,
}
use gpu_cluster_scheduler.Common.Sort.{All-sort_stable}
use gpu_cluster_scheduler.Models.{Job, JobStatus, resource_request, Node, Time, queued}
use gpu_cluster_scheduler.Models.Capacity.{IsWithin}
use gpu_cluster_scheduler.Preemption.{Running}
use gpu_cluster_scheduler.Strategies.Float.{Float64}
use gpu_cluster_scheduler.Strategies.{Algorithm}
use gpu_cluster_scheduler.Strategies.Laws.{IsLawful}
use gpu_cluster_scheduler.Store.Database.{Database, Result, ok, err, Faults, Store, ◌>>=◌}
use gpu_cluster_scheduler.Store.Jobs
use gpu_cluster_scheduler.Store.Nodes
use gpu_cluster_scheduler.Store.Post.{Post, PostOf, bind-Post, query-Post}
use gpu_cluster_scheduler.Store.Soundness.{IsSound, IsNonnegJob, asked-IsSound}
use gpu_cluster_scheduler.Engine.Pass.{SchedulerConfig, add_running}
use gpu_cluster_scheduler.Engine.Tick.{
  running_from, team_shares, active_statuses, reconcile_dead_nodes, place_queue, tick,
}
use gpu_cluster_scheduler.Engine.Invariants.{add_running-nonneg}
use gpu_cluster_scheduler.Engine.Placing.{place_all-PassInv}
use gpu_cluster_scheduler.Engine.WriteBack.{Agrees}
use gpu_cluster_scheduler.Engine.Agreement.{IsUnique→Agrees}
use gpu_cluster_scheduler.Engine.Sweep.{Listed, list_by_statuses-Post, reconcile_dead_nodes-IsSound}

module _ (float : Float64) (faults : Faults) (alg : Algorithm float)
    (cfg : SchedulerConfig float) where
  -- Reading the shares of the teams costs a query, and changes no table.
  team_shares-tables :
      (nodes : List Node) (db : Database) (P : Database → Type 0)
      → P (record db { queries = suc db.queries })
      → P (team_shares float faults alg cfg nodes db).1
  unfolding team_shares
  team_shares-tables nodes db P h =
      let same : (team_shares float faults alg cfg nodes db).1
          ≡ record db { queries = suc db.queries } =
        ground arith in
      subst P (sym same) h

  running_from-nonneg :
      (js : List Job) (r : Running)
      → All IsNonnegJob js
      → ((k : String) → All IsNonnegJob (r k))
      → (k : String) → All IsNonnegJob (running_from r js k)
  unfolding running_from
  running_from-nonneg [] r p h = h
  running_from-nonneg (j ∷ js) r p h = elim (Bool-cases (str_eq j.node_id "")) [
    | inl e ↦ rw e (running_from-nonneg js r p.1 h)
    | inr e ↦ rw e (
        running_from-nonneg js (add_running r j.node_id j) p.1
          (add_running-nonneg r j.node_id j p.0 h))
  ]

  module _ (lawful : IsLawful float alg) where
    place_queue-IsSound :
        (now : Time) (nodes : List Node) (waiting active : List Job) (db : Database)
        → All IsWithin nodes
        → All (Agrees db.nodes) nodes
        → All IsNonnegJob waiting
        → All IsNonnegJob active
        → IsSound db
        → IsSound (place_queue float faults alg cfg now nodes waiting active db)
    unfolding place_queue
    place_queue-IsSound now nodes [] active db w a p q h = h
    place_queue-IsSound now nodes (j ∷ js) active db w a p q h =
        let (shares, db') = team_shares float faults alg cfg nodes db in
        (place_all-PassInv float faults alg cfg lawful now _
          (record { nodes = nodes; running = running_from (λ _. []) active; db = db' })
          (record {
            sound = team_shares-tables nodes db IsSound (asked-IsSound h);
            within = w;
            agree = team_shares-tables nodes db (λ d. All (Agrees d.nodes) nodes) a;
            runs = running_from-nonneg active (λ _. []) q (λ _. tt);
          })
          (lawful.keeps_all IsNonnegJob (λ j e p. unfold resource_request in p) (j ∷ js) _ now
            p)).sound

    abbrev Loaded : List Node → Database → Type 0
    Loaded nodes d = IsSound d × All IsWithin nodes × All (Agrees d.nodes) nodes

    nodes_list-Post : (db : Database) → IsSound db → Post Loaded IsSound (Nodes.list faults db)
    unfolding Nodes.list
    nodes_list-Post db h =
        query-Post Loaded IsSound faults (λ d. (ok (Nodes.by_hostname d.nodes), d)) db
          (asked-IsSound h)
          (
            asked-IsSound h,
            All-sort_stable _ IsWithin db.nodes h.within,
            All-sort_stable _ (Agrees db.nodes) db.nodes (IsUnique→Agrees db.nodes h.node_keys),
          )

    jobs_list-Post :
        (ss : List JobStatus) (rows : List Node) (db : Database)
        → IsSound db
        → db.nodes ≡ rows
        → Post (Listed IsNonnegJob IsSound rows) IsSound (Jobs.list_by_statuses faults ss db)
    jobs_list-Post ss rows db h same =
        subst
          (λ rs. Post (Listed IsNonnegJob IsSound rs) IsSound (Jobs.list_by_statuses faults ss db))
          same (list_by_statuses-Post faults IsNonnegJob IsSound ss db h.nonneg (asked-IsSound h))

    IsSound-of_Post :
        (r : Result (Unit {0})) (d : Database) → PostOf (λ _. IsSound) IsSound r d → IsSound d
    IsSound-of_Post (ok x) d h = h
    IsSound-of_Post (err e) d h = h

    -- The parts of the pass behind each listing.
    abbrev after_active : Time → List Node → List Job → List Job → Store (Unit {0})
    after_active now nodes waiting active db =
        (ok tt, place_queue float faults alg cfg now nodes waiting active db)

    abbrev after_waiting : Time → List Node → List Job → Store (Unit {0})
    after_waiting now nodes waiting =
        Jobs.list_by_statuses faults active_statuses >>= after_active now nodes waiting

    abbrev after_nodes : Time → List Node → Store (Unit {0})
    after_nodes now nodes = Jobs.list_by_statuses faults (queued ∷ []) >>= after_waiting now nodes

    after_waiting-Post :
        (now : Time) (nodes : List Node) (waiting : List Job) (d : Database)
        → Loaded nodes d
        → All IsNonnegJob waiting
        → Post (λ (_ : Unit {0}). IsSound) IsSound (after_waiting now nodes waiting d)
    after_waiting-Post now nodes waiting d h p =
        bind-Post {B = Unit {0}} (Listed IsNonnegJob IsSound d.nodes) (λ _. IsSound) IsSound
          (Jobs.list_by_statuses faults active_statuses) (after_active now nodes waiting) d
          (jobs_list-Post active_statuses d.nodes d h.0 refl)
          (λ active e q. place_queue-IsSound now nodes waiting active e h.1 (rw q.2 h.2) p q.0 q.1)

    after_nodes-Post :
        (now : Time) (nodes : List Node) (d : Database)
        → Loaded nodes d
        → Post (λ (_ : Unit {0}). IsSound) IsSound (after_nodes now nodes d)
    after_nodes-Post now nodes d h =
        bind-Post {B = Unit {0}} (Listed IsNonnegJob IsSound d.nodes) (λ _. IsSound) IsSound
          (Jobs.list_by_statuses faults (queued ∷ [])) (after_waiting now nodes) d
          (jobs_list-Post (queued ∷ []) d.nodes d h.0 refl)
          (λ waiting e q. after_waiting-Post now nodes waiting e (q.1, h.1, rw q.2 h.2) q.0)

    -- One full scheduling pass, from the dead nodes to the last queued job and with preemption, keeps
    -- the tables sound (unique keys, every free part between nothing and its capacity, no negative
    -- request), whatever queries fail and whether or not the pass ends in an error, for every policy
    -- that obeys the laws of one.
    pub tick-IsSound :
        (now : Time) (db : Database) → IsSound db → IsSound (tick float faults alg cfg now db).1
    unfolding tick
    tick-IsSound now db h =
        let started = reconcile_dead_nodes float faults alg cfg now db in
        IsSound-of_Post (tick float faults alg cfg now db).0 (tick float faults alg cfg now db).1 (
          bind-Post {B = Unit {0}} Loaded (λ _. IsSound) IsSound (Nodes.list faults)
            (after_nodes now) started
            (nodes_list-Post started (reconcile_dead_nodes-IsSound float faults alg cfg now db h))
            (λ nodes d. after_nodes-Post now nodes d))
