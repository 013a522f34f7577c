-- ===== src/Engine/Placed.antt =====
-- A pass of internal/scheduler/engine.go places the queued job that has room somewhere.
use gpu_cluster_scheduler.Common.{
  suc, true, false, some, List, [], ◌∷◌, map, All, All-at, Any, select, ◌≡◌, refl, sym, subst, ap,
  ◌∙◌, arith,
}
use gpu_cluster_scheduler.Common.Sort.Entries.{sort_stable-Any, Any-sort_stable}
use gpu_cluster_scheduler.Models.{
  Job, queued, resource_request, Time, Duration, Node, fits, reserve,
}
use gpu_cluster_scheduler.Placement.{Placement, placed, unplaced}
use gpu_cluster_scheduler.Strategies.Float.{Float64}
use gpu_cluster_scheduler.Strategies.{Algorithm, OrderContext}
use gpu_cluster_scheduler.Strategies.Laws.{PlaceSpec, IsLawful}
use gpu_cluster_scheduler.Store.Database.{
  Database, no_faults, find_where, update_where, job_key, node_key,
}
use gpu_cluster_scheduler.Store.Jobs
use gpu_cluster_scheduler.Store.Nodes
use gpu_cluster_scheduler.Store.Keys.{IsUnique}
use gpu_cluster_scheduler.Store.Keys.Copies.{find_where-Any, get_elem?-Any}
use gpu_cluster_scheduler.Engine.Pass.{SchedulerConfig, Pass, place_one, place_all}
use gpu_cluster_scheduler.Engine.Tick.{
  active_statuses, reconcile_dead_nodes, rescue_from, running_from, team_shares, place_queue, tick,
}
use gpu_cluster_scheduler.Engine.Races.{committed}

-- No node is stale, so that a sweep changes nothing.
module _ (now : Time) (ttl : Duration) where
  abbrev pub IsFresh : Node → Type 0
  IsFresh n = Nodes.is_stale now ttl n ≡ false

  none_stale : (ns : List Node) → All IsFresh ns → select (Nodes.is_stale now ttl) ns ≡ []
  none_stale [] h = refl
  none_stale (n ∷ ns) h = rw h.0 (none_stale ns h.1)

  none_taken : (ns : List Node) → All IsFresh ns → Nodes.take_down now ttl ns ≡ ns
  unfolding Nodes.take_down
  none_taken [] h = refl
  none_taken (n ∷ ns) h = rw h.0 (ap (λ ms. n ∷ ms) (none_taken ns h.1))

-- The job got a node with room for it, and the tables say so.
pub record IsPlacedOn (job : Job) (m : Node) (before after : Database) : Type 0 where
  pub there : Any (λ k. k ≡ m) before.nodes
  pub room : fits m (resource_request job) ≡ true
  pub jobs : after.jobs ≡ update_where job_key job.job_id (Jobs.set_scheduled m.node_id) before.jobs
  pub node : find_where node_key m.node_id after.nodes ≡ some (reserve m (resource_request job))

module _ (float : Float64) (alg : Algorithm float) (cfg : SchedulerConfig float) where
  -- The copies of a pass are the rows.
  abbrev IsCurrent : Pass → Type 0
  IsCurrent s =
      (m : Node) → Any (λ k. k ≡ m) s.nodes → find_where node_key m.node_id s.db.nodes ≡ some m

  -- The copies of a pass are among the rows of a database.
  abbrev IsFrom : Pass → Database → Type 0
  IsFrom s before = (m : Node) → Any (λ k. k ≡ m) s.nodes → Any (λ k. k ≡ m) before.nodes

  placed-on :
      (job : Job) (now : Time) (s : Pass) (before : Database) (p : Placement) (n : Node)
      → IsCurrent s
      → IsFrom s before
      → s.db.jobs ≡ before.jobs
      → PlaceSpec job s.nodes p
      → alg.place job s.nodes ≡ p
      → Any (λ k. k ≡ n) s.nodes
      → fits n (resource_request job) ≡ true
      → (m : Node) × IsPlacedOn job m before (place_one float no_faults alg cfg now job s).db
  unfolding place_one Nodes.set_available reserve
  placed-on job now s before (unplaced reason) n current from same spec e there room =
      let full = All-at (λ m. fits m (resource_request job) ≡ false) n s.nodes spec there in
      absurd (ground arith)
  placed-on job now s before (placed i m reason) n current from same spec e there room =
      let listed = get_elem?-Any s.nodes i m spec.0 in
      let wrote = committed float alg cfg job i m m reason now s (current m listed) in
      (
        m,
        record {
          there = from m listed;
          room = spec.1;
          jobs =
              rw (e, place_one)
                (wrote.1
                  ∙ ap (update_where job_key job.job_id (Jobs.set_scheduled m.node_id)) same);
          node = rw (e, place_one) wrote.0;
        },
      )

  pub quiet_sweep :
      (now : Time) (db : Database)
      → All (IsFresh now cfg.heartbeat_ttl) db.nodes
      → reconcile_dead_nodes float no_faults alg cfg now db ≡ record db { queries = suc db.queries }
  unfolding reconcile_dead_nodes rescue_from Nodes.mark_stale_down
  quiet_sweep now db fresh =
      rw
        (
          none_stale now cfg.heartbeat_ttl db.nodes fresh,
          none_taken now cfg.heartbeat_ttl db.nodes fresh,
        )
        refl

  pub team_shares-tables :
      (nodes : List Node) (db : Database)
      → ((team_shares float no_faults alg cfg nodes db).1.jobs ≡ db.jobs)
        × ((team_shares float no_faults alg cfg nodes db).1.nodes ≡ db.nodes)
  unfolding team_shares Jobs.team_gpu_usage
  team_shares-tables nodes db = (ground arith, ground arith)

  module _ (lawful : IsLawful float alg) where
    queue-placed :
        (job : Job) (now : Time) (nodes : List Node) (active : List Job) (db before : Database)
        (n : Node)
        → ((m : Node) → Any (λ k. k ≡ m) nodes → find_where node_key m.node_id db.nodes ≡ some m)
        → ((m : Node) → Any (λ k. k ≡ m) nodes → Any (λ k. k ≡ m) before.nodes)
        → db.jobs ≡ before.jobs
        → Any (λ k. k ≡ n) nodes
        → fits n (resource_request job) ≡ true
        → (m : Node) × IsPlacedOn job m before
            (place_queue float no_faults alg cfg now nodes (job ∷ []) active db)
    unfolding place_queue place_all resource_request
    queue-placed job now nodes active db before n current from same there room =
        let tables = team_shares-tables nodes db in
        let ctx : OrderContext float = record {
          team_usage = (team_shares float no_faults alg cfg nodes db).0;
          aging_factor = cfg.aging_factor;
        } in
        let (e, one) = lawful.keeps_one job ctx now in
        let s : Pass = record {
          nodes = nodes;
          running = running_from (λ x. []) active;
          db = (team_shares float no_faults alg cfg nodes db).1;
        } in
        let stamped : Job = record job { effective_priority = e } in
        let (m, on) =
          placed-on stamped now s before (alg.place stamped nodes) n
            (λ m h. rw tables.1 (current m h)) from (tables.0 ∙ same)
            (lawful.place_lem stamped nodes) refl there room in
        (
          m,
          subst (λ js. IsPlacedOn job m before (place_all float no_faults alg cfg now js s).db)
              (sym one)
              (record { there = on.there; room = on.room; jobs = on.jobs; node = on.node }),
        )

    -- A pass places the only queued job on some node of the table that has room for it, if there is
    -- such a node: the row of the job is then scheduled there, no other row of a job changes, and the
    -- row of the node has the request reserved. No query fails, no node is stale, the node ids are
    -- unique, and the policy is lawful.
    pub tick-IsPlacedOn :
        (now : Time) (job : Job) (n : Node) (db : Database)
        → IsUnique (map node_key db.nodes)
        → All (IsFresh now cfg.heartbeat_ttl) db.nodes
        → select (Jobs.matches (Jobs.status_filter (queued ∷ []))) db.jobs ≡ job ∷ []
        → Any (λ k. k ≡ n) db.nodes
        → fits n (resource_request job) ≡ true
        → (m : Node) × IsPlacedOn job m db (tick float no_faults alg cfg now db).1
    unfolding tick Nodes.list Jobs.list_by_statuses Jobs.list
    tick-IsPlacedOn now job n db unique fresh waiting there room =
        rw (quiet_sweep now db fresh, waiting)
          (queue-placed job now (Nodes.by_hostname db.nodes)
            (Jobs.newest_first (select (Jobs.matches (Jobs.status_filter active_statuses)) db.jobs))
            (record db { queries = suc (suc (suc (suc db.queries))) }) db n
            (λ m h. find_where-Any node_key m db.nodes unique (sort_stable-Any _ _ db.nodes h))
            (λ m h. sort_stable-Any _ _ db.nodes h) refl (Any-sort_stable _ _ db.nodes there) room)
