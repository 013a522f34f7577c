-- ===== src/Engine/Reconcile.antt =====
-- What `reconcileDeadNodes` of internal/scheduler/engine.go does to the jobs of a dead node, and to the node.
use gpu_cluster_scheduler.Common.{
  suc, ltb_ℤ, String, str_eq, Bool, Bool-cases, true, inl, inr, some, List, [], ◌∷◌, map, Any,
  Pairwise-select, select, ◌≡◌, refl, sym, subst, arith,
}
use gpu_cluster_scheduler.Common.Sort.Entries.{Any-sort_stable, sort_stable-Pairwise}
use gpu_cluster_scheduler.Models.{Job, is_active, status_eq, Time, Duration, Node, down}
use gpu_cluster_scheduler.Strategies.Float.{Float64}
use gpu_cluster_scheduler.Strategies.{Algorithm}
use gpu_cluster_scheduler.Store.Database.{Database, no_faults, find_where, job_key, node_key}
use gpu_cluster_scheduler.Store.Jobs
use gpu_cluster_scheduler.Store.Nodes
use gpu_cluster_scheduler.Store.Keys.{IsUnique}
use gpu_cluster_scheduler.Store.Keys.Copies.{Apart, Apart-sym, IsUnique-Pairwise}
use gpu_cluster_scheduler.Engine.Pass.{SchedulerConfig}
use gpu_cluster_scheduler.Engine.Rescue.{rescued, rescue_all-nodes, all_rescued}
use gpu_cluster_scheduler.Engine.Tick.{in_set, active_statuses, rescue_from, reconcile_dead_nodes}

pub found-Any :
    (id : String) (q : Job → Bool) (js : List Job) {row : Job}
    → find_where job_key id js ≡ some row
    → q row ≡ true
    → Any (λ j. j ≡ row) (select q js)
found-Any id q [] e t = absurd (ground arith)
found-Any id q (j ∷ js) {row} e t = elim (Bool-cases (str_eq j.job_id id)) [
  | inl c ↦
      let same : j ≡ row = ground arith in
      let kept : q j ≡ true = subst (λ x. q x ≡ true) (sym same) t in rw kept (inl same)
  | inr c ↦
      let rest = found-Any id q js {row = row} (ground arith) t in
      elim (Bool-cases (q j)) [ inl k ↦ rw k (inr rest) | inr k ↦ rw k rest ]
]

-- The nodes that a sweep takes down.
module _ (now : Time) (ttl : Duration) (id : String) where
  swept-in_set :
      (ns : List Node) {n : Node}
      → find_where node_key id ns ≡ some n
      → Nodes.is_stale now ttl n ≡ true
      → in_set (map node_key (select (Nodes.is_stale now ttl) ns)) id ≡ true
  unfolding in_set
  swept-in_set [] e t = absurd (ground arith)
  swept-in_set (m ∷ ns) {n} e t = elim (Bool-cases (str_eq m.node_id id)) [
    | inl c ↦
        let same : m ≡ n = ground arith in
        let kept : Nodes.is_stale now ttl m ≡ true =
          subst (λ x. Nodes.is_stale now ttl x ≡ true) (sym same) t in
        rw kept (ground arith)
    | inr c ↦
        let rest = swept-in_set ns {n = n} (ground arith) t in
        elim (Bool-cases (Nodes.is_stale now ttl m)) [
          | inl k ↦ rw k (ground arith)
          | inr k ↦ rw k rest
        ]
  ]

  take_down-found :
      (ns : List Node) {n : Node}
      → find_where node_key id ns ≡ some n
      → Nodes.is_stale now ttl n ≡ true
      → find_where node_key id (Nodes.take_down now ttl ns) ≡ some (record n { status = down })
  unfolding Nodes.take_down
  take_down-found [] e t = absurd (ground arith)
  take_down-found (m ∷ ns) {n} e t = elim (Bool-cases (str_eq m.node_id id)) [
    | inl c ↦
        let same : m ≡ n = ground arith in
        let kept : Nodes.is_stale now ttl m ≡ true =
          subst (λ x. Nodes.is_stale now ttl x ≡ true) (sym same) t in
        rw kept (
          rw c (
            subst (λ x. some (record m { status = down }) ≡ some (record x { status = down })) same
              refl))
    | inr c ↦
        let rest = take_down-found ns {n = n} (ground arith) t in
        elim (Bool-cases (Nodes.is_stale now ttl m)) [
          | inl k ↦ rw k (rw c rest)
          | inr k ↦ rw k (rw c rest)
        ]
  ]

abbrev newer : Job → Job → Bool
newer a b = ltb_ℤ b.created_at a.created_at

active_matches :
    (row : Job)
    → is_active row.status ≡ true
    → Jobs.matches (Jobs.status_filter active_statuses) row ≡ true
unfolding is_active status_eq Jobs.matches Jobs.status_in
active_matches row h = ground arith

module _ (float : Float64) (alg : Algorithm float) (cfg : SchedulerConfig float) where
  rescued_from :
      (now : Time) (dead : List String) (row : Job) (db : Database)
      → IsUnique (map job_key db.jobs)
      → in_set dead row.node_id ≡ true
      → is_active row.status ≡ true
      → find_where job_key row.job_id db.jobs ≡ some row
      → let after = rescue_from float no_faults alg cfg now dead db in
        (find_where job_key row.job_id after.jobs ≡ some (rescued now row))
        × (after.nodes ≡ db.nodes)
  unfolding rescue_from Jobs.list_by_statuses Jobs.list in_set
  rescued_from now [] row db unique d active found = cc
  rescued_from now (x ∷ dead) row db unique d active found =
      let q = Jobs.matches (Jobs.status_filter active_statuses) in
      let asked = record db { queries = suc db.queries } in
      let apart =
        sort_stable-Pairwise newer (Apart job_key) (Apart-sym job_key) _
          (Pairwise-select (Apart job_key) q db.jobs (IsUnique-Pairwise job_key db.jobs unique)) in
      let any =
        Any-sort_stable newer _ _
          (found-Any row.job_id q db.jobs found (active_matches row active)) in
      (
        all_rescued float alg cfg now (x ∷ dead) (Jobs.newest_first (select q db.jobs)) row asked d
            apart any found,
        rescue_all-nodes float alg cfg now (x ∷ dead) (Jobs.newest_first (select q db.jobs)) asked,
      )

  -- A sweep that finds the node of an active job stale takes the node down and rescues the job: it is
  -- failed if its retries are used up, and else queued again on no node with one retry more. The row
  -- of the node keeps what it had available, so that the resources of the job are not given back. No
  -- query fails, the job ids are unique, and the rows are there.
  pub reconcile_dead_nodes-rescued :
      (now : Time) (row : Job) (n : Node) (db : Database)
      → IsUnique (map job_key db.jobs)
      → find_where job_key row.job_id db.jobs ≡ some row
      → is_active row.status ≡ true
      → find_where node_key row.node_id db.nodes ≡ some n
      → Nodes.is_stale now cfg.heartbeat_ttl n ≡ true
      → let after = reconcile_dead_nodes float no_faults alg cfg now db in
        (find_where job_key row.job_id after.jobs ≡ some (rescued now row))
        × (find_where node_key row.node_id after.nodes ≡ some (record n { status = down }))
  unfolding reconcile_dead_nodes Nodes.mark_stale_down
  reconcile_dead_nodes-rescued now row n db unique found active node stale =
      let ttl = cfg.heartbeat_ttl in
      let swept = record db {
        nodes = Nodes.take_down now ttl db.nodes;
        queries = suc db.queries;
      } in
      let rest =
        rescued_from now (map node_key (select (Nodes.is_stale now ttl) db.nodes)) row swept unique
          (swept-in_set now ttl row.node_id db.nodes node stale) active found in
      (rest.0, rw rest.1 (take_down-found now ttl row.node_id db.nodes node stale))
