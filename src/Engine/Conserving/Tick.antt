-- ===== src/Engine/Conserving/Tick.antt =====
-- The pass of internal/scheduler/engine.go, from the sweep to the last queued job, without preemption.
use gpu_cluster_scheduler.Common.{
  suc, String, false, ◌⊎◌, inl, inr, List, [], ◌∷◌, map, All, All-select, Any, select, ◌≡◌, refl,
  sym, subst, ap, ◌∙◌,
}
use gpu_cluster_scheduler.Common.Sort.{All-sort_stable}
use gpu_cluster_scheduler.Common.Sort.Entries.{sort_stable-All}
use gpu_cluster_scheduler.Models.{Job, queued, resource_request, Time, Node}
use gpu_cluster_scheduler.Models.Capacity.{IsNonneg}
use gpu_cluster_scheduler.Strategies.Float.{Float64}
use gpu_cluster_scheduler.Strategies.{Algorithm, OrderContext}
use gpu_cluster_scheduler.Strategies.Laws.{IsLawful}
use gpu_cluster_scheduler.Store.Database.{Database, no_faults, find_where, job_key, node_key}
use gpu_cluster_scheduler.Store.Jobs
use gpu_cluster_scheduler.Store.Nodes
use gpu_cluster_scheduler.Store.Keys.{IsUnique, All-find_where}
use gpu_cluster_scheduler.Store.Keys.Copies.{
  find_where-Any, find_where-sort_stable, sort_stable-IsUnique,
}
use gpu_cluster_scheduler.Store.Soundness.{IsSound}
use gpu_cluster_scheduler.Engine.Pass.{SchedulerConfig, Pass, place_all}
use gpu_cluster_scheduler.Engine.Tick.{
  active_statuses, running_from, team_shares, place_queue, tick,
}
use gpu_cluster_scheduler.Engine.Invariants.{All-map}
use gpu_cluster_scheduler.Engine.Placed.{IsFresh, quiet_sweep, team_shares-tables}
use gpu_cluster_scheduler.Engine.Conserving.{IsMirror, IsFull, IsScheduled, IsListed}
use gpu_cluster_scheduler.Engine.Conserving.Rounds.{Waits, Answered, place_all-Passed}

-- The job is scheduled, or no row of a node has room for it.
abbrev pub IsServed : Database → Job → Type 0
IsServed after j = IsScheduled j.job_id after.jobs ⊎ All (IsFull (resource_request j)) after.nodes

module _ {A : Type 0} (P : A → Type 0) where
  All-each : (xs : List A) → ((x : A) → Any (λ y. y ≡ x) xs → P x) → All P xs
  All-each [] h = tt
  All-each (x ∷ xs) h = (h x (inl refl), All-each xs (λ y any. h y (inr any)))

All-both :
    {A : Type 0} (P Q : A → Type 0) (xs : List A) → All P xs → All Q xs → All (λ x. P x × Q x) xs
All-both P Q [] h k = tt
All-both P Q (x ∷ xs) h k = ((h.0, k.0), All-both P Q xs h.1 k.1)

all-IsListed : (js : List Job) → IsUnique (map job_key js) → All (λ j. IsListed j.job_id js) js
all-IsListed js unique =
    All-each (λ j. IsListed j.job_id js) js (λ j any. (j, find_where-Any job_key j js unique any))

-- What holds of every copy holds of every row.
mirror-All : (P : Node → Type 0) (s : Pass) → IsMirror s → All P s.nodes → All P s.db.nodes
mirror-All P s mirror h = All-each P s.db.nodes (λ r any.
    All-find_where node_key P r.node_id s.nodes h
      (mirror.same r.node_id ∙ find_where-Any node_key r s.db.nodes mirror.rows any))

module _ (float : Float64) (alg : Algorithm float) (cfg : SchedulerConfig float)
    (lawful : IsLawful float alg) (off : cfg.enable_preemption ≡ false) where
  queue-IsServed :
      (now : Time) (nodes : List Node) (jobs active : List Job) (db : Database)
      → IsUnique (map node_key nodes)
      → IsUnique (map node_key db.nodes)
      → ((id : String) → find_where node_key id nodes ≡ find_where node_key id db.nodes)
      → All (λ j. IsNonneg (resource_request j)) jobs
      → All (λ j. IsListed j.job_id db.jobs) jobs
      → All (IsServed (place_queue float no_faults alg cfg now nodes jobs active db)) jobs
  unfolding place_queue resource_request
  queue-IsServed now nodes [] active db copies rows same nonneg listed = tt
  queue-IsServed now nodes (j ∷ js) active db copies rows same nonneg listed =
      let tables = team_shares-tables float alg cfg nodes db in
      let ctx : OrderContext float = record {
        team_usage = (team_shares float no_faults alg cfg nodes db).0;
        aging_factor = cfg.aging_factor;
      } in
      let s : Pass = record {
        nodes = nodes;
        running = running_from (λ x. []) active;
        db = (team_shares float no_faults alg cfg nodes db).1;
      } in
      let waiting : All (λ k. Waits float alg cfg k s) (j ∷ js) =
        All-both (λ k. IsNonneg (resource_request k)) (λ k. IsListed k.job_id s.db.jobs) (j ∷ js)
          nonneg
          (All-map (λ k. IsListed k.job_id db.jobs) (λ k. IsListed k.job_id s.db.jobs) (j ∷ js)
            (λ k h. subst (IsListed k.job_id) (sym tables.0) h) listed) in
      let passed =
        place_all-Passed float alg cfg lawful off now (alg.order (j ∷ js) ctx now) s
          (record {
            copies = copies;
            rows = subst (λ ns. IsUnique (map node_key ns)) (sym tables.1) rows;
            same = λ id. same id ∙ ap (find_where node_key id) (sym tables.1);
          })
          (lawful.keeps_all (λ k. Waits float alg cfg k s) (λ k e h. h) (j ∷ js) ctx now waiting) in
      let t = place_all float no_faults alg cfg now (alg.order (j ∷ js) ctx now) s in
      All-map (λ k. Answered float alg cfg k t) (IsServed t.db) (j ∷ js)
        (λ k answer. elim answer [
          | inl given ↦ inl given
          | inr full ↦ inr (mirror-All (IsFull (resource_request k)) t passed.mirror full)
        ])
        (lawful.leaves_none (λ k. Answered float alg cfg k t) (λ k e h. h) (j ∷ js) ctx now
          passed.all_answered)

  -- A pass without preemption leaves no job waiting that some node has room for: of every job that was
  -- queued, the row is scheduled after the pass, or no row of a node in the tables after the pass has
  -- room for it. No query fails, the tables are sound, no node is stale, and the policy is lawful.
  pub tick-IsServed :
      (now : Time) (db : Database)
      → IsSound db
      → All (IsFresh now cfg.heartbeat_ttl) db.nodes
      → All
          (IsServed (tick float no_faults alg cfg now db).1)
          (select (Jobs.matches (Jobs.status_filter (queued ∷ []))) db.jobs)
  unfolding tick Nodes.list Jobs.list_by_statuses Jobs.list
  tick-IsServed now db sound fresh =
      let q = Jobs.matches (Jobs.status_filter (queued ∷ [])) in
      rw (quiet_sweep float alg cfg now db fresh) (
        sort_stable-All _ _ (select q db.jobs) (
          queue-IsServed now (Nodes.by_hostname db.nodes) (Jobs.newest_first (select q db.jobs))
            (Jobs.newest_first (select (Jobs.matches (Jobs.status_filter active_statuses)) db.jobs))
            (record db { queries = suc (suc (suc (suc db.queries))) })
            (sort_stable-IsUnique node_key _ db.nodes sound.node_keys) sound.node_keys
            (λ id. find_where-sort_stable node_key _ id db.nodes sound.node_keys)
            (All-sort_stable _ _ _
              (All-select (λ j. IsNonneg (resource_request j)) q db.jobs sound.nonneg))
            (All-sort_stable _ _ _ (
              All-select (λ j. IsListed j.job_id db.jobs) q db.jobs
                (all-IsListed db.jobs sound.job_keys)))))
