-- ===== src/System/Lifecycle.antt =====
-- A job from the queue to its end: a pass of internal/scheduler/engine.go, a poll and the reports of the agent on its
-- node (internal/agent), answered by internal/grpc/server.go.
use gpu_cluster_scheduler.Common.{
  ℕ, suc, String, str_eq, str_eq_refl, Bool, not, true, false, ◌&&◌, some, List, [], ◌∷◌, map,
  select, All, All-at, Any, ◌≡◌, refl, sym, ap, subst, ◌∙◌, inl, inr, Bool-cases,
}
use gpu_cluster_scheduler.Common.Sort.Entries.{Any-sort_stable}
use gpu_cluster_scheduler.Models.{
  Job, queued, scheduled, running, status_eq, resource_request, Time, Node, fits, reserve,
}
use gpu_cluster_scheduler.Models.Capacity.{IsWithin, release-reserve}
use gpu_cluster_scheduler.Strategies.Float.{Float64}
use gpu_cluster_scheduler.Strategies.{Algorithm}
use gpu_cluster_scheduler.Strategies.Laws.{IsLawful}
use gpu_cluster_scheduler.Store.Database.{Database, no_faults, find_where, job_key, node_key}
use gpu_cluster_scheduler.Store.Jobs
use gpu_cluster_scheduler.Store.Keys.Copies.{find_where-Any}
use gpu_cluster_scheduler.Store.Soundness.{IsSound}
use gpu_cluster_scheduler.Engine.Pass.{SchedulerConfig}
use gpu_cluster_scheduler.Engine.Tick.{tick}
use gpu_cluster_scheduler.Engine.Reconcile.{found-Any}
use gpu_cluster_scheduler.Engine.Placed.{IsFresh, IsPlacedOn, tick-IsPlacedOn}
use gpu_cluster_scheduler.NodeServer.Handlers.{Assignment, answer, assignment, get_assignments}
use gpu_cluster_scheduler.NodeServer.Transitions.{hit, Holding}
use gpu_cluster_scheduler.Agent.{AgentConfig}
use gpu_cluster_scheduler.Agent.Execution.{World, execute, reports_of, deliver}
use gpu_cluster_scheduler.Agent.Outcome.{end_status, IsUndisturbed, execute-Ends}

Any-select : (P : Job → Type 0) (q : Job → Bool) (js : List Job) → Any P (select q js) → Any P js
Any-select P q [] any = any
Any-select P q (j ∷ js) any = elim (Bool-cases (q j)) [
  | inl e ↦
      let here : Any P (j ∷ select q js) = rw e at any in
      elim here [ inl p ↦ inl p | inr later ↦ inr (Any-select P q js later) ]
  | inr e ↦ inr (Any-select P q js (rw e at any))
]

Any-map :
    (x : Job) (js : List Job)
    → Any (λ j. j ≡ x) js
    → Any (λ a. a ≡ assignment x) (map assignment js)
Any-map x [] any = any
Any-map x (j ∷ js) (inl same) = inl (ap assignment same)
Any-map x (j ∷ js) (inr any) = inr (Any-map x js any)

-- The answer of a poll holds the jobs that are scheduled on the node.
polled :
    (node_id : String) (job : Job) (db : Database)
    → find_where job_key job.job_id db.jobs ≡ some job
    → (not (str_eq node_id "") && str_eq job.node_id node_id && status_eq job.status scheduled)
      ≡ true
    → (assigned : List Assignment) × ((get_assignments no_faults node_id db).0 ≡ answer assigned)
      × Any (λ a. a ≡ assignment job) assigned
      × ((get_assignments no_faults node_id db).1 ≡ record db { queries = suc db.queries })
unfolding get_assignments Jobs.list_scheduled_for_node
polled node_id job db found on_node = (
  _,
  refl,
  Any-map job _ (Any-sort_stable _ _ _ (found-Any job.job_id _ db.jobs found on_node)),
  refl,
)

-- A placed job is found on its node, which has the request reserved.
placed-Holding :
    (job : Job) (m : Node) (before after : Database)
    → IsSound before
    → All (λ k. str_eq k.node_id "" ≡ false) before.nodes
    → Any (λ k. k ≡ job) before.jobs
    → IsPlacedOn job m before after
    → Holding job.job_id (Jobs.set_scheduled m.node_id job) (reserve m (resource_request job)) after
unfolding Jobs.set_scheduled
placed-Holding job m before after sound named queued_there on = record {
  job =
      subst (λ js. find_where job_key job.job_id js ≡ some (Jobs.set_scheduled m.node_id job))
        (sym on.jobs)
        (hit job_key job.job_id job.job_id (Jobs.set_scheduled m.node_id) before.jobs (λ x. refl)
          refl (find_where-Any job_key job before.jobs sound.job_keys queued_there));
  node = on.node;
  placed = All-at (λ k. str_eq k.node_id "" ≡ false) m before.nodes named on.there;
}

-- The node is among those of the table, a poll of it on the placed rows hands out the job, and when the execution of
-- the agent has reported, the job has its end, with the two stamps, and the node is as it was.
pub record HasRun (c : AgentConfig) (w : World) (times : ℕ → Time) (job : Job) (m : Node)
    (before after : Database) : Type 0 where
  pub there : Any (λ k. k ≡ m) before.nodes
  pub assigned : List Assignment
  pub answered : (get_assignments no_faults m.node_id after).0 ≡ answer assigned
  pub listed : Any (λ a. a ≡ assignment (Jobs.set_scheduled m.node_id job)) assigned
  pub ended :
      let given = Jobs.set_scheduled m.node_id job in
      let last =
        deliver no_faults
          (λ i. false)
          times
          0
          (reports_of (execute c w (assignment given)))
          (get_assignments no_faults m.node_id after).1 in
      (find_where job_key job.job_id last.jobs
        ≡ some (Jobs.set_status (end_status w) (times 1) (Jobs.set_status running (times 0) given)))
      × (find_where node_key m.node_id last.nodes ≡ some m)

module _ (float : Float64) (alg : Algorithm float) (cfg : SchedulerConfig float)
    (lawful : IsLawful float alg) where
  -- A pass, a poll and the reports of an execution take the only queued job to its end. Where some
  -- node of the table has room for it, there is a node of the table for which, after the pass, a poll
  -- is answered with a list that holds the job; and after the execution on the polled tables the job
  -- is completed or failed, as the draw says, with the times of the two reports as its stamps, and
  -- that node has the row that it had before the pass. No query fails, no report is lost and no wait
  -- is cut short, the tables are sound, no node id is empty, no node is stale, and the policy is
  -- lawful.
  pub tick-execute-Ends :
      (now : Time) (times : ℕ → Time) (c : AgentConfig) (w : World) (job : Job) (n : Node)
      (db : Database)
      → IsSound db
      → All (λ k. str_eq k.node_id "" ≡ false) db.nodes
      → All (IsFresh now cfg.heartbeat_ttl) db.nodes
      → select (Jobs.matches (Jobs.status_filter (queued ∷ []))) db.jobs ≡ job ∷ []
      → Any (λ k. k ≡ n) db.nodes
      → fits n (resource_request job) ≡ true
      → IsUndisturbed w
      → (m : Node) × HasRun c w times job m db (tick float no_faults alg cfg now db).1
  unfolding assignment Jobs.set_scheduled status_eq resource_request
  tick-execute-Ends now times c w job n db sound named fresh waiting there room calm =
      let (m, on) =
        tick-IsPlacedOn float alg cfg lawful now job n db sound.node_keys fresh waiting there
          room in
      let asked : Any (λ k. k ≡ job) db.jobs =
        Any-select (λ k. k ≡ job) _ db.jobs (subst (Any (λ k. k ≡ job)) (sym waiting) (inl refl)) in
      let held = placed-Holding job m db _ sound named asked on in
      let (assigned, answered, listed, same) =
        polled m.node_id (Jobs.set_scheduled m.node_id job) _ held.job (
          rw
            (
              str_eq_refl m.node_id,
              All-at (λ k. str_eq k.node_id "" ≡ false) m db.nodes named on.there,
            )
            refl) in
      let ended =
        execute-Ends c w (assignment (Jobs.set_scheduled m.node_id job))
          (Jobs.set_scheduled m.node_id job) (reserve m (resource_request job)) times _ calm
          (subst
            (Holding job.job_id (Jobs.set_scheduled m.node_id job)
              (reserve m (resource_request job)))
            (sym same) (record { job = held.job; node = held.node; placed = held.placed })) in
      let back =
        release-reserve m (resource_request job)
          (All-at IsWithin m db.nodes sound.within on.there) in
      (
        m,
        record {
          there = on.there;
          assigned = assigned;
          answered = answered;
          listed = listed;
          ended = (ended.0, ended.1 ∙ ap some back);
        },
      )
