-- ===== src/Agent/Outcome.antt =====
-- An execution of internal/agent/executor.go together with UpdateJobStatus of internal/grpc/server.go.
use gpu_cluster_scheduler.Common.{
  ℕ, zero, suc, ◌+◌, ◌≤◌, ◌<◌, ◌⊎◌, inl, inr, Bool-cases, String, str_eq_iff, Bool, true, false,
  if◌then◌else◌, some, List, [], ◌∷◌, ◌≡◌, refl, subst, ◌∙◌, pos, str_eq_refl, arith,
}
use gpu_cluster_scheduler.Models.{
  Job, JobStatus, running, completed, failed, Time, Node, release, resource_request,
}
use gpu_cluster_scheduler.Store.Database.{Database, no_faults, find_where, job_key, node_key}
use gpu_cluster_scheduler.Store.Jobs
use gpu_cluster_scheduler.NodeServer.Handlers.{
  Assignment, parse_status, apply_transition, transition_found, update_job_status,
}
use gpu_cluster_scheduler.NodeServer.Transitions.{hit, Holding, Ended, update_job_status-Ends}
use gpu_cluster_scheduler.Store.Keys.{find_where-key}
use gpu_cluster_scheduler.Agent.{AgentConfig, is_running}
use gpu_cluster_scheduler.Agent.Claims.{is_running-finish}
use gpu_cluster_scheduler.Agent.Execution.{
  World, steps, report, end_report, execute, reports_of, after_execute, deliver,
}
use native.Mathlib.Decide.{ℕ_discrete}
use gpu_cluster_scheduler.Agent.Reporting.{Course, passed, over, stopped, execute-Course}

-- How an execution with this draw ends.
abbrev pub end_status : World → JobStatus
end_status w = if w.fails then failed else completed

-- A report that the job runs changes its row, and no node.
started :
    (now : Time) (id : String) (j : Job) (n : Node) (db : Database)
    → Holding id j n db
    → (let after = (update_job_status no_faults now id "running" db).1 in
        Holding id (Jobs.set_status running now j) n after × (after.nodes ≡ db.nodes))
unfolding update_job_status transition_found apply_transition parse_status Jobs.get
    Jobs.update_status Jobs.set_status
started now id j n db h =
    let key : j.job_id ≡ id =
      (str_eq_iff j.job_id id).0 (find_where-key job_key id db.jobs h.job) in
    rw h.job (
      record {
        job = hit job_key j.job_id id (Jobs.set_status running now) db.jobs (λ x. refl) key h.job;
        node = h.node;
        placed = h.placed;
      },
      refl,
    )

-- A course that is whole has waited for every step.
Course-waits :
    (w : World) (left step k : ℕ)
    → Course w left step k true
    → (i : ℕ) → step ≤ i
    → i < step + left
    → w.cancelled i ≡ false
Course-waits w zero step k course i p q = absurd (omega arith)
Course-waits w (suc left) step zero course i p q = elim course [ ]
Course-waits w (suc left) step (suc k) (passed e course) i p q = elim (ℕ_discrete step i) [
  | yes same ↦ subst (λ t. w.cancelled t ≡ false) same e
  | no other ↦ Course-waits w left (suc step) k course i (omega arith) (omega arith)
]

-- No wait of the execution is cut short.
abbrev pub IsUndisturbed : World → Type 0
IsUndisturbed w = (i : ℕ) → w.cancelled i ≡ false

Course-whole :
    (w : World) (left step k : ℕ) (ended : Bool)
    → IsUndisturbed w
    → Course w left step k ended
    → ended ≡ true
Course-whole w zero step k ended h over = refl
Course-whole w (suc left) step k ended h (stopped e) = cc (h step)
Course-whole w (suc left) step k ended h (passed e course) =
    Course-whole w left (suc step) _ ended h course

execute-whole :
    (c : AgentConfig) (w : World) (job : Assignment)
    → IsUndisturbed w
    → reports_of (execute c w job) ≡ report c job "running" "" (pos 0) ∷ end_report c w job ∷ []
execute-whole c w job h =
    let (k, ended, course, reported, logged, waited) = execute-Course c w job in
    let whole : ended ≡ true = Course-whole w steps 1 k ended h course in reported ∙ rw whole refl

-- An execution without cancellation, whose reports arrive and fail in no query, ends its job as the
-- draw says, with the times of the two reports as its stamps, and gives the node back what the job
-- asked for, capped at the capacity; where the rows of the job and of its node are there.
pub execute-Ends :
    (c : AgentConfig) (w : World) (job : Assignment) (j : Job) (n : Node) (now : ℕ → Time)
    (db : Database)
    → IsUndisturbed w
    → Holding job.job_id j n db
    → let after = deliver no_faults (λ i. false) now 0 (reports_of (execute c w job)) db in
      (find_where job_key job.job_id after.jobs
        ≡ some (Jobs.set_status (end_status w) (now 1) (Jobs.set_status running (now 0) j)))
      × (find_where node_key j.node_id after.nodes ≡ some (release n (resource_request j)))
unfolding deliver report end_report Ended parse_status resource_request
execute-Ends c w job j n now db calm h =
    let first = started (now 0) job.job_id j n db h in
    rw (execute-whole c w job calm) (elim (Bool-cases w.fails) [
      | inl e ↦
          let last =
            update_job_status-Ends (now 1) job.job_id "failed" failed
              (Jobs.set_status running (now 0) j) n _ (inr refl) refl first.0 in
          rw e (last.1, last.2)
      | inr e ↦
          let last =
            update_job_status-Ends (now 1) job.job_id "completed" completed
              (Jobs.set_status running (now 0) j) n _ (inl refl) refl first.0 in
          rw e (last.1, last.2)
    ])

-- The last report never arrives: it is lost, or the context ends in the wait of a step.
abbrev pub NeverEnds : World → (ℕ → Bool) → Type 0
NeverEnds w lost = (lost 1 ≡ true) ⊎ ((i : ℕ) × (1 ≤ i) × (i ≤ steps) × (w.cancelled i ≡ true))

NeverEnds-lost :
    (w : World) (lost : ℕ → Bool) (k : ℕ)
    → NeverEnds w lost
    → Course w steps 1 k true
    → lost 1 ≡ true
NeverEnds-lost w lost k (inl e) course = e
NeverEnds-lost w lost k (inr (i, p, q, e)) course =
    cc (Course-waits w steps 1 k course i p (omega arith))

forgotten :
    (job : Assignment) (local : List String)
    → is_running job.job_id (after_execute job local) ≡ false
unfolding after_execute
forgotten job local =
    ground (arith, is_running-finish job.job_id job.job_id local, str_eq_refl job.job_id)

-- An execution whose last report is lost, or that is cancelled in a step, leaves its job running and
-- every node as it was, so that its resources stay taken; and the agent has forgotten the job, since
-- it retries no report. The first report arrives, no query fails, and the rows of the job and its node
-- are there.
pub execute-strands :
    (c : AgentConfig) (w : World) (job : Assignment) (j : Job) (n : Node) (lost : ℕ → Bool)
    (now : ℕ → Time) (local : List String) (db : Database)
    → lost 0 ≡ false
    → NeverEnds w lost
    → Holding job.job_id j n db
    → let after = deliver no_faults lost now 0 (reports_of (execute c w job)) db in
      (find_where job_key job.job_id after.jobs ≡ some (Jobs.set_status running (now 0) j))
      × (after.nodes ≡ db.nodes)
      × (is_running job.job_id (after_execute job local) ≡ false)
unfolding deliver report
execute-strands c w job j n lost now local db arrives never h =
    let first = started (now 0) job.job_id j n db h in
    let (k, ended, course, reported, logged, waited) = execute-Course c w job in
    rw reported (elim (Bool-cases ended) [
      | inl e ↦
          let gone = NeverEnds-lost w lost k never (subst (λ b. Course w steps 1 k b) e course) in
          rw (e, arrives, gone) (first.0.job, first.1, forgotten job local)
      | inr e ↦ rw (e, arrives) (first.0.job, first.1, forgotten job local)
    ])
