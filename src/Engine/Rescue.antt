-- ===== src/Engine/Rescue.antt =====
-- The loop of `reconcileDeadNodes` of internal/scheduler/engine.go over the jobs on dead nodes.
use gpu_cluster_scheduler.Common.{
  leb_ℤ, String, str_eq, Bool-cases, true, false, if◌then◌else◌, inl, inr, some, List, [], ◌∷◌, All,
  All-at, Any, Pairwise, ◌≡◌, refl, sym, subst, ◌∙◌, arith,
}
use gpu_cluster_scheduler.Models.{Job, Time, queued, failed}
use gpu_cluster_scheduler.Strategies.Float.{Float64}
use gpu_cluster_scheduler.Strategies.{Algorithm}
use gpu_cluster_scheduler.Store.Database.{Database, no_faults, find_where, job_key}
use gpu_cluster_scheduler.Store.Jobs
use gpu_cluster_scheduler.Store.Keys.{find_where-update_where}
use gpu_cluster_scheduler.NodeServer.Transitions.{hit}
use gpu_cluster_scheduler.Store.Keys.Copies.{Apart, Apart-sym}
use gpu_cluster_scheduler.Engine.Pass.{SchedulerConfig}
use gpu_cluster_scheduler.Engine.Tick.{in_set, rescue, rescue_all}

-- A job whose node has died: failed if its retries are used up, and else back in the queue.
unfoldable pub rescued : Time → Job → Job
rescued now j =
    if leb_ℤ j.max_retries j.retry_count
    then Jobs.set_status failed now j
    else Jobs.set_requeued queued j

module _ (float : Float64) (alg : Algorithm float) (cfg : SchedulerConfig float) where
  -- A round for another job leaves the row alone.
  rescue-other :
      (now : Time) (dead : List String) (job : Job) (id : String) (db : Database)
      → str_eq job.job_id id ≡ false
      → find_where job_key id (rescue float no_faults alg cfg now dead job db).jobs
        ≡ find_where job_key id db.jobs
  unfolding rescue Jobs.update_status Jobs.requeue Jobs.set_status Jobs.set_requeued
  rescue-other now dead job id db other = elim (Bool-cases (in_set dead job.node_id)) [
    | inr e ↦ rw e refl
    | inl e ↦ elim (Bool-cases (leb_ℤ job.max_retries job.retry_count)) [
      | inl f ↦
          rw (e, f)
            (find_where-update_where job_key job.job_id id (Jobs.set_status failed now) db.jobs
                (λ x. refl)
              ∙ rw other refl)
      | inr f ↦
          rw (e, f)
            (find_where-update_where job_key job.job_id id (Jobs.set_requeued queued) db.jobs
                (λ x. refl)
              ∙ rw other refl)
    ]
  ]

  rescue-own :
      (now : Time) (dead : List String) (job : Job) (db : Database)
      → in_set dead job.node_id ≡ true
      → find_where job_key job.job_id db.jobs ≡ some job
      → find_where job_key job.job_id (rescue float no_faults alg cfg now dead job db).jobs
        ≡ some (rescued now job)
  unfolding rescue rescued Jobs.update_status Jobs.requeue Jobs.set_status Jobs.set_requeued
  rescue-own now dead job db e found = elim (Bool-cases (leb_ℤ job.max_retries job.retry_count)) [
    | inl f ↦
        rw (e, f)
          (hit job_key job.job_id job.job_id (Jobs.set_status failed now) db.jobs (λ x. refl) refl
            found)
    | inr f ↦
        rw (e, f)
          (hit job_key job.job_id job.job_id (Jobs.set_requeued queued) db.jobs (λ x. refl) refl
            found)
  ]

  rescue-nodes :
      (now : Time) (dead : List String) (job : Job) (db : Database)
      → (rescue float no_faults alg cfg now dead job db).nodes ≡ db.nodes
  unfolding rescue Jobs.update_status Jobs.requeue
  rescue-nodes now dead job db = ground arith

  pub rescue_all-nodes :
      (now : Time) (dead : List String) (js : List Job) (db : Database)
      → (rescue_all float no_faults alg cfg now dead js db).nodes ≡ db.nodes
  unfolding rescue_all
  rescue_all-nodes now dead [] db = refl
  rescue_all-nodes now dead (j ∷ js) db =
      rescue_all-nodes now dead js (rescue float no_faults alg cfg now dead j db)
      ∙ rescue-nodes now dead j db

  others_rescued :
      (now : Time) (dead : List String) (js : List Job) (id : String) (db : Database)
      → All (λ j. str_eq j.job_id id ≡ false) js
      → find_where job_key id (rescue_all float no_faults alg cfg now dead js db).jobs
        ≡ find_where job_key id db.jobs
  unfolding rescue_all
  others_rescued now dead [] id db h = refl
  others_rescued now dead (j ∷ js) id db h =
      others_rescued now dead js id (rescue float no_faults alg cfg now dead j db) h.1
      ∙ rescue-other now dead j id db h.0

  pub all_rescued :
      (now : Time) (dead : List String) (js : List Job) (row : Job) (db : Database)
      → in_set dead row.node_id ≡ true
      → Pairwise (Apart job_key) js
      → Any (λ j. j ≡ row) js
      → find_where job_key row.job_id db.jobs ≡ some row
      → find_where job_key row.job_id (rescue_all float no_faults alg cfg now dead js db).jobs
        ≡ some (rescued now row)
  unfolding rescue_all
  all_rescued now dead [] row db d apart any found = elim any [ ]
  all_rescued now dead (j ∷ js) row db d apart (inl same) found =
      others_rescued now dead js row.job_id (rescue float no_faults alg cfg now dead j db)
        (subst (λ x. All (Apart job_key x) js) same apart.0)
      ∙ subst
          (λ x.
            find_where job_key row.job_id (rescue float no_faults alg cfg now dead x db).jobs
            ≡ some (rescued now row))
          (sym same) (rescue-own now dead row db d found)
  all_rescued now dead (j ∷ js) row db d apart (inr any) found =
      let other : str_eq j.job_id row.job_id ≡ false =
        Apart-sym job_key j row (All-at (Apart job_key j) row js apart.0 any) in
      all_rescued now dead js row (rescue float no_faults alg cfg now dead j db) d apart.1 any
        (rescue-other now dead j row.job_id db other ∙ found)
