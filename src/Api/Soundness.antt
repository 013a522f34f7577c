-- ===== src/Api/Soundness.antt =====
-- The handlers of internal/api/handlers.go keep the tables sound, whatever queries fail.
use gpu_cluster_scheduler.Common.{
  ℤ, pos, ◌≤ℤ◌, ◌<ℤ◌, String, str_eq, Bool-cases, false, inl, inr, ◌⊎◌, Option, none, some, ◌≡◌,
  refl, arith,
}
use gpu_cluster_scheduler.Models.{
  Job, cancelled, is_terminal, is_active, Time, resource_request, SubmitJobRequest, Node,
  NodeStatus,
}
use gpu_cluster_scheduler.Store.Database.{
  Database, Result, not_found, query_failed, ok, err, Faults, or_not_found, find_where, node_key,
}
use gpu_cluster_scheduler.Store.Jobs
use gpu_cluster_scheduler.Store.Nodes
use gpu_cluster_scheduler.Store.Keys.{query_ind}
use gpu_cluster_scheduler.Store.Post.{PostOf}
use gpu_cluster_scheduler.Store.Soundness.{
  IsSound, IsNonnegJob, asked-IsSound, create-IsSound, update_status-IsSound, set_status-IsSound,
}
use gpu_cluster_scheduler.NodeServer.Soundness.{release_job-IsSound, jobs_get-Post}
use gpu_cluster_scheduler.Api.Handlers.{
  SubmitError, Response, validate_submit, new_job, submit_valid, handle_submit_job, cancel_found,
  cancel_reply, handle_cancel_job, set_status_after, set_node_status,
}

-- What a submission must ask for.
pub record IsAcceptable (r : SubmitJobRequest) : Type 0 where
  pub user : str_eq r.user_id "" ≡ false
  pub gpu : pos 0 ≤ℤ r.gpu_count
  pub cpu : pos 0 ≤ℤ r.cpu_count
  pub memory : pos 0 ≤ℤ r.memory_gb
  pub something : (pos 0 <ℤ r.gpu_count) ⊎ (pos 0 <ℤ r.cpu_count)
  pub at_most : r.gpu_count ≤ℤ pos 64

pub validate→IsAcceptable : (r : SubmitJobRequest) → validate_submit r ≡ none → IsAcceptable r
unfolding validate_submit
validate→IsAcceptable r h = ground arith

pub IsAcceptable→validate : (r : SubmitJobRequest) → IsAcceptable r → validate_submit r ≡ none
unfolding validate_submit
IsAcceptable→validate r h = ground arith

module _ (faults : Faults) where
  submit_end-IsSound :
      (id : String) (retries : ℤ) (now : Time) (req : SubmitJobRequest) (db : Database)
      (e : Option SubmitError)
      → validate_submit req ≡ e
      → IsSound db
      → IsSound
          (elim e as (λ _. Response Job × Database) [
            | some x ↦ (Response.bad_request x, db)
            | none ↦ submit_valid faults (new_job id retries now req) db
          ]).1
  unfolding submit_valid new_job resource_request
  submit_end-IsSound id retries now req db (some x) v h = h
  submit_end-IsSound id retries now req db none v h =
      let a = validate→IsAcceptable req v in
      create-IsSound faults (new_job id retries now req) db
        (record { gpu = a.gpu; cpu = a.cpu; memory = a.memory }) h

  -- A submission keeps the tables sound, accepted or refused.
  pub handle_submit_job-IsSound :
      (id : String) (retries : ℤ) (now : Time) (req : SubmitJobRequest) (db : Database)
      → IsSound db
      → IsSound (handle_submit_job faults id retries now req db).1
  unfolding handle_submit_job
  handle_submit_job-IsSound id retries now req db h =
      submit_end-IsSound id retries now req db (validate_submit req) refl h

  cancel_found-IsSound :
      (now : Time) (j : Job) (db : Database)
      → IsNonnegJob j
      → IsSound db
      → IsSound (cancel_found faults now j db).1
  unfolding cancel_found
  cancel_found-IsSound now j db p h = elim (Bool-cases (is_terminal j.status)) [
    | inl t ↦ rw t h
    | inr t ↦ elim (Bool-cases (is_active j.status)) [
      | inl a ↦
          rw (t, a)
            (update_status-IsSound faults now j.job_id cancelled _
              (release_job-IsSound faults j db p h))
      | inr a ↦ rw (t, a) (update_status-IsSound faults now j.job_id cancelled db h)
    ]
  ]

  cancel_reply-IsSound :
      (now : Time) (r : Result Job) (d : Database)
      → PostOf (λ j e. IsNonnegJob j × IsSound e) IsSound r d
      → IsSound (cancel_reply faults now r d).1
  unfolding cancel_reply
  cancel_reply-IsSound now (ok j) d h = cancel_found-IsSound now j d h.0 h.1
  cancel_reply-IsSound now (err not_found) d h = h
  cancel_reply-IsSound now (err query_failed) d h = h

  -- A cancellation keeps the tables sound, accepted or refused.
  pub handle_cancel_job-IsSound :
      (now : Time) (id : String) (db : Database)
      → IsSound db
      → IsSound (handle_cancel_job faults now id db).1
  unfolding handle_cancel_job
  handle_cancel_job-IsSound now id db h =
      cancel_reply-IsSound now (Jobs.get faults id db).0 (Jobs.get faults id db).1
        (jobs_get-Post faults id db h)

  set_status_after-IsSound :
      (id : String) (s : NodeStatus) (r : Result Node) (db : Database)
      → IsSound db
      → IsSound (set_status_after faults id s r db).1
  unfolding set_status_after
  set_status_after-IsSound id s (err not_found) db h = h
  set_status_after-IsSound id s (err query_failed) db h = set_status-IsSound faults id s db h
  set_status_after-IsSound id s (ok n) db h = set_status-IsSound faults id s db h

  -- Cordoning, draining and uncordoning keep the tables sound.
  pub set_node_status-IsSound :
      (id : String) (s : NodeStatus) (db : Database)
      → IsSound db
      → IsSound (set_node_status faults id s db).1
  unfolding set_node_status Nodes.get
  set_node_status-IsSound id s db h = set_status_after-IsSound id s _ _ (
      query_ind IsSound faults (λ d. (or_not_found (find_where node_key id d.nodes), d)) db
        (asked-IsSound h) (asked-IsSound h))
