-- ===== src/Api/Submission.antt =====
-- What the handlers of internal/api/handlers.go promise their clients.
use gpu_cluster_scheduler.Common.{
  suc, ℤ, pos, ◌≤ℤ◌, String, str_eq, str_eq_refl, Bool-cases, true, false, inl, inr, none, some,
  List, [], ◌∷◌, ◌++◌, ◌↔◌, ◌≡◌, refl, sym, ap, subst, arith,
}
use gpu_cluster_scheduler.Models.{Job, queued, is_terminal, Time, SubmitJobRequest}
use gpu_cluster_scheduler.Store.Database.{Database, Faults, find_where, job_key}
use gpu_cluster_scheduler.Store.Jobs
use gpu_cluster_scheduler.Api.Handlers.{
  Response, created, created_reply, clamp, validate_submit, new_job, submit_valid,
  handle_submit_job, cancel_found, cancel_reply, handle_cancel_job,
}
use gpu_cluster_scheduler.Api.Soundness.{IsAcceptable, validate→IsAcceptable, IsAcceptable→validate}

-- The gateway accepts a request exactly when it names its user, asks for no negative amount, for some
-- GPU or CPU, and for at most 64 GPUs.
pub validate_submit_iff : (r : SubmitJobRequest) → (validate_submit r ≡ none) ↔ IsAcceptable r
validate_submit_iff r = (validate→IsAcceptable r, IsAcceptable→validate r)

clamp-Between : (v lo hi : ℤ) → lo ≤ℤ hi → (lo ≤ℤ clamp v lo hi) × (clamp v lo hi ≤ℤ hi)
unfolding clamp
clamp-Between v lo hi h = ground arith

find-snoc :
    (js : List Job) (j : Job)
    → find_where job_key j.job_id js ≡ none
    → find_where job_key j.job_id (js ++ j ∷ []) ≡ some j
find-snoc [] j e = rw (str_eq_refl j.job_id) refl
find-snoc (i ∷ js) j e = elim (Bool-cases (str_eq i.job_id j.job_id)) [
  | inl c ↦ absurd (ground arith)
  | inr c ↦ rw c (find-snoc js j (ground arith))
]

-- A submission that was accepted.
pub record IsSubmitted (req : SubmitJobRequest) (id : String) (db : Database) (job : Job)
    : Type 0 where
  pub stored : find_where job_key id db.jobs ≡ some job
  pub waits : job.status ≡ queued
  pub on_no_node : job.node_id ≡ ""
  pub fresh : job.retry_count ≡ pos 0
  pub in_band : (pos 0 ≤ℤ job.priority) × (job.priority ≤ℤ pos 10)
  pub asks :
      (job.gpu_count ≡ req.gpu_count)
      × (job.cpu_count ≡ req.cpu_count)
      × (job.memory_gb ≡ req.memory_gb)

module _ (faults : Faults) where
  submit_stores :
      (job : Job) (db : Database)
      → find_where job_key job.job_id db.jobs ≡ none
      → faults db.queries ≡ false
      → submit_valid faults job db
        ≡ (created job, record db { jobs = db.jobs ++ job ∷ []; queries = suc db.queries })
  unfolding submit_valid Jobs.create created_reply
  submit_stores job db fresh e = rw (e, fresh, Jobs.insert_row) refl

  -- An acceptable request under an unused id is answered 201, where the insertion does not fail: the
  -- job of the answer is in the table under that id, queued, on no node, with no retries used, with
  -- its priority in the band 0 to 10, and asks for what was requested.
  pub handle_submit_job-accepts :
      (id : String) (retries : ℤ) (now : Time) (req : SubmitJobRequest) (db : Database)
      → IsAcceptable req
      → find_where job_key id db.jobs ≡ none
      → faults db.queries ≡ false
      → (job : Job) × ((handle_submit_job faults id retries now req db).0 ≡ created job)
        × IsSubmitted req id (handle_submit_job faults id retries now req db).1 job
  unfolding handle_submit_job new_job
  handle_submit_job-accepts id retries now req db a fresh e =
      let job = new_job id retries now req in
      let same : handle_submit_job faults id retries now req db
          ≡ (created job, record db { jobs = db.jobs ++ job ∷ []; queries = suc db.queries }) =
        rw (IsAcceptable→validate req a, handle_submit_job) (submit_stores job db fresh e) in
      (
        job,
        ap (λ r. r.0) same,
        subst (λ r. IsSubmitted req id r.1 job) (sym same)
            (record {
              stored = find-snoc db.jobs job fresh;
              waits = refl;
              on_no_node = refl;
              fresh = refl;
              in_band = clamp-Between req.priority (pos 0) (pos 10) (ground arith);
              asks = (refl, refl, refl);
            }),
      )

  -- Cancelling a job that has completed, failed or been cancelled is answered 409 with its status, and
  -- no table changes; where the row of the job can be read.
  pub handle_cancel_job-refuses :
      (now : Time) (id : String) (job : Job) (db : Database)
      → find_where job_key id db.jobs ≡ some job
      → is_terminal job.status ≡ true
      → faults db.queries ≡ false
      → handle_cancel_job faults now id db
        ≡ (Response.conflict job.status, record db { queries = suc db.queries })
  unfolding handle_cancel_job cancel_reply cancel_found Jobs.get
  handle_cancel_job-refuses now id job db found final e = rw (e, found, final) refl
