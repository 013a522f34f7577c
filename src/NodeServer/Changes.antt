-- ===== src/NodeServer/Changes.antt =====
-- What a job's report to internal/grpc/server.go may do to the jobs.
use gpu_cluster_scheduler.Common.{
  suc, String, str_eq, str_eq_iff, Bool-cases, inl, inr, ◌⊎◌, Option, none, some, List, ◌≡◌, refl,
  sym, subst, ◌∙◌, arith,
}
use gpu_cluster_scheduler.Models.{Job, JobStatus, running, completed, failed, Time, Node}
use gpu_cluster_scheduler.Store.Database.{
  Database, Result, ok, err, Faults, or_not_found, find_where, update_where, job_key,
}
use gpu_cluster_scheduler.Store.Jobs
use gpu_cluster_scheduler.Store.Nodes
use gpu_cluster_scheduler.Store.Post.{Post, PostOf, query-Post}
use gpu_cluster_scheduler.Store.Keys.{find_where-key}
use gpu_cluster_scheduler.NodeServer.Handlers.{
  reply, parse_status, release_on, release_job, release_and_finalize, apply_transition,
  transition_found, update_job_status,
}
use gpu_cluster_scheduler.NodeServer.Transitions.{Ends}

-- What a report may do to the jobs: nothing, or one change of the status of the job it names.
unfoldable pub OneChange : Time → String → String → List Job → List Job → Type 0
OneChange now id text before after =
    (after ≡ before)
    ⊎ ((s : JobStatus) × ((s ≡ running) ⊎ Ends s)
        × (parse_status text ≡ some s)
        × (after ≡ update_where job_key id (Jobs.set_status s now) before))

module _ (faults : Faults) where
  status-OneChange :
      (now : Time) (id text : String) (s : JobStatus) (j : Job) (db : Database)
      → (s ≡ running) ⊎ Ends s
      → parse_status text ≡ some s
      → j.job_id ≡ id
      → OneChange now id text db.jobs (Jobs.update_status faults now j.job_id s db).1.jobs
  unfolding OneChange Jobs.update_status
  status-OneChange now id text s j db allowed parsed key = elim (Bool-cases (faults db.queries)) [
    | inl e ↦ rw e (inl refl)
    | inr e ↦ rw (e, key) (inr (s, allowed, parsed, refl))
  ]

  release_on-jobs :
      (j : Job) (r : Result Node) (db : Database) → (release_on faults j r db).jobs ≡ db.jobs
  unfolding release_on Nodes.update_availability
  release_on-jobs j (ok n) db = ground arith
  release_on-jobs j (err e) db = refl

  release_job-jobs : (j : Job) (db : Database) → (release_job faults j db).jobs ≡ db.jobs
  unfolding release_job Nodes.get
  release_job-jobs j db = elim (Bool-cases (str_eq j.node_id "")) [
    | inl e ↦ rw e refl
    | inr e ↦ rw e (release_on-jobs j _ _ ∙ get_keeps)
  ]
    where
      get_keeps : (Nodes.get faults j.node_id db).1.jobs ≡ db.jobs
      get_keeps = ground arith

  finalize-OneChange :
      (now : Time) (id text : String) (s : JobStatus) (j : Job) (db : Database)
      → Ends s
      → parse_status text ≡ some s
      → j.job_id ≡ id
      → OneChange now id text db.jobs (release_and_finalize faults now j s db).1.jobs
  unfolding release_and_finalize
  finalize-OneChange now id text s j db ends parsed key =
      subst (λ before. OneChange now id text before (release_and_finalize faults now j s db).1.jobs)
        (release_job-jobs j db)
        (status-OneChange now id text s j (release_job faults j db) (inr ends) parsed key)

  reply-tables : (r : Result (Unit {0})) (db : Database) → (reply (r, db)).1 ≡ db
  reply-tables (ok x) db = refl
  reply-tables (err e) db = refl

  abbrev Changes : Time → String → String → List Job → Database → Type 0
  Changes now id text before db = OneChange now id text before db.jobs

  apply-OneChange :
      (now : Time) (id text : String) (p : Option JobStatus) (j : Job) (db : Database)
      → parse_status text ≡ p
      → j.job_id ≡ id
      → OneChange now id text db.jobs (apply_transition faults now j text p db).1.jobs
  unfolding apply_transition OneChange
  apply-OneChange now id text (some running) j db parsed key =
      subst (Changes now id text db.jobs)
        (sym (
          reply-tables (Jobs.update_status faults now j.job_id running db).0
            (Jobs.update_status faults now j.job_id running db).1))
        (status-OneChange now id text running j db (inl refl) parsed key)
  apply-OneChange now id text (some completed) j db parsed key =
      subst (Changes now id text db.jobs)
        (sym (
          reply-tables (release_and_finalize faults now j completed db).0
            (release_and_finalize faults now j completed db).1))
        (finalize-OneChange now id text completed j db (inl refl) parsed key)
  apply-OneChange now id text (some failed) j db parsed key =
      subst (Changes now id text db.jobs)
        (sym (
          reply-tables (release_and_finalize faults now j failed db).0
            (release_and_finalize faults now j failed db).1))
        (finalize-OneChange now id text failed j db (inr refl) parsed key)
  apply-OneChange now id text p j db parsed key = inl refl

  found-OneChange :
      (now : Time) (id text : String) (before : List Job) (r : Result Job) (db : Database)
      → PostOf (λ j d. (j.job_id ≡ id) × (d.jobs ≡ before)) (λ d. d.jobs ≡ before) r db
      → OneChange now id text before (transition_found faults now text r db).1.jobs
  unfolding transition_found OneChange
  found-OneChange now id text before (ok j) db h =
      subst (λ rows. OneChange now id text rows (transition_found faults now text (ok j) db).1.jobs)
        h.1 (apply-OneChange now id text (parse_status text) j db refl h.0)
  found-OneChange now id text before (err e) db h = inl h

  get-Named :
      (id : String) (db : Database)
      → Post
          (λ j d. (j.job_id ≡ id) × (d.jobs ≡ db.jobs))
          (λ d. d.jobs ≡ db.jobs)
          (Jobs.get faults id db)
  unfolding Jobs.get
  get-Named id db =
      query-Post (λ j d. (j.job_id ≡ id) × (d.jobs ≡ db.jobs)) (λ d. d.jobs ≡ db.jobs) faults
        (λ d. (or_not_found (find_where job_key id d.jobs), d)) db refl
        (by_row (find_where job_key id db.jobs) refl)
    where
      by_row :
          (o : Option Job)
          → find_where job_key id db.jobs ≡ o
          → PostOf
              (λ j d. (j.job_id ≡ id) × (d.jobs ≡ db.jobs))
              (λ d. d.jobs ≡ db.jobs)
              (or_not_found o)
              (record db { queries = suc db.queries })
      by_row none e = refl
      by_row (some j) e = ((str_eq_iff j.job_id id).0 (find_where-key job_key id db.jobs e), refl)

  -- A status report changes the status of no job but the one that it names, and of that one only to
  -- running, completed or failed, as the report says; every other report leaves the jobs as they are,
  -- whatever queries fail.
  pub update_job_status-OneChange :
      (now : Time) (id text : String) (db : Database)
      → OneChange now id text db.jobs (update_job_status faults now id text db).1.jobs
  unfolding update_job_status
  update_job_status-OneChange now id text db =
      found-OneChange now id text db.jobs (Jobs.get faults id db).0 (Jobs.get faults id db).1
        (get-Named id db)
