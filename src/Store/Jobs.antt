-- ===== src/Store/Jobs.antt =====
-- internal/store/jobs.go. The `now()` of the database is an argument.
use gpu_cluster_scheduler.Common.{
  ℕ, ℤ, pos, pos_part, ◌+ℤ◌, ltb_ℤ, String, str_eq, Bool, not, true, false, ◌&&◌, ◌||◌,
  if◌then◌else◌, Option, none, some, List, [], ◌∷◌, ◌++◌, select, take, length,
}
use gpu_cluster_scheduler.Common.Sort.{sort_stable}
use gpu_cluster_scheduler.Models.{
  Job, JobStatus, scheduled, running, completed, failed, cancelled, status_eq, is_active, Time,
}
use gpu_cluster_scheduler.Store.Database.{
  Database, Result, ok, err, query_failed, Faults, Store, query, update_where, find_where,
  or_not_found, job_key, node_key,
}

pub record JobFilter : Type 0 where
  pub status : Option JobStatus  -- "" is `none`
  pub user_id : String
  pub team_id : String
  pub statuses : List JobStatus
  pub limit : ℤ

unfoldable pub status_in : List JobStatus → JobStatus → Bool
unfolding status_eq
status_in [] s = false
status_in (t ∷ ts) s = status_eq s t || status_in ts s

abbrev status_is : Option JobStatus → JobStatus → Bool
status_is none s = true
status_is (some t) s = status_eq s t

abbrev any_of : List JobStatus → JobStatus → Bool
any_of [] s = true
any_of (t ∷ ts) s = status_in (t ∷ ts) s

-- The WHERE clause: the conjunction of the conditions that the filter sets.
unfoldable pub matches : JobFilter → Job → Bool
unfolding status_in
matches f j =
    status_is f.status j.status
    && any_of f.statuses j.status
    && (str_eq f.user_id "" || str_eq j.user_id f.user_id)
    && (str_eq f.team_id "" || str_eq j.team_id f.team_id)

-- `ORDER BY created_at DESC`
abbrev pub newest_first : List Job → List Job
newest_first jobs = sort_stable (λ a b. ltb_ℤ b.created_at a.created_at) jobs

abbrev pub insert_row : Job → Database → Result (Unit {0}) × Database
insert_row j db = elim (find_where job_key j.job_id db.jobs) [
  | none ↦ (ok tt, record db { jobs = db.jobs ++ j ∷ [] })
  | some _ ↦ (err query_failed, db)
]

-- The CASE expressions of the statement in `UpdateStatus`.
unfoldable pub started_stamp : JobStatus → Time → Option Time → Option Time
started_stamp running now none = some now
started_stamp _ now started = started

unfoldable pub completed_stamp : JobStatus → Time → Option Time → Option Time
completed_stamp completed now stamp = some now
completed_stamp failed now stamp = some now
completed_stamp cancelled now stamp = some now
completed_stamp _ now stamp = stamp

unfoldable pub set_status : JobStatus → Time → Job → Job
unfolding started_stamp completed_stamp
set_status status now j = record j {
  status = status;
  started_at = started_stamp status now j.started_at;
  completed_at = completed_stamp status now j.completed_at;
}

unfoldable pub set_scheduled : String → Job → Job
set_scheduled node_id j = record j { status = scheduled; node_id = node_id }

unfoldable pub set_requeued : JobStatus → Job → Job
set_requeued status j = record j {
  status = status;
  node_id = "";
  retry_count = j.retry_count +ℤ pos 1;
  started_at = none;
}

-- One team's part of `GROUP BY team_id`.
add_usage : String → ℤ → List (String × ℤ) → List (String × ℤ)
add_usage team gpus [] = (team, gpus) ∷ []
add_usage team gpus ((t, g) ∷ m) =
    let rest = add_usage team gpus m in if str_eq t team then (t, g +ℤ gpus) ∷ m else (t, g) ∷ rest

usage_of : List Job → List (String × ℤ)
unfolding add_usage is_active
usage_of [] = []
usage_of (j ∷ js) =
    let rest = usage_of js in
    if is_active j.status then add_usage j.team_id j.gpu_count rest else rest

-- The statements, as functions on the tables.
abbrev pub select_rows : JobFilter → Database → Result (List Job) × Database
select_rows f db =
    let found = newest_first (select (matches f) db.jobs) in
    (ok (if ltb_ℤ (pos 0) f.limit then take (pos_part f.limit) found else found), db)

-- No node is NULL in the table, which equals nothing.
abbrev pub select_scheduled : String → Database → Result (List Job) × Database
select_scheduled node_id db = (
  ok (
      sort_stable (λ a b. ltb_ℤ a.created_at b.created_at)
        (select
          (λ j. not (str_eq node_id "") && str_eq j.node_id node_id && status_eq j.status scheduled)
          db.jobs)),
  db,
)

abbrev pub update_job : String → (Job → Job) → Database → Result (Unit {0}) × Database
update_job id f db = (ok tt, record db { jobs = update_where job_key id f db.jobs })

-- The column references the nodes: a row is refused a node that is not in the table.
abbrev pub without_node : Option Job → Result (Unit {0})
without_node none = ok tt
without_node (some _) = err query_failed

abbrev pub schedule_row : String → String → Database → Result (Unit {0}) × Database
schedule_row id node_id db = elim (find_where node_key node_id db.nodes) [
  | none ↦ (without_node (find_where job_key id db.jobs), db)
  | some _ ↦ update_job id (set_scheduled node_id) db
]

abbrev pub status_filter : List JobStatus → JobFilter
status_filter statuses = record {
  status = none;
  user_id = "";
  team_id = "";
  statuses = statuses;
  limit = pos 0;
}

module _ (faults : Faults) where
  unfoldable pub create : Job → Store Unit
  create j = query faults (insert_row j)

  unfoldable pub get : String → Store Job
  get id = query faults λ db. (or_not_found (find_where job_key id db.jobs), db)

  unfoldable pub list : JobFilter → Store (List Job)
  unfolding matches sort_stable
  list f = query faults (select_rows f)

  unfoldable pub list_by_statuses : List JobStatus → Store (List Job)
  unfolding list
  list_by_statuses statuses = list (status_filter statuses)

  unfoldable pub list_scheduled_for_node : String → Store (List Job)
  unfolding sort_stable status_eq
  list_scheduled_for_node node_id = query faults (select_scheduled node_id)

  unfoldable pub update_status : Time → String → JobStatus → Store Unit
  unfolding set_status
  update_status now id status = query faults (update_job id (set_status status now))

  unfoldable pub schedule : String → String → Store Unit
  unfolding set_scheduled
  schedule id node_id = query faults (schedule_row id node_id)

  unfoldable pub requeue : String → JobStatus → Store Unit
  unfolding set_requeued
  requeue id status = query faults (update_job id (set_requeued status))

  unfoldable pub count_by_status : JobStatus → Store ℕ
  unfolding status_eq
  count_by_status status =
      query faults λ db. (ok (length (select (λ j. status_eq j.status status) db.jobs)), db)

  unfoldable pub team_gpu_usage : Store (List (String × ℤ))
  unfolding usage_of
  team_gpu_usage = query faults λ db. (ok (usage_of db.jobs), db)
