-- ===== src/Api/Handlers.antt =====
-- The handlers of internal/api/handlers.go. A response is its HTTP status and what the model keeps of its body.
use gpu_cluster_scheduler.Common.{
  [], ℤ, pos, leb_ℤ, ltb_ℤ, eqb_ℤ, ℕ, ◌+◌, String, str_eq, ◌&&◌, ◌||◌, if◌then◌else◌, Option, none,
  some, List,
}
use gpu_cluster_scheduler.Common.Numbers.{atoi}
use gpu_cluster_scheduler.Models.{
  Job, JobStatus, queued, scheduled, running, cancelled, is_terminal, is_active, Time,
  SubmitJobRequest, Node, NodeStatus, ready, draining, cordoned, ClusterUtilization,
  SchedulingEvent,
}
use gpu_cluster_scheduler.Fragmentation.{cluster_snapshot}
use gpu_cluster_scheduler.Store.Database.{
  Database, not_found, query_failed, Result, ok, err, Faults,
}
use gpu_cluster_scheduler.Store.Jobs
use gpu_cluster_scheduler.Store.Nodes
use gpu_cluster_scheduler.Store.Events
use gpu_cluster_scheduler.NodeServer.Handlers.{release_job}

pub data SubmitError : Type 0 where
  invalid_body user_required negative_request nothing_requested too_many_gpus : SubmitError

pub data Response (A : Type 0) : Type 0 where
  success : A → Response A  -- 200
  created : A → Response A  -- 201
  bad_request : SubmitError → Response A  -- 400
  missing : Response A  -- 404
  conflict : JobStatus → Response A  -- 409
  internal_error : Response A  -- 500

unfoldable pub clamp : ℤ → ℤ → ℤ → ℤ
clamp v lo hi = if ltb_ℤ v lo then lo else if ltb_ℤ hi v then hi else v

unfoldable pub validate_submit : SubmitJobRequest → Option SubmitError
validate_submit r =
    if str_eq r.user_id ""
    then some user_required
    else if ltb_ℤ r.gpu_count (pos 0) || ltb_ℤ r.cpu_count (pos 0) || ltb_ℤ r.memory_gb (pos 0)
    then some negative_request
    else if eqb_ℤ r.gpu_count (pos 0) && eqb_ℤ r.cpu_count (pos 0)
    then some nothing_requested
    else if ltb_ℤ (pos 64) r.gpu_count
    then some too_many_gpus
    else none

-- The job that a request submits. Its identifier is fresh, and the default of its retry budget configured.
unfoldable pub new_job : String → ℤ → Time → SubmitJobRequest → Job
unfolding clamp
new_job id default_retries now r = record {
  job_id = id;
  name = r.name;
  user_id = r.user_id;
  team_id = r.team_id;
  status = queued;
  priority = clamp r.priority (pos 0) (pos 10);
  gpu_count = r.gpu_count;
  cpu_count = r.cpu_count;
  memory_gb = r.memory_gb;
  image = r.image;
  command = r.command;
  node_id = "";
  retry_count = pos 0;
  max_retries = if leb_ℤ r.max_retries (pos 0) then default_retries else r.max_retries;
  created_at = now;
  started_at = none;
  completed_at = none;
  effective_priority = pos 0;
}

unfoldable pub atoi_default : String → ℤ → ℤ
unfolding atoi
atoi_default s fallback =
    if str_eq s ""
    then fallback
    else elim (atoi s) [ none ↦ fallback | some n ↦ if ltb_ℤ (pos 0) n then n else fallback ]

-- The query of `handleListJobs`. A status that is no status of a job, which no row has, is left out.
pub record JobQuery : Type 0 where
  pub status : Option JobStatus
  pub user_id : String
  pub team_id : String
  pub limit : String

unfoldable pub list_filter : JobQuery → Jobs.JobFilter
unfolding atoi_default
list_filter q = record {
  status = q.status;
  user_id = q.user_id;
  team_id = q.team_id;
  statuses = [];
  limit = atoi_default q.limit (pos 200);
}

unfoldable pub created_reply : Job → Result (Unit {0}) → Response Job
created_reply job (ok _) = created job
created_reply job (err _) = internal_error

unfoldable pub fetched : {A : Type 0} → Result A → Response A
fetched (ok a) = success a
fetched (err not_found) = missing
fetched (err query_failed) = internal_error

unfoldable pub listed : {A : Type 0} → Result A → Response A
listed (ok a) = success a
listed (err _) = internal_error

unfoldable pub cancelled_reply : Result (Unit {0}) → Response (Unit {0})
cancelled_reply (ok _) = success tt
cancelled_reply (err _) = internal_error

unfoldable pub status_reply : NodeStatus → Result (Unit {0}) → Response NodeStatus
status_reply s (ok _) = success s
status_reply s (err _) = internal_error

-- A count that cannot be read is zero.
unfoldable pub counted : Result ℕ → ℕ
counted (ok n) = n
counted (err _) = 0

module _ (faults : Faults) where
  unfoldable pub submit_valid : Job → Database → Response Job × Database
  unfolding created_reply Jobs.create
  submit_valid job db = let (r, db') = Jobs.create faults job db in (created_reply job r, db')

  unfoldable pub handle_submit_job :
      String → ℤ → Time → SubmitJobRequest → Database → Response Job × Database
  unfolding submit_valid validate_submit new_job
  handle_submit_job id default_retries now req db = elim (validate_submit req) [
    | some e ↦ (bad_request e, db)
    | none ↦ submit_valid (new_job id default_retries now req) db
  ]

  -- From the body, `none` where it does not bind.
  unfoldable pub handle_submit_body :
      String → ℤ → Time → Option SubmitJobRequest → Database → Response Job × Database
  unfolding handle_submit_job
  handle_submit_body id default_retries now none db = (bad_request invalid_body, db)
  handle_submit_body id default_retries now (some req) db =
      handle_submit_job id default_retries now req db

  unfoldable pub handle_list_jobs : JobQuery → Database → Response (List Job) × Database
  unfolding listed list_filter Jobs.list
  handle_list_jobs query db =
      let (r, db') = Jobs.list faults (list_filter query) db in (listed r, db')

  unfoldable pub handle_get_job : String → Database → Response Job × Database
  unfolding fetched Jobs.get
  handle_get_job id db = let (r, db') = Jobs.get faults id db in (fetched r, db')

  -- The job was read.
  unfoldable pub cancel_found : Time → Job → Database → Response Unit × Database
  unfolding cancelled_reply is_terminal is_active release_job Jobs.update_status
  cancel_found now job db =
      if is_terminal job.status
      then (conflict job.status, db)
      else (let db' = if is_active job.status then release_job faults job db else db in
          let (r, db'') = Jobs.update_status faults now job.job_id cancelled db' in
          (cancelled_reply r, db''))

  unfoldable pub cancel_reply : Time → Result Job → Database → Response Unit × Database
  unfolding cancel_found
  cancel_reply now (ok job) db = cancel_found now job db
  cancel_reply now (err not_found) db = (missing, db)
  cancel_reply now (err query_failed) db = (internal_error, db)

  unfoldable pub handle_cancel_job : Time → String → Database → Response Unit × Database
  unfolding cancel_reply Jobs.get
  handle_cancel_job now id db = let (r, db') = Jobs.get faults id db in cancel_reply now r db'

  unfoldable pub handle_list_nodes : Database → Response (List Node) × Database
  unfolding listed Nodes.list
  handle_list_nodes db = let (r, db') = Nodes.list faults db in (listed r, db')

  -- Only a node that is known to be missing stops the handler.
  unfoldable pub set_status_after :
      String → NodeStatus → Result Node → Database → Response NodeStatus × Database
  unfolding status_reply Nodes.set_status
  set_status_after id s (err not_found) db = (missing, db)
  set_status_after id s _ db =
      let (r, db') = Nodes.set_status faults id s db in (status_reply s r, db')

  unfoldable pub set_node_status : String → NodeStatus → Database → Response NodeStatus × Database
  unfolding set_status_after Nodes.get
  set_node_status id s db = let (r, db') = Nodes.get faults id db in set_status_after id s r db'

  abbrev pub handle_cordon_node : String → Database → Response NodeStatus × Database
  handle_cordon_node id = set_node_status id cordoned

  abbrev pub handle_drain_node : String → Database → Response NodeStatus × Database
  handle_drain_node id = set_node_status id draining

  abbrev pub handle_uncordon_node : String → Database → Response NodeStatus × Database
  handle_uncordon_node id = set_node_status id ready

  unfoldable pub snapshot_reply :
      Result (List Node) → Database → Response ClusterUtilization × Database
  unfolding counted Jobs.count_by_status cluster_snapshot
  snapshot_reply (err _) db = (internal_error, db)
  snapshot_reply (ok nodes) db =
      let (r, db₁) = Jobs.count_by_status faults running db in
      let (s, db₂) = Jobs.count_by_status faults scheduled db₁ in
      let (q, db₃) = Jobs.count_by_status faults queued db₂ in
      (success (cluster_snapshot nodes (pos (counted r + counted s)) (pos (counted q))), db₃)

  unfoldable pub handle_utilization : Database → Response ClusterUtilization × Database
  unfolding snapshot_reply Nodes.list
  handle_utilization db = let (r, db') = Nodes.list faults db in snapshot_reply r db'

  unfoldable pub handle_events : String → Database → Response (List SchedulingEvent) × Database
  unfolding listed atoi_default Events.list
  handle_events limit db =
      let (r, db') = Events.list faults (atoi_default limit (pos 100)) db in (listed r, db')
