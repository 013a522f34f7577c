-- ===== src/NodeServer/Handlers.antt =====
-- The handlers of internal/grpc/server.go. A reported status is the text of the message.
use gpu_cluster_scheduler.Common.{
  ℤ, String, str_eq, Bool, if◌then◌else◌, Option, none, some, List, map,
}
use gpu_cluster_scheduler.Models.{
  Job, JobStatus, queued, scheduled, running, completed, failed, cancelled, preempted, Time,
  resource_request, Node, NodeStatus, ready, draining, cordoned, down, release,
}
use gpu_cluster_scheduler.Store.Database.{
  Database, StoreError, not_found, Result, ok, err, Faults, Store,
}
use gpu_cluster_scheduler.Store.Jobs
use gpu_cluster_scheduler.Store.Nodes

-- `models.JobStatus(text)`: `none` is a text that names no status.
unfoldable pub parse_status : String → Option JobStatus
parse_status t =
    if str_eq t "queued"
    then some queued
    else if str_eq t "scheduled"
    then some scheduled
    else if str_eq t "running"
    then some running
    else if str_eq t "completed"
    then some completed
    else if str_eq t "failed"
    then some failed
    else if str_eq t "cancelled"
    then some cancelled
    else if str_eq t "preempted"
    then some preempted
    else none

unfoldable pub node_status_text : NodeStatus → String
node_status_text ready = "ready"
node_status_text draining = "draining"
node_status_text cordoned = "cordoned"
node_status_text down = "down"

pub record RegisterRequest : Type 0 where
  pub node_id : String
  pub hostname : String
  pub gpu : ℤ
  pub cpu : ℤ
  pub memory_gb : ℤ
  pub gpu_model : String
  pub spot : Bool

-- The two timestamps are the database's.
unfoldable pub registered_node : RegisterRequest → Time → Node
registered_node req now = record {
  node_id = req.node_id;
  hostname = req.hostname;
  status = ready;
  gpu_capacity = req.gpu;
  gpu_available = req.gpu;
  cpu_capacity = req.cpu;
  cpu_available = req.cpu;
  memory_capacity = req.memory_gb;
  memory_available = req.memory_gb;
  gpu_model = req.gpu_model;
  spot = req.spot;
  last_heartbeat = now;
  registered_at = now;
}

-- An answer of the server, or its error.
pub data Reply (A : Type 0) : Type 0 where
  answer : A → Reply A
  store_error : StoreError → Reply A
  unsupported : String → Reply A

pub record Assignment : Type 0 where
  pub job_id : String
  pub name : String
  pub image : String
  pub command : String
  pub gpu : ℤ
  pub cpu : ℤ
  pub memory_gb : ℤ
  pub priority : ℤ

abbrev pub reply : {A : Type 0} → Result A × Database → Reply A × Database
reply (ok a, db) = (answer a, db)
reply (err e, db) = (store_error e, db)

unfoldable pub assignment : Job → Assignment
assignment j = record {
  job_id = j.job_id;
  name = j.name;
  image = j.image;
  command = j.command;
  gpu = j.gpu_count;
  cpu = j.cpu_count;
  memory_gb = j.memory_gb;
  priority = j.priority;
}

module _ (faults : Faults) where
  unfoldable pub register : Time → RegisterRequest → Database → Reply Unit × Database
  unfolding registered_node Nodes.upsert
  register now req db = reply (Nodes.upsert faults now (registered_node req now) db)

  -- `desired` of the handler: empty if the node cannot be read.
  unfoldable pub desired_status : String → Database → String × Database
  unfolding Nodes.get node_status_text
  desired_status id db =
      let (r, db') = Nodes.get faults id db in
      elim r [ ok n ↦ (node_status_text n.status, db') | err _ ↦ ("", db') ]

  unfoldable pub heartbeat_reply : String → Result (Unit {0}) → Database → Reply String × Database
  unfolding desired_status
  heartbeat_reply id (ok _) db = let (s, db') = desired_status id db in (answer s, db')
  heartbeat_reply id (err not_found) db = (answer "unregistered", db)
  heartbeat_reply id (err e) db = (store_error e, db)

  unfoldable pub heartbeat : Time → String → Database → Reply String × Database
  unfolding heartbeat_reply Nodes.heartbeat
  heartbeat now id db = let (r, db') = Nodes.heartbeat faults now id db in heartbeat_reply id r db'

  unfoldable pub get_assignments : String → Database → Reply (List Assignment) × Database
  unfolding assignment Jobs.list_scheduled_for_node
  get_assignments node_id db =
      let (r, db') = Jobs.list_scheduled_for_node faults node_id db in
      elim r [ ok jobs ↦ (answer (map assignment jobs), db') | err e ↦ (store_error e, db') ]

  -- The job's resources go back to its node, if it has one that can be read.
  unfoldable pub release_on : Job → Result Node → Database → Database
  unfolding Nodes.update_availability
  release_on job (ok node) db =
      let n = release node (resource_request job) in
      (Nodes.update_availability faults n.node_id n.gpu_available n.cpu_available n.memory_available
        db).1
  release_on job (err _) db = db

  unfoldable pub release_job : Job → Database → Database
  unfolding release_on Nodes.get
  release_job job db =
      if str_eq job.node_id ""
      then db
      else (let (r, db') = Nodes.get faults job.node_id db in release_on job r db')

  unfoldable pub release_and_finalize : Time → Job → JobStatus → Store Unit
  unfolding release_job Jobs.update_status
  release_and_finalize now job status db =
      Jobs.update_status faults now job.job_id status (release_job job db)

  -- The `switch` on the reported status.
  unfoldable pub apply_transition :
      Time → Job → String → Option JobStatus → Database → Reply Unit × Database
  unfolding release_and_finalize
  apply_transition now job text (some running) db =
      reply (Jobs.update_status faults now job.job_id running db)
  apply_transition now job text (some completed) db =
      reply (release_and_finalize now job completed db)
  apply_transition now job text (some failed) db = reply (release_and_finalize now job failed db)
  apply_transition now job text _ db = (unsupported text, db)

  unfoldable pub transition_found : Time → String → Result Job → Database → Reply Unit × Database
  unfolding apply_transition parse_status
  transition_found now text (ok job) db = apply_transition now job text (parse_status text) db
  transition_found now text (err e) db = (store_error e, db)

  unfoldable pub update_job_status : Time → String → String → Database → Reply Unit × Database
  unfolding transition_found Jobs.get
  update_job_status now job_id text db =
      let (r, db') = Jobs.get faults job_id db in transition_found now text r db'
