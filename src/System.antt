-- ===== src/System.antt =====
-- The services together: the scheduler's passes (internal/scheduler/engine.go), the node agents' calls
-- (internal/grpc/server.go) and the REST requests (internal/api/handlers.go) in any order on one database.
pub mod Reachable
pub mod Lifecycle
use gpu_cluster_scheduler.Common.{ℤ, String, Bool, true, false, List, []}
use gpu_cluster_scheduler.Models.{Time, SubmitJobRequest, NodeStatus}
use gpu_cluster_scheduler.Strategies.Float.{Float64}
use gpu_cluster_scheduler.Strategies.{Algorithm}
use gpu_cluster_scheduler.Store.Database.{Database, Faults}
use gpu_cluster_scheduler.Engine.Pass.{SchedulerConfig}
use gpu_cluster_scheduler.Engine.Tick.{tick}
use gpu_cluster_scheduler.NodeServer.Handlers.{
  RegisterRequest, register, heartbeat, update_job_status,
}
use gpu_cluster_scheduler.NodeServer.Registration.{IsAllowed}
use gpu_cluster_scheduler.Api.Handlers.{handle_submit_job, handle_cancel_job, set_node_status}

-- The calls that change the database.
pub data Call : Type 0 where
  ticks : Time → Call
  registers : Time → RegisterRequest → Call
  beats : Time → String → Call
  reports : Time → String → String → Call
  submits : String → ℤ → Time → SubmitJobRequest → Call
  cancels : Time → String → Call
  marks : String → NodeStatus → Call

-- What is asked of the caller: a registration never shrinks a node below what is available on it.
abbrev pub Allowed : Call → Database → Type 0
Allowed (registers now req) db = IsAllowed req db
Allowed (ticks now) db = Unit
Allowed (beats now id) db = Unit
Allowed (reports now id text) db = Unit
Allowed (submits id retries now req) db = Unit
Allowed (cancels now id) db = Unit
Allowed (marks id s) db = Unit

module _ (float : Float64) (faults : Faults) (alg : Algorithm float)
    (cfg : SchedulerConfig float) where
  unfoldable pub serve : Call → Database → Database
  unfolding tick register heartbeat update_job_status handle_submit_job handle_cancel_job
      set_node_status
  serve (ticks now) db = (tick float faults alg cfg now db).1
  serve (registers now req) db = (register faults now req db).1
  serve (beats now id) db = (heartbeat faults now id db).1
  serve (reports now id text) db = (update_job_status faults now id text db).1
  serve (submits id retries now req) db = (handle_submit_job faults id retries now req db).1
  serve (cancels now id) db = (handle_cancel_job faults now id db).1
  serve (marks id s) db = (set_node_status faults id s db).1

  pub data Reach (start : Database) : Database → Type 0 where
    here : Reach start start
    next : {db : Database} → Reach start db → (c : Call) → Allowed c db → Reach start (serve c db)

abbrev pub empty : Database
empty = record { jobs = []; nodes = []; events = []; queries = 0 }
