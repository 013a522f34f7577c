-- ===== src/Models/Jobs.antt =====
-- internal/models/job.go. Go's `int` is ℤ, and `time.Time` and `time.Duration` count nanoseconds.
-- The price of a job, which no code reads, is left out.
use gpu_cluster_scheduler.Common.{ℤ, ◌-ℤ◌, String, Bool, true, false, ◌||◌, Option}

abbrev pub Time : Type 0
Time = ℤ

abbrev pub Duration : Type 0
Duration = ℤ

pub data JobStatus : Type 0 where
  queued scheduled running completed failed cancelled preempted : JobStatus

-- Equality of two statuses, which the source writes `==` on their texts.
unfoldable pub status_eq : JobStatus → JobStatus → Bool
status_eq queued queued = true
status_eq scheduled scheduled = true
status_eq running running = true
status_eq completed completed = true
status_eq failed failed = true
status_eq cancelled cancelled = true
status_eq preempted preempted = true
status_eq _ _ = false

unfoldable pub is_terminal : JobStatus → Bool
is_terminal completed = true
is_terminal failed = true
is_terminal cancelled = true
is_terminal _ = false

unfoldable pub is_active : JobStatus → Bool
unfolding status_eq
is_active s = status_eq s scheduled || status_eq s running

pub record ResourceRequest : Type 0 where
  pub gpu : ℤ
  pub cpu : ℤ
  pub memory_gb : ℤ

pub record Job : Type 0 where
  pub job_id : String
  pub name : String
  pub user_id : String
  pub team_id : String
  pub status : JobStatus
  pub priority : ℤ
  pub gpu_count : ℤ
  pub cpu_count : ℤ
  pub memory_gb : ℤ
  pub image : String
  pub command : String
  pub node_id : String  -- "" while the job is on no node
  pub retry_count : ℤ
  pub max_retries : ℤ
  pub created_at : Time
  pub started_at : Option Time
  pub completed_at : Option Time
  pub effective_priority : ℤ

unfoldable pub resource_request : Job → ResourceRequest
resource_request j = record { gpu = j.gpu_count; cpu = j.cpu_count; memory_gb = j.memory_gb }

unfoldable pub age : Job → Time → Duration
age j now = now -ℤ j.created_at

pub record SubmitJobRequest : Type 0 where
  pub name : String
  pub user_id : String
  pub team_id : String
  pub priority : ℤ
  pub gpu_count : ℤ
  pub cpu_count : ℤ
  pub memory_gb : ℤ
  pub image : String
  pub command : String
  pub max_retries : ℤ
