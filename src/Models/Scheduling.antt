-- ===== src/Models/Scheduling.antt =====
-- internal/models/scheduling.go. The random identifier of an event and its measured latency are left
-- out. The text of a reason is kept as the template that prints it, with the template's arguments.
use gpu_cluster_scheduler.Common.{ℤ, ◌+ℤ◌, leb_ℤ, String, Bool, ◌&&◌}
use gpu_cluster_scheduler.Models.Jobs.{Time, ResourceRequest}
use gpu_cluster_scheduler.Models.Nodes.{Ratio}

pub data Reason : Type 0 where
  no_node : Reason
  first_fit_on : (hostname : String) (free : ℤ) → Reason
  best_fit_on : (hostname : String) (left : ℤ) → Reason
  by_preemption : Reason → Reason
  no_capacity : Reason → Reason

pub record SchedulingEvent : Type 0 where
  pub job_id : String
  pub selected_node : String
  pub scheduling_reason : Reason
  pub algorithm : String
  pub success : Bool
  pub timestamp : Time

pub record ClusterUtilization : Type 0 where
  pub total_gpus : ℤ
  pub used_gpus : ℤ
  pub total_cpus : ℤ
  pub used_cpus : ℤ
  pub total_memory_gb : ℤ
  pub used_memory_gb : ℤ
  pub gpu_utilization : Ratio
  pub cpu_utilization : Ratio
  pub memory_utilization : Ratio
  pub nodes_ready : ℤ
  pub nodes_total : ℤ
  pub jobs_running : ℤ
  pub jobs_queued : ℤ
  pub fragmentation : Ratio

pub record TeamQuota : Type 0 where
  pub team_id : String
  pub max_gpus : ℤ
  pub max_cpus : ℤ
  pub max_memory_gb : ℤ
  pub used_gpus : ℤ
  pub used_cpus : ℤ
  pub used_memory_gb : ℤ

unfoldable pub has_capacity_for : TeamQuota → ResourceRequest → Bool
has_capacity_for q r =
    leb_ℤ (q.used_gpus +ℤ r.gpu) q.max_gpus
    && leb_ℤ (q.used_cpus +ℤ r.cpu) q.max_cpus
    && leb_ℤ (q.used_memory_gb +ℤ r.memory_gb) q.max_memory_gb
