-- ===== src/Models/Nodes.antt =====
-- internal/models/node.go. A float64 fraction is kept exact, as its numerator and denominator.
-- The price and the labels of a node, which no code reads, are left out.
use gpu_cluster_scheduler.Common.{
  ℤ, pos, ◌+ℤ◌, ◌-ℤ◌, ltb_ℤ, leb_ℤ, eqb_ℤ, String, Bool, true, false, ◌&&◌, if◌then◌else◌,
}
use gpu_cluster_scheduler.Models.Jobs.{Time, ResourceRequest}

pub data NodeStatus : Type 0 where
  ready draining cordoned down : NodeStatus

unfoldable pub node_status_eq : NodeStatus → NodeStatus → Bool
node_status_eq ready ready = true
node_status_eq draining draining = true
node_status_eq cordoned cordoned = true
node_status_eq down down = true
node_status_eq _ _ = false

unfoldable pub schedulable : NodeStatus → Bool
unfolding node_status_eq
schedulable s = node_status_eq s ready

pub record Node : Type 0 where
  pub node_id : String
  pub hostname : String
  pub status : NodeStatus
  pub gpu_capacity : ℤ
  pub gpu_available : ℤ
  pub cpu_capacity : ℤ
  pub cpu_available : ℤ
  pub memory_capacity : ℤ
  pub memory_available : ℤ
  pub gpu_model : String
  pub spot : Bool
  pub last_heartbeat : Time
  pub registered_at : Time

unfoldable pub fits : Node → ResourceRequest → Bool
fits n r =
    schedulable n.status
    && leb_ℤ r.gpu n.gpu_available
    && leb_ℤ r.cpu n.cpu_available
    && leb_ℤ r.memory_gb n.memory_available

pub record Ratio : Type 0 where
  pub num : ℤ
  pub den : ℤ

abbrev pub zero_ratio : Ratio
zero_ratio = record { num = pos 0; den = pos 1 }

unfoldable pub gpu_utilization : Node → Ratio
gpu_utilization n =
    if eqb_ℤ n.gpu_capacity (pos 0)
    then zero_ratio
    else record { num = n.gpu_capacity -ℤ n.gpu_available; den = n.gpu_capacity }

unfoldable pub cpu_utilization : Node → Ratio
cpu_utilization n =
    if eqb_ℤ n.cpu_capacity (pos 0)
    then zero_ratio
    else record { num = n.cpu_capacity -ℤ n.cpu_available; den = n.cpu_capacity }

unfoldable pub memory_utilization : Node → Ratio
memory_utilization n =
    if eqb_ℤ n.memory_capacity (pos 0)
    then zero_ratio
    else record { num = n.memory_capacity -ℤ n.memory_available; den = n.memory_capacity }

unfoldable pub reserve : Node → ResourceRequest → Node
reserve n r = record n {
  gpu_available = n.gpu_available -ℤ r.gpu;
  cpu_available = n.cpu_available -ℤ r.cpu;
  memory_available = n.memory_available -ℤ r.memory_gb;
}

-- `x += d; if x > capacity { x = capacity }`
unfoldable pub add_capped : ℤ → ℤ → ℤ → ℤ
add_capped x d capacity = let y = x +ℤ d in if ltb_ℤ capacity y then capacity else y

unfoldable pub release : Node → ResourceRequest → Node
release n r = record n {
  gpu_available = add_capped n.gpu_available r.gpu n.gpu_capacity;
  cpu_available = add_capped n.cpu_available r.cpu n.cpu_capacity;
  memory_available = add_capped n.memory_available r.memory_gb n.memory_capacity;
}
