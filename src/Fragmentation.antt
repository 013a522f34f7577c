-- ===== src/Fragmentation.antt =====
-- internal/scheduler/fragmentation.go. A float64 fraction is kept exact, `1 - a / b` as `(b - a) / b`.
pub mod Bounds
use gpu_cluster_scheduler.Common.{
  ℤ, pos, ◌+ℤ◌, ◌-ℤ◌, ltb_ℤ, eqb_ℤ, Bool, not, if◌then◌else◌, List, [], ◌∷◌,
}
use gpu_cluster_scheduler.Models.{
  Node, ready, node_status_eq, schedulable, Ratio, zero_ratio, ClusterUtilization,
}

-- `totalFree` and `maxFree`.
pub record FreeBlocks : Type 0 where
  pub total : ℤ
  pub largest : ℤ

count_node : FreeBlocks → Node → FreeBlocks
count_node b n = if not (schedulable n.status) then b else record {
  total = b.total +ℤ n.gpu_available;
  largest = if ltb_ℤ b.largest n.gpu_available then n.gpu_available else b.largest;
}

count_free : FreeBlocks → List Node → FreeBlocks
unfolding count_node
count_free b [] = b
count_free b (n ∷ ns) = count_free (count_node b n) ns

unfoldable pub fragmentation : List Node → Ratio
unfolding count_free
fragmentation nodes =
    let b = count_free (record { total = pos 0; largest = pos 0 }) nodes in
    if eqb_ℤ b.total (pos 0)
    then zero_ratio
    else record { num = b.total -ℤ b.largest; den = b.total }

abbrev pub ratio : ℤ → ℤ → Ratio
ratio used total = if eqb_ℤ total (pos 0) then zero_ratio else record { num = used; den = total }

-- The counters of the loop of `ClusterSnapshot`.
pub record Tally : Type 0 where
  pub nodes_total : ℤ
  pub nodes_ready : ℤ
  pub total_gpus : ℤ
  pub used_gpus : ℤ
  pub total_cpus : ℤ
  pub used_cpus : ℤ
  pub total_memory_gb : ℤ
  pub used_memory_gb : ℤ

abbrev empty_tally : Tally
empty_tally = record {
  nodes_total = pos 0;
  nodes_ready = pos 0;
  total_gpus = pos 0;
  used_gpus = pos 0;
  total_cpus = pos 0;
  used_cpus = pos 0;
  total_memory_gb = pos 0;
  used_memory_gb = pos 0;
}

tally_node : Tally → Node → Tally
tally_node u n = record {
  nodes_total = u.nodes_total +ℤ pos 1;
  nodes_ready = if node_status_eq n.status ready then u.nodes_ready +ℤ pos 1 else u.nodes_ready;
  total_gpus = u.total_gpus +ℤ n.gpu_capacity;
  used_gpus = u.used_gpus +ℤ (n.gpu_capacity -ℤ n.gpu_available);
  total_cpus = u.total_cpus +ℤ n.cpu_capacity;
  used_cpus = u.used_cpus +ℤ (n.cpu_capacity -ℤ n.cpu_available);
  total_memory_gb = u.total_memory_gb +ℤ n.memory_capacity;
  used_memory_gb = u.used_memory_gb +ℤ (n.memory_capacity -ℤ n.memory_available);
}

tally_all : Tally → List Node → Tally
unfolding tally_node
tally_all u [] = u
tally_all u (n ∷ ns) = tally_all (tally_node u n) ns

unfoldable pub cluster_snapshot : List Node → ℤ → ℤ → ClusterUtilization
unfolding tally_all fragmentation
cluster_snapshot nodes jobs_running jobs_queued =
    let u = tally_all empty_tally nodes in
    record {
      total_gpus = u.total_gpus;
      used_gpus = u.used_gpus;
      total_cpus = u.total_cpus;
      used_cpus = u.used_cpus;
      total_memory_gb = u.total_memory_gb;
      used_memory_gb = u.used_memory_gb;
      gpu_utilization = ratio u.used_gpus u.total_gpus;
      cpu_utilization = ratio u.used_cpus u.total_cpus;
      memory_utilization = ratio u.used_memory_gb u.total_memory_gb;
      nodes_ready = u.nodes_ready;
      nodes_total = u.nodes_total;
      jobs_running = jobs_running;
      jobs_queued = jobs_queued;
      fragmentation = fragmentation nodes;
    }
