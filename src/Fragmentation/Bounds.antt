-- ===== src/Fragmentation/Bounds.antt =====
-- The figures of internal/scheduler/fragmentation.go lie where its comments put them.
use gpu_cluster_scheduler.Common.{
  ℤ, pos, ◌+ℤ◌, ◌-ℤ◌, ◌≤ℤ◌, ltb_ℤ, +ℤ_parts, int_laws, Bool-cases, inl, inr, List, [], ◌∷◌, All,
  arith,
}
use gpu_cluster_scheduler.Models.{Node, schedulable, ready, node_status_eq, ClusterUtilization}
use gpu_cluster_scheduler.Models.Capacity.{
  Between, IsWithin, IsProper, fraction-IsProper, used-Between,
}
use gpu_cluster_scheduler.Fragmentation.{
  FreeBlocks, count_node, count_free, fragmentation, Tally, empty_tally, tally_node, tally_all,
  cluster_snapshot,
}

abbrev LargestFits : FreeBlocks → Type 0
LargestFits b = (pos 0 ≤ℤ b.largest) × (b.largest ≤ℤ b.total)

count_node-LargestFits :
    (b : FreeBlocks) (n : Node) → IsWithin n → LargestFits b → LargestFits (count_node b n)
unfolding count_node
count_node-LargestFits b n w h = elim (Bool-cases (schedulable n.status)) [
  | inl s ↦ elim (Bool-cases (ltb_ℤ b.largest n.gpu_available)) [
    | inl l ↦ rw (s, l) (omega (arith, +ℤ_parts b.total n.gpu_available, w.gpu))
    | inr l ↦ rw (s, l) (omega (arith, +ℤ_parts b.total n.gpu_available, w.gpu))
  ]
  | inr s ↦ rw s h
]

count_free-LargestFits :
    (ns : List Node) (b : FreeBlocks)
    → All IsWithin ns
    → LargestFits b
    → LargestFits (count_free b ns)
unfolding count_free
count_free-LargestFits [] b w h = h
count_free-LargestFits (n ∷ ns) b w h =
    count_free-LargestFits ns (count_node b n) w.1 (count_node-LargestFits b n w.0 h)

-- The fragmentation index of nodes in range is a proper fraction, also where no GPU is free.
pub fragmentation-IsProper :
    (nodes : List Node) → All IsWithin nodes → IsProper (fragmentation nodes)
unfolding fragmentation
fragmentation-IsProper nodes w =
    let b = count_free (record { total = pos 0; largest = pos 0 }) nodes in
    let h : LargestFits b = count_free-LargestFits nodes _ w (omega arith) in
    fraction-IsProper b.total (b.total -ℤ b.largest) (used-Between b.largest b.total h)

record IsSane (u : Tally) : Type 0 where
  gpu : Between (pos 0) u.used_gpus u.total_gpus
  cpu : Between (pos 0) u.used_cpus u.total_cpus
  memory : Between (pos 0) u.used_memory_gb u.total_memory_gb
  nodes : Between (pos 0) u.nodes_ready u.nodes_total

add-Between :
    (u t d c : ℤ) → Between (pos 0) u t → Between (pos 0) d c → Between (pos 0) (u +ℤ d) (t +ℤ c)
add-Between u t d c h k = omega int_laws

tally_node-IsSane : (u : Tally) (n : Node) → IsWithin n → IsSane u → IsSane (tally_node u n)
unfolding tally_node
tally_node-IsSane u n w h = record {
  gpu =
      add-Between u.used_gpus u.total_gpus _ n.gpu_capacity h.gpu
        (used-Between n.gpu_available n.gpu_capacity w.gpu);
  cpu =
      add-Between u.used_cpus u.total_cpus _ n.cpu_capacity h.cpu
        (used-Between n.cpu_available n.cpu_capacity w.cpu);
  memory =
      add-Between u.used_memory_gb u.total_memory_gb _ n.memory_capacity h.memory
        (used-Between n.memory_available n.memory_capacity w.memory);
  nodes = elim (Bool-cases (node_status_eq n.status ready)) [
    | inl e ↦
        rw e
          (omega (arith, h.nodes, +ℤ_parts u.nodes_ready (pos 1), +ℤ_parts u.nodes_total (pos 1)))
    | inr e ↦ rw e (omega (arith, h.nodes, +ℤ_parts u.nodes_total (pos 1)))
  ];
}

tally_all-IsSane :
    (u : Tally) (ns : List Node) → All IsWithin ns → IsSane u → IsSane (tally_all u ns)
unfolding tally_all
tally_all-IsSane u [] w h = h
tally_all-IsSane u (n ∷ ns) w h =
    tally_all-IsSane (tally_node u n) ns w.1 (tally_node-IsSane u n w.0 h)

-- What holds of a snapshot.
pub record IsConsistent (s : ClusterUtilization) : Type 0 where
  pub gpus : Between (pos 0) s.used_gpus s.total_gpus
  pub cpus : Between (pos 0) s.used_cpus s.total_cpus
  pub memory : Between (pos 0) s.used_memory_gb s.total_memory_gb
  pub nodes : Between (pos 0) s.nodes_ready s.nodes_total
  pub gpu_utilization : IsProper s.gpu_utilization
  pub cpu_utilization : IsProper s.cpu_utilization
  pub memory_utilization : IsProper s.memory_utilization
  pub fragmentation : IsProper s.fragmentation

-- In a snapshot of nodes in range no resource has more in use than there is, no more nodes are ready
-- than there are, and the three utilizations and the fragmentation index are proper fractions.
pub cluster_snapshot-IsConsistent :
    (nodes : List Node) (jobs_running jobs_queued : ℤ)
    → All IsWithin nodes
    → IsConsistent (cluster_snapshot nodes jobs_running jobs_queued)
unfolding cluster_snapshot
cluster_snapshot-IsConsistent nodes jobs_running jobs_queued w =
    let u = tally_all empty_tally nodes in
    let h : IsSane u = tally_all-IsSane empty_tally nodes w (record {
      gpu = omega arith;
      cpu = omega arith;
      memory = omega arith;
      nodes = omega arith;
    }) in
    record {
      gpus = h.gpu;
      cpus = h.cpu;
      memory = h.memory;
      nodes = h.nodes;
      gpu_utilization = fraction-IsProper u.total_gpus u.used_gpus h.gpu;
      cpu_utilization = fraction-IsProper u.total_cpus u.used_cpus h.cpu;
      memory_utilization = fraction-IsProper u.total_memory_gb u.used_memory_gb h.memory;
      fragmentation = fragmentation-IsProper nodes w;
    }
