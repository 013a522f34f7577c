-- ===== src/Engine/Gauges.antt =====
-- `publishGauges` of internal/scheduler/engine.go, on the collectors of internal/telemetry/metrics.go.
use gpu_cluster_scheduler.Common.{
  ℕ, suc, ◌+◌, ◌≤◌, ◌==◌, length, some, pos, String, true, if◌then◌else◌, List, [], ◌∷◌, ◌++◌, All,
  ◌≡◌, refl, arith,
}
use gpu_cluster_scheduler.Models.{
  Job, Node, ready, node_status_eq, Ratio, gpu_utilization, cpu_utilization, memory_utilization,
}
use gpu_cluster_scheduler.Fragmentation.{fragmentation}
use gpu_cluster_scheduler.Engine.Tick.{queue_depth}
use gpu_cluster_scheduler.Telemetry.{
  Instrument, plain, by_label, gauge, new_metrics, find_instrument, accepts,
}
use gpu_cluster_scheduler.Telemetry.Registry.{IsRegistered}

-- `…WithLabelValues(values).Set(value)`
pub record Setting : Type 0 where
  pub name : String
  pub values : List String
  pub value : Ratio

unfoldable pub set_count : String → List String → ℕ → Setting
set_count name values n = record {
  name = name;
  values = values;
  value = record { num = pos n; den = pos 1 };
}

unfoldable pub node_gauges : Node → List Setting
unfolding gpu_utilization cpu_utilization memory_utilization
node_gauges n =
    record { name = "node_gpu_utilization"; values = n.hostname ∷ []; value = gpu_utilization n }
    ∷ record { name = "node_cpu_utilization"; values = n.hostname ∷ []; value = cpu_utilization n }
    ∷ record {
      name = "node_memory_utilization";
      values = n.hostname ∷ [];
      value = memory_utilization n;
    }
    ∷ []

-- The loop over the nodes: their gauges, and how many are ready.
unfoldable pub gauge_nodes : List Node → List Setting × ℕ
unfolding node_gauges node_status_eq
gauge_nodes [] = ([], 0)
gauge_nodes (n ∷ ns) =
    let (settings, count) = gauge_nodes ns in
    (node_gauges n ++ settings, if node_status_eq n.status ready then suc count else count)

unfoldable pub publish_gauges : List Node → List Job → List Setting
unfolding queue_depth set_count gauge_nodes fragmentation
publish_gauges nodes queued =
    let depth = queue_depth queued in
    let (settings, count) = gauge_nodes nodes in
    set_count "scheduler_queue_depth" ("low" ∷ []) depth.low
      ∷ set_count "scheduler_queue_depth" ("normal" ∷ []) depth.normal
      ∷ set_count "scheduler_queue_depth" ("high" ∷ []) depth.high
      ∷ settings
    ++ (set_count "cluster_nodes_ready" [] count
        ∷ set_count "cluster_nodes_total" [] (length nodes)
        ∷ record { name = "cluster_gpu_fragmentation"; values = []; value = fragmentation nodes }
        ∷ [])

abbrev IsAccepted : List Instrument → Setting → Type 0
IsAccepted registry s = accepts registry s.name s.values ≡ true

queue_depth-sum :
    (js : List Job)
    → (queue_depth js).low + (queue_depth js).normal + (queue_depth js).high ≡ length js
unfolding queue_depth
queue_depth-sum [] = omega arith
queue_depth-sum (j ∷ js) = ground (arith, queue_depth-sum js)

gauge_nodes-le : (ns : List Node) → (gauge_nodes ns).1 ≤ length ns
unfolding gauge_nodes
gauge_nodes-le [] = omega arith
gauge_nodes-le (n ∷ ns) = ground (arith, gauge_nodes-le ns)

All-append : {A : Type 0} (P : A → Type 0) (xs ys : List A) → All P xs → All P ys → All P (xs ++ ys)
All-append P [] ys h k = k
All-append P (x ∷ xs) ys h k = (h.0, All-append P xs ys h.1 k)

module _ (registry : List Instrument) (made : IsRegistered registry new_metrics) where
  fits :
      (i : Instrument) (values : List String)
      → find_instrument i.name registry ≡ some i
      → (length values == length i.labels) ≡ true
      → accepts registry i.name values ≡ true
  unfolding accepts
  fits i values e same = rw (accepts, e) same

  gauge_nodes-IsAccepted : (ns : List Node) → All (IsAccepted registry) (gauge_nodes ns).0
  unfolding gauge_nodes node_gauges new_metrics
  gauge_nodes-IsAccepted [] = tt
  gauge_nodes-IsAccepted (n ∷ ns) =
      let per_node = made.1.1.1.1.1.1 in
      (
        fits (by_label "node_gpu_utilization" gauge ("node" ∷ [])) (n.hostname ∷ []) per_node.0
            refl,
        (
          fits (by_label "node_cpu_utilization" gauge ("node" ∷ [])) (n.hostname ∷ []) per_node.1.0
              refl,
          (
            fits (by_label "node_memory_utilization" gauge ("node" ∷ [])) (n.hostname ∷ [])
                per_node.1.1.0 refl,
            gauge_nodes-IsAccepted ns,
          ),
        ),
      )

  -- On the collectors of NewMetrics no gauge of a pass is refused, which would be a panic: each
  -- exists, and is given as many values as it has labels. The three bands of the queue add up to the
  -- queue, and no more nodes are counted as ready than there are.
  pub publish_gauges-IsAccepted :
      (nodes : List Node) (queued : List Job)
      → All (λ s. accepts registry s.name s.values ≡ true) (publish_gauges nodes queued)
        × ((queue_depth queued).low + (queue_depth queued).normal + (queue_depth queued).high
            ≡ length queued)
        × ((gauge_nodes nodes).1 ≤ length nodes)
  unfolding publish_gauges set_count new_metrics
  publish_gauges-IsAccepted nodes queued =
      let depth = λ (band : String).
        fits (by_label "scheduler_queue_depth" gauge ("band" ∷ [])) (band ∷ []) made.1.0 refl in
      let of_cluster = made.1.1.1.1.1.1.1.1.1 in
      (
        (
          depth "low",
          (
            depth "normal",
            (
              depth "high",
              All-append (IsAccepted registry) (gauge_nodes nodes).0 _
                  (gauge_nodes-IsAccepted nodes)
                  (
                    fits (plain "cluster_nodes_ready" gauge) [] of_cluster.0 refl,
                    (
                      fits (plain "cluster_nodes_total" gauge) [] of_cluster.1.0 refl,
                      (fits (plain "cluster_gpu_fragmentation" gauge) [] of_cluster.1.1.0 refl, tt),
                    ),
                  ),
            ),
          ),
        ),
        queue_depth-sum queued,
        gauge_nodes-le nodes,
      )
