-- ===== src/Telemetry.antt =====
-- internal/telemetry: the collectors of metrics.go on a registry of Prometheus, and `InitTracer` of tracing.go with what
-- its libraries answer as arguments. The help texts and the buckets are left out.
pub mod Registry
use gpu_cluster_scheduler.Common.{
  ℕ, length, ◌==◌, String, str_eq, Bool, not, true, false, ◌||◌, if◌then◌else◌, Option, none, some,
  List, [], ◌∷◌,
}

pub data Kind : Type 0 where
  counter gauge histogram : Kind

-- A collector, with the names of its labels.
pub record Instrument : Type 0 where
  pub name : String
  pub kind : Kind
  pub labels : List String

abbrev pub plain : String → Kind → Instrument
plain name kind = record { name = name; kind = kind; labels = [] }

abbrev pub by_label : String → Kind → List String → Instrument
by_label name kind labels = record { name = name; kind = kind; labels = labels }

-- The collectors that `NewMetrics` registers, in its order, after the two of the Go runtime.
unfoldable pub new_metrics : List Instrument
new_metrics =
    by_label "scheduler_jobs_total" counter ("status" ∷ [])
    ∷ by_label "scheduler_queue_depth" gauge ("band" ∷ [])
    ∷ plain "scheduler_latency_seconds" histogram
    ∷ plain "failed_schedules_total" counter
    ∷ plain "scheduler_preemptions_total" counter
    ∷ plain "scheduler_runs_total" counter
    ∷ by_label "node_gpu_utilization" gauge ("node" ∷ [])
    ∷ by_label "node_cpu_utilization" gauge ("node" ∷ [])
    ∷ by_label "node_memory_utilization" gauge ("node" ∷ [])
    ∷ plain "cluster_nodes_ready" gauge
    ∷ plain "cluster_nodes_total" gauge
    ∷ plain "cluster_gpu_fragmentation" gauge
    ∷ by_label "http_requests_total" counter ("method" ∷ "route" ∷ "status" ∷ [])
    ∷ by_label "http_request_duration_seconds" histogram ("method" ∷ "route" ∷ [])
    ∷ []

unfoldable pub find_instrument : String → List Instrument → Option Instrument
find_instrument name [] = none
find_instrument name (i ∷ is) =
    let rest = find_instrument name is in if str_eq i.name name then some i else rest

-- `MustRegister` on what is registered: `none` is its panic on a name that is taken.
unfoldable pub register_all : List Instrument → List Instrument → Option (List Instrument)
unfolding find_instrument
register_all registry [] = some registry
register_all registry (i ∷ is) = elim (find_instrument i.name registry) [
  | none ↦ register_all (i ∷ registry) is
  | some taken ↦ none
]

-- `WithLabelValues` accepts as many values as the collector has labels, and panics otherwise.
unfoldable pub accepts : List Instrument → String → List String → Bool
unfolding find_instrument
accepts registry name values = elim (find_instrument name registry) [
  | none ↦ false
  | some i ↦ length values == length i.labels
]

pub record TracerConfig : Type 0 where
  pub enabled : Bool
  pub otlp_endpoint : String

-- What is installed: a provider that exports, or the one that does nothing.
pub data Tracing : Type 0 where
  exporting idle : Tracing

pub data TracerError : Type 0 where
  no_exporter no_resource : TracerError

pub data Started : Type 0 where
  started : Tracing → Started
  refused : TracerError → Started

-- With whether the exporter and the resource can be made.
unfoldable pub init_tracer : TracerConfig → Bool → Bool → Started
init_tracer cfg exporter resource =
    if not cfg.enabled || str_eq cfg.otlp_endpoint ""
    then started idle
    else if not exporter
    then refused no_exporter
    else if not resource
    then refused no_resource
    else started exporting
