-- ===== src/Examples/Lifecycle.antt =====
-- The way of a job from the queue to its end at concrete inputs.
use gpu_cluster_scheduler.Common.{
  ℕ, pos, true, false, [], ◌∷◌, All, select, ◌-ℤ◌, ◌+◌, ◌≡◌, refl, inl, arith,
}
use gpu_cluster_scheduler.Models.{Node, Time, queued, resource_request, fits, schedulable}
use gpu_cluster_scheduler.Strategies.{best_fit}
use gpu_cluster_scheduler.Strategies.Laws.{best_fit-IsLawful}
use gpu_cluster_scheduler.Store.Database.{Database, no_faults}
use gpu_cluster_scheduler.Store.Jobs
use gpu_cluster_scheduler.Store.Nodes
use gpu_cluster_scheduler.Store.Soundness.{IsSound}
use gpu_cluster_scheduler.Engine.Pass.{SchedulerConfig}
use gpu_cluster_scheduler.Engine.Conserving.Tick.{IsServed, tick-IsServed}
use gpu_cluster_scheduler.Examples.Scheduling.{tables-IsSound}
use gpu_cluster_scheduler.Engine.Tick.{tick}
use gpu_cluster_scheduler.Engine.Placed.{IsFresh, IsPlacedOn, tick-IsPlacedOn}
use gpu_cluster_scheduler.Agent.{AgentConfig}
use gpu_cluster_scheduler.Agent.Execution.{World}
use gpu_cluster_scheduler.System.Lifecycle.{HasRun, tick-execute-Ends}
use gpu_cluster_scheduler.Samples.{whole, low, small, old, east, cluster, tables, settings}

-- `small` is the only job that waits.
abbrev waiting : Database
waiting = record { jobs = low ∷ small ∷ old ∷ []; nodes = cluster; events = []; queries = 0 }

waiting-IsSound : IsSound waiting
unfolding resource_request
waiting-IsSound = record {
  job_keys = ((refl, (refl, tt)), ((refl, tt), (tt, tt)));
  node_keys = ((refl, tt), (tt, tt));
  within = (
    record { gpu = omega arith; cpu = omega arith; memory = omega arith },
    (record { gpu = omega arith; cpu = omega arith; memory = omega arith }, tt),
  );
  nonneg = (
    record { gpu = omega arith; cpu = omega arith; memory = omega arith },
    (
      record { gpu = omega arith; cpu = omega arith; memory = omega arith },
      (record { gpu = omega arith; cpu = omega arith; memory = omega arith }, tt),
    ),
  );
}

fresh : All (IsFresh (pos 20) settings.heartbeat_ttl) cluster
unfolding Nodes.is_stale ◌-ℤ◌
fresh = (refl, (refl, tt))

alone : select (Jobs.matches (Jobs.status_filter (queued ∷ []))) waiting.jobs ≡ small ∷ []
unfolding Jobs.matches
alone = refl

room : fits east (resource_request small) ≡ true
unfolding fits resource_request schedulable
room = refl

tick-IsPlacedOn_example :
    (m : Node) × IsPlacedOn small m waiting
      (tick whole no_faults (best_fit whole) settings (pos 20) waiting).1
tick-IsPlacedOn_example =
    tick-IsPlacedOn whole (best_fit whole) settings (best_fit-IsLawful whole) (pos 20) small east
      waiting waiting-IsSound.node_keys fresh alone (inl refl) room

abbrev agent : AgentConfig
agent = record {
  node_id = "east";
  hostname = "east";
  gpu_capacity = pos 8;
  cpu_capacity = pos 64;
  memory_capacity = pos 256;
  gpu_model = "A100";
  spot = false;
  heartbeat_interval = pos 10;
  poll_interval = pos 3;
  mean_job_seconds = pos 20;
}

abbrev calm : World
calm = record { stream = true; cancelled = λ step. false; draw = λ step n. pos 0; fails = false }

abbrev times : ℕ → Time
times n = pos (100 + n)

tick-execute-Ends_example :
    (m : Node) × HasRun agent calm times small m waiting
      (tick whole no_faults (best_fit whole) settings (pos 20) waiting).1
tick-execute-Ends_example =
    tick-execute-Ends whole (best_fit whole) settings (best_fit-IsLawful whole) (pos 20) times agent
      calm small east waiting waiting-IsSound (refl, (refl, tt)) fresh alone (inl refl) room
      (λ i. refl)

-- A pass without preemption on the tables, where two jobs wait and one of them finds no node.
abbrev calm_settings : SchedulerConfig whole
calm_settings = record settings { enable_preemption = false }

tick-IsServed_example :
    All
      (IsServed (tick whole no_faults (best_fit whole) calm_settings (pos 20) tables).1)
      (select (Jobs.matches (Jobs.status_filter (queued ∷ []))) tables.jobs)
tick-IsServed_example =
    tick-IsServed whole (best_fit whole) calm_settings (best_fit-IsLawful whole) refl (pos 20)
      tables tables-IsSound fresh
