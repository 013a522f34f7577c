-- ===== src/Examples/Execution.antt =====
-- The theorems on the executions of internal/agent at concrete inputs.
use gpu_cluster_scheduler.Common.{
  ℕ, ◌==◌, pos, Bool, true, false, if◌then◌else◌, [], ◌∷◌, ◌≡◌, refl, some, inr, arith,
}
use gpu_cluster_scheduler.Models.{running, Time, release, resource_request}
use gpu_cluster_scheduler.Store.Database.{no_faults, find_where, job_key, node_key}
use gpu_cluster_scheduler.Store.Jobs
use gpu_cluster_scheduler.NodeServer.Handlers.{Assignment, assignment}
use gpu_cluster_scheduler.NodeServer.Transitions.{Holding}
use gpu_cluster_scheduler.Agent.{AgentConfig, is_running, job_seconds}
use gpu_cluster_scheduler.Agent.Execution.{
  pulling, allocated, World, steps, report, end_report, execute, reports_of, lines_of, waits_of,
  step_delay, after_execute, deliver,
}
use gpu_cluster_scheduler.Agent.Reporting.{Course, step_lines, step_waits, sent, execute-Course}
use gpu_cluster_scheduler.Agent.Outcome.{end_status, execute-Ends, execute-strands}
use gpu_cluster_scheduler.Agent.Loops.{
  start, starts, idle, new, later, IsExclusive, reachable-IsExclusive,
}
use gpu_cluster_scheduler.Samples.{low, east, tables}

abbrev agent : AgentConfig
agent = record {
  node_id = "east";
  hostname = "east";
  gpu_capacity = pos 8;
  cpu_capacity = pos 64;
  memory_capacity = pos 256;
  gpu_model = "A100";
  spot = false;
  heartbeat_interval = pos 10;
  poll_interval = pos 3;
  mean_job_seconds = pos 20;
}

-- An undisturbed execution that ends well, and one that is cancelled in its third step.
abbrev calm : World
calm = record { stream = true; cancelled = λ step. false; draw = λ step n. pos 0; fails = false }

abbrev cut_short : World
cut_short = record calm { cancelled = λ step. step == 3 }

abbrev given : Assignment
given = assignment low

abbrev times : ℕ → Time
times n = pos n

abbrev none_lost : ℕ → Bool
none_lost n = false

holding : Holding "low" low east tables
holding = record { job = refl; node = refl; placed = refl }

execute-Course_example :
    (k : ℕ) × (ended : Bool) × Course cut_short steps 1 k ended
    × (reports_of (execute agent cut_short given)
        ≡ report agent given "running" "" (pos 0)
          ∷ (if ended then end_report agent cut_short given ∷ [] else []))
    × (lines_of (execute agent cut_short given)
        ≡ sent cut_short
            (pulling given.image ∷ allocated given.gpu agent.hostname ∷ step_lines cut_short 1 k))
    × (waits_of (execute agent cut_short given)
        ≡ step_waits (step_delay (job_seconds (cut_short.draw 0) agent)) k)
execute-Course_example = execute-Course agent cut_short given

execute-Ends_example :
    let after =
      deliver no_faults none_lost times 0 (reports_of (execute agent calm given)) tables in
    (find_where job_key "low" after.jobs
      ≡ some (Jobs.set_status (end_status calm) (pos 1) (Jobs.set_status running (pos 0) low)))
    × (find_where node_key "east" after.nodes ≡ some (release east (resource_request low)))
unfolding assignment
execute-Ends_example = execute-Ends agent calm given low east times tables (λ i. refl) holding

execute-strands_example :
    let after =
      deliver no_faults none_lost times 0 (reports_of (execute agent cut_short given)) tables in
    (find_where job_key "low" after.jobs ≡ some (Jobs.set_status running (pos 0) low))
    × (after.nodes ≡ tables.nodes)
    × (is_running "low" (after_execute given ("low" ∷ [])) ≡ false)
unfolding assignment
execute-strands_example =
    execute-strands agent cut_short given low east none_lost times ("low" ∷ []) tables refl
      (inr (3, omega arith, omega arith, refl)) holding

reachable-IsExclusive_example : IsExclusive (start given (start given idle))
reachable-IsExclusive_example =
    reachable-IsExclusive agent (later (later new (starts given)) (starts given))
