-- ===== src/Examples/Services.antt =====
-- The theorems on internal/store, internal/grpc, internal/api and the whole system at the sample cluster.
use gpu_cluster_scheduler.Common.{◌+◌, ◌*◌, ◌≤◌, pos, some, [], ◌∷◌, inl, ◌≡◌, refl, arith}
use gpu_cluster_scheduler.Models.{Job, completed, resource_request, release}
use gpu_cluster_scheduler.Fragmentation.{cluster_snapshot}
use gpu_cluster_scheduler.Fragmentation.Bounds.{IsConsistent}
use gpu_cluster_scheduler.Strategies.{best_fit}
use gpu_cluster_scheduler.Strategies.Laws.{best_fit-IsLawful}
use gpu_cluster_scheduler.Store.Database.{Database, no_faults, find_where, node_key}
use gpu_cluster_scheduler.Store.Soundness.{IsSound}
use gpu_cluster_scheduler.NodeServer.Handlers.{parse_status, update_job_status}
use gpu_cluster_scheduler.NodeServer.Transitions.{
  Ended, Holding, update_job_status-Ends, update_job_status-twice,
}
use gpu_cluster_scheduler.NodeServer.Changes.{OneChange, update_job_status-OneChange}
use gpu_cluster_scheduler.Api.Handlers.{created, handle_submit_job}
use gpu_cluster_scheduler.Api.Soundness.{IsAcceptable}
use gpu_cluster_scheduler.Api.Submission.{IsSubmitted, handle_submit_job-accepts}
use gpu_cluster_scheduler.Api.RateLimit.{token, new_bucket}
use gpu_cluster_scheduler.Api.RateLimit.Bounds.{serve_gaps, total, serve_gaps-capacity}
use gpu_cluster_scheduler.System.{registers, submits, ticks, serve, Reach, here, next, empty}
use gpu_cluster_scheduler.System.Reachable.{reachable-IsSound, reachable-IsConsistent}
use gpu_cluster_scheduler.Samples.{whole, low, east, tables, settings, submission, registration}

-- A node registers, a job is submitted, and the scheduler runs a pass.
abbrev registered : Database
registered = serve whole no_faults (best_fit whole) settings (registers (pos 1) registration) empty

abbrev submitted : Database
submitted =
    serve whole no_faults (best_fit whole) settings (submits "train-1" (pos 3) (pos 2) submission)
      registered

abbrev ticked : Database
ticked = serve whole no_faults (best_fit whole) settings (ticks (pos 3)) submitted

history : Reach whole no_faults (best_fit whole) settings empty ticked
history =
    next
      (next
        (next here (registers (pos 1) registration)
          (record { gpu = omega arith; cpu = omega arith; memory = omega arith; rows = tt }))
        (submits "train-1" (pos 3) (pos 2) submission) tt)
      (ticks (pos 3)) tt

reachable-IsSound_example : IsSound ticked
reachable-IsSound_example =
    reachable-IsSound whole no_faults (best_fit whole) settings (best_fit-IsLawful whole) ticked
      history

reachable-IsConsistent_example : IsConsistent (cluster_snapshot ticked.nodes (pos 1) (pos 0))
reachable-IsConsistent_example =
    reachable-IsConsistent whole no_faults (best_fit whole) settings (best_fit-IsLawful whole)
      ticked (pos 1) (pos 0) history

holding : Holding "low" low east tables
holding = record { job = refl; node = refl; placed = refl }

update_job_status-Ends_example :
    Ended
      (pos 60)
      "low"
      completed
      low
      east
      (update_job_status no_faults (pos 60) "low" "completed" tables)
unfolding parse_status
update_job_status-Ends_example =
    update_job_status-Ends (pos 60) "low" "completed" completed low east tables (inl refl) refl
      holding

update_job_status-twice_example :
    let once = (update_job_status no_faults (pos 60) "low" "completed" tables).1 in
    find_where node_key "east" (update_job_status no_faults (pos 61) "low" "completed" once).1.nodes
    ≡ some (release (release east (resource_request low)) (resource_request low))
unfolding parse_status
update_job_status-twice_example =
    update_job_status-twice (pos 60) (pos 61) "low" "completed" completed low east tables (inl refl)
      refl holding

update_job_status-OneChange_example :
    OneChange
      (pos 60)
      "old"
      "running"
      tables.jobs
      (update_job_status no_faults (pos 60) "old" "running" tables).1.jobs
update_job_status-OneChange_example =
    update_job_status-OneChange no_faults (pos 60) "old" "running" tables

acceptable : IsAcceptable submission
acceptable = record {
  user = refl;
  gpu = omega arith;
  cpu = omega arith;
  memory = omega arith;
  something = inl (omega arith);
  at_most = omega arith;
}

handle_submit_job-accepts_example :
    (job : Job) × ((handle_submit_job no_faults "train-1" (pos 3) (pos 40) submission tables).0
      ≡ created job)
    × IsSubmitted submission "train-1"
        (handle_submit_job no_faults "train-1" (pos 3) (pos 40) submission tables).1
        job
handle_submit_job-accepts_example =
    handle_submit_job-accepts no_faults "train-1" (pos 3) (pos 40) submission tables acceptable refl
      refl

serve_gaps-capacity_example :
    let (end, passed) = serve_gaps (new_bucket 1 2 0) (0 ∷ 5 ∷ 0 ∷ []) in
    (passed * token + end.tokens
      ≤ (new_bucket 1 2 0).capacity + total (5 ∷ 0 ∷ []) * (new_bucket 1 2 0).rate)
    × (passed * token + end.tokens
        ≤ (new_bucket 1 2 0).tokens + (0 + total (5 ∷ 0 ∷ [])) * (new_bucket 1 2 0).rate)
serve_gaps-capacity_example = serve_gaps-capacity 0 (5 ∷ 0 ∷ []) (new_bucket 1 2 0)
