-- ===== src/Examples/Recovery.antt =====
-- The theorems on lost updates, dead nodes and gauges of internal/scheduler/engine.go at concrete inputs.
use gpu_cluster_scheduler.Common.{
  ◌-ℤ◌, ◌+◌, ◌≤◌, length, pos, true, List, [], All, ◌≡◌, refl, some, inl, arith,
}
use gpu_cluster_scheduler.Models.{
  is_active, completed, down, reserve, release, resource_request, no_node,
}
use gpu_cluster_scheduler.Strategies.{best_fit}
use gpu_cluster_scheduler.Store.Database.{no_faults, ok, find_where, job_key, node_key}
use gpu_cluster_scheduler.Store.Jobs
use gpu_cluster_scheduler.NodeServer.Handlers.{parse_status, release_on, update_job_status}
use gpu_cluster_scheduler.NodeServer.Transitions.{Holding}
use gpu_cluster_scheduler.Engine.Pass.{Pass, commit_placement}
use gpu_cluster_scheduler.Engine.Tick.{queue_depth, reconcile_dead_nodes}
use gpu_cluster_scheduler.Engine.Races.{commit_placement-loses, release_on-loses}
use gpu_cluster_scheduler.Engine.Rescue.{rescued}
use gpu_cluster_scheduler.Engine.Reconcile.{reconcile_dead_nodes-rescued}
use gpu_cluster_scheduler.Telemetry.{Instrument, new_metrics, find_instrument, accepts}
use gpu_cluster_scheduler.Telemetry.Registry.{IsRegistered, new_metrics-IsRegistered}
use gpu_cluster_scheduler.Engine.Gauges.{gauge_nodes, publish_gauges, publish_gauges-IsAccepted}
use gpu_cluster_scheduler.Samples.{whole, low, small, east, cluster, jobs, tables, runs, settings}

abbrev pass : Pass
pass = record { nodes = cluster; running = runs; db = tables }

holding : Holding "low" low east tables
holding = record { job = refl; node = refl; placed = refl }

-- `low` ends on `east` while the pass puts `small` there.
commit_placement-loses_example :
    let reported = (update_job_status no_faults (pos 60) "low" "completed" tables).1 in
    let after =
      (commit_placement whole no_faults
        (best_fit whole)
        settings
        small
        0
        east
        no_node
        (pos 61)
        (record pass { db = reported })).db in
    (find_where job_key "low" after.jobs ≡ some (Jobs.set_status completed (pos 60) low))
    × (find_where node_key "east" after.nodes ≡ some (reserve east (resource_request small)))
unfolding parse_status
commit_placement-loses_example =
    commit_placement-loses whole (best_fit whole) settings small low 0 east no_node (pos 60)
      (pos 61) pass "low" "completed" completed (inl refl) refl holding refl

release_on-loses_example :
    let placed =
      (commit_placement whole no_faults
        (best_fit whole)
        settings
        small
        0
        east
        no_node
        (pos 61)
        pass).db in
    let after = release_on no_faults low (ok east) placed in
    (find_where job_key "small" after.jobs ≡ some (Jobs.set_scheduled "east" small))
    × (find_where node_key "east" after.nodes ≡ some (release east (resource_request low)))
release_on-loses_example =
    release_on-loses whole (best_fit whole) settings small low small 0 east no_node (pos 61) pass
      refl refl

-- At 60 no node has been heard of for longer than the time to live.
reconcile_dead_nodes-rescued_example :
    let after = reconcile_dead_nodes whole no_faults (best_fit whole) settings (pos 60) tables in
    (find_where job_key "low" after.jobs ≡ some (rescued (pos 60) low))
    × (find_where node_key "east" after.nodes ≡ some (record east { status = down }))
unfolding reconcile_dead_nodes is_active ◌-ℤ◌
reconcile_dead_nodes-rescued_example =
    reconcile_dead_nodes-rescued whole (best_fit whole) settings (pos 60) low east tables
      (ground arith) refl refl refl refl

-- The collectors on an empty registry.
registered : (registry : List Instrument) × IsRegistered registry new_metrics
unfolding new_metrics find_instrument
registered =
    let (registry, made, found) = new_metrics-IsRegistered [] (ground arith) in (registry, found)

publish_gauges-IsAccepted_example :
    All (λ s. accepts registered.0 s.name s.values ≡ true) (publish_gauges cluster jobs)
    × ((queue_depth jobs).low + (queue_depth jobs).normal + (queue_depth jobs).high ≡ length jobs)
    × ((gauge_nodes cluster).1 ≤ length cluster)
publish_gauges-IsAccepted_example = publish_gauges-IsAccepted registered.0 registered.1 cluster jobs
