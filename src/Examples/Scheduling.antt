-- ===== src/Examples/Scheduling.antt =====
-- The theorems on internal/scheduler and internal/models at the sample cluster.
use mathlib.Core.List.{Perm}
use gpu_cluster_scheduler.Common.{
  pos, ◌+ℤ◌, ◌<ℤ◌, ◌≤ℤ◌, str_eq, true, false, some, [], ◌∷◌, map, All, Pairwise, ◌≡◌, refl, arith,
}
use gpu_cluster_scheduler.Models.{Node, no_node, fits, schedulable, is_terminal, resource_request}
use gpu_cluster_scheduler.Models.Capacity.{IsWithin, IsNonneg}
use gpu_cluster_scheduler.Placement.{first_fit_node, best_fit_node}
use gpu_cluster_scheduler.Placement.FirstFit.{FirstFitSpec, first_fit_node-FirstFitSpec}
use gpu_cluster_scheduler.Placement.BestFit.{LeastSpec, best_fit_node-LeastSpec}
use gpu_cluster_scheduler.Strategies.{
  best_fit, stamp, priority_order, fair_share_order, effective_priority, new,
}
use gpu_cluster_scheduler.Strategies.Ordering.{
  HigherFirst, FairerFirst, priority_order-HigherFirst, fair_share_order-FairerFirst,
  effective_priority_mono,
}
use gpu_cluster_scheduler.Strategies.Laws.{IsLawful, OnSome, best_fit-IsLawful, new-IsLawful}
use gpu_cluster_scheduler.Preemption.{PreemptionPlan, candidates, find_preemption, victims_on}
use gpu_cluster_scheduler.Preemption.Victims.{IsQueue, VictimsSpec, victims_on-VictimsSpec}
use gpu_cluster_scheduler.Preemption.Plan.{MinimalSpec, find_preemption-MinimalSpec}
use gpu_cluster_scheduler.Preemption.Room.{release_all, release_all-fits, victims-eligible}
use gpu_cluster_scheduler.Store.Database.{no_faults, find_where, job_key}
use gpu_cluster_scheduler.Store.Soundness.{IsSound}
use gpu_cluster_scheduler.Engine.Pass.{Pass, apply_preemption, preempt_for}
use gpu_cluster_scheduler.Engine.Retrying.{HasNode, preempt_for-HasNode}
use gpu_cluster_scheduler.Engine.Conserving.{IsMirror}
use gpu_cluster_scheduler.Engine.Tick.{tick}
use gpu_cluster_scheduler.Engine.Capacity.{tick-IsSound}
use gpu_cluster_scheduler.Engine.Finished.{tick-keeps_finished}
use gpu_cluster_scheduler.Samples.{
  whole, whole-IsOrderedFloat, whole-IsMonotone, low, urgent, small, old, east, west, cluster, jobs,
  tables, runs, settings, context,
}

east-IsWithin : IsWithin east
east-IsWithin = record {
  gpu = (omega arith, omega arith);
  cpu = (omega arith, omega arith);
  memory = (omega arith, omega arith);
}

west-IsWithin : IsWithin west
west-IsWithin = record {
  gpu = (omega arith, omega arith);
  cpu = (omega arith, omega arith);
  memory = (omega arith, omega arith);
}

small-IsNonneg : IsNonneg (resource_request small)
unfolding resource_request
small-IsNonneg = record { gpu = omega arith; cpu = omega arith; memory = omega arith }

low-IsNonneg : IsNonneg (resource_request low)
unfolding resource_request
low-IsNonneg = record { gpu = omega arith; cpu = omega arith; memory = omega arith }

small-fits : fits east (resource_request small) ≡ true
unfolding fits resource_request schedulable
small-fits = refl

pub tables-IsSound : IsSound tables
unfolding resource_request
tables-IsSound = record {
  job_keys = ((refl, (refl, (refl, tt))), ((refl, (refl, tt)), ((refl, tt), (tt, tt))));
  node_keys = ((refl, tt), (tt, tt));
  within = (east-IsWithin, (west-IsWithin, tt));
  nonneg = (
    low-IsNonneg,
    (
      record { gpu = omega arith; cpu = omega arith; memory = omega arith },
      (small-IsNonneg, (record { gpu = omega arith; cpu = omega arith; memory = omega arith }, tt)),
    ),
  );
}

tick-IsSound_example : IsSound (tick whole no_faults (best_fit whole) settings (pos 20) tables).1
tick-IsSound_example =
    tick-IsSound whole no_faults (best_fit whole) settings (best_fit-IsLawful whole) (pos 20) tables
      tables-IsSound

tick-keeps_finished_example :
    (find_where job_key "old"
        (tick whole no_faults (best_fit whole) settings (pos 20) tables).1.jobs
      ≡ some old)
    × (map job_key (tick whole no_faults (best_fit whole) settings (pos 20) tables).1.jobs
        ≡ map job_key tables.jobs)
unfolding is_terminal
tick-keeps_finished_example =
    tick-keeps_finished whole no_faults (best_fit whole) settings (best_fit-IsLawful whole) (pos 20)
      tables "old" old tables-IsSound.job_keys refl refl

first_fit_node-FirstFitSpec_example :
    FirstFitSpec (resource_request small) cluster (first_fit_node small cluster)
first_fit_node-FirstFitSpec_example = first_fit_node-FirstFitSpec small cluster

best_fit_node-LeastSpec_example :
    LeastSpec (resource_request small) cluster (best_fit_node small cluster)
best_fit_node-LeastSpec_example = best_fit_node-LeastSpec small cluster

priority_order-HigherFirst_example :
    Perm (priority_order whole jobs context (pos 40)) (map (stamp whole context (pos 40)) jobs)
    × Pairwise (HigherFirst whole) (priority_order whole jobs context (pos 40))
priority_order-HigherFirst_example = priority_order-HigherFirst whole jobs context (pos 40)

fair_share_order-FairerFirst_example :
    Perm (fair_share_order whole jobs context (pos 40)) jobs
    × Pairwise (FairerFirst whole context (pos 40)) (fair_share_order whole jobs context (pos 40))
fair_share_order-FairerFirst_example =
    fair_share_order-FairerFirst whole whole-IsOrderedFloat jobs context (pos 40)

effective_priority_mono_example :
    effective_priority whole small (pos 40) (pos 1)
    ≤ℤ effective_priority whole urgent (pos 40) (pos 1)
effective_priority_mono_example =
    effective_priority_mono whole whole-IsOrderedFloat whole-IsMonotone urgent small (pos 40)
      (pos 1) refl (omega arith) (omega arith)

new-IsLawful_example : OnSome whole (IsLawful whole) (new whole "fair-share")
new-IsLawful_example = new-IsLawful whole "fair-share"

victims_on-VictimsSpec_example :
    IsQueue urgent (runs east.node_id) (candidates urgent (runs east.node_id))
    × VictimsSpec urgent runs east (victims_on urgent runs east)
victims_on-VictimsSpec_example = victims_on-VictimsSpec urgent runs east

find_preemption-MinimalSpec_example :
    MinimalSpec urgent runs cluster (find_preemption urgent cluster runs)
find_preemption-MinimalSpec_example = find_preemption-MinimalSpec urgent cluster runs

abbrev plan : PreemptionPlan
plan = record { index = 0; node = east; victims = low ∷ [] }

plan_found : find_preemption urgent cluster runs ≡ some plan
unfolding find_preemption schedulable resource_request ◌+ℤ◌
plan_found = refl

release_all-fits_example : fits (release_all east (low ∷ [])) (resource_request urgent) ≡ true
release_all-fits_example =
    release_all-fits urgent cluster runs {p = plan} plan_found (low-IsNonneg, tt)
      (unfold resource_request in
        record { gpu = omega arith; cpu = omega arith; memory = omega arith })

victims-eligible_example :
    All (λ v. (v.priority <ℤ urgent.priority) × (str_eq v.user_id "" ≡ false)) plan.victims
victims-eligible_example = victims-eligible urgent cluster runs {p = plan} plan_found

abbrev before : Pass
before = record { nodes = cluster; running = runs; db = tables }

before-IsMirror : IsMirror before
before-IsMirror = record {
  copies = ((refl, tt), (tt, tt));
  rows = ((refl, tt), (tt, tt));
  same = λ id. refl;
}

preempt_for-HasNode_example :
    let after =
      preempt_for whole no_faults (best_fit whole) settings urgent no_node (pos 40) before in
    (m : Node) × HasNode urgent
      (apply_preemption whole no_faults (best_fit whole) settings plan (pos 40) before)
      after
      m
    × IsMirror after
preempt_for-HasNode_example =
    preempt_for-HasNode whole (best_fit whole) settings (best_fit-IsLawful whole) urgent no_node
      (pos 40) before {plan = plan} plan_found (low-IsNonneg, tt)
      (unfold resource_request in
        record { gpu = omega arith; cpu = omega arith; memory = omega arith })
      before-IsMirror (urgent, refl)
