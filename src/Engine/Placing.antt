-- ===== src/Engine/Placing.antt =====
-- The body of the loop in `Tick` of internal/scheduler/engine.go keeps what a pass keeps.
use gpu_cluster_scheduler.Common.{
  Bool-cases, ◌&&◌, if◌then◌else◌, inl, inr, Option, none, some, List, [], ◌∷◌, All, ◌≡◌, refl,
  subst,
}
use gpu_cluster_scheduler.Models.{Job, Time, Reason, by_preemption}
use gpu_cluster_scheduler.Placement.{Placement, placed, unplaced}
use gpu_cluster_scheduler.Preemption.{PreemptionPlan, find_preemption}
use gpu_cluster_scheduler.Preemption.Plan.{IsLeast, PlanSpec, find_preemption-PlanSpec}
use gpu_cluster_scheduler.Preemption.Room.{All-victims}
use gpu_cluster_scheduler.Strategies.Float.{Float64}
use gpu_cluster_scheduler.Strategies.{Algorithm}
use gpu_cluster_scheduler.Strategies.Laws.{PlaceSpec, IsLawful}
use gpu_cluster_scheduler.Store.Database.{Faults}
use gpu_cluster_scheduler.Store.Soundness.{IsNonnegJob}
use gpu_cluster_scheduler.Engine.Pass.{
  SchedulerConfig, Pass, commit_placement, apply_preemption, should_preempt, give_up,
  retry_placement, preempt_for, place_one, place_all,
}
use gpu_cluster_scheduler.Engine.Invariants.{
  PassInv, give_up-PassInv, commit_placement-PassInv, apply_preemption-PassInv,
}

module _ (float : Float64) (faults : Faults) (alg : Algorithm float)
    (cfg : SchedulerConfig float) where
  module _ (lawful : IsLawful float alg) where
    retry_end :
        (job : Job) (now : Time) (s : Pass) (p : Placement)
        → PassInv s
        → IsNonnegJob job
        → PlaceSpec job s.nodes p
        → PassInv (elim p [
          | placed i node reason ↦
              commit_placement float faults alg cfg job i node (by_preemption reason) now s
          | unplaced reason ↦ give_up float faults alg cfg job reason now s
        ])
    retry_end job now s (placed i node reason) h p spec =
        commit_placement-PassInv float faults alg cfg job i node (by_preemption reason) now s h p
          spec.0 spec.1
    retry_end job now s (unplaced reason) h p spec =
        give_up-PassInv float faults alg cfg job reason now s h

    retry_placement-PassInv :
        (job : Job) (now : Time) (s : Pass)
        → PassInv s
        → IsNonnegJob job
        → PassInv (retry_placement float faults alg cfg job now s)
    unfolding retry_placement
    retry_placement-PassInv job now s h p =
        retry_end job now s (alg.place job s.nodes) h p (lawful.place_lem job s.nodes)

    preempt_end :
        (job : Job) (reason : Reason) (now : Time) (s : Pass) (found : Option PreemptionPlan)
        → find_preemption job s.nodes s.running ≡ found
        → PassInv s
        → IsNonnegJob job
        → PassInv (elim found [
          | none ↦ give_up float faults alg cfg job reason now s
          | some plan ↦
              retry_placement float faults alg cfg job now
                (apply_preemption float faults alg cfg plan now s)
        ])
    preempt_end job reason now s none e h p =
        give_up-PassInv float faults alg cfg job reason now s h
    preempt_end job reason now s (some plan) e h p =
        let least : IsLeast job s.running s.nodes plan =
          subst (PlanSpec job s.running s.nodes) e
            (find_preemption-PlanSpec job s.nodes s.running) in
        retry_placement-PassInv job now _
          (apply_preemption-PassInv float faults alg cfg plan now s h least.at
            (All-victims IsNonnegJob job s.nodes s.running e (h.runs plan.node.node_id)))
          p

    preempt_for-PassInv :
        (job : Job) (reason : Reason) (now : Time) (s : Pass)
        → PassInv s
        → IsNonnegJob job
        → PassInv (preempt_for float faults alg cfg job reason now s)
    unfolding preempt_for
    preempt_for-PassInv job reason now s h p = preempt_end job reason now s _ refl h p

    place_end :
        (job : Job) (now : Time) (s : Pass) (p : Placement)
        → PassInv s
        → IsNonnegJob job
        → PlaceSpec job s.nodes p
        → PassInv (elim p [
          | placed i node reason ↦ commit_placement float faults alg cfg job i node reason now s
          | unplaced reason ↦
              if cfg.enable_preemption && should_preempt float faults alg cfg job now
              then preempt_for float faults alg cfg job reason now s
              else give_up float faults alg cfg job reason now s
        ])
    place_end job now s (placed i node reason) h p spec =
        commit_placement-PassInv float faults alg cfg job i node reason now s h p spec.0 spec.1
    place_end job now s (unplaced reason) h p spec =
        elim (Bool-cases (cfg.enable_preemption && should_preempt float faults alg cfg job now)) [
          | inl e ↦ rw e (preempt_for-PassInv job reason now s h p)
          | inr e ↦ rw e (give_up-PassInv float faults alg cfg job reason now s h)
        ]

    -- Placing one job, with preemption or without, keeps every node struct and every row of the nodes table
    -- between empty and its capacity, whichever queries fail.
    pub place_one-PassInv :
        (now : Time) (job : Job) (s : Pass)
        → PassInv s
        → IsNonnegJob job
        → PassInv (place_one float faults alg cfg now job s)
    unfolding place_one
    place_one-PassInv now job s h p =
        place_end job now s (alg.place job s.nodes) h p (lawful.place_lem job s.nodes)

    pub place_all-PassInv :
        (now : Time) (jobs : List Job) (s : Pass)
        → PassInv s
        → All IsNonnegJob jobs
        → PassInv (place_all float faults alg cfg now jobs s)
    unfolding place_all
    place_all-PassInv now [] s h p = h
    place_all-PassInv now (j ∷ js) s h p =
        place_all-PassInv now js (place_one float faults alg cfg now j s)
          (place_one-PassInv now j s h p.0) p.1
