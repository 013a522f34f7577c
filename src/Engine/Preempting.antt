-- ===== src/Engine/Preempting.antt =====
-- What a preemption of internal/scheduler/engine.go is for: the job that asked for it is placed.
use gpu_cluster_scheduler.Common.{
  ℕ, zero, suc, true, false, some, List, [], ◌∷◌, set, get_elem?, All, All-get, ◌≡◌, refl, subst,
  arith,
}
use gpu_cluster_scheduler.Models.{Job, Node, Time, fits, resource_request, release}
use gpu_cluster_scheduler.Models.Capacity.{IsNonneg}
use gpu_cluster_scheduler.Placement.{Placement, placed, unplaced}
use gpu_cluster_scheduler.Preemption.{Running, PreemptionPlan, find_preemption}
use gpu_cluster_scheduler.Preemption.Plan.{PlanSpec, find_preemption-PlanSpec}
use gpu_cluster_scheduler.Preemption.Room.{release_all, IsWithinCapacity, release_all-fits}
use gpu_cluster_scheduler.Strategies.Float.{Float64}
use gpu_cluster_scheduler.Strategies.{Algorithm}
use gpu_cluster_scheduler.Strategies.Laws.{PlaceSpec, IsLawful}
use gpu_cluster_scheduler.Store.Database.{Database, Faults}
use gpu_cluster_scheduler.Engine.Pass.{SchedulerConfig, Pass, evict_all, apply_preemption}

get_elem?-set :
    {A : Type 0} (xs : List A) (i : ℕ) (v : A) {x : A}
    → get_elem? xs i ≡ some x
    → get_elem? (set xs i v) i ≡ some v
get_elem?-set [] i v e = absurd (ground arith)
get_elem?-set (x ∷ xs) zero v e = refl
get_elem?-set (x ∷ xs) (suc i) v e = get_elem?-set xs i v e

-- A placement that succeeded.
abbrev pub IsPlaced : Placement → Type 0
IsPlaced (placed i n reason) = Unit
IsPlaced (unplaced reason) = true ≡ false

pub plan-at :
    (job : Job) (nodes : List Node) (running : Running) {p : PreemptionPlan}
    → find_preemption job nodes running ≡ some p
    → get_elem? nodes p.index ≡ some p.node
plan-at job nodes running {p} e =
    (subst (PlanSpec job running nodes) e (find_preemption-PlanSpec job nodes running)).at

has_room-IsPlaced :
    (job : Job) (nodes : List Node) (i : ℕ) (n : Node) (p : Placement)
    → PlaceSpec job nodes p
    → get_elem? nodes i ≡ some n
    → fits n (resource_request job) ≡ true
    → IsPlaced p
has_room-IsPlaced job nodes i n (placed k m reason) spec e room = tt
has_room-IsPlaced job nodes i n (unplaced reason) spec e room =
    let full = All-get (λ m. fits m (resource_request job) ≡ false) nodes i spec e in ground arith

module _ (float : Float64) (faults : Faults) (alg : Algorithm float)
    (cfg : SchedulerConfig float) where
  pub evict_all-node :
      (now : Time) (vs : List Job) (n : Node) (db : Database)
      → (evict_all float faults alg cfg now vs n db).0 ≡ release_all n vs
  unfolding evict_all
  evict_all-node now [] n db = refl
  evict_all-node now (v ∷ vs) n db = evict_all-node now vs (release n (resource_request v)) _

  module _ (lawful : IsLawful float alg) where
    -- After the preemption for a job the retry places it, whatever queries fail: if no job on the
    -- chosen node asks for a negative amount, the pending job asks for no more than that node as a
    -- whole, and the policy is lawful.
    pub apply_preemption-IsPlaced :
        (job : Job) (now : Time) (s : Pass) {plan : PreemptionPlan}
        → find_preemption job s.nodes s.running ≡ some plan
        → All (λ v. IsNonneg (resource_request v)) (s.running plan.node.node_id)
        → IsWithinCapacity (resource_request job) plan.node
        → IsPlaced (alg.place job (apply_preemption float faults alg cfg plan now s).nodes)
    unfolding apply_preemption
    apply_preemption-IsPlaced job now s {plan} found nonneg whole =
        let evicted = (evict_all float faults alg cfg now plan.victims plan.node s.db).0 in
        has_room-IsPlaced job (set s.nodes plan.index evicted) plan.index evicted _
          (lawful.place_lem job (set s.nodes plan.index evicted))
          (get_elem?-set s.nodes plan.index evicted (plan-at job s.nodes s.running found))
          (rw (evict_all-node now plan.victims plan.node s.db)
            (release_all-fits job s.nodes s.running found nonneg whole))
