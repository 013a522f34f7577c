-- ===== src/Preemption/Room.antt =====
-- What the victims of internal/scheduler/preemption.go are, and that their eviction makes room.
use gpu_cluster_scheduler.Common.{
  ℤ, pos, ◌+ℤ◌, ◌≤ℤ◌, ◌<ℤ◌, ltb_ℤ, +ℤ_parts, str_eq, Bool, Bool-cases, true, false, inl, inr, ◌⊎◌,
  some, List, [], ◌∷◌, select, All, All-select, All-append_left, ◌≡◌, subst, arith,
}
use gpu_cluster_scheduler.Common.Sort.{All-sort_stable}
use gpu_cluster_scheduler.Models.{
  Job, ResourceRequest, resource_request, Node, schedulable, fits, add_capped, release,
}
use gpu_cluster_scheduler.Models.Capacity.{IsNonneg, HasRoom, HasRoom→fits}
use gpu_cluster_scheduler.Preemption.{
  Running, PreemptionPlan, eligible, candidates, Free, free_of, add_free, enough, find_preemption,
}
use gpu_cluster_scheduler.Preemption.Victims.{freed, IsShortest, VictimsSpec, victims_on-found}
use gpu_cluster_scheduler.Preemption.Plan.{IsLeast, PlanSpec, find_preemption-PlanSpec}

-- The eviction of all victims, on the node's side.
abbrev pub release_all : Node → List Job → Node
release_all n [] = n
release_all n (v ∷ vs) = release_all (release n (resource_request v)) vs

All-candidates :
    (P : Job → Type 0) (job : Job) (runs : List Job) → All P runs → All P (candidates job runs)
unfolding candidates
All-candidates P job runs h = All-sort_stable _ P _ (All-select P (eligible job) runs h)

All-select_test : (q : Job → Bool) (xs : List Job) → All (λ x. q x ≡ true) (select q xs)
All-select_test q [] = tt
All-select_test q (x ∷ xs) = elim (Bool-cases (q x)) [
  | inl e ↦ rw e (e, All-select_test q xs)
  | inr e ↦ rw e (All-select_test q xs)
]

candidates-eligible :
    (job : Job) (runs : List Job) → All (λ v. eligible job v ≡ true) (candidates job runs)
unfolding candidates
candidates-eligible job runs = All-sort_stable _ _ _ (All-select_test (eligible job) runs)

pub found→IsShortest :
    (job : Job) (nodes : List Node) (running : Running) {p : PreemptionPlan}
    → find_preemption job nodes running ≡ some p
    → IsShortest job running p.node p.victims
found→IsShortest job nodes running {p} e =
    let least : IsLeast job running nodes p =
      subst (PlanSpec job running nodes) e (find_preemption-PlanSpec job nodes running) in
    subst (VictimsSpec job running p.node) least.plan (victims_on-found job running p.node)

-- What holds of all jobs on the node of a plan holds of its victims.
pub All-victims :
    (P : Job → Type 0) (job : Job) (nodes : List Node) (running : Running) {p : PreemptionPlan}
    → find_preemption job nodes running ≡ some p
    → All P (running p.node.node_id)
    → All P p.victims
All-victims P job nodes running {p} e h =
    let s = found→IsShortest job nodes running e in
    All-append_left P p.victims s.spared
      (subst (All P) s.split (All-candidates P job (running p.node.node_id) h))

-- Every victim of a preemption plan has a strictly lower priority than the pending job, and belongs to
-- some user.
pub victims-eligible :
    (job : Job) (nodes : List Node) (running : Running) {p : PreemptionPlan}
    → find_preemption job nodes running ≡ some p
    → All (λ v. (v.priority <ℤ job.priority) × (str_eq v.user_id "" ≡ false)) p.victims
unfolding eligible
victims-eligible job nodes running {p} e =
    let s = found→IsShortest job nodes running e in
    read p.victims (
      All-append_left _ p.victims s.spared
        (subst (All _) s.split (candidates-eligible job (running p.node.node_id))))
  where
    read :
        (vs : List Job)
        → All (λ v. eligible job v ≡ true) vs
        → All (λ v. (v.priority <ℤ job.priority) × (str_eq v.user_id "" ≡ false)) vs
    read [] h = tt
    read (v ∷ vs) h = (ground (arith, h.0), read vs h.1)

-- With what is free counted without a limit, and really: the real count keeps up, or is at capacity.
abbrev KeepsUp : ℤ → ℤ → ℤ → Type 0
KeepsUp free real cap = (free ≤ℤ real) ⊎ (cap ≤ℤ real)

add_capped-KeepsUp :
    (free real cap d : ℤ)
    → pos 0 ≤ℤ d
    → KeepsUp free real cap
    → KeepsUp (free +ℤ d) (add_capped real d cap) cap
unfolding add_capped
add_capped-KeepsUp free real cap d p k = elim (Bool-cases (ltb_ℤ cap (real +ℤ d))) [
  | inl e ↦ rw e (inr (omega arith))
  | inr e ↦ rw e (omega (arith, +ℤ_parts free d, +ℤ_parts real d))
]

record Covers (f : Free) (n : Node) : Type 0 where
  gpu : KeepsUp f.gpu n.gpu_available n.gpu_capacity
  cpu : KeepsUp f.cpu n.cpu_available n.cpu_capacity
  mem : KeepsUp f.mem n.memory_available n.memory_capacity

-- The request fits the whole of the node.
pub record IsWithinCapacity (r : ResourceRequest) (n : Node) : Type 0 where
  pub gpu : r.gpu ≤ℤ n.gpu_capacity
  pub cpu : r.cpu ≤ℤ n.cpu_capacity
  pub memory : r.memory_gb ≤ℤ n.memory_capacity

release-Covers :
    (f : Free) (n : Node) (v : Job)
    → IsNonneg (resource_request v)
    → Covers f n
    → Covers (add_free f v) (release n (resource_request v))
unfolding add_free release resource_request
release-Covers f n v p c = record {
  gpu = add_capped-KeepsUp f.gpu n.gpu_available n.gpu_capacity v.gpu_count p.gpu c.gpu;
  cpu = add_capped-KeepsUp f.cpu n.cpu_available n.cpu_capacity v.cpu_count p.cpu c.cpu;
  mem = add_capped-KeepsUp f.mem n.memory_available n.memory_capacity v.memory_gb p.memory c.mem;
}

release_all-HasRoom :
    (r : ResourceRequest) (f : Free) (n : Node) (vs : List Job)
    → schedulable n.status ≡ true
    → IsWithinCapacity r n
    → All (λ v. IsNonneg (resource_request v)) vs
    → Covers f n
    → enough (freed f vs) r ≡ true
    → HasRoom (release_all n vs) r
unfolding enough
release_all-HasRoom r f n [] o w h c e = record {
  open_for_jobs = o;
  gpu = ground (arith, c.gpu, w.gpu);
  cpu = ground (arith, c.cpu, w.cpu);
  memory = ground (arith, c.mem, w.memory);
}
release_all-HasRoom r f n (v ∷ vs) o w h c e =
    release_all-HasRoom r (add_free f v) (release n (resource_request v)) vs (unfold release in o)
      (unfold release in record { gpu = w.gpu; cpu = w.cpu; memory = w.memory }) h.1
      (release-Covers f n v h.0 c) e

-- With its victims evicted the node of a preemption plan has room for the job, if no job on that node
-- asks for a negative amount and the job asks for no more than the whole node.
pub release_all-fits :
    (job : Job) (nodes : List Node) (running : Running) {p : PreemptionPlan}
    → find_preemption job nodes running ≡ some p
    → All (λ v. IsNonneg (resource_request v)) (running p.node.node_id)
    → IsWithinCapacity (resource_request job) p.node
    → fits (release_all p.node p.victims) (resource_request job) ≡ true
unfolding free_of
release_all-fits job nodes running {p} e h w =
    let s = found→IsShortest job nodes running e in
    HasRoom→fits _ _ (
      release_all-HasRoom (resource_request job) (free_of p.node) p.node p.victims s.open_for_jobs w
        (All-victims _ job nodes running e h)
        (record { gpu = omega arith; cpu = omega arith; mem = omega arith }) s.room)
