-- ===== src/Placement.antt =====
-- internal/scheduler/placement.go: the node on which a job is placed. A `*Node` is the node's position
-- in the slice, with the node that stands there.
pub mod FirstFit
pub mod Scores
pub mod BestFit
use gpu_cluster_scheduler.Common.{
  ℕ, zero, suc, ℤ, ◌-ℤ◌, ltb_ℤ, eqb_ℤ, Bool, not, true, false, ◌||◌, if◌then◌else◌, Option, none,
  some, List, [], ◌∷◌,
}
use gpu_cluster_scheduler.Common.Sort.{sort_stable}
use gpu_cluster_scheduler.Models.{
  Job, ResourceRequest, resource_request, Node, fits, Reason, no_node, first_fit_on, best_fit_on,
}

pub data Placement : Type 0 where
  placed : (index : ℕ) (node : Node) (reason : Reason) → Placement
  unplaced : (reason : Reason) → Placement

first_fit_from : ResourceRequest → ℕ → List Node → Placement
first_fit_from req i [] = unplaced no_node
first_fit_from req i (n ∷ ns) =
    let rest = first_fit_from req (suc i) ns in
    if fits n req then placed i n (first_fit_on n.hostname n.gpu_available) else rest

unfoldable pub first_fit_node : Job → List Node → Placement
unfolding first_fit_from
first_fit_node job nodes = first_fit_from (resource_request job) 0 nodes

pub record ScoreVec : Type 0 where
  pub gpu : ℤ
  pub cpu : ℤ
  pub mem : ℤ

pub score_less : ScoreVec → ScoreVec → Bool
score_less a b =
    if not (eqb_ℤ a.gpu b.gpu)
    then ltb_ℤ a.gpu b.gpu
    else if not (eqb_ℤ a.cpu b.cpu)
    then ltb_ℤ a.cpu b.cpu
    else ltb_ℤ a.mem b.mem

-- What is left of a node's resources after the placement.
pub leftover : ResourceRequest → Node → ScoreVec
leftover req n = record {
  gpu = n.gpu_available -ℤ req.gpu;
  cpu = n.cpu_available -ℤ req.cpu;
  mem = n.memory_available -ℤ req.memory_gb;
}

-- `best` and `bestScore` of the loop.
record Best : Type 0 where
  index : ℕ
  node : Node
  score : ScoreVec

abbrev beats : ScoreVec → Option Best → Bool
beats s none = true
beats s (some b) = score_less s b.score

best_step : ResourceRequest → ℕ → Node → Option Best → Option Best
unfolding leftover score_less
best_step req i n best =
    if fits n req
    then (if beats (leftover req n) best
        then some (record { index = i; node = n; score = leftover req n })
        else best)
    else best

best_fit_from : ResourceRequest → ℕ → List Node → Option Best → Option Best
unfolding best_step
best_fit_from req i [] best = best
best_fit_from req i (n ∷ ns) best = best_fit_from req (suc i) ns (best_step req i n best)

abbrev best_result : Option Best → Placement
best_result none = unplaced no_node
best_result (some b) = placed b.index b.node (best_fit_on b.node.hostname b.score.gpu)

unfoldable pub best_fit_node : Job → List Node → Placement
unfolding best_fit_from
best_fit_node job nodes = best_result (best_fit_from (resource_request job) 0 nodes none)

unfoldable pub by_created_at : List Job → List Job
unfolding sort_stable
by_created_at jobs = sort_stable (λ a b. ltb_ℤ a.created_at b.created_at) jobs
