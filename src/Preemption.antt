-- ===== src/Preemption.antt =====
-- internal/scheduler/preemption.go: which running jobs to evict for a pending one.
pub mod Victims
pub mod Plan
pub mod Room
use gpu_cluster_scheduler.Common.{
  ℕ, suc, ltb, ◌==◌, ℤ, pos, ◌+ℤ◌, ltb_ℤ, leb_ℤ, eqb_ℤ, String, str_eq, Bool, not, true, false,
  ◌&&◌, ◌||◌, if◌then◌else◌, Option, none, some, List, [], ◌∷◌, length, select,
}
use gpu_cluster_scheduler.Common.Sort.{sort_stable, lex_less}
use gpu_cluster_scheduler.Models.{Job, ResourceRequest, resource_request, Node, schedulable}

-- `running[id]`, which is nil for a node that runs nothing.
abbrev pub Running : Type 0
Running = String → List Job

pub record PreemptionPlan : Type 0 where
  pub index : ℕ
  pub node : Node
  pub victims : List Job

-- Strictly lower priority than the pending job.
unfoldable pub eligible : Job → Job → Bool
eligible job r = ltb_ℤ r.priority job.priority && not (str_eq r.user_id "")

-- Lowest priority first, then newest.
abbrev pub victim_less : Job → Job → Bool
victim_less =
    lex_less (λ a b. ltb_ℤ a.priority b.priority) (λ a b. ltb_ℤ b.created_at a.created_at)
      (λ a b. eqb_ℤ a.priority b.priority)

unfoldable pub candidates : Job → List Job → List Job
unfolding eligible sort_stable
candidates job runs = sort_stable victim_less (select (eligible job) runs)

-- `freeGPU`, `freeCPU` and `freeMem`.
pub record Free : Type 0 where
  pub gpu : ℤ
  pub cpu : ℤ
  pub mem : ℤ

unfoldable pub free_of : Node → Free
free_of n = record { gpu = n.gpu_available; cpu = n.cpu_available; mem = n.memory_available }

unfoldable pub add_free : Free → Job → Free
add_free f v = record {
  gpu = f.gpu +ℤ v.gpu_count;
  cpu = f.cpu +ℤ v.cpu_count;
  mem = f.mem +ℤ v.memory_gb;
}

unfoldable pub enough : Free → ResourceRequest → Bool
enough f req = leb_ℤ req.gpu f.gpu && leb_ℤ req.cpu f.cpu && leb_ℤ req.memory_gb f.mem

-- The loop over the victims: the chosen ones, and what is free with them gone.
choose : ResourceRequest → Free → List Job → List Job × Free
unfolding add_free enough
choose req f [] = ([], f)
choose req f (v ∷ vs) =
    let (chosen, free) = choose req (add_free f v) vs in
    if enough f req then ([], f) else (v ∷ chosen, free)

-- The body of the loop over the nodes. `continue` is `none`.
unfoldable pub victims_on : Job → Running → Node → Option (List Job)
unfolding candidates free_of choose
victims_on job running n =
    let req = resource_request job in
    if not (schedulable n.status)
    then none
    else (let (chosen, free) = choose req (free_of n) (candidates job (running n.node_id)) in
        if ltb_ℤ free.gpu req.gpu || ltb_ℤ free.cpu req.cpu || ltb_ℤ free.mem req.memory_gb
        then none
        else some chosen)

pub victim_priority : List Job → ℤ
victim_priority [] = pos 0
victim_priority (v ∷ vs) = v.priority +ℤ victim_priority vs

unfoldable pub better_plan : List Job → List Job → Bool
unfolding victim_priority
better_plan a b =
    if not (length a == length b)
    then ltb (length a) (length b)
    else ltb_ℤ (victim_priority a) (victim_priority b)

plan_step : ℕ → Node → Option (List Job) → Option PreemptionPlan → Option PreemptionPlan
plan_step i n none best = best
plan_step i n (some chosen) none = some (record { index = i; node = n; victims = chosen })
plan_step i n (some chosen) (some best) =
    if better_plan chosen best.victims
    then some (record { index = i; node = n; victims = chosen })
    else some best

find_from : Job → Running → ℕ → List Node → Option PreemptionPlan → Option PreemptionPlan
unfolding victims_on plan_step better_plan
find_from job running i [] best = best
find_from job running i (n ∷ ns) best =
    find_from job running (suc i) ns (plan_step i n (victims_on job running n) best)

unfoldable pub find_preemption : Job → List Node → Running → Option PreemptionPlan
unfolding find_from
find_preemption job nodes running = find_from job running 0 nodes none
