-- ===== src/Preemption/Plan.antt =====
-- Which plan `FindPreemption` (internal/scheduler/preemption.go) returns.
use mathlib.Core.List.{append-nil, append_assoc}
use gpu_cluster_scheduler.Common.{
  ℕ, suc, Bool-cases, true, false, inl, inr, Option, none, some, List, [], ◌∷◌, ◌++◌, All,
  All-append, length, length-append, get_elem?, get_elem?-split, get_elem?-append, ◌≡◌, refl, arith,
  ap, ℤ, pos, ◌+ℤ◌, ◌≤ℤ◌, ◌<◌, ◌⊎◌,
}
use gpu_cluster_scheduler.Models.{Job, Node}
use gpu_cluster_scheduler.Preemption.{
  Running, PreemptionPlan, victims_on, victim_priority, better_plan, plan_step, find_from,
  find_preemption,
}

-- The priorities of the victims, added up.
pub total_priority : List Job → ℤ
total_priority [] = pos 0
total_priority (v ∷ vs) = v.priority +ℤ total_priority vs

-- These victims are fewer than those, or as many with no higher total priority.
abbrev pub IsNoWorse : List Job → List Job → Type 0
IsNoWorse vs us =
    (length vs < length us) ⊎ ((length vs ≡ length us) × (total_priority vs ≤ℤ total_priority us))

victim_priority-total : (vs : List Job) → victim_priority vs ≡ total_priority vs
unfolding victim_priority total_priority
victim_priority-total [] = refl
victim_priority-total (v ∷ vs) = ap (λ n. v.priority +ℤ n) (victim_priority-total vs)

better_plan-IsNoWorse : (us vs : List Job) → better_plan us vs ≡ false → IsNoWorse vs us
unfolding better_plan
better_plan-IsNoWorse us vs e = ground (arith, victim_priority-total us, victim_priority-total vs)

module _ (job : Job) (running : Running) where
  -- Every plan of a node is no better.
  pub record IsMinimal (nodes : List Node) (p : PreemptionPlan) : Type 0 where
    pub at : get_elem? nodes p.index ≡ some p.node
    pub plan : victims_on job running p.node ≡ some p.victims
    pub minimal :
        All
          (λ m. (vs : List Job) → victims_on job running m ≡ some vs → IsNoWorse p.victims vs)
          nodes

  abbrev pub MinimalSpec : List Node → Option PreemptionPlan → Type 0
  MinimalSpec nodes none = All (λ m. victims_on job running m ≡ none) nodes
  MinimalSpec nodes (some p) = IsMinimal nodes p

  -- The same, by the comparison of the source.
  pub record IsLeast (nodes : List Node) (p : PreemptionPlan) : Type 0 where
    pub at : get_elem? nodes p.index ≡ some p.node
    pub plan : victims_on job running p.node ≡ some p.victims
    pub least :
        All
          (λ m.
            (vs : List Job) → victims_on job running m ≡ some vs → better_plan vs p.victims ≡ false)
          nodes

  abbrev pub PlanSpec : List Node → Option PreemptionPlan → Type 0
  PlanSpec nodes none = All (λ m. victims_on job running m ≡ none) nodes
  PlanSpec nodes (some p) = IsLeast nodes p

better_plan_trans :
    (a b c : List Job) → better_plan a b ≡ true → better_plan c b ≡ false → better_plan c a ≡ false
unfolding better_plan
better_plan_trans a b c p q = ground arith

better_plan_irrefl : (a : List Job) → better_plan a a ≡ false
unfolding better_plan
better_plan_irrefl a = ground arith

module _ (job : Job) (running : Running) where
  abbrev Tie : List Job → Node → Type 0
  Tie best m = (vs : List Job) → victims_on job running m ≡ some vs → better_plan vs best ≡ false

  no_plan :
      (ms : List Node) (best : List Job)
      → All (λ m. victims_on job running m ≡ none) ms
      → All (Tie best) ms
  no_plan [] best h = tt
  no_plan (m ∷ ms) best h = (λ vs e. cc, no_plan ms best h.1)

  improve :
      (ms : List Node) (a b : List Job) → better_plan a b ≡ true → All (Tie b) ms → All (Tie a) ms
  improve [] a b e h = tt
  improve (m ∷ ms) a b e h = (λ vs f. better_plan_trans a b vs e (h.0 vs f), improve ms a b e h.1)

  itself :
      (n : Node) (a best : List Job)
      → victims_on job running n ≡ some a
      → better_plan a best ≡ false
      → Tie best n
  itself n a best e h = λ vs f. ground (arith, h)

  keep :
      (seen : List Node) (n : Node) (best : Option PreemptionPlan)
      → PlanSpec job running seen best
      → ((p : PreemptionPlan) → best ≡ some p → Tie p.victims n)
      → (best ≡ none → victims_on job running n ≡ none)
      → PlanSpec job running (seen ++ n ∷ []) best
  keep seen n none h tie no_best = All-append _ seen (n ∷ []) h (no_best refl, tt)
  keep seen n (some p) h tie no_best = record {
    at = get_elem?-append seen (n ∷ []) p.index h.at;
    plan = h.plan;
    least = All-append _ seen (n ∷ []) h.least (tie p refl, tt);
  }

  plan_step-PlanSpec :
      (seen : List Node) (n : Node) (found : Option (List Job)) (best : Option PreemptionPlan)
      → victims_on job running n ≡ found
      → PlanSpec job running seen best
      → PlanSpec job running (seen ++ n ∷ []) (plan_step (length seen) n found best)
  unfolding plan_step
  plan_step-PlanSpec seen n none best e h = keep seen n best h (λ p _ vs f. cc) (λ _. e)
  plan_step-PlanSpec seen n (some vs) none e h = record {
    at = get_elem?-split seen [] n;
    plan = e;
    least =
        All-append _ seen (n ∷ []) (no_plan seen vs h)
          (itself n vs vs e (better_plan_irrefl vs), tt);
  }
  plan_step-PlanSpec seen n (some vs) (some p) e h = elim (Bool-cases (better_plan vs p.victims)) [
    | inl b ↦ rw b (record {
      at = get_elem?-split seen [] n;
      plan = e;
      least =
          All-append _ seen (n ∷ []) (improve seen vs p.victims b h.least)
            (itself n vs vs e (better_plan_irrefl vs), tt);
    })
    | inr b ↦ rw b (record {
      at = get_elem?-append seen (n ∷ []) p.index h.at;
      plan = h.plan;
      least = All-append _ seen (n ∷ []) h.least (itself n vs p.victims e b, tt);
    })
  ]

  find_from-PlanSpec :
      (seen ns : List Node) (i : ℕ) (best : Option PreemptionPlan)
      → i ≡ length seen
      → PlanSpec job running seen best
      → PlanSpec job running (seen ++ ns) (find_from job running i ns best)
  unfolding find_from
  find_from-PlanSpec seen [] i best e h = rw append-nil h
  find_from-PlanSpec seen (n ∷ ns) i best e h = rw (← append_assoc seen (n ∷ []) ns) (
      find_from-PlanSpec (seen ++ n ∷ []) ns (suc i) _ (omega (arith, length-append seen (n ∷ [])))
        (rw e (plan_step-PlanSpec seen n (victims_on job running n) best refl h)))

pub find_preemption-PlanSpec :
    (job : Job) (nodes : List Node) (running : Running)
    → PlanSpec job running nodes (find_preemption job nodes running)
unfolding find_preemption
find_preemption-PlanSpec job nodes running = find_from-PlanSpec job running [] nodes 0 none refl tt

no_worse :
    (job : Job) (running : Running) (best : List Job) (ns : List Node)
    → All
        (λ m. (vs : List Job) → victims_on job running m ≡ some vs → better_plan vs best ≡ false)
        ns
    → All (λ m. (vs : List Job) → victims_on job running m ≡ some vs → IsNoWorse best vs) ns
no_worse job running best [] h = tt
no_worse job running best (n ∷ ns) h =
    (λ vs e. better_plan-IsNoWorse vs best (h.0 vs e), no_worse job running best ns h.1)

PlanSpec→MinimalSpec :
    (job : Job) (running : Running) (nodes : List Node) (found : Option PreemptionPlan)
    → PlanSpec job running nodes found
    → MinimalSpec job running nodes found
PlanSpec→MinimalSpec job running nodes none h = h
PlanSpec→MinimalSpec job running nodes (some p) h = record {
  at = h.at;
  plan = h.plan;
  minimal = no_worse job running p.victims nodes h.least;
}

-- The preemption plan is that of a node in the list, and every plan of a node has more victims, or as
-- many whose priorities add up to at least as much; there is no plan only if no node has one.
pub find_preemption-MinimalSpec :
    (job : Job) (nodes : List Node) (running : Running)
    → MinimalSpec job running nodes (find_preemption job nodes running)
find_preemption-MinimalSpec job nodes running =
    PlanSpec→MinimalSpec job running nodes _ (find_preemption-PlanSpec job nodes running)
