-- ===== src/Preemption/Victims.antt =====
-- Which victims `FindPreemption` (internal/scheduler/preemption.go) chooses on one node.
use mathlib.Core.List.{append-nil, Perm}
use gpu_cluster_scheduler.Common.{
  ltb_ℤ, Bool, Bool-cases, not, true, false, ◌||◌, if◌then◌else◌, inl, inr, ◌⊎◌, Option, none, some,
  List, [], ◌∷◌, ◌++◌, ◌≡◌, refl, ap, sym, ◌∙◌, arith, ◌≤ℤ◌, ◌<ℤ◌, ◌↔◌, select, str_eq, Pairwise,
}
use gpu_cluster_scheduler.Common.Sort.{
  StrictWeak, sort_stable-perm, sort_stable-IsOrdered, IsOrdered-Pairwise, lex_less-StrictWeak,
  ascending-StrictWeak, descending-StrictWeak, ascending-tie,
}
use gpu_cluster_scheduler.Models.{Job, ResourceRequest, resource_request, Node, schedulable}
use gpu_cluster_scheduler.Preemption.{
  Running, eligible, victim_less, candidates, Free, free_of, add_free, enough, choose, victims_on,
}

-- What is free once all of the victims are gone.
abbrev pub freed : Free → List Job → Free
freed f [] = f
freed f (v ∷ vs) = freed (add_free f v) vs

-- No shorter selection from the front is enough.
abbrev pub Needed : ResourceRequest → Free → List Job → Type 0
Needed req f [] = Unit
Needed req f (v ∷ vs) = (enough f req ≡ false) × Needed req (add_free f v) vs

record Chosen (req : ResourceRequest) (f : Free) (vs chosen : List Job) (free : Free) : Type 0 where
  rest : List Job
  split : vs ≡ chosen ++ rest
  total : free ≡ freed f chosen
  needed : Needed req f chosen
  done : (enough free req ≡ true) ⊎ (rest ≡ [])

choose-Chosen :
    (req : ResourceRequest) (f : Free) (vs : List Job)
    → Chosen req f vs (choose req f vs).0 (choose req f vs).1
unfolding choose
choose-Chosen req f [] = record {
  rest = [];
  split = refl;
  total = refl;
  needed = tt;
  done = inr refl;
}
choose-Chosen req f (v ∷ vs) = elim (Bool-cases (enough f req)) [
  | inl e ↦ rw e (record { rest = v ∷ vs; split = refl; total = refl; needed = tt; done = inl e })
  | inr e ↦
      let c = choose-Chosen req (add_free f v) vs in
      rw e (record {
        rest = c.rest;
        split = ap (◌∷◌ v) c.split;
        total = c.total;
        needed = (e, c.needed);
        done = c.done;
      })
]

-- Evicted before: of lower priority, or of the same and submitted no earlier.
abbrev pub CheaperFirst : Job → Job → Type 0
CheaperFirst a b =
    (a.priority <ℤ b.priority) ⊎ ((a.priority ≡ b.priority) × (b.created_at ≤ℤ a.created_at))

-- Of lower priority than the pending job, and of some user.
abbrev pub IsEligible : Job → Job → Type 0
IsEligible job r = (r.priority <ℤ job.priority) × (str_eq r.user_id "" ≡ false)

-- The jobs that can be evicted, in the order in which they are: each that runs and is eligible as often as it
-- runs, and none before a cheaper one.
pub record IsQueue (job : Job) (runs queue : List Job) : Type 0 where
  pub eligible_iff : (r : Job) → (eligible job r ≡ true) ↔ IsEligible job r
  pub perm : Perm queue (select (eligible job) runs)
  pub ordered : Pairwise CheaperFirst queue

victim_less-StrictWeak : StrictWeak victim_less
victim_less-StrictWeak =
    lex_less-StrictWeak _ _ _ (ascending-StrictWeak (λ (j : Job). j.priority))
      (descending-StrictWeak (λ (j : Job). j.created_at)) (ascending-tie (λ (j : Job). j.priority))

candidates-IsQueue : (job : Job) (runs : List Job) → IsQueue job runs (candidates job runs)
unfolding candidates eligible
candidates-IsQueue job runs = record {
  eligible_iff = λ r. (λ e. ground arith, λ e. ground arith);
  perm = sort_stable-perm victim_less _;
  ordered =
      IsOrdered-Pairwise victim_less CheaperFirst (λ a b e. ground arith) _
        (sort_stable-IsOrdered victim_less victim_less-StrictWeak (select (eligible job) runs));
}

-- The victims stand at the front of the node's candidates, their resources are enough, and are not
-- without the last of them.
pub record IsShortest (job : Job) (running : Running) (n : Node) (victims : List Job) : Type 0 where
  pub open_for_jobs : schedulable n.status ≡ true
  pub spared : List Job
  pub split : candidates job (running n.node_id) ≡ victims ++ spared
  pub room : enough (freed (free_of n) victims) (resource_request job) ≡ true
  pub needed : Needed (resource_request job) (free_of n) victims

-- The node takes no jobs, or has too little for the job even with all of its candidates gone.
abbrev pub IsHopeless : Job → Running → Node → Type 0
IsHopeless job running n =
    (schedulable n.status ≡ false)
    ⊎ (enough (freed (free_of n) (candidates job (running n.node_id))) (resource_request job)
        ≡ false)

abbrev pub VictimsSpec : Job → Running → Node → Option (List Job) → Type 0
VictimsSpec job running n none = IsHopeless job running n
VictimsSpec job running n (some victims) = IsShortest job running n victims

abbrev short : Free → ResourceRequest → Bool
short free req = ltb_ℤ free.gpu req.gpu || ltb_ℤ free.cpu req.cpu || ltb_ℤ free.mem req.memory_gb

enough-short : (f : Free) (req : ResourceRequest) → enough f req ≡ not (short f req)
unfolding enough
enough-short f req = ground arith

finish :
    (job : Job) (running : Running) (n : Node) (chosen : List Job) (free : Free)
    → schedulable n.status ≡ true
    → Chosen (resource_request job) (free_of n) (candidates job (running n.node_id)) chosen free
    → VictimsSpec job running n (if short free (resource_request job) then none else some chosen)
finish job running n chosen free o c = elim (Bool-cases (short free (resource_request job))) [
  | inl e ↦
      let few : enough free (resource_request job) ≡ false = enough-short _ _ ∙ ap not e in
      rw e (
        inr (elim c.done [
          | inl done ↦ cc
          | inr all ↦
              rw (c.split, all, append-nil)
                (ap (λ f. enough f (resource_request job)) (sym c.total) ∙ few)
        ]))
  | inr e ↦ rw e (record {
    open_for_jobs = o;
    spared = c.rest;
    split = c.split;
    room = ap (λ f. enough f (resource_request job)) (sym c.total) ∙ enough-short _ _ ∙ ap not e;
    needed = c.needed;
  })
]

pub victims_on-found :
    (job : Job) (running : Running) (n : Node)
    → VictimsSpec job running n (victims_on job running n)
unfolding victims_on
victims_on-found job running n = elim (Bool-cases (schedulable n.status)) [
  | inl e ↦ rw e (finish job running n _ _ e (choose-Chosen _ _ _))
  | inr e ↦ rw e (inl e)
]

-- The candidates of a node are the jobs that run there with a lower priority than the pending job and
-- some user, each as often as it runs, and none stands before one of a lower priority, or of the same
-- and newer. The victims are the shortest front of the candidates that makes room for the job; there
-- are none exactly if the node takes no jobs or all candidates are too few.
pub victims_on-VictimsSpec :
    (job : Job) (running : Running) (n : Node)
    → IsQueue job (running n.node_id) (candidates job (running n.node_id))
      × VictimsSpec job running n (victims_on job running n)
victims_on-VictimsSpec job running n =
    (candidates-IsQueue job (running n.node_id), victims_on-found job running n)
