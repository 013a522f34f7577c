-- ===== src/Engine/Conserving.antt =====
-- A pass of internal/scheduler/engine.go without preemption leaves no job waiting that some node has room for.
pub mod Rounds
pub mod Tick
use gpu_cluster_scheduler.Common.{
  -ℤ_parts, ℕ, zero, suc, String, str_eq, str_eq_iff, str_eq_refl, Bool, Bool-cases, Option-cases,
  true, false, ◌⊎◌, inl, inr, none, some, List, [], ◌∷◌, map, set, get_elem?, All, All-set, All-get,
  All-at, Any, select, ◌≡◌, refl, sym, subst, ap, ◌∙◌, arith,
}
use gpu_cluster_scheduler.Common.Sort.Entries.{sort_stable-Any, Any-sort_stable}
use gpu_cluster_scheduler.Models.{
  Job, JobStatus, scheduled, queued, resource_request, ResourceRequest, Time, Duration, Node, fits,
  reserve, Reason,
}
use gpu_cluster_scheduler.Models.Capacity.{IsNonneg}
use gpu_cluster_scheduler.Placement.{Placement, placed, unplaced}
use gpu_cluster_scheduler.Strategies.Float.{Float64}
use gpu_cluster_scheduler.Strategies.{Algorithm, OrderContext}
use gpu_cluster_scheduler.Strategies.Laws.{PlaceSpec, IsLawful}
use gpu_cluster_scheduler.Store.Database.{
  Database, no_faults, find_where, update_where, job_key, node_key,
}
use gpu_cluster_scheduler.Store.Jobs
use gpu_cluster_scheduler.Store.Nodes
use gpu_cluster_scheduler.Store.Events
use gpu_cluster_scheduler.Store.Keys.{
  IsUnique, map-update_where, find_where-update_where, All-find_where,
}
use gpu_cluster_scheduler.Store.Keys.Copies.{
  find_where-Any, get_elem?-Any, find_where-set, map-set, find_where-sort_stable,
  sort_stable-IsUnique,
}
use gpu_cluster_scheduler.Store.Soundness.{IsSound}
use gpu_cluster_scheduler.Engine.Pass.{
  SchedulerConfig, Pass, record_event, commit_end_of, give_up, commit_placement, place_one,
  place_all,
}
use gpu_cluster_scheduler.Engine.Invariants.{All-map}
use gpu_cluster_scheduler.Engine.Races.{schedule-found}

-- The copies of a pass and the rows of the nodes are the same at every key.
pub record IsMirror (s : Pass) : Type 0 where
  pub copies : IsUnique (map node_key s.nodes)
  pub rows : IsUnique (map node_key s.db.nodes)
  pub same : (id : String) → find_where node_key id s.nodes ≡ find_where node_key id s.db.nodes

abbrev pub IsFull : ResourceRequest → Node → Type 0
IsFull r n = fits n r ≡ false

abbrev pub IsScheduled : String → List Job → Type 0
IsScheduled id js = (row : Job) × (find_where job_key id js ≡ some row) × (row.status ≡ scheduled)

abbrev pub IsListed : String → List Job → Type 0
IsListed id js = (row : Job) × (find_where job_key id js ≡ some row)

-- A placement elsewhere or of the same job leaves a scheduled job scheduled, and a listed one listed.
pub set_scheduled-IsScheduled :
    (id other nid : String) (js : List Job)
    → IsScheduled id js
    → IsScheduled id (update_where job_key other (Jobs.set_scheduled nid) js)
unfolding Jobs.set_scheduled
set_scheduled-IsScheduled id other nid js (row, found, status) =
    elim (Bool-cases (str_eq other id)) [
      | inl e ↦ (
        Jobs.set_scheduled nid row,
        find_where-update_where job_key other id _ js (λ x. refl) ∙ rw (e, found) refl,
        refl,
      )
      | inr e ↦ (
        row,
        find_where-update_where job_key other id _ js (λ x. refl) ∙ rw (e, found) refl,
        status,
      )
    ]

pub set_scheduled-IsListed :
    (id other nid : String) (js : List Job)
    → IsListed id js
    → IsListed id (update_where job_key other (Jobs.set_scheduled nid) js)
unfolding Jobs.set_scheduled
set_scheduled-IsListed id other nid js (row, found) = elim (Bool-cases (str_eq other id)) [
  | inl e ↦ (
    Jobs.set_scheduled nid row,
    find_where-update_where job_key other id _ js (λ x. refl) ∙ rw (e, found) refl,
  )
  | inr e ↦ (row, find_where-update_where job_key other id _ js (λ x. refl) ∙ rw (e, found) refl)
]

pub listed-IsScheduled :
    (id nid : String) (js : List Job)
    → IsListed id js
    → IsScheduled id (update_where job_key id (Jobs.set_scheduled nid) js)
unfolding Jobs.set_scheduled
listed-IsScheduled id nid js (row, found) = (
  Jobs.set_scheduled nid row,
  find_where-update_where job_key id id _ js (λ x. refl) ∙ rw (str_eq_refl id, found) refl,
  refl,
)

-- Less room is left after a reservation.
pub reserve-IsFull :
    (r q : ResourceRequest) (n : Node) → IsNonneg q → IsFull r n → IsFull r (reserve n q)
unfolding fits reserve
reserve-IsFull r q n p full = ground (
  arith,
  p.gpu,
  p.cpu,
  p.memory,
  -ℤ_parts n.gpu_available q.gpu,
  -ℤ_parts n.cpu_available q.cpu,
  -ℤ_parts n.memory_available q.memory_gb,
)

-- The row of a copy is the copy.
pub current :
    (s : Pass) (m : Node) (i : ℕ)
    → IsMirror s
    → get_elem? s.nodes i ≡ some m
    → find_where node_key m.node_id s.db.nodes ≡ some m
current s m i mirror at =
    sym (mirror.same m.node_id)
    ∙ find_where-Any node_key m s.nodes mirror.copies (get_elem?-Any s.nodes i m at)

-- What a placement on a current copy writes.
pub record IsWritten (job : Job) (i : ℕ) (m : Node) (s after : Pass) : Type 0 where
  pub nodes : after.nodes ≡ set s.nodes i (reserve m (resource_request job))
  pub jobs :
      after.db.jobs ≡ update_where job_key job.job_id (Jobs.set_scheduled m.node_id) s.db.jobs
  pub rows :
      (f : Node → Node) × ((x : Node) → node_key (f x) ≡ node_key x)
      × (f m ≡ reserve m (resource_request job))
      × (after.db.nodes ≡ update_where node_key m.node_id f s.db.nodes)

-- A copy and its row that become the same node stay each other's mirror.
pub replaced-IsMirror :
    (i : ℕ) (m n : Node) (f : Node → Node) (s after : Pass)
    → IsMirror s
    → get_elem? s.nodes i ≡ some m
    → node_key n ≡ node_key m
    → ((x : Node) → node_key (f x) ≡ node_key x)
    → f m ≡ n
    → after.nodes ≡ set s.nodes i n
    → after.db.nodes ≡ update_where node_key m.node_id f s.db.nodes
    → IsMirror after
replaced-IsMirror i m n f s after mirror at key keep value copied wrote = record {
  copies =
      subst (λ ns. IsUnique (map node_key ns)) (sym copied)
        (subst IsUnique (sym (map-set node_key s.nodes i m n at key)) mirror.copies);
  rows =
      subst (λ ns. IsUnique (map node_key ns)) (sym wrote)
        (subst IsUnique (sym (map-update_where node_key m.node_id f s.db.nodes keep)) mirror.rows);
  same = λ id.
      rw
        (
          copied,
          wrote,
          find_where-set node_key s.nodes i m n id mirror.copies at key,
          find_where-update_where node_key m.node_id id f s.db.nodes keep,
        )
        (elim (Bool-cases (str_eq m.node_id id)) [
          | inl e ↦
              let found =
                subst (λ k. find_where node_key k s.db.nodes ≡ some m)
                  ((str_eq_iff m.node_id id).0 e) (current s m i mirror at) in
              rw (e, found, value) refl
          | inr e ↦ rw e (mirror.same id)
        ]);
}

pub written-IsMirror :
    (job : Job) (i : ℕ) (m : Node) (s after : Pass)
    → IsMirror s
    → get_elem? s.nodes i ≡ some m
    → IsWritten job i m s after
    → IsMirror after
unfolding reserve
written-IsMirror job i m s after mirror at w =
    let (f, keep, value, wrote) = w.rows in
    replaced-IsMirror i m (reserve m (resource_request job)) f s after mirror at refl keep value
      w.nodes wrote

module _ (float : Float64) (alg : Algorithm float) (cfg : SchedulerConfig float) where
  pub written :
      (job : Job) (i : ℕ) (m : Node) (reason : Reason) (now : Time) (s : Pass)
      → find_where node_key m.node_id s.db.nodes ≡ some m
      → IsWritten job i m s (commit_placement float no_faults alg cfg job i m reason now s)
  unfolding commit_placement commit_end_of record_event Events.record_event
      Nodes.update_availability reserve Nodes.set_available
  written job i m reason now s found =
      rw (schedule-found job.job_id m.node_id m s.db found) (record {
        nodes = refl;
        jobs = refl;
        rows = (Nodes.set_available _ _ _, (λ x. refl), refl, refl);
      })
