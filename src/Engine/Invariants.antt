-- ===== src/Engine/Invariants.antt =====
-- What a scheduling pass (internal/scheduler/engine.go) keeps of the node structs in memory and of the
-- database: the free part of every node stays within its capacity, whatever queries fail.
use gpu_cluster_scheduler.Common.{
  ℕ, String, str_eq, Bool, Bool-cases, true, false, inl, inr, some, List, [], ◌∷◌, All, All-append,
  All-set, All-get, get_elem?, ◌≡◌, refl, ◌∙◌,
}
use gpu_cluster_scheduler.Models.{
  Job, resource_request, Node, Time, fits, reserve, release, Reason, preempted, queued,
}
use gpu_cluster_scheduler.Models.Capacity.{IsWithin, reserve-IsWithin, release-IsWithin}
use gpu_cluster_scheduler.Preemption.{Running, PreemptionPlan}
use gpu_cluster_scheduler.Strategies.Float.{Float64}
use gpu_cluster_scheduler.Strategies.{Algorithm}
use gpu_cluster_scheduler.Store.Database.{Database, Result, ok, err, Faults}
use gpu_cluster_scheduler.Store.Jobs
use gpu_cluster_scheduler.Store.Soundness.{
  IsSound, IsNonnegJob, update_status-IsSound, requeue-IsSound, schedule-IsSound,
  record_event-IsSound,
}
use gpu_cluster_scheduler.Engine.Pass.{
  SchedulerConfig, Pass, add_running, record_event, commit_end_of, commit_placement, evict,
  evict_all, apply_preemption, give_up,
}
use gpu_cluster_scheduler.Engine.WriteBack.{
  Agrees, nodes-schedule, nodes-requeue, nodes-update_status, nodes-record_event,
  write_back-IsSound, write_back-Agrees, write_back,
}

pub record PassInv (s : Pass) : Type 0 where
  pub sound : IsSound s.db
  pub within : All IsWithin s.nodes
  pub agree : All (Agrees s.db.nodes) s.nodes
  pub runs : (id : String) → All IsNonnegJob (s.running id)

pub All-map {ℓ} :
    {A : Type ℓ} (P Q : A → Type 0) (xs : List A) → ((x : A) → P x → Q x) → All P xs → All Q xs
All-map P Q [] f h = tt
All-map P Q (x ∷ xs) f h = (f x h.0, All-map P Q xs f h.1)

pub add_running-nonneg :
    (r : Running) (id : String) (j : Job)
    → IsNonnegJob j
    → ((k : String) → All IsNonnegJob (r k))
    → (k : String) → All IsNonnegJob (add_running r id j k)
unfolding add_running
add_running-nonneg r id j p h k = elim (Bool-cases (str_eq k id)) [
  | inl e ↦ rw e (All-append IsNonnegJob (r k) (j ∷ []) (h k) (p, tt))
  | inr e ↦ rw e (h k)
]

module _ (float : Float64) (faults : Faults) (alg : Algorithm float)
    (cfg : SchedulerConfig float) where
  note-IsSound :
      (j : Job) (id : String) (r : Reason) (b : Bool) (now : Time) (db : Database)
      → IsSound db
      → IsSound (record_event float faults alg cfg j id r b now db)
  unfolding record_event
  note-IsSound j id r b now db h = record_event-IsSound faults _ db h

  nodes-note :
      (j : Job) (id : String) (r : Reason) (b : Bool) (now : Time) (db : Database)
      → (record_event float faults alg cfg j id r b now db).nodes ≡ db.nodes
  unfolding record_event
  nodes-note j id r b now db = nodes-record_event faults _ db

  pub give_up-PassInv :
      (j : Job) (r : Reason) (now : Time) (s : Pass)
      → PassInv s
      → PassInv (give_up float faults alg cfg j r now s)
  unfolding give_up
  give_up-PassInv j r now s h = record {
    sound = note-IsSound j "" _ false now s.db h.sound;
    within = h.within;
    agree = rw (nodes-note j "" _ false now s.db) h.agree;
    runs = h.runs;
  }

  -- Both ends of `commitPlacement`, after the statement that schedules the job.
  commit_end :
      (job : Job) (i : ℕ) (node : Node) (reason : Reason) (now : Time) (s : Pass)
      (r : Result (Unit {0})) (db : Database)
      → PassInv s
      → IsNonnegJob job
      → get_elem? s.nodes i ≡ some node
      → fits node (resource_request job) ≡ true
      → IsSound db
      → db.nodes ≡ s.db.nodes
      → PassInv (commit_end_of float faults alg cfg job i node reason now s r db)
  unfolding commit_end_of
  commit_end job i node reason now s (err e) db h p at room sound same =
      let w : IsWithin node = All-get IsWithin s.nodes i h.within at in
      let w' = reserve-IsWithin node (resource_request job) w p room in
      let a : Agrees db.nodes node = rw same (All-get (Agrees s.db.nodes) s.nodes i h.agree at) in
      record {
        sound = sound;
        within = All-set IsWithin s.nodes i _ h.within (release-IsWithin _ _ w' p);
        agree =
            All-set (Agrees db.nodes) s.nodes i _ (rw same h.agree) (unfold release reserve in a);
        runs = add_running-nonneg s.running node.node_id job p h.runs;
      }
  commit_end job i node reason now s (ok x) db h p at room sound same =
      let w : IsWithin node = All-get IsWithin s.nodes i h.within at in
      let n' = reserve node (resource_request job) in
      let w' : IsWithin n' = reserve-IsWithin node (resource_request job) w p room in
      let a : Agrees db.nodes n' =
        unfold reserve in (rw same (All-get (Agrees s.db.nodes) s.nodes i h.agree at)) in
      let db' = write_back faults n' db in
      let all : All (Agrees db'.nodes) s.nodes =
        All-map (Agrees db.nodes) (Agrees db'.nodes) s.nodes (λ m. write_back-Agrees faults n' m db)
          (rw same h.agree) in
      record {
        sound =
            note-IsSound job n'.node_id reason true now db'
              (write_back-IsSound faults n' db w' a sound);
        within = All-set IsWithin s.nodes i _ h.within w';
        agree =
            rw (nodes-note job n'.node_id reason true now db')
              (All-set (Agrees db'.nodes) s.nodes i n' all (write_back-Agrees faults n' n' db a));
        runs = add_running-nonneg s.running node.node_id job p h.runs;
      }

  pub commit_placement-PassInv :
      (job : Job) (i : ℕ) (node : Node) (reason : Reason) (now : Time) (s : Pass)
      → PassInv s
      → IsNonnegJob job
      → get_elem? s.nodes i ≡ some node
      → fits node (resource_request job) ≡ true
      → PassInv (commit_placement float faults alg cfg job i node reason now s)
  unfolding commit_placement
  commit_placement-PassInv job i node reason now s h p at room =
      commit_end job i node reason now s _ _ h p at room
        (schedule-IsSound faults job.job_id node.node_id s.db h.sound)
        (nodes-schedule faults job.job_id node.node_id s.db)

  evict_end-IsSound :
      (now : Time) (id : String) (r : Result (Unit {0})) (db : Database)
      → IsSound db
      → IsSound (elim r [ err _ ↦ db | ok _ ↦ (Jobs.update_status faults now id queued db).1 ])
  evict_end-IsSound now id (err e) db h = h
  evict_end-IsSound now id (ok x) db h = update_status-IsSound faults now id queued db h

  nodes-evict_end :
      (now : Time) (id : String) (r : Result (Unit {0})) (db : Database)
      → (elim r as (λ _. Database) [
        | err _ ↦ db
        | ok _ ↦ (Jobs.update_status faults now id queued db).1
      ]).nodes
        ≡ db.nodes
  nodes-evict_end now id (err e) db = refl
  nodes-evict_end now id (ok x) db = nodes-update_status faults now id queued db

  evict-IsSound :
      (now : Time) (v : Job) (db : Database)
      → IsSound db
      → IsSound (evict float faults alg cfg now v db)
  unfolding evict
  evict-IsSound now v db h =
      evict_end-IsSound now v.job_id _ _ (requeue-IsSound faults v.job_id preempted db h)

  nodes-evict :
      (now : Time) (v : Job) (db : Database)
      → (evict float faults alg cfg now v db).nodes ≡ db.nodes
  unfolding evict
  nodes-evict now v db =
      nodes-evict_end now v.job_id _ _ ∙ nodes-requeue faults v.job_id preempted db

  -- What the loop over the victims leaves behind.
  record Evicted (rows : List Node) (r : Node × Database) : Type 0 where
    sound : IsSound r.1
    within : IsWithin r.0
    agree : Agrees rows r.0
    same : r.1.nodes ≡ rows

  evict_all-Evicted :
      (now : Time) (vs : List Job) (rows : List Node) (n : Node) (db : Database)
      → All IsNonnegJob vs
      → Evicted rows (n, db)
      → Evicted rows (evict_all float faults alg cfg now vs n db)
  unfolding evict_all
  evict_all-Evicted now [] rows n db p h = h
  evict_all-Evicted now (v ∷ vs) rows n db p h =
      evict_all-Evicted now vs rows (release n (resource_request v))
        (evict float faults alg cfg now v db) p.1
        (record {
          sound = evict-IsSound now v db h.sound;
          within = release-IsWithin n (resource_request v) h.within p.0;
          agree = unfold release in h.agree;
          same = nodes-evict now v db ∙ h.same;
        })

  pub apply_preemption-PassInv :
      (plan : PreemptionPlan) (now : Time) (s : Pass)
      → PassInv s
      → get_elem? s.nodes plan.index ≡ some plan.node
      → All IsNonnegJob plan.victims
      → PassInv (apply_preemption float faults alg cfg plan now s)
  unfolding apply_preemption
  apply_preemption-PassInv plan now s h at p =
      let (n, db) = evict_all float faults alg cfg now plan.victims plan.node s.db in
      let e : Evicted s.db.nodes (n, db) =
        evict_all-Evicted now plan.victims s.db.nodes plan.node s.db p (record {
          sound = h.sound;
          within = All-get IsWithin s.nodes plan.index h.within at;
          agree = All-get (Agrees s.db.nodes) s.nodes plan.index h.agree at;
          same = refl;
        }) in
      let a : Agrees db.nodes n = rw e.same e.agree in
      let db' = write_back faults n db in
      record {
        sound = write_back-IsSound faults n db e.within a e.sound;
        within = All-set IsWithin s.nodes plan.index n h.within e.within;
        agree =
            All-set (Agrees db'.nodes) s.nodes plan.index n
              (All-map (Agrees db.nodes) (Agrees db'.nodes) s.nodes
                (λ m. write_back-Agrees faults n m db) (rw e.same h.agree))
              (write_back-Agrees faults n n db a);
        runs = h.runs;
      }
