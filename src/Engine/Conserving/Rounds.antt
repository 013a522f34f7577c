-- ===== src/Engine/Conserving/Rounds.antt =====
-- The rounds of the loop over the queue in `Tick` of internal/scheduler/engine.go.
use gpu_cluster_scheduler.Common.{
  ℕ, false, ◌⊎◌, inl, inr, some, List, [], ◌∷◌, get_elem?, All, All-set, All-get, ◌≡◌, refl, sym,
  subst, arith,
}
use gpu_cluster_scheduler.Models.{Job, resource_request, Time, Node, reserve, Reason}
use gpu_cluster_scheduler.Models.Capacity.{IsNonneg}
use gpu_cluster_scheduler.Placement.{Placement, placed, unplaced}
use gpu_cluster_scheduler.Strategies.Float.{Float64}
use gpu_cluster_scheduler.Strategies.{Algorithm}
use gpu_cluster_scheduler.Strategies.Laws.{PlaceSpec, IsLawful}
use gpu_cluster_scheduler.Store.Database.{no_faults}
use gpu_cluster_scheduler.Store.Events
use gpu_cluster_scheduler.Engine.Pass.{
  SchedulerConfig, Pass, record_event, give_up, commit_placement, place_one, place_all,
}
use gpu_cluster_scheduler.Engine.Invariants.{All-map}
use gpu_cluster_scheduler.Engine.Conserving.{
  IsMirror, IsFull, IsScheduled, IsListed, set_scheduled-IsScheduled, set_scheduled-IsListed,
  listed-IsScheduled, reserve-IsFull, current, IsWritten, written, written-IsMirror,
}

module _ (float : Float64) (alg : Algorithm float) (cfg : SchedulerConfig float) where
  -- What is known of the jobs of a queue on the way: those that were tried are scheduled, or no copy has room.
  abbrev pub Answered : Job → Pass → Type 0
  Answered j s = IsScheduled j.job_id s.db.jobs ⊎ All (IsFull (resource_request j)) s.nodes

  abbrev pub Waits : Job → Pass → Type 0
  Waits j s = IsNonneg (resource_request j) × IsListed j.job_id s.db.jobs

  -- A round answers its job, keeps the answers, and keeps what the rest of the queue needs.
  record Round (job : Job) (s after : Pass) : Type 0 where
    mirror : IsMirror after
    answered : Answered job after
    answers : (j : Job) → Answered j s → Answered j after
    waits : (j : Job) → Waits j s → Waits j after

  written-Round :
      (job : Job) (i : ℕ) (m : Node) (s after : Pass)
      → IsMirror s
      → get_elem? s.nodes i ≡ some m
      → Waits job s
      → IsWritten job i m s after
      → Round job s after
  written-Round job i m s after mirror at waiting w = record {
    mirror = written-IsMirror job i m s after mirror at w;
    answered = inl (
        subst (IsScheduled job.job_id) (sym w.jobs)
          (listed-IsScheduled job.job_id m.node_id s.db.jobs waiting.1));
    answers = λ j answer. elim answer [
      | inl given ↦ inl (
          subst (IsScheduled j.job_id) (sym w.jobs)
            (set_scheduled-IsScheduled j.job_id job.job_id m.node_id s.db.jobs given))
      | inr full ↦ inr (
          subst (All (IsFull (resource_request j))) (sym w.nodes) (
            All-set (IsFull (resource_request j)) s.nodes i (reserve m (resource_request job)) full
              (reserve-IsFull (resource_request j) (resource_request job) m waiting.0
                (All-get (IsFull (resource_request j)) s.nodes i full at))))
    ];
    waits = λ j h. (
      h.0,
      subst (IsListed j.job_id) (sym w.jobs)
          (set_scheduled-IsListed j.job_id job.job_id m.node_id s.db.jobs h.1),
    );
  }

  quiet-Round :
      (job : Job) (reason : Reason) (now : Time) (s : Pass)
      → IsMirror s
      → All (IsFull (resource_request job)) s.nodes
      → Round job s (give_up float no_faults alg cfg job reason now s)
  unfolding give_up record_event Events.record_event
  quiet-Round job reason now s mirror full = record {
    mirror = record { copies = mirror.copies; rows = mirror.rows; same = mirror.same };
    answered = inr full;
    answers = λ j answer. answer;
    waits = λ j h. h;
  }

  module _ (lawful : IsLawful float alg) (off : cfg.enable_preemption ≡ false) where
    unplaced-gives_up :
        (job : Job) (reason : Reason) (now : Time) (s : Pass)
        → alg.place job s.nodes ≡ unplaced reason
        → place_one float no_faults alg cfg now job s
          ≡ give_up float no_faults alg cfg job reason now s
    unfolding place_one
    unplaced-gives_up job reason now s e = ground (arith, e, off)

    placed-commits :
        (job : Job) (i : ℕ) (m : Node) (reason : Reason) (now : Time) (s : Pass)
        → alg.place job s.nodes ≡ placed i m reason
        → place_one float no_faults alg cfg now job s
          ≡ commit_placement float no_faults alg cfg job i m reason now s
    unfolding place_one
    placed-commits job i m reason now s e = ground (arith, e)

    place_one-Round :
        (job : Job) (now : Time) (s : Pass) (p : Placement)
        → alg.place job s.nodes ≡ p
        → PlaceSpec job s.nodes p
        → IsMirror s
        → Waits job s
        → Round job s (place_one float no_faults alg cfg now job s)
    unfolding place_one
    place_one-Round job now s (placed i m reason) e spec mirror waiting =
        subst (Round job s) (sym (placed-commits job i m reason now s e)) (
          written-Round job i m s _ mirror spec.0 waiting
            (written float alg cfg job i m reason now s (current s m i mirror spec.0)))
    place_one-Round job now s (unplaced reason) e spec mirror waiting =
        subst (Round job s) (sym (unplaced-gives_up job reason now s e))
          (quiet-Round job reason now s mirror spec)

    pub record Passed (jobs : List Job) (s after : Pass) : Type 0 where
      pub mirror : IsMirror after
      pub all_answered : All (λ j. Answered j after) jobs
      answers : (j : Job) → Answered j s → Answered j after

    pub place_all-Passed :
        (now : Time) (jobs : List Job) (s : Pass)
        → IsMirror s
        → All (λ j. Waits j s) jobs
        → Passed jobs s (place_all float no_faults alg cfg now jobs s)
    unfolding place_all
    place_all-Passed now [] s mirror waiting = record {
      mirror = mirror;
      all_answered = tt;
      answers = λ j a. a;
    }
    place_all-Passed now (j ∷ js) s mirror waiting =
        let round =
          place_one-Round j now s (alg.place j s.nodes) refl (lawful.place_lem j s.nodes) mirror
            waiting.0 in
        let rest =
          place_all-Passed now js (place_one float no_faults alg cfg now j s) round.mirror (
            All-map (λ k. Waits k s) (λ k. Waits k (place_one float no_faults alg cfg now j s)) js
              round.waits waiting.1) in
        record {
          mirror = rest.mirror;
          all_answered = (rest.answers j round.answered, rest.all_answered);
          answers = λ k a. rest.answers k (round.answers k a);
        }
