-- ===== src/Agent/Claims.antt =====
-- What internal/agent/agent.go starts: a job that runs is not started again.
use gpu_cluster_scheduler.Common.{
  String, str_eq, str_eq_iff, Bool-cases, not, false, ◌&&◌, ◌||◌, inl, inr, List, [], ◌∷◌, map, All,
  ◌≡◌, refl, arith,
}
use gpu_cluster_scheduler.NodeServer.Handlers.{Assignment}
use gpu_cluster_scheduler.Store.Keys.{IsUnique}
use gpu_cluster_scheduler.Agent.{is_running, claim, finish, poll}

abbrev pub assigned_id : Assignment → String
assigned_id a = a.job_id

-- The jobs that a poll starts.
pub record Starts (running : List String) (started : List Assignment) (after : List String)
    : Type 0 where
  pub new : All (λ a. is_running a.job_id running ≡ false) started
  pub once : IsUnique (map assigned_id started)
  pub kept :
      (id : String)
      → is_running id after ≡ (is_running id running || is_running id (map assigned_id started))

others :
    (id : String) (running : List String) (started : List Assignment)
    → All (λ a. is_running a.job_id (id ∷ running) ≡ false) started
    → All (λ a. is_running a.job_id running ≡ false) started
      × All (λ j. str_eq j id ≡ false) (map assigned_id started)
unfolding is_running
others id running [] h = (tt, tt)
others id running (a ∷ more) h =
    let rest = others id running more h.1 in
    (
      (ground arith, rest.0),
      (ground (arith, str_eq_iff a.job_id id, str_eq_iff id a.job_id), rest.1),
    )

-- A poll starts no job that runs and no job twice, and afterwards exactly the started jobs and those
-- from before run.
pub poll-Starts :
    (assigned : List Assignment) (running : List String)
    → Starts running (poll assigned running).0 (poll assigned running).1
unfolding poll claim
poll-Starts [] running = record {
  new = tt;
  once = tt;
  kept = λ id. unfold is_running in ground arith;
}
poll-Starts (a ∷ assigned) running = elim (Bool-cases (is_running a.job_id running)) [
  | inl e ↦ rw e (poll-Starts assigned running)
  | inr e ↦
      let rest = poll-Starts assigned (a.job_id ∷ running) in
      let apart = others a.job_id running (poll assigned (a.job_id ∷ running)).0 rest.new in
      rw e (record {
        new = (e, apart.0);
        once = (apart.1, rest.once);
        kept = λ id. unfold is_running in ground (arith, rest.kept id);
      })
]

-- After a job is done it runs no more, and every other job runs as before.
pub is_running-finish :
    (id k : String) (running : List String)
    → is_running k (finish id running) ≡ (is_running k running && not (str_eq k id))
unfolding is_running finish
is_running-finish id k [] = refl
is_running-finish id k (j ∷ js) =
    ground (arith, is_running-finish id k js, str_eq_iff j id, str_eq_iff j k, str_eq_iff k id)
