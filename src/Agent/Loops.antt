-- ===== src/Agent/Loops.antt =====
-- `heartbeatLoop`, `pollLoop` and the executions of internal/agent/agent.go, which run at the same time: the mutex
-- makes each use of the set of running jobs one step, so they interleave step by step.
use gpu_cluster_scheduler.Common.{
  String, str_eq, str_eq_iff, Bool-cases, false, not, ◌&&◌, inl, inr, if◌then◌else◌, List, [], ◌∷◌,
  ◌++◌, map, All, ◌≡◌, refl, subst, arith,
}
use gpu_cluster_scheduler.Models.{Ratio}
use gpu_cluster_scheduler.Store.Keys.{IsUnique}
use gpu_cluster_scheduler.NodeServer.Handlers.{Assignment}
use gpu_cluster_scheduler.Agent.{AgentConfig, is_running, claim, current_gpu_util}
use gpu_cluster_scheduler.Agent.Claims.{assigned_id, is_running-finish}
use gpu_cluster_scheduler.Agent.Execution.{after_execute}

-- The set of running jobs, and the goroutines that execute.
pub record AgentState : Type 0 where
  pub running : List String
  pub executing : List Assignment

pub record HeartbeatRequest : Type 0 where
  pub node_id : String
  pub gpu_utilization : Ratio

-- What a tick of the heartbeat sends.
unfoldable pub heartbeat_request : AgentConfig → List String → HeartbeatRequest
unfolding current_gpu_util
heartbeat_request c running = record {
  node_id = c.node_id;
  gpu_utilization = current_gpu_util c running;
}

-- One job of an answer: `if a.claim(…) { go a.execute(…) }`.
unfoldable pub start : Assignment → AgentState → AgentState
unfolding claim
start a s =
    let (running, claimed) = claim a.job_id s.running in
    record { running = running; executing = if claimed then a ∷ s.executing else s.executing }

-- An execution returns, which takes its job off the set.
unfoldable pub return : List Assignment → Assignment → List Assignment → AgentState → AgentState
unfolding after_execute
return before a after s = record {
  running = after_execute a s.running;
  executing = before ++ after;
}

-- The steps of an agent. An answer is any list of assignments, one job of it at a time, and an answer that
-- failed has none. A heartbeat reads the state only.
pub data Step (c : AgentConfig) (s : AgentState) : AgentState → Type 0 where
  beats : (r : HeartbeatRequest) → r ≡ heartbeat_request c s.running → Step c s s
  starts : (a : Assignment) → Step c s (start a s)
  returns :
      (before : List Assignment) (a : Assignment) (after : List Assignment)
      → s.executing ≡ before ++ a ∷ after
      → Step c s (return before a after s)

abbrev pub idle : AgentState
idle = record { running = []; executing = [] }

pub data Reach (c : AgentConfig) : AgentState → Type 0 where
  new : Reach c idle
  later : {s t : AgentState} → Reach c s → Step c s t → Reach c t

-- The set names exactly the jobs that execute, each of them once.
pub record IsExclusive (s : AgentState) : Type 0 where
  pub once : IsUnique (map assigned_id s.executing)
  pub same : (id : String) → is_running id s.running ≡ is_running id (map assigned_id s.executing)

absent :
    (id : String) (ids : List String)
    → is_running id ids ≡ false
    → All (λ j. str_eq j id ≡ false) ids
unfolding is_running
absent id [] h = tt
absent id (j ∷ js) h = (ground arith, absent id js (ground arith))

absent-is_running :
    (id : String) (ids : List String)
    → All (λ j. str_eq j id ≡ false) ids
    → is_running id ids ≡ false
unfolding is_running
absent-is_running id [] h = refl
absent-is_running id (j ∷ js) h = ground (arith, absent-is_running id js h.1)

start-IsExclusive : (a : Assignment) (s : AgentState) → IsExclusive s → IsExclusive (start a s)
unfolding start claim
start-IsExclusive a s h = elim (Bool-cases (is_running a.job_id s.running)) [
  | inl e ↦ rw e (record { once = h.once; same = h.same })
  | inr e ↦ rw e (record {
    once = (absent a.job_id (map assigned_id s.executing) (rw (← h.same a.job_id) e), h.once);
    same = λ id. unfold is_running in rw (h.same id) refl;
  })
]

All-middle :
    (P : String → Type 0) (a : Assignment) (before after : List Assignment)
    → All P (map assigned_id (before ++ a ∷ after))
    → P a.job_id × All P (map assigned_id (before ++ after))
All-middle P a [] after h = h
All-middle P a (b ∷ before) after h =
    let rest = All-middle P a before after h.1 in (rest.0, (h.0, rest.1))

dropped :
    (a : Assignment) (before after : List Assignment)
    → IsUnique (map assigned_id (before ++ a ∷ after))
    → IsUnique (map assigned_id (before ++ after))
      × ((id : String)
          → is_running id (map assigned_id (before ++ after))
            ≡ (is_running id (map assigned_id (before ++ a ∷ after)) && not (str_eq id a.job_id)))
unfolding is_running
dropped a [] after h = (
  h.1,
  λ id. ground (
    arith,
    absent-is_running a.job_id (map assigned_id after) h.0,
    str_eq_iff id a.job_id,
    str_eq_iff a.job_id id,
  ),
)
dropped a (b ∷ before) after h =
    let rest = dropped a before after h.1 in
    let apart = All-middle (λ j. str_eq j b.job_id ≡ false) a before after h.0 in
    (
      (apart.1, rest.0),
      λ id. ground (
        arith,
        rest.1 id,
        apart.0,
        str_eq_iff id a.job_id,
        str_eq_iff b.job_id id,
        str_eq_iff a.job_id b.job_id,
      ),
    )

module _ (c : AgentConfig) where
  step-IsExclusive : {s t : AgentState} → Step c s t → IsExclusive s → IsExclusive t
  unfolding return after_execute
  step-IsExclusive (beats r e) h = h
  step-IsExclusive {s} (starts a) h = start-IsExclusive a s h
  step-IsExclusive {s} (returns before a after e) h =
      let held : IsUnique (map assigned_id (before ++ a ∷ after)) =
        subst (λ es. IsUnique (map assigned_id es)) e h.once in
      let rest = dropped a before after held in
      record {
        once = rest.0;
        same = λ id. rw (is_running-finish a.job_id id s.running, h.same id, e, rest.1 id) refl;
      }

  -- However heartbeats, polled jobs and executions that return interleave, no job has two executions
  -- at once, and the set of running jobs names exactly the jobs that execute.
  pub reachable-IsExclusive : {s : AgentState} → Reach c s → IsExclusive s
  unfolding is_running
  reachable-IsExclusive new = record { once = tt; same = λ id. refl }
  reachable-IsExclusive (later r step) = step-IsExclusive step (reachable-IsExclusive r)
