-- ===== src/Engine.antt =====
-- internal/scheduler/engine.go: the scheduling loop. The stores are those of internal/store, over a map
-- of the queries that fail; logs and metrics are left out. All of one pass reads the clock once.
pub mod Pass
pub mod Tick
pub mod WriteBack
pub mod Invariants
pub mod Placing
pub mod Agreement
pub mod Sweep
pub mod Capacity
pub mod Frame
pub mod Finished
pub mod Preempting
pub mod Races
pub mod Loop
pub mod Placed
pub mod Conserving
pub mod Retrying
pub mod Gauges
pub mod Rescue
pub mod Reconcile
