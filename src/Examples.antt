-- ===== src/Examples.antt =====
-- The theorems at concrete inputs: the sample cluster, its services and its agents.
mod Scheduling
mod Services
mod Agents
mod Leaders
mod Execution
mod Recovery
mod Lifecycle
mod Operations
