-- ===== src/Models.antt =====
-- internal/models: the data that every service shares.
mod Jobs
mod Nodes
mod Scheduling
pub mod Capacity
unfoldable pub use Jobs.*
unfoldable pub use Nodes.*
unfoldable pub use Scheduling.*
