-- ===== src/Api.antt =====
-- internal/api: the REST gateway.
pub mod Handlers
pub mod RateLimit
pub mod Soundness
pub mod Submission
pub mod Middleware
pub mod Router
