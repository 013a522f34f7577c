-- ===== src/Store.antt =====
-- internal/store: the repositories over the database. An SQL statement is a function on the tables.
pub mod Database
pub mod Jobs
pub mod Nodes
pub mod Events
pub mod Keys
pub mod Soundness
pub mod Queries
pub mod Migrations
pub mod Post
