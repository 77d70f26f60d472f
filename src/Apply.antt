-- ===== src/Apply.antt =====
-- internal/apply: judging the rendered objects, and writing them to the cluster.
pub mod Objects
pub mod Guard
pub mod Staged
pub mod Retry
mod Tests
