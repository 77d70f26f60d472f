-- ===== src/Status.antt =====
-- internal/status: what a reconcile records in the status of its object.
pub mod Counters
pub mod Digests
pub mod History
pub mod Conditions
mod Tests
