-- ===== src/Instance.antt =====
-- ReconcileModuleInstance (internal/reconcile/moduleinstance.go): one reconcile of a ModuleInstance
-- as a function of its status and of what the cluster and the libraries answer.
pub mod State
pub mod Failures
pub mod Answers
pub mod Writing
pub mod Planning
pub mod Rendering
pub mod Commit
pub mod Endings
pub mod Recorded
pub mod Justified
pub mod Tests
