-- ===== src/Package.antt =====
-- internal/reconcile/modulepackage.go: the reconcile of a ModulePackage.
pub mod State
pub mod Dependencies
pub mod Writing
pub mod Planning
pub mod Rendering
pub mod Gates
pub mod Endings
pub mod Starts
pub mod Grounds
mod Tests
