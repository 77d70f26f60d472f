-- ===== src/Deletion.antt =====
-- The deletion cleanup of a ModuleInstance and of a ModulePackage: when the finalizer comes off.
pub mod Hold
pub mod Runs
pub mod Prune
pub mod Cleanup
mod Tests
