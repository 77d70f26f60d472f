-- ===== src/Reconcile.antt =====
-- internal/reconcile: one reconcile of a ModuleInstance or of a ModulePackage.
pub mod Identity
pub mod Backoff
pub mod Health
pub mod Skip
pub mod Restore
pub mod Withhold
pub mod Warnings
pub mod Ownership
