-- ===== src/Platform.antt =====
-- internal/platform: the identity of a generated platform package, the process-local store of the
-- current package with its leases, and the directories that hold the packages.
pub mod Identity
pub mod Store
pub mod Layout
