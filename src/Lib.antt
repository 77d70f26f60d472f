-- ===== src/Lib.antt =====
-- The OPM controller: a Kubernetes operator that renders modules against a platform, applies what
-- they render, and cleans up after them. This library models parts of it and proves what makes
-- them correct.
--
-- The parts and how they interact. A Platform is generated into a package, a directory named by its
-- identity (internal/platform/identity.go, layout.go); the store (internal/platform/store.go) holds
-- the current package, and renders lease it, which keeps its directory from being pruned. A
-- ModuleInstance is reconciled (internal/reconcile): its render may be skipped while the inputs are
-- unchanged, refused resources are withheld from the apply, every object is judged by the apply guard
-- (internal/apply/guard.go) before the first write, missing ones are restored, health is judged, and the status records digests, counters, history and instance identities. On deletion a
-- cleanup deletes the inventory and removes the finalizer last.
--
-- Files.
--   Prelude and below: lists, numbers of 64 bits, maps as association lists, decimal text, sorting.
--   Platform/Identity: PackageIdentity and its string forms (internal/platform/identity.go).
--   Platform/Store: Store, Lease and its release function, Leased (internal/platform/store.go). A
--   method takes the store and returns the new one. Platform/Store/Leases has any order of calls as
--   a step relation.
--   Platform/Layout: Layout.Write and Layout.Prune (internal/platform/layout.go) over a map from
--   names to files. Write returns the tree after each call to the operating system, any of which
--   may be refused.
--   Status: counters.go, history.go and digests.go of internal/status, and updateFailureCounters of
--   internal/reconcile/moduleinstance.go.
--   Reconcile/Identity: identity.go of internal/reconcile; its Protocol is a step relation of
--   interrupted, settled and no-op reconciles.
--   Reconcile/Backoff, Health, Skip, Withhold: backoff.go, health.go, inputs.go and withhold.go of
--   internal/reconcile. Reconcile/Restore: internal/apply/drift.go and what moduleinstance.go does
--   with it (planRestore, expiredJobs, withoutEntries, forgetExpiredJobs, nextInventory).
--   Deletion: runDeletionCleanup and what it calls (internal/reconcile/deletion.go), as a function
--   from the object and the answers of one reconcile to what is left; Deletion/Cleanup/Protocol has
--   any schedule of reconciles of one deletion. Deletion/Runs: RunDeletion (internal/apply/
--   deletion.go), one plan per instance identity. Deletion/Prune: RunCleanup, Results, judgeDelete,
--   ClassifyKeptClaims, Prune and StillThere (internal/apply/prune.go, deletion.go).
--   Reconcile/Warnings: WarningTracker (internal/reconcile/warnings.go).
--   Apply: guard.go, takein.go, claims.go and apply.go of internal/apply. Objects has the keys of
--   objects and the pending custom kinds, Guard the guard, Staged what Apply checks before its first
--   write and what its client refuses to delete, Retry the retry of a staged apply, a round being what
--   one attempt answers and what the clock says.
--   Reconcile/Ownership: ownership.go of internal/reconcile, what the guard means for a reconcile.
--   Shrink: internal/shrink/shrink.go, the decision that a reconcile withholds claims by.
--   Status/Conditions: the Mark functions of internal/status/conditions.go, over an interface to the
--   conditions library.
--   Instance: ReconcileModuleInstance (internal/reconcile/moduleinstance.go) after its gates. State
--   has the status, the variables of the function and what it sends; Answers has what it is told;
--   Failures has resolution.go and how errors are reported; Rendering, Planning and Writing have the
--   phases, each early return a clause; Commit has the deferred function.
--   Registration: internal/controller/transformerregistration_*.go. The parent has a claim and the
--   tests that read nothing else; Holder which claim holds a catalog or a contract; Compat the
--   requirements of a catalog; Verdict what a reconcile is told and how it writes a verdict; Judge
--   Reconcile, one clause for each early return; Removal the deletion; Watches what wakes a claim.
--   A patch of a claim is three requests, for the conditions, the metadata and the rest of the status,
--   each of which the API server takes or not.
--   Fitness, Oldest, Providers, Requirements, Held, Released, Leased and Waking have the lemmas of
--   these, and Life any sequence of reconciles, edits and the deletion of a claim.
--   Package: ReconcileModulePackage (internal/reconcile/modulepackage.go). Gates and Dependencies
--   come before the attempt; Rendering has the source, the path, the render and the commit; Planning
--   and Writing the guard, the apply and the prune, over the status and the answers of Instance.
--   The modules called Tests run the definitions on concrete inputs.
--
-- Conventions. A duration or a time is a number of nanoseconds; spec.interval of a ModulePackage may be
-- negative, and the times of a deletion wait are not. An int64 is an integer whose
-- increment wraps. A character of a text stands for a byte. Fuel occurs in two places: decimal text
-- takes one round more than the number it prints, which is more than its digits, and the retry of an
-- apply takes 21 rounds, as rounds are at least half a second apart and none starts more than ten
-- seconds after the first. Every other loop is structural. What is not in the repository is a
-- parameter: SHA-256, the operating system, the API server, and the library's health rules, delete
-- verdicts, lifecycle plans, entries and digests.
--
-- Not modelled: messages of conditions and events where nothing reads them back, logging, metrics,
-- events, the render kernel, fetching sources, the staged apply of Flux, the gates of a
-- ModuleInstance before its render, the reconcile of Platform, and the
-- wiring of the manager.
pub mod Prelude
pub mod Platform
pub mod Status
pub mod Reconcile
pub mod Deletion
pub mod Apply
pub mod Shrink
pub mod Instance
pub mod Registration
pub mod Package
