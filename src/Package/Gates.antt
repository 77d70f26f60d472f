-- ===== src/Package/Gates.antt =====
-- The gates of ReconcileModulePackage of internal/reconcile/modulepackage.go, before it renders.
use opm_operator.Prelude.{String, ℕ, Bool, not, List, Option, if◌then◌else◌}
use opm_operator.Status.Conditions.{mark_suspended, mark_not_ready}
use opm_operator.Instance.State.{InstanceStatus}
use opm_operator.Package.State.{SourceStatus, PackageEnv, PackageAttempt}
use opm_operator.Package.Dependencies.{
  Dependency, PackageRead, Check, nothing_blocks, blocked_by, check_failed, check_depends_on,
}
use opm_operator.Prelude.Int64.{ℤ}
use opm_operator.Package.Writing.{interval}
use opm_operator.Package.Rendering.{package_attempt, commit_package}

-- A ModulePackage, as far as the gates read it
pub record PackageObject (C R : Type 0) : Type 0 where
  pub namespace : String
  pub has_finalizer : Bool
  pub deleting : Bool
  pub suspended : Bool
  pub depends_on : List Dependency
  pub source : Option (SourceStatus R)
  pub status : InstanceStatus C

-- How a reconcile ends: after it added the finalizer, in the deletion cleanup, at a gate with the
-- status that it patches, or after its attempt, with the status that it commits.
pub data PackageRun (C R : Type 0) : Type 0 where
  finalizer_added : PackageRun C R
  finalizer_failed : PackageRun C R
  cleans_up : PackageRun C R
  suspended_as : InstanceStatus C → PackageRun C R
  waits : InstanceStatus C → (requeue_after : ℤ) → PackageRun C R
  attempted : PackageAttempt C R → Option (InstanceStatus C) → PackageRun C R

module _ {C L V O S R : Type 0} (env : PackageEnv C L V O S R) (counted : String → ℕ)
    (read : (name : String) → PackageRead) (blocker_note : Check → String) where
  -- The status of a package that waits for its dependencies
  unfoldable pub waiting_status : Check → InstanceStatus C → InstanceStatus C
  unfolding mark_not_ready
  waiting_status check s = record s {
    conditions =
        mark_not_ready env.shared.set "DependenciesNotReady" (blocker_note check) s.conditions;
    observed_generation = env.shared.spec.generation;
  }

  -- checkDependsOn and what follows it
  unfoldable pub after_check : Check → PackageObject C R → PackageRun C R
  after_check nothing_blocks o =
      let p = package_attempt env counted o.source o.status in attempted p (commit_package env p)
  after_check (blocked_by name found) o =
      waits (waiting_status (blocked_by name found) o.status) (interval env)
  after_check (check_failed name) o =
      waits (waiting_status (check_failed name) o.status) (interval env)

  -- The status of a suspended package
  unfoldable pub suspended_status : InstanceStatus C → InstanceStatus C
  unfolding mark_suspended
  suspended_status s = record s {
    conditions = mark_suspended env.shared.set s.conditions;
    observed_generation = env.shared.spec.generation;
  }

  -- ReconcileModulePackage, on the package that it reads; `adds` is whether the API server takes
  -- the finalizer.
  unfoldable pub reconcile_package : (adds : Bool) → PackageObject C R → PackageRun C R
  unfolding check_depends_on
  reconcile_package adds o =
      if not o.has_finalizer
      then (if adds then finalizer_added else finalizer_failed)
      else if o.deleting
      then cleans_up
      else if o.suspended
      then suspended_as (suspended_status o.status)
      else after_check (check_depends_on o.namespace read o.depends_on) o
