-- ===== src/Package/Planning.antt =====
-- The identities and the apply guard of a reconcile of a ModulePackage: guardModulePackageApply and
-- the middle of ReconcileModulePackage of internal/reconcile/modulepackage.go.
use opm_operator.Prelude.{
  ℕ, String, Bool, true, false, ◌&&◌, not, map, Option, none, some, is_empty, length, str_eq,
  if◌then◌else◌,
}
use opm_operator.Status.Counters.{failed_stalled}
use opm_operator.Status.Digests.{DigestSet, is_no_op}
use opm_operator.Status.Conditions.{mark_stalled}
use opm_operator.Reconcile.Backoff.{stalled_recheck_interval}
use opm_operator.Reconcile.Skip.{rendered_key}
use opm_operator.Reconcile.Identity.{IdentityPlan, plan_identities, keeps_no_op}
use opm_operator.Reconcile.Ownership.{
  GuardError, GuardedApply, guard_apply, changes_inventory, refused_to_write,
}
use opm_operator.Instance.State.{Attempt}
use opm_operator.Instance.Answers.{
  RenderResult, ConvertedRender, refused_objects_note, unsettled_note,
}
use opm_operator.Instance.Writing.{inventory_entries, mark_attempt, fail_attempt, effective_sa}
use opm_operator.Instance.Planning.{inventory_digest, guard_failure}
use opm_operator.Instance.Rendering.{extract_instance_uuid}
use opm_operator.Package.State.{PackageEnv}
use opm_operator.Package.Writing.{package_backoff, fail_transiently, package_no_op, apply_and_prune}

module _ {C L V O S R : Type 0} (env : PackageEnv C L V O S R) where
  -- A failure that stalls the package until something changes
  unfoldable pub fail_stalled : (reason message : String) → Attempt C → Attempt C
  unfolding mark_stalled
  fail_stalled reason message a =
      fail_attempt failed_stalled message stalled_recheck_interval
        (mark_attempt (mark_stalled env.shared.set reason message) a)

  abbrev failed_apply : Attempt C → Attempt C
  failed_apply a = record a { phases = record a.phases { apply_ran = true; apply_failed = true } }

  -- After the guard: what it adopts, and the no-op or the writes.
  unfoldable pub after_allowed :
      IdentityPlan → (unchanged : Bool) → GuardedApply V → ConvertedRender → Attempt C → Attempt C
  after_allowed plan unchanged g converted a =
      if unchanged && not (changes_inventory g)
      then package_no_op env plan g.adopted a
      else apply_and_prune env plan g converted (record a { adopted = g.adopted })

  -- guardModulePackageApply, after the guard, and what follows it
  unfoldable pub after_package_guard :
      IdentityPlan
      → (unchanged : Bool) → GuardedApply V
      → ConvertedRender
      → Option GuardError
      → Attempt C
      → Attempt C
  unfolding guard_failure
  after_package_guard plan unchanged g converted (some err) a =
      let failure = guard_failure env.shared err in
      if not (str_eq (effective_sa env.shared) "") && failure.forbidden
      then fail_stalled "ImpersonationFailed" failure.message (failed_apply a)
      else fail_transiently env "ApplyFailed" failure.message (package_backoff env a)
          (failed_apply a)
  after_package_guard plan unchanged g converted none a =
      let refusing = refused_to_write g.refused (unchanged && not (changes_inventory g)) in
      if not (is_empty refusing)
      then fail_transiently env "ApplyRefused"
          (env.shared.word (refused_objects_note (length refusing))) (package_backoff env a)
          (failed_apply a)
      else after_allowed plan unchanged g converted a

  -- guardModulePackageApply, after it built the client, and what follows it
  unfoldable pub after_client :
      IdentityPlan
      → (before : ℕ) → (unchanged : Bool) → ConvertedRender
      → Option String
      → Attempt C
      → Attempt C
  unfolding guard_apply inventory_entries
  after_client plan before unchanged converted (some err) a =
      fail_stalled "ImpersonationFailed" err a
  after_client plan before unchanged converted none a =
      let g =
        guard_apply env.shared.rules false env.shared.get converted.resources
          (inventory_entries a.status.inventory) plan.instance_uuid before in
      after_package_guard plan unchanged g converted g.err a

  -- After the identities: whether the digests changed, and the guard.
  unfoldable pub after_identities :
      IdentityPlan → (before : ℕ) → ConvertedRender → Attempt C → Attempt C
  unfolding keeps_no_op is_no_op inventory_digest
  after_identities plan before converted a =
      let last_applied : DigestSet = record {
        source = a.status.last_applied.source_digest;
        config = a.status.last_applied.config_digest;
        render = a.status.last_applied.render_digest;
        inventory = inventory_digest a.status.inventory;
      } in
      after_client plan before (keeps_no_op plan (is_no_op a.digests last_applied)) converted
        env.shared.impersonation_error a

  -- After a render: computeModulePackageDigests, and the plan of the identities
  unfoldable pub after_converted :
      (before : ℕ) → RenderResult → ConvertedRender → Attempt C → Attempt C
  unfolding rendered_key extract_instance_uuid plan_identities
  after_converted before result converted a =
      let planned = record a {
        digests = record a.digests {
          render = converted.digest;
          inventory = env.shared.inventory_digest_of (map env.shared.entry_of converted.resources);
          config = env.shared.config_digest;
        };
        rendered_version = some result.module_version;
        rendered_inputs = some (
            rendered_key a.digests.source env.shared.config_digest result.platform_identity
              result.skew_policy env.shared.controller_version env.shared.library_version);
      } in
      let uuid = extract_instance_uuid converted.resources in
      let plan = plan_identities a.status.identity.current a.status.identity.previous uuid true in
      if plan.refused
      then fail_stalled "IdentityChangeUnsettled"
          (env.shared.word
            (unsettled_note a.status.identity.current a.status.identity.previous uuid))
          planned
      else after_identities plan before converted planned
