-- ===== src/Instance/Planning.antt =====
-- Phases 4 and 4b of ReconcileModuleInstance: the no-op check, the apply guard, the drift detection
-- (detectDrift) and the plan of a restore, up to the first write.
use opm_operator.Prelude.{
  ℕ, String, Bool, true, false, ◌&&◌, not, List, [], Option, none, some, is_empty, length,
  if◌then◌else◌,
}
use opm_operator.Prelude.Int64.{pos, inc64}
use opm_operator.Status.Counters.{no_op, failed_transient, failed_stalled}
use opm_operator.Status.Digests.{DigestSet, is_no_op}
use opm_operator.Status.Conditions.{
  mark_not_ready, mark_stalled, mark_healthy, mark_drifted, mark_drift_unknown, clear_drifted,
}
use opm_operator.Reconcile.Backoff.{
  compute_backoff, health_requeue, instance_requeue, stalled_recheck_interval,
}
use opm_operator.Reconcile.Restore.{
  Rendered, Inventory, detect_drift, plan_restore, expired_jobs, forget,
}
use opm_operator.Reconcile.Identity.{IdentityPlan, keeps_no_op, fill_empty}
use opm_operator.Reconcile.Ownership.{
  GuardError, without_identity, unreadable, GuardedApply, guard_apply, fails_apply,
  refused_to_write, judged_objects, without_objects,
}
use opm_operator.Shrink.{Decision}
use opm_operator.Instance.State.{Attempt}
use opm_operator.Instance.Failures.{ClusterError}
use opm_operator.Instance.Answers.{
  Env, guard_note, refused_objects_note, drift_note, drift_failed_note,
}
use opm_operator.Instance.Writing.{
  inventory_entries, mark_attempt, fail_attempt, failures_of, judge_health_as, fail_apply,
  apply_phase,
}

-- inventoryDigest
unfoldable pub inventory_digest : Option Inventory → String
inventory_digest none = ""
inventory_digest (some inv) = inv.digest

-- noOp
unfoldable pub nothing_to_do : (digests last_applied : DigestSet) → List Decision → Bool
unfolding is_no_op
nothing_to_do digests last_applied refused_claims =
    is_empty refused_claims && is_no_op digests last_applied

-- Whether an error is not nil.
unfoldable pub has_error : Option String → Bool
has_error none = false
has_error (some err) = true

module _ {C L V O S : Type 0} (env : Env C L V O S) where
  -- The guard's failure, as what failed an apply.
  unfoldable pub guard_failure : GuardError → ClusterError
  guard_failure without_identity = record {
    forbidden = false;
    claim_note = none;
    message = env.word (guard_note without_identity);
  }
  guard_failure (unreadable obj err) = record {
    forbidden = env.forbidden_read err;
    claim_note = none;
    message = env.word (guard_note (unreadable obj err));
  }

  -- detectDrift: the conditions, the missing resources, and whether it failed
  unfoldable pub detect_instance_drift :
      (guard_err : Option GuardError) → List Rendered → C → C × List Rendered × Bool
  unfolding mark_drift_unknown guard_failure detect_drift mark_drifted clear_drifted
  detect_instance_drift guard_err resources c = elim env.impersonation_error [
    | some err ↦ (mark_drift_unknown env.set "ImpersonationFailed" err c, [], true)
    | none ↦ elim guard_err [
      | some err ↦
          let failure = guard_failure err in
          (
            if failure.forbidden
                then mark_drift_unknown env.set "DriftCheckForbidden" failure.message c
                else c,
            [],
            true,
          )
      | none ↦ elim (detect_drift env.diff resources) [
        | none ↦ (
          if env.forbidden_diff
              then mark_drift_unknown env.set "DriftCheckForbidden" (env.word drift_failed_note) c
              else c,
          [],
          true,
        )
        | some result ↦ (
          if result.drifted
              then mark_drifted env.set (env.word (drift_note (length result.resources))) c
              else clear_drifted env.set c,
          result.missing,
          false,
        )
      ]
    ]
  ]

  -- The return of a reconcile with nothing to do.
  unfoldable pub finish_no_op :
      IdentityPlan → GuardedApply V → (expired : List Rendered) → Attempt C → Attempt C
  unfolding fill_empty forget judged_objects inventory_entries judge_health_as mark_healthy
      health_requeue instance_requeue
  finish_no_op plan g expired a =
      let inventory =
        forget env.entry_of (forget env.entry_of a.status.inventory expired)
          (judged_objects g.let_go) in
      let v = judge_health_as env (inventory_entries inventory) in
      record (mark_attempt (mark_healthy env.set v.status v.reason v.message) (record a {
        status = record a.status {
          identity = record a.status.identity {
            current = fill_empty plan a.status.identity.current;
          };
          inventory = inventory;
        };
      })) {
        outcome = no_op;
        requeue_after =
            instance_requeue env.jitter
              (pos (health_requeue v.requeue a.status.last_applied.at env.now))
              env.reconcile_interval;
      }

  -- The first writes, unless the client that applies could not be built.
  unfoldable pub write_phase :
      IdentityPlan
      → GuardedApply V
      → (refused_claims : List Decision) → (to_apply expired rendered_set : List Rendered)
      → (restoring : Bool) → (no_client : Option String) → Attempt C
      → Attempt C
  unfolding mark_stalled apply_phase
  write_phase plan g refused_claims to_apply expired rendered_set restoring (some err) a =
      fail_attempt failed_stalled err stalled_recheck_interval
        (mark_attempt (mark_stalled env.set "ImpersonationFailed" err) a)
  write_phase plan g refused_claims to_apply expired rendered_set restoring none a =
      apply_phase env plan g refused_claims to_apply expired rendered_set restoring a

  -- What follows the drift detection: the plan of a restore, the refusals and the no-op.
  unfoldable pub after_drift :
      IdentityPlan
      → GuardedApply V
      → (refused_claims : List Decision) → (missing rendered_set : List Rendered)
      → (unchanged : Bool) → Attempt C
      → Attempt C
  unfolding plan_restore expired_jobs refused_to_write failures_of compute_backoff mark_not_ready
      finish_no_op write_phase
  after_drift plan g refused_claims missing rendered_set unchanged a =
      let (to_apply, is_no_op, restoring) = plan_restore unchanged missing g.taken_in g.allowed in
      let expired = expired_jobs unchanged missing in
      let refusing = refused_to_write g.refused unchanged in
      if not (is_empty refusing)
      then (let message = env.word (refused_objects_note (length refusing)) in
          fail_attempt failed_transient message (compute_backoff (inc64 (failures_of env a))) (
            mark_attempt (mark_not_ready env.set "ApplyRefused" message)
              (record a { phases = record a.phases { apply_ran = true; apply_failed = true } })))
      else if is_no_op
      then finish_no_op plan g expired a
      else write_phase plan g refused_claims to_apply expired rendered_set restoring
          env.impersonation_error a

  -- After the guard: the drift detection, and what follows it.
  unfoldable pub drift_phase :
      IdentityPlan
      → GuardedApply V
      → (refused_claims : List Decision) → (rendered_set : List Rendered) → (unchanged : Bool)
      → Attempt C
      → Attempt C
  unfolding detect_instance_drift without_objects after_drift
  drift_phase plan g refused_claims rendered_set unchanged a =
      let (marked, missing, failed) =
        detect_instance_drift g.err (without_objects g.allowed g.taken_in) a.status.conditions in
      after_drift plan g refused_claims missing rendered_set unchanged (record a {
        status = record a.status { conditions = marked };
        phases = record a.phases { drift_ran = true; drift_failed = failed };
        adopted = g.adopted;
      })

  -- What follows the guard: the failure that fails the apply, or the drift detection.
  unfoldable pub after_guard :
      IdentityPlan
      → (refused_claims : List Decision) → (rendered_set : List Rendered) → (unchanged : Bool)
      → GuardedApply V
      → Option GuardError
      → Attempt C
      → Attempt C
  unfolding fails_apply guard_failure fail_apply drift_phase
  after_guard plan refused_claims rendered_set unchanged g none a =
      drift_phase plan g refused_claims rendered_set unchanged a
  after_guard plan refused_claims rendered_set unchanged g (some err) a =
      if fails_apply (some err) unchanged
      then fail_apply env (guard_failure err) a
      else drift_phase plan g refused_claims rendered_set unchanged a

  -- After withholding: the no-op check and the guard. `adopted_at_start` is read of the conditions
  -- before the reconcile marks them.
  unfoldable pub guard_phase :
      IdentityPlan
      → (adopted_at_start : ℕ) → (apply_list : List Rendered) → (refused_claims : List Decision)
      → (rendered_set : List Rendered) → Attempt C
      → Attempt C
  guard_phase plan adopted_at_start apply_list refused_claims rendered_set a =
      let last_applied : DigestSet = record {
        source = a.status.last_applied.source_digest;
        config = a.status.last_applied.config_digest;
        render = a.status.last_applied.render_digest;
        inventory = inventory_digest a.status.inventory;
      } in
      let unchanged = keeps_no_op plan (nothing_to_do a.digests last_applied refused_claims) in
      let g =
        guard_apply env.rules (has_error env.impersonation_error) env.get apply_list
          (inventory_entries a.status.inventory) plan.instance_uuid adopted_at_start in
      after_guard plan refused_claims rendered_set unchanged g g.err a
