-- ===== src/Instance/Rendering.antt =====
-- Phases 1 to 4a of ReconcileModuleInstance: the render, the identities, and what is withheld.
use Prim.Native.String.{◌++◌}
use opm_operator.Prelude.{
  ℕ, String, true, false, List, [], ◌∷◌, map, Option, none, some, str_eq, if◌then◌else◌,
}
use opm_operator.Prelude.Int64.{pos, inc64}
use opm_operator.Status.Counters.{no_op, failed_transient, failed_stalled}
use opm_operator.Status.Digests.{module_source_digest}
use opm_operator.Status.Conditions.{
  mark_reconciling, mark_not_ready, mark_stalled, mark_render_timed_out, mark_module_resolved,
}
use opm_operator.Reconcile.Backoff.{compute_backoff, retry_interval_for, stalled_recheck_interval}
use opm_operator.Reconcile.Restore.{Rendered}
use opm_operator.Reconcile.Skip.{rendered_key}
use opm_operator.Reconcile.Identity.{IdentityPlan, plan_identities}
use opm_operator.Reconcile.Withhold.{withhold_refused}
use opm_operator.Reconcile.Ownership.{adopted_before}
use opm_operator.Shrink.{Decision, refused, decide}
use opm_operator.Instance.State.{InstanceStatus, Attempt}
use opm_operator.Instance.Failures.{classify_render_error}
use opm_operator.Instance.Answers.{
  Env, RenderAnswer, RenderResult, ConvertedRender, slot_closed, timed_out, render_failed,
  unconverted, rendered, unsettled_note, unread_claims_note,
}
use opm_operator.Instance.Writing.{mark_attempt, fail_attempt, failures_of}
use opm_operator.Instance.Planning.{guard_phase}

-- extractInstanceUUID
unfoldable pub extract_instance_uuid : List Rendered → String
extract_instance_uuid [] = ""
extract_instance_uuid (r ∷ rs) =
    let rest = extract_instance_uuid rs in
    if str_eq r.instance_uuid "" then rest else r.instance_uuid

module _ {C L V O S : Type 0} (env : Env C L V O S) where
  -- What follows withholding: the failure of a decision, or the guard.
  unfoldable pub after_withhold :
      IdentityPlan
      → (before : ℕ) → (rendered_set : List Rendered) → Option (List Rendered × List Decision)
      → Attempt C
      → Attempt C
  unfolding mark_not_ready failures_of compute_backoff guard_phase
  after_withhold plan before rendered_set none a =
      let message = env.word unread_claims_note in
      fail_attempt failed_transient message (compute_backoff (inc64 (failures_of env a)))
        (mark_attempt (mark_not_ready env.set "ApplyFailed" message) a)
  after_withhold plan before rendered_set (some (apply_list, refused_claims)) a =
      guard_phase env plan before apply_list refused_claims rendered_set a

  -- After a render: the identities, and what is withheld.
  unfoldable pub plan_phase : (before : ℕ) → RenderResult → ConvertedRender → Attempt C → Attempt C
  unfolding rendered_key extract_instance_uuid plan_identities mark_stalled withhold_refused decide
      refused after_withhold
  plan_phase before result converted a =
      let planned = record a {
        digests = record a.digests {
          render = converted.digest;
          inventory = env.inventory_digest_of (map env.entry_of converted.resources);
        };
        rendered_version = some result.module_version;
        rendered_inputs = some (
            rendered_key a.digests.source a.digests.config result.platform_identity
              result.skew_policy env.controller_version env.library_version);
        status = record a.status { required_contracts = result.required_contracts };
      } in
      let uuid = extract_instance_uuid converted.resources in
      let plan = plan_identities a.status.identity.current a.status.identity.previous uuid false in
      if plan.refused
      then (let message =
            env.word (unsettled_note a.status.identity.current a.status.identity.previous uuid) in
          fail_attempt failed_stalled message stalled_recheck_interval
            (mark_attempt (mark_stalled env.set "IdentityChangeUnsettled" message) planned))
      else after_withhold plan before converted.resources
          (withhold_refused (decide env.read_stored env.instances) refused converted.resources)
          planned

  -- The attempt with its module resolved.
  unfoldable pub resolve : Attempt C → Attempt C
  unfolding mark_module_resolved
  resolve a =
      mark_attempt
        (mark_module_resolved env.set (env.spec.module_path ++ ("@" ++ env.spec.module_version))) a

  -- Phase 1: what follows the render
  unfoldable pub after_render : (before : ℕ) → RenderAnswer → Attempt C → Attempt C
  unfolding mark_render_timed_out retry_interval_for failures_of classify_render_error resolve
      mark_stalled plan_phase
  after_render before slot_closed a = record a { skip_commit = true; returned_error = true }
  after_render before (timed_out message) a =
      fail_attempt failed_transient message
        (retry_interval_for failed_transient (failures_of env a))
        (mark_attempt (mark_render_timed_out env.set message) a)
  after_render before (render_failed err) a =
      let (marked, outcome, message) = classify_render_error env.set err a.status.conditions in
      fail_attempt outcome message (retry_interval_for outcome (failures_of env a))
        (mark_attempt (λ c. marked) a)
  after_render before (unconverted result reason message) a =
      fail_attempt failed_stalled message stalled_recheck_interval
        (mark_attempt (mark_stalled env.set reason message) (resolve a))
  after_render before (rendered result converted) a = plan_phase before result converted (resolve a)

  -- The attempt as the render starts.
  unfoldable pub start_attempt : InstanceStatus C → Attempt C
  unfolding mark_reconciling module_source_digest
  start_attempt status = record {
    status = record status {
      conditions =
          mark_reconciling env.set "Progressing" "Reconciliation in progress" status.conditions;
    };
    outcome = no_op;
    digests = record {
      source = module_source_digest env.sha256 env.spec.module_path env.spec.module_version;
      config = env.config_digest;
      render = "";
      inventory = "";
    };
    reconciled = false;
    new_entries = [];
    err_msg = "";
    retry_after = 0;
    phases = record {
      drift_ran = false;
      drift_failed = false;
      apply_ran = false;
      apply_failed = false;
      prune_ran = false;
      prune_failed = false;
    };
    skip_commit = false;
    rendered_version = none;
    rendered_inputs = none;
    adopted = 0;
    requeue_after = pos 0;
    returned_error = false;
    writes = [];
  }

  -- adoptedBefore, on the conditions before the reconcile marks them; `counted` is
  -- AdoptedElsewhereCount.
  unfoldable pub adopted_at_start : (counted : String → ℕ) → C → ℕ
  unfolding adopted_before
  adopted_at_start counted c = adopted_before counted (elim (env.set.get "Ready" c) [
    | none ↦ none
    | some ready ↦ some (ready.status, ready.message)
  ])

  -- The body of ReconcileModuleInstance after its gates, without its deferred commit.
  unfoldable pub attempt : (counted : String → ℕ) → InstanceStatus C → Attempt C
  unfolding adopted_at_start start_attempt after_render
  attempt counted status =
      after_render (adopted_at_start counted status.conditions) env.render (start_attempt status)
