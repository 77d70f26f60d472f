-- ===== src/Instance/Writing.antt =====
-- The apply and the prune of a reconcile: applyInstance, pruneStaleResources, pruneOutcome,
-- clearDriftAfterApply, and phases 5 to 7 of ReconcileModuleInstance.
use opm_operator.Prelude.{
  ℕ, String, Bool, true, false, ◌&&◌, ◌||◌, not, List, [], ◌∷◌, ◌++◌, map, Option, none, some,
  is_empty, str_eq, ◌==◌, if◌then◌else◌,
}
use opm_operator.Prelude.Int64.{ℤ, pos, inc64}
use opm_operator.Status.Counters.{
  FailureCounters, Outcome, failed_transient, failed_stalled, applied, applied_and_pruned,
}
use opm_operator.Status.Conditions.{
  mark_not_ready, mark_stalled, mark_ready, mark_healthy, clear_drifted,
}
use opm_operator.Reconcile.Backoff.{
  compute_backoff, retry_interval_for, prune_failure, health_requeue, instance_requeue,
}
use opm_operator.Reconcile.Health.{InventoryEntry, HealthVerdict, judge_health, unreadable_verdict}
use opm_operator.Reconcile.Restore.{Rendered, Inventory, without_entries}
use opm_operator.Reconcile.Identity.{IdentityPlan, store}
use opm_operator.Reconcile.Ownership.{GuardedApply, judged_objects}
use opm_operator.Shrink.{Decision}
use opm_operator.Instance.State.{ApplyOptions, write_identity, write_apply, write_prune, Attempt}
use opm_operator.Instance.Failures.{ClusterError, resolve_effective_sa, report_apply_failure}
use opm_operator.Instance.Answers.{
  Env, PruneAnswer, pruned, prune_failed, ready_note, refused_claims_note,
}

-- reconcileFailureCount
unfoldable pub reconcile_failure_count : Option FailureCounters → ℤ
reconcile_failure_count none = pos 0
reconcile_failure_count (some c) = c.reconcile

-- inventoryEntries
unfoldable pub inventory_entries : Option Inventory → List InventoryEntry
inventory_entries none = []
inventory_entries (some inv) = inv.entries

-- pruneOutcome
unfoldable pub prune_outcome : (deleted kept : ℕ) → Outcome
prune_outcome deleted kept =
    if (deleted == 0) && not (kept == 0) then applied else applied_and_pruned

-- The conditions of an attempt, rewritten.
abbrev pub mark_attempt : {C : Type 0} → (C → C) → Attempt C → Attempt C
mark_attempt f a = record a { status = record a.status { conditions = f a.status.conditions } }

-- An early return of a failure that is retried after an interval.
abbrev pub fail_attempt :
    {C : Type 0} → Outcome → (message : String) → (retry : ℕ) → Attempt C → Attempt C
fail_attempt outcome message retry a = record a {
  outcome = outcome;
  err_msg = message;
  retry_after = retry;
  requeue_after = pos retry;
}

module _ {C L V O S : Type 0} (env : Env C L V O S) where
  unfoldable pub failures_of : Attempt C → ℤ
  unfolding reconcile_failure_count
  failures_of a = reconcile_failure_count a.status.failure_counters

  unfoldable pub effective_sa : String
  unfolding resolve_effective_sa
  effective_sa = (resolve_effective_sa env.spec.service_account env.default_service_account).0

  -- judgeHealth of entries that are read one by one
  unfoldable pub judge_entries : List InventoryEntry → HealthVerdict
  unfolding judge_health
  judge_entries entries = judge_health env.health_rules (map (λ e. (e, env.read_health e)) entries)

  -- judgeHealthAs
  unfoldable pub judge_health_as : List InventoryEntry → HealthVerdict
  unfolding judge_entries unreadable_verdict
  judge_health_as entries = elim env.impersonation_error [
    | some err ↦ unreadable_verdict env.health_rules entries err
    | none ↦ judge_entries entries
  ]

  -- A failed apply, returned early.
  unfoldable pub fail_apply : ClusterError → Attempt C → Attempt C
  unfolding report_apply_failure effective_sa failures_of retry_interval_for
  fail_apply err a =
      let (marked, outcome, message) =
        report_apply_failure env.set err effective_sa a.status.conditions in
      fail_attempt outcome message (retry_interval_for outcome (failures_of a)) (record a {
        status = record a.status { conditions = marked };
        phases = record a.phases { apply_ran = true; apply_failed = true };
      })

  -- Phase 7, after a prune that succeeded.
  unfoldable pub finish : Outcome → Attempt C → Attempt C
  unfolding mark_ready mark_healthy judge_entries health_requeue instance_requeue
  finish outcome a =
      let v = judge_entries a.new_entries in
      record (mark_attempt
        (λ c.
          mark_healthy env.set v.status v.reason v.message
            (mark_ready env.set (env.word (ready_note a.adopted)) c))
        a) {
          outcome = outcome;
          reconciled = true;
          requeue_after =
              instance_requeue env.jitter (pos (health_requeue v.requeue (some env.now) env.now))
                env.reconcile_interval;
        }

  -- A prune whose error is returned, or which stalled the instance.
  unfoldable pub fail_prune : ClusterError → Attempt C → Attempt C
  unfolding mark_stalled mark_not_ready prune_failure failures_of effective_sa
  fail_prune err a =
      let ran = record a { phases = record a.phases { prune_ran = true; prune_failed = true } } in
      let stalls = not (str_eq effective_sa "") && err.forbidden in
      let (retry, message, failed) =
        prune_failure (if stalls then none else some err.message) false (failures_of a) in
      if stalls
      then fail_attempt failed_stalled message retry
          (mark_attempt (mark_stalled env.set "ImpersonationFailed" err.message) ran)
      else fail_attempt failed_transient message retry
          (mark_attempt (mark_not_ready env.set "PruneFailed" err.message) ran)

  -- What follows apply.Prune.
  unfoldable pub after_prune : PruneAnswer → Attempt C → Attempt C
  unfolding finish fail_prune prune_outcome
  after_prune (prune_failed err) a = fail_prune err a
  after_prune (pruned deleted kept) a = finish (prune_outcome deleted kept) a

  -- Phase 6: pruneStaleResources and what follows it
  unfoldable pub prune_phase : IdentityPlan → (stale : List InventoryEntry) → Attempt C → Attempt C
  unfolding finish after_prune
  prune_phase plan stale a =
      let ran = record a { phases = record a.phases { prune_ran = true } } in
      if not env.spec.prune || is_empty stale
      then finish applied ran
      else after_prune (env.prune plan.prune stale env.spec.deletes_claims) (record ran {
        writes = ran.writes ++ (write_prune plan.prune stale env.spec.deletes_claims ∷ []);
      })

  -- The apply, unless the identity could not be stored.
  unfoldable pub apply_stored :
      (resources : List Rendered)
      → ApplyOptions
      → Option ClusterError
      → Attempt C
      → Attempt C × Option ClusterError
  apply_stored resources opts (some err) a = (a, some err)
  apply_stored resources opts none a = (
    record a { writes = a.writes ++ (write_apply resources opts ∷ []) },
    env.apply resources opts,
  )

  -- applyInstance: the attempt with the identity stored and the set applied, and the first error.
  unfoldable pub apply_instance :
      IdentityPlan
      → (resources : List Rendered) → ApplyOptions
      → Attempt C
      → Attempt C × Option ClusterError
  unfolding store apply_stored
  apply_instance plan resources opts a =
      let (fields, failed) = store plan a.status.identity env.patch_identity in
      apply_stored resources opts failed (record a {
        status = record a.status { identity = fields };
        writes = if plan.changed then a.writes ++ (write_identity fields ∷ []) else a.writes;
      })

  -- What follows apply.Apply: its error, or the refusal of withheld claims, or the prune.
  unfoldable pub after_apply :
      IdentityPlan
      → (refused_claims : List Decision) → (restoring : Bool)
      → (stale new_entries : List InventoryEntry) → Option ClusterError
      → Attempt C
      → Attempt C
  unfolding fail_apply compute_backoff failures_of mark_not_ready clear_drifted prune_phase
  after_apply plan refused_claims restoring stale new_entries (some err) a = fail_apply err a
  after_apply plan refused_claims restoring stale new_entries none a =
      if not (is_empty refused_claims)
      then (let message = env.word (refused_claims_note refused_claims) in
          fail_attempt failed_transient message (compute_backoff (inc64 (failures_of a)))
            (mark_attempt (mark_not_ready env.set "DependentsRemain" message) a))
      else prune_phase plan stale
          (record (mark_attempt (λ c. if restoring then c else clear_drifted env.set c) a) {
            new_entries = new_entries;
          })

  -- Phase 5
  unfoldable pub apply_phase :
      IdentityPlan
      → GuardedApply V
      → (refused_claims : List Decision) → (apply_list expired rendered_set : List Rendered)
      → (restoring : Bool) → Attempt C
      → Attempt C
  unfolding apply_instance after_apply without_entries judged_objects inventory_entries
  apply_phase plan g refused_claims apply_list expired rendered_set restoring a =
      let entries = map env.entry_of rendered_set in
      let stale = env.stale_set (inventory_entries a.status.inventory) entries in
      let (done, failed) =
        apply_instance plan apply_list
          (record {
            force = env.spec.force_conflicts;
            delete_data = env.spec.deletes_claims;
            taken_in = g.pins;
          })
          (record a { phases = record a.phases { apply_ran = true } }) in
      after_apply plan refused_claims restoring stale
        (without_entries env.entry_of (without_entries env.entry_of entries expired)
          (judged_objects g.let_go))
        failed done
