-- ===== src/Instance/Endings/Writes.antt =====
-- How the phases that write to the cluster end.
use opm_operator.Prelude.{
  ℕ, String, ◌≡◌, inl, inr, refl, Bool, true, ◌&&◌, ◌||◌, not, List, Option, none, some, is_empty,
  str_eq, arith, Bool-cases, if-cases, if◌then◌else◌,
}
use opm_operator.Prelude.Int64.{inc64}
use opm_operator.Status.Counters.{Outcome, applied}
use opm_operator.Reconcile.Backoff.{prune_failure}
use opm_operator.Status.Conditions.{clear_drifted}
use opm_operator.Reconcile.Health.{InventoryEntry}
use opm_operator.Reconcile.Identity.{IdentityPlan, store}
use opm_operator.Reconcile.Restore.{Rendered}
use opm_operator.Reconcile.Ownership.{GuardedApply}
use opm_operator.Shrink.{Decision}
use opm_operator.Instance.Planning.{write_phase}
use opm_operator.Instance.State.{InstanceStatus, Attempt, ApplyOptions}
use opm_operator.Instance.Failures.{ClusterError, report_apply_failure}
use opm_operator.Instance.Answers.{Env, PruneAnswer, prune_failed, pruned}
use opm_operator.Instance.Writing.{
  mark_attempt, effective_sa, failures_of, apply_stored, apply_instance, after_apply, apply_phase,
  after_prune, fail_apply, finish, fail_prune, prune_phase, prune_outcome,
}
use opm_operator.Instance.Endings.{
  is_success, IsOpen, IsEnded, failed_by, backoff_pos, retry_pos, report_apply_failure-failure,
}

module _ {C L V O S : Type 0} (env : Env C L V O S) (s : InstanceStatus C) where
  pub fail_apply-IsEnded :
      (err : ClusterError) (a : Attempt C) → IsOpen s a → IsEnded s (fail_apply env err a)
  unfolding fail_apply
  fail_apply-IsEnded err a h =
      let (marked, outcome, message) =
        report_apply_failure env.set err (effective_sa env) a.status.conditions in
      record {
        ended = inl (
          failed_by
              (report_apply_failure-failure env.set err (effective_sa env) a.status.conditions)
              (retry_pos outcome (failures_of env a)) h.0,
          h.1,
        );
      }

  finish-IsEnded :
      (o : Outcome) (a : Attempt C) → is_success o ≡ true → IsOpen s a → IsEnded s (finish env o a)
  unfolding finish
  finish-IsEnded o a p h = record {
    ended = inr (
        inl (
          record {
            success = p;
            is_reconciled = refl;
            commits = h.0.commits;
            no_retry = h.0.no_retry;
          },
          h.1,
        ));
  }

  fail_prune-IsEnded :
      (err : ClusterError) (a : Attempt C) → IsOpen s a → IsEnded s (fail_prune env err a)
  unfolding fail_prune prune_failure
  fail_prune-IsEnded err a h =
      elim (Bool-cases (not (str_eq (effective_sa env) "") && err.forbidden)) [
        | inl t ↦ rw t (record { ended = inl (failed_by refl (omega arith) h.0, h.1) })
        | inr f ↦ rw f (record {
          ended = inl (failed_by refl (backoff_pos (inc64 (failures_of env a))) h.0, h.1);
        })
      ]

  prune_outcome-success : (d k : ℕ) → is_success (prune_outcome d k) ≡ true
  unfolding prune_outcome
  prune_outcome-success d k = ground arith

  after_prune-IsEnded :
      (p : PruneAnswer) (a : Attempt C) → IsOpen s a → IsEnded s (after_prune env p a)
  unfolding after_prune
  after_prune-IsEnded (prune_failed err) a h = fail_prune-IsEnded err a h
  after_prune-IsEnded (pruned d k) a h =
      finish-IsEnded (prune_outcome d k) a (prune_outcome-success d k) h

  prune_phase-IsEnded :
      (plan : IdentityPlan) (stale : List InventoryEntry) (a : Attempt C)
      → IsOpen s a
      → IsEnded s (prune_phase env plan stale a)
  unfolding prune_phase
  prune_phase-IsEnded plan stale a h =
      let ran = record a { phases = record a.phases { prune_ran = true } } in
      if-cases (IsEnded s) (not env.spec.prune || is_empty stale)
        (λ t. finish-IsEnded applied ran refl h)
        (λ f. after_prune-IsEnded (env.prune plan.prune stale env.spec.deletes_claims) _ h)

  after_apply-IsEnded :
      (plan : IdentityPlan) (refused_claims : List Decision) (restoring : Bool)
      (stale entries : List InventoryEntry) (err : Option ClusterError) (a : Attempt C)
      → IsOpen s a
      → IsEnded s (after_apply env plan refused_claims restoring stale entries err a)
  unfolding after_apply
  after_apply-IsEnded plan refused_claims restoring stale entries (some err) a h =
      fail_apply-IsEnded err a h
  after_apply-IsEnded plan refused_claims restoring stale entries none a h =
      if-cases (IsEnded s) (not (is_empty refused_claims))
        (λ t. record {
          ended = inl (failed_by refl (backoff_pos (inc64 (failures_of env a))) h.0, h.1);
        })
        (λ f.
          prune_phase-IsEnded plan stale
            (record (mark_attempt (λ c. if restoring then c else clear_drifted env.set c) a) {
              new_entries = entries;
            })
            h)

  apply_stored-IsOpen :
      (l : List Rendered) (opts : ApplyOptions) (err : Option ClusterError) (a : Attempt C)
      → IsOpen s a
      → IsOpen s (apply_stored env l opts err a).0
  unfolding apply_stored
  apply_stored-IsOpen l opts none a h = h
  apply_stored-IsOpen l opts (some err) a h = h

  apply_instance-IsOpen :
      (plan : IdentityPlan) (l : List Rendered) (opts : ApplyOptions) (a : Attempt C)
      → IsOpen s a
      → IsOpen s (apply_instance env plan l opts a).0
  unfolding apply_instance
  apply_instance-IsOpen plan l opts a h =
      apply_stored-IsOpen l opts (store plan a.status.identity env.patch_identity).1 _ h

  pub write_phase-IsEnded :
      (plan : IdentityPlan) (g : GuardedApply V) (refused_claims : List Decision)
      (to_apply expired rendered_set : List Rendered) (restoring : Bool) (no_client : Option String)
      (a : Attempt C)
      → IsOpen s a
      → IsEnded s (
          write_phase env plan g refused_claims to_apply expired rendered_set restoring no_client a)
  unfolding write_phase apply_phase
  write_phase-IsEnded plan g refused_claims to_apply expired rendered_set restoring (some err) a h =
      record { ended = inl (failed_by refl (omega arith) h.0, h.1) }
  write_phase-IsEnded plan g refused_claims to_apply expired rendered_set restoring none a h =
      after_apply-IsEnded plan refused_claims restoring _ _ _ _
        (apply_instance-IsOpen plan to_apply _ _ h)
