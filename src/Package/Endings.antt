-- ===== src/Package/Endings.antt =====
-- How a reconcile of a ModulePackage ends, from the guard on.
pub mod Whole
use opm_operator.Prelude.{
  ℕ, ◌<◌, String, ◌≡◌, inl, inr, refl, Bool, true, false, ◌&&◌, ◌||◌, not, List, [], Option, none,
  some, is_empty, str_eq, ◌==◌, arith, Bool-cases, if-cases, Option-cases, if◌then◌else◌,
}
use opm_operator.Prelude.Int64.{inc64}
use opm_operator.Status.Counters.{Outcome, applied}
use opm_operator.Status.Conditions.{clear_drifted}
use opm_operator.Reconcile.Health.{InventoryEntry}
use opm_operator.Reconcile.Identity.{IdentityPlan}
use opm_operator.Reconcile.Ownership.{GuardError, GuardedApply, changes_inventory, refused_to_write}
use opm_operator.Instance.State.{InstanceStatus, Attempt}
use opm_operator.Instance.Failures.{ClusterError}
use opm_operator.Instance.Answers.{ConvertedRender, PruneAnswer, prune_failed, pruned}
use opm_operator.Instance.Writing.{
  reconcile_failure_count, mark_attempt, effective_sa, prune_outcome,
}
use opm_operator.Instance.Planning.{guard_failure}
use opm_operator.Instance.Endings.{is_success, IsOpen, IsEnded, failed_by, backoff_pos}
use opm_operator.Package.State.{PackageEnv}
use opm_operator.Package.Writing.{
  package_backoff, fail_transiently, package_no_op, package_finish, after_package_prune,
  package_prune, after_package_apply, package_apply_stored, apply_and_prune,
}
use opm_operator.Package.Planning.{fail_stalled, after_allowed, after_package_guard, after_client}

module _ {C L V O S R : Type 0} (env : PackageEnv C L V O S R) (s : InstanceStatus C) where
  pub fail_transiently-IsEnded :
      (reason message : String) (retry : ℕ) (a : Attempt C)
      → 0 < retry
      → IsOpen s a
      → IsEnded s (fail_transiently env reason message retry a)
  unfolding fail_transiently
  fail_transiently-IsEnded reason message retry a p h = record {
    ended = inl (failed_by refl p h.0, h.1);
  }

  pub fail_stalled-IsEnded :
      (reason message : String) (a : Attempt C)
      → IsOpen s a
      → IsEnded s (fail_stalled env reason message a)
  unfolding fail_stalled
  fail_stalled-IsEnded reason message a h = record {
    ended = inl (failed_by refl (omega arith) h.0, h.1);
  }

  pub package_backoff-pos : (a : Attempt C) → 0 < package_backoff env a
  unfolding package_backoff
  package_backoff-pos a = backoff_pos (inc64 (reconcile_failure_count a.status.failure_counters))

  package_finish-IsEnded :
      (o : Outcome) (entries : List InventoryEntry) (a : Attempt C)
      → is_success o ≡ true
      → IsOpen s a
      → IsEnded s (package_finish env o entries a)
  unfolding package_finish
  package_finish-IsEnded o entries a p h = record {
    ended = inr (
        inl (
          record {
            success = p;
            is_reconciled = refl;
            commits = h.0.commits;
            no_retry = h.0.no_retry;
          },
          h.1,
        ));
  }

  prune_outcome-success : (d k : ℕ) → is_success (prune_outcome d k) ≡ true
  unfolding prune_outcome
  prune_outcome-success d k = ground arith

  after_package_prune-IsEnded :
      (entries : List InventoryEntry) (answer : PruneAnswer) (a : Attempt C)
      → IsOpen s a
      → IsEnded s (after_package_prune env entries answer a)
  unfolding after_package_prune
  after_package_prune-IsEnded entries (prune_failed err) a h =
      fail_transiently-IsEnded _ _ _ _ (package_backoff-pos a) h
  after_package_prune-IsEnded entries (pruned d k) a h =
      package_finish-IsEnded (prune_outcome d k) entries a (prune_outcome-success d k) h

  package_prune-IsEnded :
      (plan : IdentityPlan) (stale entries : List InventoryEntry) (a : Attempt C)
      → IsOpen s a
      → IsEnded s (package_prune env plan stale entries a)
  unfolding package_prune
  package_prune-IsEnded plan stale entries a h =
      let ran = record a { phases = record a.phases { prune_ran = true } } in
      if-cases (IsEnded s) (not env.shared.spec.prune || is_empty stale)
        (λ t. package_finish-IsEnded applied entries ran refl h)
        (λ f.
          after_package_prune-IsEnded entries
            (env.shared.prune plan.prune stale env.shared.spec.deletes_claims) _ h)

  after_package_apply-IsEnded :
      (plan : IdentityPlan) (stale entries : List InventoryEntry) (err : Option ClusterError)
      (a : Attempt C)
      → IsOpen s a
      → IsEnded s (after_package_apply env plan stale entries err a)
  unfolding after_package_apply
  after_package_apply-IsEnded plan stale entries none a h =
      package_prune-IsEnded plan stale entries (mark_attempt (clear_drifted env.shared.set) a) h
  after_package_apply-IsEnded plan stale entries (some err) a h = with_note err.claim_note
    where
      with_note :
          (note : Option String)
          → IsEnded s (elim note [
            | some note ↦
                fail_transiently env "ClaimConflict" note
                  (package_backoff env a)
                  (record a { phases = record a.phases { apply_failed = true } })
            | none ↦
                fail_transiently env "ApplyFailed" err.message
                  (package_backoff env a)
                  (record a { phases = record a.phases { apply_failed = true } })
          ])
      with_note (some note) = fail_transiently-IsEnded _ _ _ _ (package_backoff-pos a) h
      with_note none = fail_transiently-IsEnded _ _ _ _ (package_backoff-pos a) h

  package_apply_stored-IsEnded :
      (plan : IdentityPlan) (g : GuardedApply V) (stale entries : List InventoryEntry)
      (err : Option ClusterError) (a : Attempt C)
      → IsOpen s a
      → IsEnded s (package_apply_stored env plan g stale entries err a)
  unfolding package_apply_stored
  package_apply_stored-IsEnded plan g stale entries (some err) a h =
      fail_transiently-IsEnded _ _ _ _ (package_backoff-pos a) h
  package_apply_stored-IsEnded plan g stale entries none a h =
      after_package_apply-IsEnded plan stale entries _ _ h

  apply_and_prune-IsEnded :
      (plan : IdentityPlan) (g : GuardedApply V) (converted : ConvertedRender) (a : Attempt C)
      → IsOpen s a
      → IsEnded s (apply_and_prune env plan g converted a)
  unfolding apply_and_prune
  apply_and_prune-IsEnded plan g converted a h = package_apply_stored-IsEnded plan g _ _ _ _ h

  package_no_op-IsEnded :
      (plan : IdentityPlan) (adopted : ℕ) (a : Attempt C)
      → IsOpen s a
      → a.writes ≡ []
      → IsEnded s (package_no_op env plan adopted a)
  unfolding package_no_op
  package_no_op-IsEnded plan adopted a h w = record {
    ended = inr (
        inr (
          inl (
            record {
              undecided = refl;
              not_reconciled = h.0.not_reconciled;
              commits = h.0.commits;
              no_retry = h.0.no_retry;
            },
            h.1.0,
            w,
          )));
  }

  after_allowed-IsEnded :
      (plan : IdentityPlan) (unchanged : Bool) (g : GuardedApply V) (converted : ConvertedRender)
      (a : Attempt C)
      → IsOpen s a
      → a.writes ≡ []
      → IsEnded s (after_allowed env plan unchanged g converted a)
  unfolding after_allowed
  after_allowed-IsEnded plan unchanged g converted a h w =
      if-cases (IsEnded s) (unchanged && not (changes_inventory g))
        (λ t. package_no_op-IsEnded plan g.adopted a h w)
        (λ f. apply_and_prune-IsEnded plan g converted (record a { adopted = g.adopted }) h)

  after_package_guard-IsEnded :
      (plan : IdentityPlan) (unchanged : Bool) (g : GuardedApply V) (converted : ConvertedRender)
      (err : Option GuardError) (a : Attempt C)
      → IsOpen s a
      → a.writes ≡ []
      → IsEnded s (after_package_guard env plan unchanged g converted err a)
  unfolding after_package_guard
  after_package_guard-IsEnded plan unchanged g converted (some err) a h w =
      if-cases (IsEnded s)
        (not (str_eq (effective_sa env.shared) "") && (guard_failure env.shared err).forbidden)
        (λ t. fail_stalled-IsEnded _ _ _ h)
        (λ f. fail_transiently-IsEnded _ _ _ _ (package_backoff-pos a) h)
  after_package_guard-IsEnded plan unchanged g converted none a h w =
      if-cases (IsEnded s)
        (not (is_empty (refused_to_write g.refused (unchanged && not (changes_inventory g)))))
        (λ t. fail_transiently-IsEnded _ _ _ _ (package_backoff-pos a) h)
        (λ f. after_allowed-IsEnded plan unchanged g converted a h w)

  pub after_client-IsEnded :
      (plan : IdentityPlan) (before : ℕ) (unchanged : Bool) (converted : ConvertedRender)
      (no_client : Option String) (a : Attempt C)
      → IsOpen s a
      → a.writes ≡ []
      → IsEnded s (after_client env plan before unchanged converted no_client a)
  unfolding after_client
  after_client-IsEnded plan before unchanged converted (some err) a h w =
      fail_stalled-IsEnded _ _ a h
  after_client-IsEnded plan before unchanged converted none a h w =
      after_package_guard-IsEnded plan unchanged _ converted _ a h w
