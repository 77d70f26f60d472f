-- ===== src/Package/Writing.antt =====
-- The apply, the prune and the end of a reconcile of a ModulePackage: judgePackageHealth and
-- applyAndPruneModulePackage of internal/reconcile/modulepackage.go.
use opm_operator.Prelude.{
  ℕ, String, true, not, List, [], ◌∷◌, ◌++◌, map, Option, none, some, is_empty, str_eq, ◌||◌, ◌*◌,
  ◌^◌, if◌then◌else◌,
}
use opm_operator.Prelude.Int64.{ℤ, pos, negsuc, eq_ℤ, inc64}
use opm_operator.Status.Counters.{Outcome, no_op, failed_transient, applied}
use opm_operator.Status.Conditions.{mark_not_ready, mark_ready, mark_healthy, clear_drifted}
use opm_operator.Reconcile.Backoff.{compute_backoff, health_requeue, package_requeue}
use opm_operator.Reconcile.Health.{InventoryEntry, HealthVerdict}
use opm_operator.Reconcile.Restore.{without_entries}
use opm_operator.Reconcile.Identity.{IdentityPlan, store, fill_empty}
use opm_operator.Reconcile.Ownership.{GuardedApply, judged_objects}
use opm_operator.Instance.State.{ApplyOptions, write_identity, write_apply, write_prune, Attempt}
use opm_operator.Instance.Failures.{ClusterError}
use opm_operator.Instance.Answers.{PruneAnswer, pruned, prune_failed, ready_note, ConvertedRender}
use opm_operator.Instance.Writing.{
  reconcile_failure_count, inventory_entries, prune_outcome, mark_attempt, fail_attempt,
  effective_sa, judge_entries, judge_health_as,
}
use opm_operator.Package.State.{PackageEnv}

abbrev nonnegative : ℤ → ℕ
nonnegative (pos n) = n
nonnegative (negsuc n) = 0

-- DefaultModulePackageInterval
abbrev pub default_package_interval : ℕ
default_package_interval = 300 * 10 ^ 9

module _ {C L V O S R : Type 0} (env : PackageEnv C L V O S R) where
  -- The interval of a reconcile
  unfoldable pub interval : ℤ
  interval =
      if eq_ℤ env.spec_interval (pos 0) then pos default_package_interval else env.spec_interval

  -- The interval as the delay of a retry: one that is not positive asks for no retry and has no time,
  -- as 0 does.
  unfoldable pub interval_delay : ℕ
  unfolding interval
  interval_delay = nonnegative interval

  -- modulePackageBackoff
  unfoldable pub package_backoff : Attempt C → ℕ
  unfolding reconcile_failure_count compute_backoff
  package_backoff a = compute_backoff (inc64 (reconcile_failure_count a.status.failure_counters))

  -- A failure that is retried on the backoff, with the reason of its Ready condition
  unfoldable pub fail_transiently : (reason message : String) → (retry : ℕ) → Attempt C → Attempt C
  unfolding mark_not_ready
  fail_transiently reason message retry a =
      fail_attempt failed_transient message retry
        (mark_attempt (mark_not_ready env.shared.set reason message) a)

  -- judgePackageHealth
  unfoldable pub judge_package_health : List InventoryEntry → HealthVerdict
  judge_package_health entries =
      if str_eq (effective_sa env.shared) ""
      then judge_entries env.shared entries
      else judge_health_as env.shared entries

  -- The return of a reconcile with nothing to do.
  unfoldable pub package_no_op : IdentityPlan → (adopted : ℕ) → Attempt C → Attempt C
  unfolding fill_empty mark_healthy health_requeue package_requeue inventory_entries
  package_no_op plan adopted a =
      let v = judge_package_health (inventory_entries a.status.inventory) in
      record (mark_attempt (mark_healthy env.shared.set v.status v.reason v.message) (record a {
        status = record a.status {
          identity = record a.status.identity {
            current = fill_empty plan a.status.identity.current;
          };
        };
      })) {
        outcome = no_op;
        adopted = adopted;
        requeue_after =
            package_requeue (pos (health_requeue v.requeue a.status.last_applied.at env.shared.now))
              interval;
      }

  -- After a prune that succeeded: the end of ReconcileModulePackage.
  unfoldable pub package_finish :
      Outcome → (new_entries : List InventoryEntry) → Attempt C → Attempt C
  unfolding mark_ready mark_healthy health_requeue package_requeue
  package_finish outcome new_entries a =
      let v = judge_entries env.shared new_entries in
      record (mark_attempt
        (λ c.
          mark_healthy env.shared.set v.status v.reason v.message
            (mark_ready env.shared.set (env.shared.word (ready_note a.adopted)) c))
        a) {
          outcome = outcome;
          new_entries = new_entries;
          reconciled = true;
          requeue_after =
              package_requeue (pos (health_requeue v.requeue (some env.shared.now) env.shared.now))
                interval;
        }

  -- What follows apply.Prune.
  unfoldable pub after_package_prune :
      (new_entries : List InventoryEntry) → PruneAnswer → Attempt C → Attempt C
  unfolding prune_outcome
  after_package_prune new_entries (prune_failed err) a =
      fail_transiently "PruneFailed" err.message (package_backoff a)
        (record a { phases = record a.phases { prune_failed = true } })
  after_package_prune new_entries (pruned deleted kept) a =
      package_finish (prune_outcome deleted kept) new_entries a

  -- The prune
  unfoldable pub package_prune :
      IdentityPlan → (stale new_entries : List InventoryEntry) → Attempt C → Attempt C
  package_prune plan stale new_entries a =
      let spec = env.shared.spec in
      let ran = record a { phases = record a.phases { prune_ran = true } } in
      if not spec.prune || is_empty stale
      then package_finish applied new_entries ran
      else after_package_prune new_entries (env.shared.prune plan.prune stale spec.deletes_claims)
          (record ran {
            writes = ran.writes ++ (write_prune plan.prune stale spec.deletes_claims ∷ []);
          })

  -- What follows apply.Apply.
  unfoldable pub after_package_apply :
      IdentityPlan
      → (stale new_entries : List InventoryEntry) → Option ClusterError
      → Attempt C
      → Attempt C
  unfolding clear_drifted
  after_package_apply plan stale new_entries (some err) a =
      let failed = record a { phases = record a.phases { apply_failed = true } } in
      elim err.claim_note [
        | some note ↦ fail_transiently "ClaimConflict" note (package_backoff a) failed
        | none ↦ fail_transiently "ApplyFailed" err.message (package_backoff a) failed
      ]
  after_package_apply plan stale new_entries none a =
      package_prune plan stale new_entries (mark_attempt (clear_drifted env.shared.set) a)

  -- The apply, unless the identity could not be stored.
  unfoldable pub package_apply_stored :
      IdentityPlan
      → GuardedApply V
      → (stale new_entries : List InventoryEntry) → Option ClusterError
      → Attempt C
      → Attempt C
  package_apply_stored plan g stale new_entries (some err) a =
      fail_transiently "ApplyFailed" err.message (package_backoff a) a
  package_apply_stored plan g stale new_entries none a =
      let opts : ApplyOptions = record {
        force = env.shared.spec.force_conflicts;
        delete_data = env.shared.spec.deletes_claims;
        taken_in = g.pins;
      } in
      after_package_apply plan stale new_entries (env.shared.apply g.allowed opts) (record a {
        phases = record a.phases { apply_ran = true };
        writes = a.writes ++ (write_apply g.allowed opts ∷ []);
      })

  -- applyAndPruneModulePackage, and the end of the reconcile
  unfoldable pub apply_and_prune :
      IdentityPlan → GuardedApply V → ConvertedRender → Attempt C → Attempt C
  unfolding store judged_objects without_entries inventory_entries
  apply_and_prune plan g converted a =
      let entries = map env.shared.entry_of converted.resources in
      let (fields, failed) = store plan a.status.identity env.shared.patch_identity in
      package_apply_stored plan g
        (env.shared.stale_set (inventory_entries a.status.inventory) entries)
        (without_entries env.shared.entry_of entries (judged_objects g.let_go)) failed
        (record a {
          status = record a.status { identity = fields };
          writes = if plan.changed then a.writes ++ (write_identity fields ∷ []) else a.writes;
        })
