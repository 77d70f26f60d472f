-- ===== src/Instance/Endings.antt =====
-- How a reconcile ends: every attempt is skipped, idle, failed or done, and no other mix of its
-- variables reaches the commit.
pub mod Writes
pub mod Whole
use opm_operator.Prelude.{
  ℕ, ◌<◌, String, ◌≡◌, ◌⊎◌, inl, inr, refl, Bool, true, false, ◌&&◌, ◌||◌, not, List, [], ◌∷◌,
  Option, none, some, is_empty, str_eq, arith, Bool-cases, if-cases, Option-cases, if◌then◌else◌,
}
use opm_operator.Prelude.Int64.{ℤ, pos, inc64}
use opm_operator.Status.History.{HistoryEntry}
use opm_operator.Reconcile.Skip.{RenderInputs}
use opm_operator.Status.Counters.{
  FailureCounters, Outcome, no_op, applied, applied_and_pruned, failed_transient, failed_stalled,
}
use opm_operator.Reconcile.Backoff.{
  compute_backoff, retry_interval_for, stalled_recheck_interval, prune_failure,
}
use opm_operator.Reconcile.Backoff.Bounds.{compute_backoff-bounds}
use opm_operator.Status.Conditions.{Setter, clear_drifted}
use opm_operator.Reconcile.Health.{InventoryEntry}
use opm_operator.Reconcile.Identity.{IdentityPlan, store, plan_identities}
use opm_operator.Reconcile.Restore.{Rendered, plan_restore}
use opm_operator.Reconcile.Ownership.{GuardedApply, GuardError, fails_apply, refused_to_write}
use opm_operator.Reconcile.Withhold.{withhold_refused}
use opm_operator.Shrink.{Decision, refused, decide}
use opm_operator.Instance.Planning.{
  write_phase, finish_no_op, after_drift, drift_phase, after_guard, guard_failure, guard_phase,
}
use opm_operator.Instance.Rendering.{
  extract_instance_uuid, after_withhold, plan_phase, resolve, after_render, start_attempt, attempt,
}
use opm_operator.Instance.State.{InstanceStatus, LastApplied, Attempt, Write, ApplyOptions}
use opm_operator.Instance.Failures.{
  ClusterError, RenderError, mark_apply_failure, report_apply_failure, classify_render_error,
}
use opm_operator.Instance.Answers.{
  Env, RenderAnswer, slot_closed, timed_out, render_failed, unconverted, rendered, PruneAnswer,
  prune_failed, pruned,
}
use opm_operator.Instance.Writing.{
  mark_attempt, effective_sa, failures_of, apply_stored, apply_instance, after_apply, apply_phase,
  after_prune, fail_apply, finish, fail_prune, prune_phase, prune_outcome,
}

abbrev pub is_failure : Outcome → Bool
is_failure failed_transient = true
is_failure failed_stalled = true
is_failure _ = false

abbrev pub is_success : Outcome → Bool
is_success applied = true
is_success applied_and_pruned = true
is_success _ = false

-- A failure is retried: its interval is positive, and it is the requeue.
pub record FailedBy (outcome : Outcome) (reconciled skip : Bool) (retry : ℕ) (requeue : ℤ)
    : Type 0 where
  pub failure : is_failure outcome ≡ true
  pub not_reconciled : reconciled ≡ false
  pub commits : skip ≡ false
  pub retried : 0 < retry
  pub requeued : requeue ≡ pos retry

pub record DoneBy (outcome : Outcome) (reconciled skip : Bool) (retry : ℕ) : Type 0 where
  pub success : is_success outcome ≡ true
  pub is_reconciled : reconciled ≡ true
  pub commits : skip ≡ false
  pub no_retry : retry ≡ 0

-- The variables as they are before anything was decided.
pub record OpenBy (outcome : Outcome) (reconciled skip : Bool) (retry : ℕ) : Type 0 where
  pub undecided : outcome ≡ no_op
  pub not_reconciled : reconciled ≡ false
  pub commits : skip ≡ false
  pub no_retry : retry ≡ 0

-- What only the commit writes is as it was in `s`.
pub record LeftBy {C : Type 0} (s : InstanceStatus C) (applied : LastApplied)
    (inputs : Option RenderInputs) (history : List HistoryEntry) (counters : Option FailureCounters)
    : Type 0 where
  pub last_applied : applied ≡ s.last_applied
  pub last_applied_inputs : inputs ≡ s.last_applied_inputs
  pub same_history : history ≡ s.history
  pub failure_counters : counters ≡ s.failure_counters

module _ {C : Type 0} (s : InstanceStatus C) where
  abbrev pub Leaves : Attempt C → Type 0
  Leaves a =
      LeftBy s a.status.last_applied a.status.last_applied_inputs a.status.history
        a.status.failure_counters

  -- And so is the inventory.
  abbrev pub Keeps : Attempt C → Type 0
  Keeps a = Leaves a × (a.status.inventory ≡ s.inventory)

  abbrev pub IsFailed : Attempt C → Type 0
  IsFailed a = FailedBy a.outcome a.reconciled a.skip_commit a.retry_after a.requeue_after × Keeps a

  abbrev pub IsDone : Attempt C → Type 0
  IsDone a = DoneBy a.outcome a.reconciled a.skip_commit a.retry_after × Keeps a

  abbrev pub IsOpen : Attempt C → Type 0
  IsOpen a = OpenBy a.outcome a.reconciled a.skip_commit a.retry_after × Keeps a

  abbrev pub IsIdle : Attempt C → Type 0
  IsIdle a = OpenBy a.outcome a.reconciled a.skip_commit a.retry_after × Leaves a × (a.writes ≡ [])

  -- The attempt failed, is done, has nothing to do, or is not committed.
  pub record IsEnded (a : Attempt C) : Type 0 where
    pub ended : IsFailed a ⊎ (IsDone a ⊎ (IsIdle a ⊎ ((a.skip_commit ≡ true) × (a.writes ≡ []))))

pub failed_by :
    {o before : Outcome} {r skip : Bool} {retry retry_before : ℕ}
    → is_failure o ≡ true
    → 0 < retry
    → OpenBy before r skip retry_before
    → FailedBy o r skip retry (pos retry)
failed_by f p h = record {
  failure = f;
  not_reconciled = h.not_reconciled;
  commits = h.commits;
  retried = p;
  requeued = refl;
}

pub backoff_pos : (n : ℤ) → 0 < compute_backoff n
backoff_pos n = omega (arith, compute_backoff-bounds n)

pub retry_pos : (o : Outcome) (n : ℤ) → 0 < retry_interval_for o n
unfolding retry_interval_for
retry_pos failed_transient n = backoff_pos (inc64 n)
retry_pos failed_stalled n = omega arith
retry_pos no_op n = omega arith
retry_pos applied n = omega arith
retry_pos applied_and_pruned n = omega arith

module _ {C : Type 0} (set : Setter C) where
  pub report_apply_failure-failure :
      (err : ClusterError) (sa : String) (c : C)
      → is_failure (report_apply_failure set err sa c).1 ≡ true
  unfolding report_apply_failure mark_apply_failure
  report_apply_failure-failure err sa c = elim (Option-cases err.claim_note) [
    | inl e ↦ ground (arith, e)
    | inr (n, e) ↦ ground (arith, e)
  ]

  pub classify_render_error-failure :
      (err : RenderError) (c : C) → is_failure (classify_render_error set err c).1 ≡ true
  unfolding classify_render_error
  classify_render_error-failure err c = ground arith
