-- ===== src/Instance/Commit.antt =====
-- The deferred commit of ReconcileModuleInstance: the three writes of the status that end a
-- reconcile (commitNoOpStatus, commitPanicStatus and the last one of the deferred function).
use opm_operator.Prelude.{
  ℕ, ◌+◌, ◌-◌, String, false, Option, none, some, length, ltb, str_eq, if◌then◌else◌,
}
use opm_operator.Prelude.Int64.{pos}
use opm_operator.Status.Counters.{Outcome, no_op, failed_transient, update_failure_counters}
use opm_operator.Status.Digests.{DigestSet}
use opm_operator.Status.History.{new_success_entry, new_failure_entry, record_history_entry}
use opm_operator.Status.Conditions.{mark_ready, mark_reconcile_panic}
use opm_operator.Reconcile.Restore.{next_inventory}
use opm_operator.Reconcile.Skip.{record_inputs, no_op_inputs}
use opm_operator.Instance.State.{InstanceStatus, Attempted, Attempt}
use opm_operator.Instance.Answers.{Env, ready_note}
use opm_operator.Instance.Rendering.{attempt}

abbrev pub reconcile_action : String
reconcile_action = "reconcile"

-- appliedVersion
unfoldable pub applied_version : Option String → String
applied_version none = ""
applied_version (some v) = v

-- recordNoOpVersion
unfoldable pub record_no_op_version : String → Option String → String
record_no_op_version field none = field
record_no_op_version field (some v) = v

module _ {C L V O S : Type 0} (env : Env C L V O S) where
  unfoldable pub attempted_now : DigestSet → Attempted
  attempted_now digests = record {
    action = reconcile_action;
    at = env.now;
    duration = env.now - env.start;
    source_digest = digests.source;
    config_digest = digests.config;
    render_digest = digests.render;
  }

  -- commitNoOpStatus
  unfoldable pub commit_no_op : Attempt C → InstanceStatus C
  unfolding mark_ready update_failure_counters record_no_op_version record_inputs no_op_inputs
  commit_no_op a = record a.status {
    conditions = mark_ready env.set (env.word (ready_note a.adopted)) a.status.conditions;
    failure_counters = update_failure_counters a.status.failure_counters no_op a.phases;
    next_retry_at = none;
    last_applied = record a.status.last_applied {
      version = record_no_op_version a.status.last_applied.version a.rendered_version;
    };
    last_applied_inputs =
        record_inputs env.sha256 a.status.last_applied_inputs
          (no_op_inputs env.sha256 env.drift_render_interval a.rendered_inputs) env.now;
  }

  -- commitPanicStatus, on the status in memory when the panic hit
  unfoldable pub commit_panic : (message : String) → DigestSet → InstanceStatus C → InstanceStatus C
  unfolding mark_reconcile_panic attempted_now record_history_entry new_failure_entry
      update_failure_counters
  commit_panic message digests s = record s {
    conditions = mark_reconcile_panic env.set message s.conditions;
    observed_generation = env.spec.generation;
    last_attempted = some (attempted_now digests);
    history =
        record_history_entry s.history (new_failure_entry env.now reconcile_action message digests);
    failure_counters = update_failure_counters s.failure_counters failed_transient (record {
      drift_ran = false;
      drift_failed = false;
      apply_ran = false;
      apply_failed = false;
      prune_ran = false;
      prune_failed = false;
    });
    next_retry_at = none;
  }

  -- What a reconcile that succeeded records of its apply.
  unfoldable pub commit_applied : Attempt C → InstanceStatus C → InstanceStatus C
  unfolding applied_version record_inputs next_inventory record_history_entry new_success_entry
  commit_applied a s = record s {
    last_applied = record {
      at = some env.now;
      source_digest = a.digests.source;
      version = applied_version a.rendered_version;
      config_digest = a.digests.config;
      render_digest = a.digests.render;
    };
    last_applied_inputs = record_inputs env.sha256 s.last_applied_inputs a.rendered_inputs env.now;
    inventory = some (record (next_inventory env.inventory_digest_of s.inventory a.new_entries) {
      digest = a.digests.inventory;
    });
    identity = record s.identity { previous = "" };
    history = record_history_entry s.history (
        new_success_entry env.now reconcile_action "complete" a.digests
          (pos (length a.new_entries)));
  }

  -- What a reconcile that failed records.
  unfoldable pub commit_failed : Attempt C → InstanceStatus C → InstanceStatus C
  unfolding record_history_entry new_failure_entry
  commit_failed a s = record s {
    history =
        if str_eq a.err_msg ""
        then s.history
        else record_history_entry s.history
            (new_failure_entry env.now reconcile_action a.err_msg a.digests);
  }

  -- The commit of an attempt that is no no-op.
  unfoldable pub commit_attempt : Attempt C → InstanceStatus C
  unfolding attempted_now commit_applied commit_failed update_failure_counters
  commit_attempt a =
      let tried = record a.status {
        observed_generation = env.spec.generation;
        last_attempted = some (attempted_now a.digests);
      } in
      let recorded = if a.reconciled then commit_applied a tried else commit_failed a tried in
      record recorded {
        failure_counters = update_failure_counters recorded.failure_counters a.outcome a.phases;
        next_retry_at = if ltb 0 a.retry_after then some (env.now + a.retry_after) else none;
      }

  -- The commit of an attempt, by its outcome.
  unfoldable pub commit_by : Outcome → Attempt C → InstanceStatus C
  commit_by no_op a = commit_no_op a
  commit_by _ a = commit_attempt a

  -- The deferred function without a panic: the status that it commits, or nothing.
  unfoldable pub commit : Attempt C → Option (InstanceStatus C)
  commit a = if a.skip_commit then none else some (commit_by a.outcome a)

  -- ReconcileModuleInstance after its gates: the attempt, and the status it commits.
  unfoldable pub reconcile :
      (counted : String → ℕ) → InstanceStatus C → Attempt C × Option (InstanceStatus C)
  reconcile counted status = let a = attempt env counted status in (a, commit a)
