-- ===== src/Package/Rendering.antt =====
-- The source, the artifact, the path and the render of a ModulePackage, and its deferred commit, of
-- internal/reconcile/modulepackage.go.
use Prim.Native.String.{◌++◌}
use opm_operator.Prelude.{
  ℕ, ◌+◌, String, Bool, true, false, ◌&&◌, ◌||◌, not, [], Option, none, some, str_eq, ltb,
  if◌then◌else◌,
}
use opm_operator.Prelude.Int64.{pos, leb_ℤ}
use opm_operator.Prelude.Texts.{has_text}
use opm_operator.Status.Counters.{
  Outcome, no_op, failed_transient, FailureCounters, PhaseOutcomes, ensure_counters, update_counter,
  update_reconcile,
}
use opm_operator.Status.Digests.{DigestSet}
use opm_operator.Status.History.{record_history_entry, new_failure_entry}
use opm_operator.Status.Conditions.{
  mark_reconciling, mark_ready, mark_healthy, mark_render_timed_out, mark_reconcile_panic,
}
use opm_operator.Reconcile.Backoff.{health_requeue, package_requeue}
use opm_operator.Reconcile.Skip.{may_skip, record_inputs, no_op_inputs}
use opm_operator.Instance.State.{InstanceStatus, Attempt}
use opm_operator.Instance.Failures.{is_transient_failure, render_failure_reason}
use opm_operator.Instance.Answers.{ready_note}
use opm_operator.Instance.Writing.{inventory_entries, mark_attempt, fail_attempt}
use opm_operator.Instance.Rendering.{adopted_at_start}
use opm_operator.Instance.Commit.{
  attempted_now, commit_applied, commit_failed, record_no_op_version, reconcile_action,
}
use opm_operator.Package.State.{
  Artifact, SourceStatus, SourceAnswer, source_found, source_failed, FetchAnswer, fetched,
  no_temp_dir, fetch_failed, missing, unreadable, file, directory, PackageError, PackageRender,
  slot_closed, timed_out, still_running, render_failed, unconverted, rendered, PackageEnv, absent,
  present, left_to_render, PackageAttempt,
}
use opm_operator.Package.Writing.{
  interval, interval_delay, package_backoff, fail_transiently, judge_package_health,
}
use opm_operator.Package.Planning.{fail_stalled, after_converted}

-- renderErrorReason
unfoldable pub render_error_reason : PackageError → String
unfolding render_failure_reason
render_error_reason e =
    if e.unsupported_kind then "UnsupportedKind" else render_failure_reason e.chain

module _ {C L V O S R : Type 0} (env : PackageEnv C L V O S R) where
  abbrev with_attempt : (Attempt C → Attempt C) → PackageAttempt C R → PackageAttempt C R
  with_attempt f p = record p { attempt = f p.attempt }

  -- resolvePackagePath: nothing where the path leads to a package, else whether only its instance
  -- file is missing
  unfoldable pub path_refusal : (cleaned : String) → Option Bool
  unfolding has_text
  path_refusal cleaned = if has_text cleaned ".." then some false else elim (env.stat cleaned) [
    | missing ↦ some false
    | unreadable ↦ some false
    | file ↦ some false
    | directory ↦ elim (env.stat (cleaned ++ "/instance.cue")) [
      | missing ↦ some true
      | unreadable ↦ some false
      | file ↦ none
      | directory ↦ none
    ]
  ]

  -- What renderModulePackage does about a render that failed
  unfoldable pub fail_render : PackageError → Attempt C → Attempt C
  unfolding is_transient_failure
  fail_render e a =
      if e.chain.platform_not_ready
      then fail_transiently env "PlatformNotReady" e.chain.message (interval_delay env) a
      else if is_transient_failure (some e.chain)
      then fail_transiently env "ResolutionFailed" e.chain.message (package_backoff env a) a
      else fail_stalled env (render_error_reason e) e.chain.message a

  -- renderModulePackage and what follows it. The render removes the temporary directory when it
  -- ends, after the return of a reconcile that it timed out; the directory of a render that did not
  -- start is removed here.
  unfoldable pub after_package_render :
      (before : ℕ) → PackageRender → PackageAttempt C R → PackageAttempt C R
  unfolding mark_render_timed_out
  after_package_render before slot_closed p = record p {
    attempt = record p.attempt { skip_commit = true; returned_error = true };
    extracted = absent;
  }
  after_package_render before (timed_out message) p = record p {
    attempt =
        fail_attempt failed_transient message (package_backoff env p.attempt)
          (mark_attempt (mark_render_timed_out env.shared.set message) p.attempt);
    extracted = left_to_render;
  }
  after_package_render before (still_running message) p = record p {
    attempt =
        fail_attempt failed_transient message (package_backoff env p.attempt)
          (mark_attempt (mark_render_timed_out env.shared.set message) p.attempt);
    extracted = absent;
  }
  after_package_render before (unconverted result reason message) p = record p {
    attempt = fail_stalled env reason message p.attempt;
    extracted = absent;
  }
  after_package_render before (render_failed e) p = record p {
    attempt = fail_render e p.attempt;
    extracted = absent;
  }
  after_package_render before (rendered kind result converted) p = record p {
    attempt =
        if not (str_eq kind "ModuleInstance")
        then fail_stalled env "UnsupportedKind" (env.kind_error kind) p.attempt
        else after_converted env before result converted p.attempt;
    extracted = absent;
  }

  -- navigateModulePackagePath, and what renderExtractedPackage does about it
  unfoldable pub after_path : (before : ℕ) → Option Bool → PackageAttempt C R → PackageAttempt C R
  after_path before none p = after_package_render before env.render p
  after_path before (some instance_missing) p =
      let reason : String = if instance_missing then "InstanceFileNotFound" else "PathNotFound" in
      record p {
        attempt = fail_stalled env reason (env.path_error env.spec_path) p.attempt;
        extracted = absent;
      }

  -- fetchModulePackageArtifact and what follows it
  unfoldable pub after_fetch : (before : ℕ) → FetchAnswer → PackageAttempt C R → PackageAttempt C R
  unfolding path_refusal
  after_fetch before (no_temp_dir message err) p = record p {
    attempt = record (fail_transiently env "FetchFailed" message (interval_delay env) p.attempt) {
      err_msg = err;
    };
  }
  after_fetch before (fetch_failed err) p =
      let made = record p { extracted = present } in
      record made {
        attempt = fail_transiently env "FetchFailed" err (interval_delay env) made.attempt;
        extracted = absent;
      }
  after_fetch before fetched p =
      after_path before (path_refusal (env.clean_path ("/" ++ env.spec_path)))
        (record p { extracted = present })

  -- The comparison of the recorded source with the resolved one
  unfoldable pub same_source : Option (SourceStatus R) → SourceStatus R → Bool
  same_source none s = false
  same_source (some r) s =
      env.same_ref r.ref s.ref
      && str_eq r.artifact_revision s.artifact_revision
      && str_eq r.artifact_digest s.artifact_digest
      && str_eq r.artifact_url s.artifact_url

  -- packageRenderSkippable, on the conditions at the start
  unfoldable pub package_render_skippable :
      (at_start : C) → (source_digest : String) → InstanceStatus C → Bool
  unfolding may_skip
  package_render_skippable at_start source_digest s =
      if leb_ℤ env.shared.drift_render_interval (pos 0) then false else elim s.last_applied_inputs [
        | none ↦ false
        | some inputs ↦
            may_skip env.shared.sha256 env.shared.drift_render_interval env.shared.now
              (env.listed at_start) env.shared.spec.generation s.observed_generation (some inputs)
              (record {
                source = source_digest;
                config = env.shared.config_digest;
                package_identity = env.platform_identity;
                skew_policy = env.platform_skew;
                controller_version = env.shared.controller_version;
                library_version = env.shared.library_version;
              })
      ]

  -- A skipped render: the conditions as they were, but for the health that judgeSkippedPackage
  -- records, and its requeue.
  unfoldable pub skip_render : (at_start : C) → PackageAttempt C R → PackageAttempt C R
  unfolding mark_healthy health_requeue package_requeue inventory_entries
  skip_render at_start p =
      let s = p.attempt.status in
      let v = judge_package_health env (inventory_entries s.inventory) in
      record p {
        attempt = record p.attempt {
          status = record s {
            conditions = mark_healthy env.shared.set v.status v.reason v.message at_start;
          };
          requeue_after =
              package_requeue (pos (health_requeue v.requeue s.last_applied.at env.shared.now))
                (interval env);
        };
        skipped = true;
      }

  -- Whether the render is skipped, and what follows it
  unfoldable pub after_recorded :
      (at_start : C)
      → (before : ℕ) → Artifact
      → (skips : Bool) → PackageAttempt C R
      → PackageAttempt C R
  unfolding after_fetch
  after_recorded at_start before artifact true p = skip_render at_start p
  after_recorded at_start before artifact false p = after_fetch before (env.fetch artifact) p

  -- resolveModulePackageSource and what follows it
  unfoldable pub after_source :
      (at_start : C) → (before : ℕ) → SourceAnswer → PackageAttempt C R → PackageAttempt C R
  unfolding same_source
  after_source at_start before (source_failed not_found unsupported_kind message) p =
      with_attempt
        (if not_found || unsupported_kind
          then fail_stalled env "SourceNotReady" message
          else fail_transiently env "SourceNotReady" message (interval_delay env))
        p
  after_source at_start before (source_found artifact) p =
      let resolved : SourceStatus R = record {
        ref = env.source_ref;
        artifact_revision = artifact.revision;
        artifact_digest = artifact.digest;
        artifact_url = artifact.url;
      } in
      let next = record p {
        source = some resolved;
        attempt = record p.attempt {
          digests = record p.attempt.digests { source = artifact.digest };
        };
      } in
      after_recorded at_start before artifact
        (same_source p.source resolved
          && package_render_skippable at_start artifact.digest p.attempt.status)
        next

  -- ReconcileModulePackage after its gates, without its deferred commit
  unfoldable pub package_attempt :
      (counted : String → ℕ) → Option (SourceStatus R) → InstanceStatus C → PackageAttempt C R
  unfolding adopted_at_start mark_reconciling
  package_attempt counted source s =
      after_source s.conditions (adopted_at_start env.shared counted s.conditions) env.source
        (record {
          attempt = record {
            status = record s {
              conditions =
                  mark_reconciling env.shared.set "Progressing" "Reconciliation in progress"
                    s.conditions;
            };
            outcome = no_op;
            digests = record { source = ""; config = ""; render = ""; inventory = "" };
            reconciled = false;
            new_entries = [];
            err_msg = "";
            retry_after = 0;
            phases = record {
              drift_ran = false;
              drift_failed = false;
              apply_ran = false;
              apply_failed = false;
              prune_ran = false;
              prune_failed = false;
            };
            skip_commit = false;
            rendered_version = none;
            rendered_inputs = none;
            adopted = 0;
            requeue_after = pos 0;
            returned_error = false;
            writes = [];
          };
          source = source;
          extracted = absent;
          skipped = false;
        })

  -- updateModulePackageFailureCounters
  unfoldable pub update_package_counters :
      Option FailureCounters → Outcome → PhaseOutcomes → Option FailureCounters
  unfolding ensure_counters update_counter update_reconcile
  update_package_counters held outcome phases = some (
      update_reconcile outcome (
        update_counter "prune" phases.prune_ran phases.prune_failed
          (update_counter "apply" phases.apply_ran phases.apply_failed (ensure_counters held))))

  -- The deferred function, for a no-op
  unfoldable pub commit_package_no_op : Attempt C → InstanceStatus C
  unfolding mark_ready record_no_op_version record_inputs no_op_inputs
  commit_package_no_op a = record a.status {
    observed_generation = env.shared.spec.generation;
    conditions =
        mark_ready env.shared.set (env.shared.word (ready_note a.adopted)) a.status.conditions;
    failure_counters = update_package_counters a.status.failure_counters no_op a.phases;
    next_retry_at = none;
    last_applied = record a.status.last_applied {
      version = record_no_op_version a.status.last_applied.version a.rendered_version;
    };
    last_applied_inputs =
        record_inputs env.shared.sha256 a.status.last_applied_inputs
          (no_op_inputs env.shared.sha256 env.shared.drift_render_interval a.rendered_inputs)
          env.shared.now;
  }

  -- The deferred function, for an attempt that is no no-op
  unfoldable pub commit_package_attempt : Attempt C → InstanceStatus C
  unfolding attempted_now commit_applied commit_failed
  commit_package_attempt a =
      let tried = record a.status {
        observed_generation = env.shared.spec.generation;
        last_attempted = some (attempted_now env.shared a.digests);
      } in
      let recorded =
        if a.reconciled
        then commit_applied env.shared a tried
        else commit_failed env.shared a tried in
      record recorded {
        failure_counters = update_package_counters recorded.failure_counters a.outcome a.phases;
        next_retry_at = if ltb 0 a.retry_after then some (env.shared.now + a.retry_after) else none;
      }

  unfoldable pub commit_package_by : Outcome → Attempt C → InstanceStatus C
  commit_package_by no_op a = commit_package_no_op a
  commit_package_by _ a = commit_package_attempt a

  -- The deferred function without a panic: the status that it commits, or nothing.
  unfoldable pub commit_package : PackageAttempt C R → Option (InstanceStatus C)
  commit_package p =
      if p.attempt.skip_commit || p.skipped
      then none
      else some (commit_package_by p.attempt.outcome p.attempt)

  -- commitModulePackagePanicStatus, on the status in memory when the panic hit
  unfoldable pub commit_package_panic :
      (message : String) → DigestSet → InstanceStatus C → InstanceStatus C
  unfolding mark_reconcile_panic attempted_now record_history_entry new_failure_entry
  commit_package_panic message digests s = record s {
    conditions = mark_reconcile_panic env.shared.set message s.conditions;
    observed_generation = env.shared.spec.generation;
    last_attempted = some (attempted_now env.shared digests);
    history =
        record_history_entry s.history
          (new_failure_entry env.shared.now reconcile_action message digests);
    failure_counters = update_package_counters s.failure_counters failed_transient (record {
      drift_ran = false;
      drift_failed = false;
      apply_ran = false;
      apply_failed = false;
      prune_ran = false;
      prune_failed = false;
    });
    next_retry_at = none;
  }
