-- ===== src/Instance/Endings/Whole.antt =====
-- How the phases before the first write end, and with them a whole reconcile.
use opm_operator.Prelude.{
  ℕ, String, ◌≡◌, inl, inr, refl, Bool, false, not, List, [], Option, none, some, is_empty, arith,
  if-cases,
}
use opm_operator.Prelude.Int64.{inc64}
use opm_operator.Status.Counters.{failed_transient}
use opm_operator.Reconcile.Identity.{IdentityPlan, plan_identities}
use opm_operator.Reconcile.Restore.{Rendered, plan_restore}
use opm_operator.Reconcile.Ownership.{GuardedApply, GuardError, fails_apply, refused_to_write}
use opm_operator.Shrink.{Decision}
use opm_operator.Instance.Planning.{
  finish_no_op, after_drift, drift_phase, after_guard, guard_failure, guard_phase,
}
use opm_operator.Instance.Rendering.{
  extract_instance_uuid, after_withhold, plan_phase, resolve, after_render, start_attempt, attempt,
}
use opm_operator.Instance.State.{InstanceStatus, Attempt}
use opm_operator.Instance.Failures.{classify_render_error}
use opm_operator.Instance.Answers.{
  Env, RenderAnswer, slot_closed, timed_out, render_failed, unconverted, rendered,
}
use opm_operator.Instance.Writing.{failures_of}
use opm_operator.Instance.Endings.{
  Leaves, IsOpen, IsEnded, failed_by, backoff_pos, retry_pos, classify_render_error-failure,
}
use opm_operator.Instance.Endings.Writes.{fail_apply-IsEnded, write_phase-IsEnded}

module _ {C L V O S : Type 0} (env : Env C L V O S) (s : InstanceStatus C) where
  after_drift-IsEnded :
      (plan : IdentityPlan) (g : GuardedApply V) (refused_claims : List Decision)
      (missing rendered_set : List Rendered) (unchanged : Bool) (a : Attempt C)
      → IsOpen s a
      → a.writes ≡ []
      → IsEnded s (after_drift env plan g refused_claims missing rendered_set unchanged a)
  unfolding after_drift finish_no_op
  after_drift-IsEnded plan g refused_claims missing rendered_set unchanged a h w =
      if-cases (IsEnded s) (not (is_empty (refused_to_write g.refused unchanged)))
        (λ t. record {
          ended = inl (failed_by refl (backoff_pos (inc64 (failures_of env a))) h.0, h.1);
        })
        (λ f.
          if-cases (IsEnded s) (plan_restore unchanged missing g.taken_in g.allowed).1
            (λ n. record {
              ended = inr (
                  inr (
                    inl (
                      record {
                        undecided = refl;
                        not_reconciled = h.0.not_reconciled;
                        commits = h.0.commits;
                        no_retry = h.0.no_retry;
                      },
                      h.1.0,
                      w,
                    )));
            })
            (λ n.
              write_phase-IsEnded env s plan g refused_claims _ _ rendered_set _
                env.impersonation_error a h))

  drift_phase-IsEnded :
      (plan : IdentityPlan) (g : GuardedApply V) (refused_claims : List Decision)
      (rendered_set : List Rendered) (unchanged : Bool) (a : Attempt C)
      → IsOpen s a
      → a.writes ≡ []
      → IsEnded s (drift_phase env plan g refused_claims rendered_set unchanged a)
  unfolding drift_phase
  drift_phase-IsEnded plan g refused_claims rendered_set unchanged a h w =
      after_drift-IsEnded plan g refused_claims _ rendered_set unchanged _ h w

  after_guard-IsEnded :
      (plan : IdentityPlan) (refused_claims : List Decision) (rendered_set : List Rendered)
      (unchanged : Bool) (g : GuardedApply V) (err : Option GuardError) (a : Attempt C)
      → IsOpen s a
      → a.writes ≡ []
      → IsEnded s (after_guard env plan refused_claims rendered_set unchanged g err a)
  unfolding after_guard
  after_guard-IsEnded plan refused_claims rendered_set unchanged g none a h w =
      drift_phase-IsEnded plan g refused_claims rendered_set unchanged a h w
  after_guard-IsEnded plan refused_claims rendered_set unchanged g (some err) a h w =
      if-cases (IsEnded s) (fails_apply (some err) unchanged)
        (λ t. fail_apply-IsEnded env s (guard_failure env err) a h)
        (λ f. drift_phase-IsEnded plan g refused_claims rendered_set unchanged a h w)

  guard_phase-IsEnded :
      (plan : IdentityPlan) (n : ℕ) (l : List Rendered) (refused_claims : List Decision)
      (rendered_set : List Rendered) (a : Attempt C)
      → IsOpen s a
      → a.writes ≡ []
      → IsEnded s (guard_phase env plan n l refused_claims rendered_set a)
  unfolding guard_phase
  guard_phase-IsEnded plan n l refused_claims rendered_set a h w =
      after_guard-IsEnded plan refused_claims rendered_set _ _ _ a h w

  after_withhold-IsEnded :
      (plan : IdentityPlan) (n : ℕ) (rendered_set : List Rendered)
      (withheld : Option (List Rendered × List Decision)) (a : Attempt C)
      → IsOpen s a
      → a.writes ≡ []
      → IsEnded s (after_withhold env plan n rendered_set withheld a)
  unfolding after_withhold
  after_withhold-IsEnded plan n rendered_set none a h w = record {
    ended = inl (failed_by refl (backoff_pos (inc64 (failures_of env a))) h.0, h.1);
  }
  after_withhold-IsEnded plan n rendered_set (some (l, refused_claims)) a h w =
      guard_phase-IsEnded plan n l refused_claims rendered_set a h w

  after_render-IsEnded :
      (n : ℕ) (r : RenderAnswer) (a : Attempt C)
      → IsOpen s a
      → a.writes ≡ []
      → IsEnded s (after_render env n r a)
  unfolding after_render plan_phase resolve
  after_render-IsEnded n slot_closed a h w = record { ended = inr (inr (inr (refl, w))) }
  after_render-IsEnded n (timed_out m) a h w = record {
    ended = inl (failed_by refl (retry_pos failed_transient (failures_of env a)) h.0, h.1);
  }
  after_render-IsEnded n (render_failed err) a h w = record {
    ended = inl (
      failed_by (classify_render_error-failure env.set err a.status.conditions)
          (retry_pos (classify_render_error env.set err a.status.conditions).1 (failures_of env a))
          h.0,
      h.1,
    );
  }
  after_render-IsEnded n (unconverted result reason m) a h w = record {
    ended = inl (failed_by refl (omega arith) h.0, h.1);
  }
  after_render-IsEnded n (rendered result converted) a h w =
      let uuid = extract_instance_uuid converted.resources in
      let plan = plan_identities a.status.identity.current a.status.identity.previous uuid false in
      if-cases (IsEnded s) plan.refused
        (λ t. record { ended = inl (failed_by refl (omega arith) h.0, h.1) })
        (λ f. after_withhold-IsEnded plan n converted.resources _ _ h w)

  start_attempt-Leaves : Leaves s (start_attempt env s)
  unfolding start_attempt
  start_attempt-Leaves = record {
    last_applied = refl;
    last_applied_inputs = refl;
    same_history = refl;
    failure_counters = refl;
  }

  -- A reconcile ends in one of four ways: it failed, and then it is retried after a positive
  -- interval, which is also its requeue; it is done, and then it asks for no retry; it has nothing
  -- to do, and then it sent nothing to the cluster; or it is not committed, and sent nothing. What
  -- was applied last, the history and the counters are left to the commit, and so is the inventory
  -- unless there is nothing to do.
  pub attempt-IsEnded : (counted : String → ℕ) → IsEnded s (attempt env counted s)
  unfolding attempt start_attempt
  attempt-IsEnded counted =
      after_render-IsEnded _ env.render _
        (
          record { undecided = refl; not_reconciled = refl; commits = refl; no_retry = refl },
          (start_attempt-Leaves, refl),
        )
        refl
