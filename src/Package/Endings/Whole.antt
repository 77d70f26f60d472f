-- ===== src/Package/Endings/Whole.antt =====
-- How the phases before the guard end, and with them a whole reconcile of a ModulePackage.
use opm_operator.Prelude.{
  ℕ, ◌<◌, String, ◌≡◌, ◌⊎◌, inl, inr, refl, Bool, true, false, ◌||◌, not, [], Option, none, some,
  str_eq, arith, if-cases, if◌then◌else◌,
}
use opm_operator.Prelude.Int64.{ℤ, pos, negsuc, ltb_ℤ}
use opm_operator.Reconcile.Identity.{plan_identities}
use opm_operator.Instance.State.{InstanceStatus, Attempt}
use opm_operator.Instance.Failures.{is_transient_failure}
use opm_operator.Instance.Answers.{RenderResult, ConvertedRender}
use opm_operator.Instance.Rendering.{extract_instance_uuid}
use opm_operator.Instance.Endings.{Keeps, IsOpen, IsEnded, failed_by}
use opm_operator.Package.State.{
  Artifact, SourceStatus, SourceAnswer, source_found, source_failed, FetchAnswer, fetched,
  no_temp_dir, fetch_failed, PackageError, PackageRender, slot_closed, absent, left_to_render,
  timed_out, still_running, render_failed, unconverted, rendered, PackageEnv, PackageAttempt,
}
use opm_operator.Package.Writing.{interval, interval_delay, fail_transiently}
use opm_operator.Package.Planning.{fail_stalled, after_identities, after_converted}
use opm_operator.Package.Rendering.{
  fail_render, after_package_render, after_path, after_fetch, skip_render, after_recorded,
  after_source, package_attempt,
}
use opm_operator.Package.Endings.{
  fail_transiently-IsEnded, fail_stalled-IsEnded, package_backoff-pos, after_client-IsEnded,
}

delay_positive :
    {C L V O S R : Type 0} (env : PackageEnv C L V O S R) (interval : ℤ)
    → env.spec_interval ≡ interval
    → ltb_ℤ interval (pos 0) ≡ false
    → 0 < interval_delay env
unfolding interval_delay interval
delay_positive env (pos n) e h = rw e (ground arith)
delay_positive env (negsuc n) e h = cc

-- The interval of the spec is not negative; one that is not set is 0.
module _ {C L V O S R : Type 0} (env : PackageEnv C L V O S R) (s : InstanceStatus C)
    (not_negative : ltb_ℤ env.spec_interval (pos 0) ≡ false) where
  interval-pos : 0 < interval_delay env
  interval-pos = delay_positive env env.spec_interval refl not_negative

  after_identities-IsEnded :
      (before : ℕ) (result : RenderResult) (converted : ConvertedRender) (a : Attempt C)
      → IsOpen s a
      → a.writes ≡ []
      → IsEnded s (after_converted env before result converted a)
  unfolding after_converted after_identities
  after_identities-IsEnded before result converted a h w =
      if-cases (IsEnded s)
        (plan_identities a.status.identity.current a.status.identity.previous
          (extract_instance_uuid converted.resources) true).refused
        (λ t. fail_stalled-IsEnded env s _ _ _ h)
        (λ f. after_client-IsEnded env s _ before _ converted env.shared.impersonation_error _ h w)

  fail_render-IsEnded :
      (e : PackageError) (a : Attempt C) → IsOpen s a → IsEnded s (fail_render env e a)
  unfolding fail_render
  fail_render-IsEnded e a h =
      if-cases (IsEnded s) e.chain.platform_not_ready
        (λ t. fail_transiently-IsEnded env s _ _ _ _ interval-pos h)
        (λ f.
          if-cases (IsEnded s) (is_transient_failure (some e.chain))
            (λ t. fail_transiently-IsEnded env s _ _ _ _ (package_backoff-pos env s a) h)
            (λ n. fail_stalled-IsEnded env s _ _ _ h))

  -- How the reconcile ends, and what becomes of its temporary directory.
  pub record IsOver (p : PackageAttempt C R) : Type 0 where
    pub ended :
        IsEnded s p.attempt ⊎ ((p.skipped ≡ true) × Keeps s p.attempt × (p.attempt.writes ≡ []))
    pub clean :
        (p.extracted ≡ absent)
        ⊎ ((p.extracted ≡ left_to_render) × (message : String) × (env.render ≡ timed_out message))

  after_package_render-IsOver :
      (before : ℕ) (answer : PackageRender) (p : PackageAttempt C R)
      → env.render ≡ answer
      → IsOpen s p.attempt
      → p.attempt.writes ≡ []
      → IsOver (after_package_render env before answer p)
  unfolding after_package_render
  after_package_render-IsOver before slot_closed p r h w = record {
    ended = inl (record { ended = inr (inr (inr (refl, w))) });
    clean = inl refl;
  }
  after_package_render-IsOver before (timed_out m) p r h w = record {
    ended =
        inl
          (record { ended = inl (failed_by refl (package_backoff-pos env s p.attempt) h.0, h.1) });
    clean = inr (refl, m, r);
  }
  after_package_render-IsOver before (still_running m) p r h w = record {
    ended =
        inl
          (record { ended = inl (failed_by refl (package_backoff-pos env s p.attempt) h.0, h.1) });
    clean = inl refl;
  }
  after_package_render-IsOver before (unconverted x reason m) p r h w = record {
    ended = inl (fail_stalled-IsEnded env s _ _ _ h);
    clean = inl refl;
  }
  after_package_render-IsOver before (render_failed e) p r h w = record {
    ended = inl (fail_render-IsEnded e p.attempt h);
    clean = inl refl;
  }
  after_package_render-IsOver before (rendered kind result converted) p r h w = record {
    ended = inl (
        if-cases (IsEnded s) (not (str_eq kind "ModuleInstance"))
          (λ t. fail_stalled-IsEnded env s _ _ _ h)
          (λ f. after_identities-IsEnded before result converted p.attempt h w));
    clean = inl refl;
  }

  after_path-IsOver :
      (before : ℕ) (refusal : Option Bool) (p : PackageAttempt C R)
      → IsOpen s p.attempt
      → p.attempt.writes ≡ []
      → IsOver (after_path env before refusal p)
  unfolding after_path
  after_path-IsOver before none p h w = after_package_render-IsOver before env.render p refl h w
  after_path-IsOver before (some m) p h w = record {
    ended = inl (fail_stalled-IsEnded env s _ _ _ h);
    clean = inl refl;
  }

  after_fetch-IsOver :
      (before : ℕ) (answer : FetchAnswer) (p : PackageAttempt C R)
      → IsOpen s p.attempt
      → p.attempt.writes ≡ []
      → p.extracted ≡ absent
      → IsOver (after_fetch env before answer p)
  unfolding after_fetch fail_transiently
  after_fetch-IsOver before (no_temp_dir m e) p h w x = record {
    ended = inl (record { ended = inl (failed_by refl interval-pos h.0, h.1) });
    clean = inl x;
  }
  after_fetch-IsOver before (fetch_failed e) p h w x = record {
    ended = inl (record { ended = inl (failed_by refl interval-pos h.0, h.1) });
    clean = inl refl;
  }
  after_fetch-IsOver before fetched p h w x = after_path-IsOver before _ _ h w

  after_recorded-IsOver :
      (at_start : C) (before : ℕ) (artifact : Artifact) (skips : Bool) (p : PackageAttempt C R)
      → IsOpen s p.attempt
      → p.attempt.writes ≡ []
      → p.extracted ≡ absent
      → IsOver (after_recorded env at_start before artifact skips p)
  unfolding after_recorded skip_render
  after_recorded-IsOver at_start before artifact true p h w x = record {
    ended = inr (refl, h.1, w);
    clean = inl x;
  }
  after_recorded-IsOver at_start before artifact false p h w x =
      after_fetch-IsOver before (env.fetch artifact) p h w x

  after_source-IsOver :
      (at_start : C) (before : ℕ) (answer : SourceAnswer) (p : PackageAttempt C R)
      → IsOpen s p.attempt
      → p.attempt.writes ≡ []
      → p.extracted ≡ absent
      → IsOver (after_source env at_start before answer p)
  unfolding after_source
  after_source-IsOver at_start before (source_failed n u m) p h w x = record {
    ended = inl (source_failure (n || u));
    clean = inl x;
  }
    where
      source_failure :
          (stalls : Bool)
          → IsEnded s (
              (if stalls
                  then fail_stalled env "SourceNotReady" m
                  else fail_transiently env "SourceNotReady" m (interval_delay env))
                p.attempt)
      source_failure true = fail_stalled-IsEnded env s _ _ _ h
      source_failure false = fail_transiently-IsEnded env s _ _ _ _ interval-pos h
  after_source-IsOver at_start before (source_found artifact) p h w x =
      after_recorded-IsOver at_start before artifact _ _ h w x

  -- With an interval that is not negative, every reconcile of a ModulePackage that passes its gates ends in one of these ways: it failed,
  -- and is retried after a positive interval; it is done; it had nothing to do and wrote nothing; it
  -- is not committed and wrote nothing; or its render was skipped, what the status recorded is kept
  -- and nothing was written. On each of them the temporary directory of the artifact is gone, or left to a render
  -- that timed out, which removes it.
  pub package_attempt-IsOver :
      (counted : String → ℕ) (source : Option (SourceStatus R))
      → IsOver (package_attempt env counted source s)
  unfolding package_attempt
  package_attempt-IsOver counted source =
      after_source-IsOver s.conditions _ env.source _
        (
          record { undecided = refl; not_reconciled = refl; commits = refl; no_retry = refl },
          (
            record {
              last_applied = refl;
              last_applied_inputs = refl;
              same_history = refl;
              failure_counters = refl;
            },
            refl,
          ),
        )
        refl refl
