-- ===== src/Package/Grounds/Whole.antt =====
-- Nothing that a reconcile of a ModulePackage sends was left unjudged.
use opm_operator.Prelude.{
  ℕ, String, ◌≡◌, refl, sym, ap, ◌∙◌, Bool, true, false, ◌||◌, not, [], Option, none, some,
  is_empty, map, str_eq, eq_iff, All, arith, if-cases, if◌then◌else◌,
}
use mathlib.Core.Path.{subst}
use opm_operator.Reconcile.Identity.{IdentityPlan, IdentityFields, plan_identities, store}
use opm_operator.Reconcile.Restore.{Inventory}
use opm_operator.Reconcile.Ownership.{GuardedApply, guard_apply, refused_to_write}
use opm_operator.Instance.State.{InstanceStatus, Attempt, Write}
use opm_operator.Instance.Answers.{RenderResult, ConvertedRender}
use opm_operator.Instance.Failures.{is_transient_failure}
use opm_operator.Instance.Writing.{inventory_entries}
use opm_operator.Instance.Rendering.{extract_instance_uuid, adopted_at_start}
use opm_operator.Package.State.{
  Artifact, SourceStatus, SourceAnswer, source_found, source_failed, FetchAnswer, fetched,
  no_temp_dir, fetch_failed, PackageError, PackageRender, slot_closed, present, timed_out,
  still_running, render_failed, unconverted, rendered, PackageEnv, PackageAttempt,
}
use opm_operator.Package.Writing.{fail_transiently, interval_delay}
use opm_operator.Package.Planning.{fail_stalled, after_client, after_identities, after_converted}
use opm_operator.Package.Rendering.{
  fail_render, after_package_render, after_path, after_fetch, skip_render, after_recorded,
  after_source, package_attempt,
}
use opm_operator.Package.Grounds.{
  IsGrounded, IsSent, fields_of, stale_of, fail_transiently-IsSent, after_package_guard-IsSent,
}

module _ {C L V O S R : Type 0} (env : PackageEnv C L V O S R) (s : InstanceStatus C) where
  -- The answer of the guard for a render, an identity and the inventory of the status
  abbrev pub guarded : IdentityPlan → (before : ℕ) → ConvertedRender → GuardedApply V
  guarded plan before converted =
      guard_apply env.shared.rules false env.shared.get converted.resources
        (inventory_entries s.inventory) plan.instance_uuid before

  -- The plan of the identities for a render, over those that the status records
  abbrev pub plan_for : ConvertedRender → IdentityPlan
  plan_for converted =
      plan_identities s.identity.current s.identity.previous
        (extract_instance_uuid converted.resources) true

  -- A write of a reconcile: the package rendered, the render's identity was not refused, the guard
  -- read every object and refused none, and the write rests on the plan and on what the guard allowed.
  pub record IsBacked (before : ℕ) (w : Write) : Type 0 where
    pub result : RenderResult
    pub converted : ConvertedRender
    pub rendering : env.render ≡ rendered "ModuleInstance" result converted
    pub settled : (plan_for converted).refused ≡ false
    pub read : (guarded (plan_for converted) before converted).err ≡ none
    pub unrefused : is_empty (guarded (plan_for converted) before converted).refused ≡ true
    pub grounded :
        IsGrounded env
          (plan_for converted)
          (guarded (plan_for converted) before converted)
          (store (plan_for converted) s.identity env.shared.patch_identity).0
          (env.shared.stale_set
            (inventory_entries s.inventory)
            (map env.shared.entry_of converted.resources))
          w

  -- Nothing is sent so far, and the inventory is the status's.
  pub record IsUnsent (a : Attempt C) : Type 0 where
    pub nothing : a.writes ≡ []
    pub inventory : a.status.inventory ≡ s.inventory
    pub identity : a.status.identity ≡ s.identity

  refused-all : (g : GuardedApply V) → refused_to_write g.refused false ≡ g.refused
  unfolding refused_to_write
  refused-all g = refl

  after_client-IsSent :
      (before : ℕ) (unchanged : Bool) (result : RenderResult) (converted : ConvertedRender)
      (no_client : Option String) (a : Attempt C)
      → env.render ≡ rendered "ModuleInstance" result converted
      → (plan_for converted).refused ≡ false
      → IsUnsent a
      → IsSent env
          (IsBacked before)
          (after_client env (plan_for converted) before unchanged converted no_client a)
  unfolding after_client fail_stalled
  after_client-IsSent before unchanged result converted (some err) a r settled u = record {
    sent = rw u.nothing tt;
  }
  after_client-IsSent before unchanged result converted none a r settled u =
      let plan = plan_for converted in
      let g =
        guard_apply env.shared.rules false env.shared.get converted.resources
          (inventory_entries a.status.inventory) plan.instance_uuid before in
      let same : guarded plan before converted ≡ g =
        ap
          (λ (i : Option Inventory).
            guard_apply env.shared.rules false env.shared.get converted.resources
              (inventory_entries i) plan.instance_uuid before)
          (sym u.inventory) in
      after_package_guard-IsSent env (IsBacked before) plan unchanged g converted g.err a u.nothing
        (λ e n w d. record {
          result = result;
          converted = converted;
          rendering = r;
          settled = settled;
          read = ap (λ (x : GuardedApply V). x.err) same ∙ e;
          unrefused =
              ap (λ (x : GuardedApply V). is_empty x.refused) same
              ∙ sym (ap is_empty (refused-all g))
              ∙ n;
          grounded =
              subst
                (λ (i : Option Inventory).
                  IsGrounded env plan (guarded plan before converted)
                    (store plan s.identity env.shared.patch_identity).0
                    (env.shared.stale_set (inventory_entries i)
                      (map env.shared.entry_of converted.resources))
                    w)
                u.inventory
                (subst
                  (λ (i : IdentityFields).
                    IsGrounded env plan (guarded plan before converted)
                      (store plan i env.shared.patch_identity).0 (stale_of env converted a) w)
                  u.identity
                  (subst
                    (λ (x : GuardedApply V).
                      IsGrounded env plan x (fields_of env plan a) (stale_of env converted a) w)
                    (sym same) d));
        })

  after_converted-IsSent :
      (before : ℕ) (result : RenderResult) (converted : ConvertedRender) (a : Attempt C)
      → env.render ≡ rendered "ModuleInstance" result converted
      → IsUnsent a
      → IsSent env (IsBacked before) (after_converted env before result converted a)
  unfolding after_converted after_identities fail_stalled
  after_converted-IsSent before result converted a r u =
      let plan = λ (i : IdentityFields).
        plan_identities i.current i.previous (extract_instance_uuid converted.resources) true in
      rw (ap plan u.identity) (
        if-cases (IsSent env (IsBacked before)) (plan_for converted).refused
          (λ t. record { sent = rw u.nothing tt })
          (λ f.
            after_client-IsSent before _ result converted env.shared.impersonation_error _ r f
              (record { nothing = u.nothing; inventory = u.inventory; identity = u.identity })))

  fail_render-IsSent :
      (before : ℕ) (e : PackageError) (a : Attempt C)
      → IsUnsent a
      → IsSent env (IsBacked before) (fail_render env e a)
  unfolding fail_render fail_stalled
  fail_render-IsSent before e a u =
      if-cases (IsSent env (IsBacked before)) e.chain.platform_not_ready
        (λ t. fail_transiently-IsSent env (IsBacked before) _ _ _ _ (rw u.nothing tt))
        (λ f.
          if-cases (IsSent env (IsBacked before)) (is_transient_failure (some e.chain))
            (λ t. fail_transiently-IsSent env (IsBacked before) _ _ _ _ (rw u.nothing tt))
            (λ n. record { sent = rw u.nothing tt }))

  after_package_render-IsSent :
      (before : ℕ) (answer : PackageRender) (p : PackageAttempt C R)
      → env.render ≡ answer
      → IsUnsent p.attempt
      → IsSent env (IsBacked before) (after_package_render env before answer p).attempt
  unfolding after_package_render fail_stalled
  after_package_render-IsSent before slot_closed p r u = record { sent = rw u.nothing tt }
  after_package_render-IsSent before (timed_out m) p r u = record { sent = rw u.nothing tt }
  after_package_render-IsSent before (still_running m) p r u = record { sent = rw u.nothing tt }
  after_package_render-IsSent before (unconverted x reason m) p r u = record {
    sent = rw u.nothing tt;
  }
  after_package_render-IsSent before (render_failed e) p r u =
      fail_render-IsSent before e p.attempt u
  after_package_render-IsSent before (rendered kind result converted) p r u =
      if-cases (IsSent env (IsBacked before)) (not (str_eq kind "ModuleInstance"))
        (λ t. record { sent = rw u.nothing tt })
        (λ f.
          after_converted-IsSent before result converted p.attempt
            (r
              ∙ ap (λ k. rendered k result converted)
                  ((eq_iff kind "ModuleInstance").0 (ground (arith, f))))
            u)

  after_path-IsSent :
      (before : ℕ) (refusal : Option Bool) (p : PackageAttempt C R)
      → IsUnsent p.attempt
      → IsSent env (IsBacked before) (after_path env before refusal p).attempt
  unfolding after_path fail_stalled
  after_path-IsSent before none p u = after_package_render-IsSent before env.render p refl u
  after_path-IsSent before (some m) p u = record { sent = rw u.nothing tt }

  after_fetch-IsSent :
      (before : ℕ) (answer : FetchAnswer) (p : PackageAttempt C R)
      → IsUnsent p.attempt
      → IsSent env (IsBacked before) (after_fetch env before answer p).attempt
  unfolding after_fetch fail_transiently
  after_fetch-IsSent before (no_temp_dir m e) p u = record { sent = rw u.nothing tt }
  after_fetch-IsSent before (fetch_failed e) p u = record { sent = rw u.nothing tt }
  after_fetch-IsSent before fetched p u =
      after_path-IsSent before _ (record p { extracted = present }) u

  after_recorded-IsSent :
      (at_start : C) (before : ℕ) (artifact : Artifact) (skips : Bool) (p : PackageAttempt C R)
      → IsUnsent p.attempt
      → IsSent env (IsBacked before) (after_recorded env at_start before artifact skips p).attempt
  unfolding after_recorded skip_render
  after_recorded-IsSent at_start before artifact true p u = record { sent = rw u.nothing tt }
  after_recorded-IsSent at_start before artifact false p u =
      after_fetch-IsSent before (env.fetch artifact) p u

  after_source-IsSent :
      (at_start : C) (before : ℕ) (answer : SourceAnswer) (p : PackageAttempt C R)
      → IsUnsent p.attempt
      → IsSent env (IsBacked before) (after_source env at_start before answer p).attempt
  unfolding after_source fail_stalled fail_transiently
  after_source-IsSent at_start before (source_failed n m text) p u = source_failure (n || m)
    where
      source_failure :
          (stalls : Bool)
          → IsSent env (IsBacked before) (
              (if stalls
                  then fail_stalled env "SourceNotReady" text
                  else fail_transiently env "SourceNotReady" text (interval_delay env))
                p.attempt)
      source_failure true = record { sent = rw u.nothing tt }
      source_failure false = record { sent = rw u.nothing tt }
  after_source-IsSent at_start before (source_found artifact) p u =
      after_recorded-IsSent at_start before artifact _ _
        (record { nothing = u.nothing; inventory = u.inventory; identity = u.identity })

  -- Whatever a reconcile of a ModulePackage sends, the package rendered a ModuleInstance, the plan of
  -- the identities for it, over those that the status records, was not refused, the guard read every
  -- object of the render and refused none, and: an identity is written where the plan changed it, and
  -- is the plan's; what is applied is what the guard allowed, under the spec's options, with the
  -- objects that it takes in pinned; and a prune follows an apply that succeeded, is asked for by the
  -- spec, takes the stale entries of the inventory, and prunes for the identities of the plan.
  pub package_attempt-IsBacked :
      (counted : String → ℕ) (source : Option (SourceStatus R))
      → All
          (IsBacked (adopted_at_start env.shared counted s.conditions))
          (package_attempt env counted source s).attempt.writes
  unfolding package_attempt
  package_attempt-IsBacked counted source =
      (after_source-IsSent s.conditions _ env.source _
        (record { nothing = refl; inventory = refl; identity = refl })).sent
