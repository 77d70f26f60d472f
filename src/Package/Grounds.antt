-- ===== src/Package/Grounds.antt =====
-- What each write of a reconcile of a ModulePackage rests on.
pub mod Whole
use opm_operator.Prelude.{
  ℕ, String, ◌≡◌, refl, Bool, true, false, ◌&&◌, ◌||◌, not, List, [], ◌∷◌, ◌++◌, Option, none, some,
  is_empty, map, str_eq, All, arith, Bool-cases, if-cases, if◌then◌else◌,
}
use opm_operator.Reconcile.Health.{InventoryEntry}
use opm_operator.Reconcile.Identity.{IdentityPlan, IdentityFields, store}
use opm_operator.Reconcile.Restore.{Inventory}
use opm_operator.Reconcile.Ownership.{
  GuardError, GuardedApply, guard_apply, changes_inventory, refused_to_write,
}
use opm_operator.Instance.State.{
  InstanceStatus, ApplyOptions, Attempt, Write, write_identity, write_apply, write_prune,
}
use opm_operator.Instance.Failures.{ClusterError}
use opm_operator.Instance.Answers.{RenderResult, ConvertedRender, PruneAnswer, prune_failed, pruned}
use opm_operator.Instance.Writing.{inventory_entries, effective_sa}
use opm_operator.Instance.Planning.{guard_failure}
use opm_operator.Instance.Justified.{All-append}
use opm_operator.Package.State.{PackageEnv, rendered}
use opm_operator.Package.Writing.{
  package_backoff, fail_transiently, package_no_op, package_finish, after_package_prune,
  package_prune, after_package_apply, package_apply_stored, apply_and_prune,
}
use opm_operator.Package.Planning.{fail_stalled, after_allowed, after_package_guard, after_client}

module _ {C L V O S R : Type 0} (env : PackageEnv C L V O S R) where
  abbrev pub options_of : GuardedApply V → ApplyOptions
  options_of g = record {
    force = env.shared.spec.force_conflicts;
    delete_data = env.shared.spec.deletes_claims;
    taken_in = g.pins;
  }

  -- The identity fields that a changed plan stores
  abbrev pub fields_of : IdentityPlan → Attempt C → IdentityFields
  fields_of plan a = (store plan a.status.identity env.shared.patch_identity).0

  -- The entries of the inventory that the render does not have
  abbrev pub stale_of : ConvertedRender → Attempt C → List InventoryEntry
  stale_of converted a =
      env.shared.stale_set (inventory_entries a.status.inventory)
        (map env.shared.entry_of converted.resources)

  -- The identity that is written is the plan's, when it changed; what is applied is what the guard
  -- allowed, with the objects it takes in pinned; a prune of the stale entries follows an apply that
  -- succeeded, and its spec asks for it.
  abbrev pub IsGrounded :
      IdentityPlan
      → GuardedApply V
      → IdentityFields
      → (stale : List InventoryEntry) → Write
      → Type 0
  IsGrounded plan g written stale (write_identity fields) =
      (plan.changed ≡ true) × (fields ≡ written)
  IsGrounded plan g written stale (write_apply rs opts) = (rs ≡ g.allowed) × (opts ≡ options_of g)
  IsGrounded plan g written stale (write_prune ids entries delete_data) =
      (env.shared.apply g.allowed (options_of g) ≡ none)
      × (env.shared.spec.prune ≡ true)
      × (ids ≡ plan.prune)
      × (entries ≡ stale)
      × (delete_data ≡ env.shared.spec.deletes_claims)

  module _ (Q : Write → Type 0) where
    pub record IsSent (a : Attempt C) : Type 0 where
      pub sent : All Q a.writes

    fail_transiently-IsSent :
        (reason message : String) (retry : ℕ) (a : Attempt C)
        → All Q a.writes
        → IsSent (fail_transiently env reason message retry a)
    unfolding fail_transiently
    fail_transiently-IsSent reason message retry a h = record { sent = h }

    after_package_prune-IsSent :
        (entries : List InventoryEntry) (answer : PruneAnswer) (a : Attempt C)
        → All Q a.writes
        → IsSent (after_package_prune env entries answer a)
    unfolding after_package_prune package_finish
    after_package_prune-IsSent entries (prune_failed err) a h = fail_transiently-IsSent _ _ _ _ h
    after_package_prune-IsSent entries (pruned d k) a h = record { sent = h }

    package_prune-IsSent :
        (plan : IdentityPlan) (stale entries : List InventoryEntry) (a : Attempt C)
        → All Q a.writes
        → (env.shared.spec.prune ≡ true
            → Q (write_prune plan.prune stale env.shared.spec.deletes_claims))
        → IsSent (package_prune env plan stale entries a)
    unfolding package_prune package_finish
    package_prune-IsSent plan stale entries a h q =
        if-cases IsSent (not env.shared.spec.prune || is_empty stale) (λ t. record { sent = h })
          (λ f.
            after_package_prune-IsSent entries
              (env.shared.prune plan.prune stale env.shared.spec.deletes_claims) _
              (All-append Q a.writes _ h (q (ground (arith, f)))))

    after_package_apply-IsSent :
        (plan : IdentityPlan) (stale entries : List InventoryEntry) (err : Option ClusterError)
        (a : Attempt C)
        → All Q a.writes
        → (err ≡ none
            → env.shared.spec.prune ≡ true
            → Q (write_prune plan.prune stale env.shared.spec.deletes_claims))
        → IsSent (after_package_apply env plan stale entries err a)
    unfolding after_package_apply
    after_package_apply-IsSent plan stale entries none a h q =
        package_prune-IsSent plan stale entries _ h (q refl)
    after_package_apply-IsSent plan stale entries (some err) a h q = with_note err.claim_note
      where
        with_note :
            (note : Option String)
            → IsSent (elim note [
              | some note ↦
                  fail_transiently env "ClaimConflict" note
                    (package_backoff env a)
                    (record a { phases = record a.phases { apply_failed = true } })
              | none ↦
                  fail_transiently env "ApplyFailed" err.message
                    (package_backoff env a)
                    (record a { phases = record a.phases { apply_failed = true } })
            ])
        with_note (some note) = fail_transiently-IsSent _ _ _ _ h
        with_note none = fail_transiently-IsSent _ _ _ _ h

    package_apply_stored-IsSent :
        (plan : IdentityPlan) (g : GuardedApply V) (stale entries : List InventoryEntry)
        (written : IdentityFields) (err : Option ClusterError) (a : Attempt C)
        → All Q a.writes
        → ((w : Write) → IsGrounded plan g written stale w → Q w)
        → IsSent (package_apply_stored env plan g stale entries err a)
    unfolding package_apply_stored
    package_apply_stored-IsSent plan g stale entries written (some err) a h q =
        fail_transiently-IsSent _ _ _ _ h
    package_apply_stored-IsSent plan g stale entries written none a h q =
        after_package_apply-IsSent plan stale entries _ _
          (All-append Q a.writes _ h (q (write_apply g.allowed (options_of g)) (refl, refl)))
          (λ e p. q _ (e, p, refl, refl, refl))

    apply_and_prune-IsSent :
        (plan : IdentityPlan) (g : GuardedApply V) (converted : ConvertedRender) (a : Attempt C)
        → a.writes ≡ []
        → ((w : Write) → IsGrounded plan g (fields_of plan a) (stale_of converted a) w → Q w)
        → IsSent (apply_and_prune env plan g converted a)
    unfolding apply_and_prune
    apply_and_prune-IsSent plan g converted a e q =
        package_apply_stored-IsSent plan g _ _ (fields_of plan a) _ _ sent_identity q
      where
        sent_identity : All Q (
            if plan.changed then a.writes ++ (write_identity (fields_of plan a) ∷ []) else a.writes)
        sent_identity =
            if-cases (All Q) plan.changed
              (λ t. rw e (q (write_identity (fields_of plan a)) (t, refl), tt)) (λ f. rw e tt)

    after_allowed-IsSent :
        (plan : IdentityPlan) (unchanged : Bool) (g : GuardedApply V) (converted : ConvertedRender)
        (a : Attempt C)
        → a.writes ≡ []
        → ((unchanged && not (changes_inventory g)) ≡ false
            → (w : Write) → IsGrounded plan g (fields_of plan a) (stale_of converted a) w
            → Q w)
        → IsSent (after_allowed env plan unchanged g converted a)
    unfolding after_allowed package_no_op
    after_allowed-IsSent plan unchanged g converted a e q =
        if-cases IsSent (unchanged && not (changes_inventory g)) (λ t. record { sent = rw e tt })
          (λ f. apply_and_prune-IsSent plan g converted (record a { adopted = g.adopted }) e (q f))

    after_package_guard-IsSent :
        (plan : IdentityPlan) (unchanged : Bool) (g : GuardedApply V) (converted : ConvertedRender)
        (err : Option GuardError) (a : Attempt C)
        → a.writes ≡ []
        → (err ≡ none
            → is_empty (refused_to_write g.refused false) ≡ true
            → (w : Write) → IsGrounded plan g (fields_of plan a) (stale_of converted a) w
            → Q w)
        → IsSent (after_package_guard env plan unchanged g converted err a)
    unfolding after_package_guard fail_stalled
    after_package_guard-IsSent plan unchanged g converted (some err) a e q =
        if-cases IsSent
          (not (str_eq (effective_sa env.shared) "") && (guard_failure env.shared err).forbidden)
          (λ t. record { sent = rw e tt }) (λ f. fail_transiently-IsSent _ _ _ _ (rw e tt))
    after_package_guard-IsSent plan unchanged g converted none a e q =
        let idle = unchanged && not (changes_inventory g) in
        if-cases IsSent (not (is_empty (refused_to_write g.refused idle)))
          (λ t. fail_transiently-IsSent _ _ _ _ (rw e tt))
          (λ f.
            after_allowed-IsSent plan unchanged g converted a e
              (λ i. q refl (ground (arith, f, i))))
