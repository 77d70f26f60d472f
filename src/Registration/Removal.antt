-- ===== src/Registration/Removal.antt =====
-- internal/controller/transformerregistration_dependents.go: the instances that still demand what a
-- claim provides, and the deletion of a claim.
use Prim.Native.String.{◌++◌}
use opm_operator.Prelude.{
  String, Bool, true, false, not, List, [], ◌∷◌, Option, none, some, str_eq, is_empty, select,
  if◌then◌else◌,
}
use opm_operator.Prelude.Texts.{contains}
use opm_operator.Prelude.Sorting.{sort}
use opm_operator.Status.Conditions.{mark_stalled}
use opm_operator.Reconcile.Backoff.{stalled_recheck_interval}
use opm_operator.Registration.{Claim, Provider, claim_finalizer, claim_contributes_after_deletion}
use opm_operator.Registration.Verdict.{Answers, Result, dependents_note, patch_status, transitioned}

-- The inner loop of dependents: whether one of the contracts is provided.
unfoldable pub demands_any : (provided required : List String) → Bool
demands_any provided [] = false
demands_any provided (fqn ∷ required) =
    let rest = demands_any provided required in if contains provided fqn then true else rest

module _ {C : Type 0} where
  -- The outer loop
  unfoldable pub dependent_names : (provided : List String) → List (Provider C) → List String
  dependent_names provided [] = []
  dependent_names provided (i ∷ instances) =
      let rest = dependent_names provided instances in
      if demands_any provided i.required_contracts
      then (i.namespace ++ ("/" ++ i.name)) ∷ rest
      else rest

  -- dependents, on the instances that it listed
  unfoldable pub dependents : Claim C → List (Provider C) → List String
  dependents c instances = sort (dependent_names c.provides instances)

  -- controllerutil.RemoveFinalizer
  unfoldable pub without_finalizer : Claim C → Claim C
  without_finalizer c = record c {
    finalizers = select (λ f. not (str_eq f claim_finalizer)) c.finalizers;
  }

module _ {C K P : Type 0} (env : Answers C K P) where
  -- reconcileDeletion, while instances remain
  unfoldable pub block_deletion : Claim C → (names : List String) → Result C
  unfolding transitioned patch_status
  block_deletion c names =
      let message = env.word c (dependents_note names) in
      patch_status env c
        (record c { conditions = mark_stalled env.set "DependentsRemain" message c.conditions })
        (if transitioned env c "DependentsRemain" message
          then some ("DependentsRemain", message)
          else none)
        stalled_recheck_interval

  -- releaseClaim, and what reconcileDeletion returns after it
  unfoldable pub release_claim : Claim C → Result C
  unfolding patch_status
  release_claim c = patch_status env c (without_finalizer c) none 0

  unfoldable pub after_dependents : Claim C → Option (List (Provider C)) → Result C
  after_dependents c none = record {
    stored = c;
    event = none;
    requeue_after = 0;
    returned_error = true;
  }
  after_dependents c (some instances) =
      if is_empty (dependents c instances)
      then release_claim c
      else block_deletion c (dependents c instances)

  -- reconcileDeletion
  unfoldable pub reconcile_deletion : Claim C → Result C
  reconcile_deletion c =
      if not (claim_contributes_after_deletion c)
      then record { stored = c; event = none; requeue_after = 0; returned_error = false }
      else after_dependents c env.instances
