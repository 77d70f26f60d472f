-- ===== src/Registration/Judge.antt =====
-- The verdict on a claim: providesDrift, checkProviderIdentity and Reconcile of
-- internal/controller/transformerregistration_controller.go. Each function continues a reconcile
-- after one answer, with the early returns of the source.
use opm_operator.Prelude.{
  String, Bool, true, false, ◌&&◌, List, [], ◌∷◌, Option, none, some, str_eq, if◌then◌else◌,
}
use opm_operator.Prelude.Sorting.{sort}
use opm_operator.Reconcile.Health.{InventoryEntry}
use opm_operator.Reconcile.Restore.{Inventory}
use opm_operator.Platform.Store.{Store, Generated, lease, release}
use opm_operator.Registration.{Claim, Provider, AcquireError, keeps_verdict, verdict_stands}
use opm_operator.Registration.Holder.{subscribed_contract, holder_of, active_contract_holder}
use opm_operator.Registration.Compat.{Conflict, platform_requirements, build_incompatibility}
use opm_operator.Registration.Verdict.{
  Answers, Result, Note, unresolved, underivable, wrong_kind, no_platform, missing_instance,
  unread_instance, no_inventory, not_owned, unread_resolution, unread_requirements, unlisted_claims,
  unbuilt, unread_contracts, unlisted_providers, drift_note, conflict_note, duplicate_note,
  subscribed_note, claimed_note, Acquired, acquired, acquire_failed, InstanceRead, instance_found,
  instance_missing, instance_unread, accept, refuse, defer_verdict, hold_verdict,
}
use opm_operator.Registration.Removal.{reconcile_deletion}

-- slices.Equal on strings
unfoldable pub equal_lists : List String → List String → Bool
equal_lists [] [] = true
equal_lists [] (y ∷ ys) = false
equal_lists (x ∷ xs) [] = false
equal_lists (x ∷ xs) (y ∷ ys) = str_eq x y && equal_lists xs ys

-- identityVerdict, with the instance of identityOK and the message of the others
pub data IdentityVerdict (C : Type 0) : Type 0 where
  identity_ok : Provider C → IdentityVerdict C
  identity_pending identity_refused : Note → IdentityVerdict C

-- The test of the loop of checkProviderIdentity
unfoldable pub owns_claim : (name : String) → List InventoryEntry → Bool
owns_claim name [] = false
owns_claim name (e ∷ entries) =
    let rest = owns_claim name entries in
    if str_eq e.group "opmodel.dev" && str_eq e.kind "TransformerRegistration" && str_eq e.name name
    then true
    else rest

module _ {C : Type 0} where
  -- checkProviderIdentity, after it read the inventory of the instance
  unfoldable pub identity_in : (name : String) → Provider C → Option Inventory → IdentityVerdict C
  identity_in name provider none = identity_pending no_inventory
  identity_in name provider (some inventory) =
      if owns_claim name inventory.entries then identity_ok provider else identity_refused not_owned

  -- checkProviderIdentity, after it read the instance
  unfoldable pub identity_of : (name : String) → InstanceRead C → IdentityVerdict C
  identity_of name instance_missing = identity_refused missing_instance
  identity_of name instance_unread = identity_pending unread_instance
  identity_of name (instance_found provider) = identity_in name provider provider.inventory

module _ {C K P : Type 0} (env : Answers C K P) where
  -- providesDrift: the message, or nothing where the lists agree
  unfoldable pub provides_drift : K → (claimed : List String) → Option Note
  provides_drift cat claimed = elim (env.provides_of cat) [
    | none ↦ some underivable
    | some derived ↦
        if equal_lists (sort claimed) (sort derived)
        then none
        else some (drift_note (sort claimed) (sort derived))
  ]

  -- checkProviderIdentity
  unfoldable pub check_provider_identity : Claim C → IdentityVerdict C
  check_provider_identity c =
      identity_of c.name (env.read_instance c.provider_namespace c.provider_name)

  unfoldable pub after_active : Claim C → Provider C → Option (String × String) → Result C
  after_active c provider none = accept env c provider
  after_active c provider (some (contract, holder)) =
      refuse env c "ContractClaimed" (claimed_note contract holder)

  -- The answer to the listing of activeContractHolder
  unfoldable pub after_providers : Claim C → Provider C → Option (List (Claim C)) → Result C
  after_providers c provider none = defer_verdict env c "ContractClaimed" unlisted_providers
  after_providers c provider (some list) = after_active c provider (active_contract_holder c list)

  unfoldable pub after_subscribed : Claim C → Provider C → Option (String × String) → Result C
  after_subscribed c provider none = after_providers c provider env.providers
  after_subscribed c provider (some (contract, entry)) =
      refuse env c "ContractSubscribed" (subscribed_note contract entry)

  unfoldable pub after_contracts :
      Claim C → Provider C → Option (List (String × List String)) → Result C
  after_contracts c provider none = defer_verdict env c "PlatformNotReady" unread_contracts
  after_contracts c provider (some provided_by) =
      after_subscribed c provider (subscribed_contract c.provides provided_by c.catalog)

  -- The test for a generated record without a built platform
  unfoldable pub after_built : Claim C → Provider C → Option P → Result C
  after_built c provider none = defer_verdict env c "PlatformNotReady" unbuilt
  after_built c provider (some platform) = after_contracts c provider (env.contracts_of platform)

  unfoldable pub after_holder :
      Claim C → Generated (Option P) → Provider C → Option String → Result C
  after_holder c g provider none = after_built c provider g.platform
  after_holder c g provider (some holder) =
      refuse env c "DuplicateClaim" (duplicate_note holder c.catalog)

  -- The answer to the listing of holderOf
  unfoldable pub after_competing :
      Claim C → Generated (Option P) → Provider C → Option (List (Claim C)) → Result C
  after_competing c g provider none = defer_verdict env c "DuplicateClaim" unlisted_claims
  after_competing c g provider (some list) = after_holder c g provider (holder_of c list)

  unfoldable pub after_build :
      Claim C → Generated (Option P) → Provider C → Option Conflict → Result C
  after_build c g provider none = after_competing c g provider env.competing
  after_build c g provider (some conflict) =
      refuse env c "BuildIncompatible" (conflict_note conflict)

  unfoldable pub after_requires :
      Claim C
      → Generated (Option P)
      → Provider C
      → (reqs : List (String × String)) → (catalog_reqs : Option (List (String × String)))
      → Result C
  after_requires c g provider reqs none = refuse env c "BuildIncompatible" unread_requirements
  after_requires c g provider reqs (some catalog_reqs) =
      after_build c g provider (build_incompatibility env.split_base env.newer catalog_reqs reqs)

  unfoldable pub after_resolution :
      Claim C
      → Generated (Option P)
      → K
      → Provider C
      → (reqs : Option (List (String × String))) → Result C
  after_resolution c g cat provider none = defer_verdict env c "PlatformNotReady" unread_resolution
  after_resolution c g cat provider (some reqs) =
      after_requires c g provider reqs (env.requires_of cat)

  unfoldable pub after_identity : Claim C → Generated (Option P) → K → IdentityVerdict C → Result C
  after_identity c g cat (identity_pending note) =
      defer_verdict env c "ProviderInventoryPending" note
  after_identity c g cat (identity_refused note) = refuse env c "ProviderMismatch" note
  after_identity c g cat (identity_ok provider) =
      after_resolution c g cat provider (platform_requirements env.read_modfile g.dir)

  unfoldable pub after_drift : Claim C → Generated (Option P) → K → Option Note → Result C
  after_drift c g cat none = after_identity c g cat (check_provider_identity c)
  after_drift c g cat (some note) = refuse env c "ProvidesMismatch" note

  -- What Reconcile does about a failed acquisition
  unfoldable pub after_failure : Claim C → AcquireError → Result C
  after_failure c e =
      if e.chain.wrong_kind
      then refuse env c "CatalogWrongKind" wrong_kind
      else if verdict_stands c && keeps_verdict e
      then hold_verdict env c
      else refuse env c "CatalogUnresolved" unresolved

  unfoldable pub after_acquire : Claim C → Generated (Option P) → Acquired K → Result C
  after_acquire c g (acquired cat) = after_drift c g cat (provides_drift cat c.provides)
  after_acquire c g (acquire_failed e) = after_failure c e

  -- Reconcile of a claim that is not being deleted, with the store that the lease leaves
  unfoldable pub judge : Claim C → Store (Option P) → Result C × Store (Option P)
  judge c store =
      let (leased, answer) = lease store in
      elim answer [
        | none ↦ (defer_verdict env c "PlatformNotReady" no_platform, leased)
        | some (g, handle) ↦
            (after_acquire c g (env.acquire c.catalog c.version), (release handle leased).1)
      ]

  -- Reconcile, on the claim that it reads
  unfoldable pub reconcile_claim : Claim C → Store (Option P) → Result C × Store (Option P)
  reconcile_claim c store = if c.deleting then (reconcile_deletion env c, store) else judge c store
