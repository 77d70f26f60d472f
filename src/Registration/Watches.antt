-- ===== src/Registration/Watches.antt =====
-- What wakes a claim: mapPlatformToRegistrations, mapInstanceToRegistrations, providesAny,
-- readProviderFacts, providerFactsChanged and claimSpecOrDeletionChanged of
-- internal/controller/transformerregistration_controller.go.
use Prim.Native.String.{◌++◌}
use opm_operator.Prelude.{
  String, Bool, true, false, ◌&&◌, ◌||◌, not, List, [], ◌∷◌, map, Option, none, some, str_eq,
  if◌then◌else◌, select,
}
use opm_operator.Prelude.Int64.{eq_ℤ}
use opm_operator.Prelude.Texts.{contains}
use opm_operator.Status.Conditions.{ConditionStatus, Setter}
use opm_operator.Registration.{Claim, Provider, same_status}

-- providesAny; a set of contracts is the list of its elements.
unfoldable pub provides_any : (provides demanded : List String) → Bool
provides_any [] demanded = false
provides_any (fqn ∷ provides) demanded =
    let rest = provides_any provides demanded in if contains demanded fqn then true else rest

-- strings.Join
unfoldable pub join : (separator : String) → List String → String
join separator [] = ""
join separator (x ∷ []) = x
join separator (x ∷ y ∷ l) = x ++ (separator ++ join separator (y ∷ l))

-- providerFacts; without a Ready condition its status is the empty string, here nothing.
pub record ProviderFacts : Type 0 where
  pub ready : Option ConditionStatus
  pub inventory_digest : String
  pub demand : String

-- before == after on the statuses
unfoldable pub same_ready : Option ConditionStatus → Option ConditionStatus → Bool
same_ready none none = true
same_ready none (some t) = false
same_ready (some s) none = false
same_ready (some s) (some t) = same_status s t

module _ {C : Type 0} where
  -- mapPlatformToRegistrations: the names of the requests, none when the list fails
  unfoldable pub map_platform_to_registrations : Option (List (Claim C)) → List String
  map_platform_to_registrations none = []
  map_platform_to_registrations (some claims) = map (λ c. c.name) claims

  -- The test of the loop of mapInstanceToRegistrations; `demanded` is empty for an object that is no
  -- ModuleInstance.
  unfoldable pub is_woken_by : (namespace name : String) → (demanded : List String) → Claim C → Bool
  unfolding provides_any
  is_woken_by namespace name demanded c =
      let is_provider = str_eq c.provider_namespace namespace && str_eq c.provider_name name in
      not (not is_provider && not (provides_any c.provides demanded))

  -- mapInstanceToRegistrations
  unfoldable pub map_instance_to_registrations :
      (namespace name : String) → (demanded : List String) → Option (List (Claim C)) → List String
  map_instance_to_registrations namespace name demanded none = []
  map_instance_to_registrations namespace name demanded (some claims) =
      map (λ c. c.name) (select (is_woken_by namespace name demanded) claims)

  -- claimSpecOrDeletionChanged, on an update
  unfoldable pub claim_spec_or_deletion_changed : (before after : Claim C) → Bool
  claim_spec_or_deletion_changed before after =
      not (eq_ℤ before.generation after.generation) || (not before.deleting && after.deleting)

module _ {C : Type 0} (set : Setter C) where
  -- readProviderFacts, of a ModuleInstance
  unfoldable pub read_provider_facts : Provider C → ProviderFacts
  unfolding join
  read_provider_facts p = record {
    ready = elim (set.get "Ready" p.conditions) [ none ↦ none | some c ↦ some c.status ];
    inventory_digest = elim p.inventory [ none ↦ "" | some inventory ↦ inventory.digest ];
    demand = join "\n" p.required_contracts;
  }

  -- providerFactsChanged, on an update of a ModuleInstance
  unfoldable pub provider_facts_changed : (before after : Provider C) → Bool
  unfolding read_provider_facts same_ready
  provider_facts_changed before after =
      let b = read_provider_facts before in
      let a = read_provider_facts after in
      not (
        same_ready b.ready a.ready
        && str_eq b.inventory_digest a.inventory_digest
        && str_eq b.demand a.demand)
