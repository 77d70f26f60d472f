-- ===== src/Registration/Holder.antt =====
-- Which claim holds a catalog and a contract: holderOf of transformerregistration_controller.go,
-- subscribedContract and activeContractHolder of transformerregistration_contracts.go.
use opm_operator.Prelude.{
  String, Bool, false, ◌&&◌, ◌||◌, not, List, [], ◌∷◌, Option, none, some, str_eq, select,
  if◌then◌else◌,
}
use opm_operator.Prelude.Dicts.{string_eq, lookup}
use opm_operator.Prelude.Texts.{contains}
use opm_operator.Prelude.Sorting.{sort}
use opm_operator.Prelude.SortBy.{sort_by}
use opm_operator.Registration.{Claim, claim_contributes_after_deletion, older_claim}

-- The inner loop of subscribedContract: the first entry that is not the claim's own catalog.
unfoldable pub other_entry : (own_catalog : String) → List String → Option String
other_entry own [] = none
other_entry own (held ∷ entries) =
    let rest = other_entry own entries in if str_eq held own then rest else some held

-- The outer loop
unfoldable pub subscribed_loop :
    (providers : List (String × List String))
    → (own_catalog : String) → List String
    → Option (String × String)
unfolding other_entry
subscribed_loop providers own [] = none
subscribed_loop providers own (fqn ∷ provides) =
    let rest = subscribed_loop providers own provides in
    elim (lookup fqn providers) [
      | none ↦ rest
      | some entries ↦ elim (other_entry own entries) [ none ↦ rest | some held ↦ some (fqn, held) ]
    ]

-- subscribedContract; nothing where it returns empty strings.
unfoldable pub subscribed_contract :
    (provides : List String)
    → (providers : List (String × List String)) → (own_catalog : String) → Option (String × String)
subscribed_contract provides providers own = subscribed_loop providers own (sort provides)

-- The first of the claimed contracts that another claim provides
unfoldable pub first_held : (claimed held : List String) → Option String
first_held [] held = none
first_held (fqn ∷ claimed) held =
    let rest = first_held claimed held in if contains held fqn then some fqn else rest

module _ {C : Type 0} where
  -- The guards of the loop of holderOf: whether the other claim competes for the catalog.
  unfoldable pub competes : Claim C → Claim C → Bool
  competes claim other =
      if str_eq other.name claim.name || not (str_eq other.catalog claim.catalog)
      then false
      else not (other.deleting && not (claim_contributes_after_deletion other))

  -- The loop of holderOf
  unfoldable pub holder_loop : (claim holder : Claim C) → List (Claim C) → Claim C
  holder_loop claim holder [] = holder
  holder_loop claim holder (other ∷ list) =
      holder_loop claim (if competes claim other && older_claim other holder then other else holder)
        list

  -- holderOf; nothing where it returns the empty string.
  unfoldable pub holder_of : Claim C → List (Claim C) → Option String
  holder_of claim list =
      let holder = holder_loop claim claim list in
      if str_eq holder.name claim.name then none else some holder.name

  -- The filter of activeContractHolder
  unfoldable pub serves : Claim C → Claim C → Bool
  serves claim other =
      if str_eq other.name claim.name || not other.active
      then false
      else not (other.deleting && not (claim_contributes_after_deletion other))

  -- The loop of activeContractHolder
  unfoldable pub contract_loop : (claimed : List String) → List (Claim C) → Option (String × String)
  contract_loop claimed [] = none
  contract_loop claimed (other ∷ others) =
      let rest = contract_loop claimed others in
      elim (first_held claimed other.provides) [ none ↦ rest | some fqn ↦ some (fqn, other.name) ]

  -- activeContractHolder, on the claims that it listed
  unfoldable pub active_contract_holder : Claim C → List (Claim C) → Option (String × String)
  active_contract_holder claim list =
      contract_loop (sort claim.provides) (sort_by (λ c. c.name) (select (serves claim) list))
