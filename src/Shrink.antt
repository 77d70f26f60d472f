-- ===== src/Shrink.antt =====
-- internal/shrink/shrink.go: whether applying a rendered TransformerRegistration takes a contract
-- away from instances that still demand it.
pub mod Demanded
mod Tests
use Prim.Native.String.{◌++◌}
use opm_operator.Prelude.{
  String, Bool, true, false, ◌&&◌, ◌||◌, not, List, [], ◌∷◌, ◌++◌ as append, Option, none, some,
  str_eq, is_empty, if◌then◌else◌,
}
use opm_operator.Prelude.Texts.{contains}
use opm_operator.Prelude.Sorting.{sort, distinct}
use opm_operator.Reconcile.Restore.{Rendered}

pub record Decision : Type 0 where
  pub claim : String
  pub dropped : List String
  pub dependents : List String

-- Refused
unfoldable pub refused : Decision → Bool
refused d = not (is_empty d.dropped)

-- The zero Decision
abbrev pub no_decision : Decision
no_decision = record { claim = ""; dropped = []; dependents = [] }

-- isClaim
unfoldable pub is_claim : Rendered → Bool
is_claim r = str_eq r.group "opmodel.dev" && str_eq r.kind "TransformerRegistration"

-- What the decision reads of a ModuleInstance.
pub record Demand : Type 0 where
  pub namespace : String
  pub name : String
  -- status.requiredContracts
  pub required : List String

-- removedContracts
unfoldable pub removed_contracts : (stored rendered : List String) → List String
removed_contracts [] rendered = []
removed_contracts (fqn ∷ stored) rendered =
    let rest = removed_contracts stored rendered in
    if contains rendered fqn then rest else fqn ∷ rest

-- The inner loop of evaluate: the removed contracts that one instance demands.
unfoldable pub demanded_by : (removed required : List String) → List String
demanded_by removed [] = []
demanded_by removed (fqn ∷ required) =
    let rest = demanded_by removed required in if contains removed fqn then fqn ∷ rest else rest

-- The outer loop: the demanded contracts, with repetitions, and the instances that demand one.
unfoldable pub demand_loop : (removed : List String) → List Demand → List String × List String
unfolding demanded_by
demand_loop removed [] = ([], [])
demand_loop removed (i ∷ instances) =
    let (demanded, dependents) = demand_loop removed instances in
    let own = demanded_by removed i.required in
    (
      append own demanded,
      if is_empty own then dependents else (i.namespace ++ ("/" ++ i.name)) ∷ dependents,
    )

-- evaluate; the keys of its map, sorted, are the demanded contracts without repetitions.
unfoldable pub evaluate : (claim : String) → (removed : List String) → List Demand → Decision
unfolding demand_loop
evaluate claim removed instances =
    let (demanded, dependents) = demand_loop removed instances in
    if is_empty demanded
    then no_decision
    else record { claim = claim; dropped = distinct demanded; dependents = sort dependents }

-- What the API server answers to the read of the stored claim: its provides.
pub data StoredClaim : Type 0 where
  stored : (provides : List String) → StoredClaim
  no_claim unread_claim : StoredClaim

module _ (read_stored : String → StoredClaim) (instances : Option (List Demand)) where
  -- Decide, after `provides` read the rendered claim: nothing when a read fails.
  unfoldable pub compare_stored : (name : String) → (rendered : List String) → Option Decision
  unfolding removed_contracts evaluate
  compare_stored name rendered = elim (read_stored name) [
    | no_claim ↦ some no_decision
    | unread_claim ↦ none
    | stored provides ↦
        if is_empty (removed_contracts provides rendered)
        then some no_decision
        else elim instances [
          | none ↦ none
          | some list ↦ some (evaluate name (removed_contracts provides rendered) list)
        ]
  ]

  -- Decide
  unfoldable pub decide : Rendered → Option Decision
  unfolding is_claim compare_stored
  decide r =
      if not (is_claim r)
      then some no_decision
      else elim r.provides [ none ↦ none | some rendered ↦ compare_stored r.name rendered ]
