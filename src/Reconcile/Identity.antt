-- ===== src/Reconcile/Identity.antt =====
-- internal/reconcile/identity.go: what one render means for the two identity fields of a
-- ModuleInstance or a ModulePackage, and the commit of a changed identity before an apply.
pub mod Plan
pub mod Protocol
mod Tests
use opm_operator.Prelude.{
  String, ◌≡◌, Bool, true, false, ◌&&◌, ◌||◌, Option, none, some, List, [], ◌∷◌, str_eq,
  if◌then◌else◌,
}

-- The loop of recordedIdentities: the non-empty names, in order.
unfoldable pub recorded_identities : List String → List String
recorded_identities [] = []
recorded_identities (id ∷ ids) =
    let rest = recorded_identities ids in if str_eq id "" then rest else id ∷ rest

pub record IdentityPlan : Type 0 where
  pub instance_uuid : String
  pub previous_instance_uuid : String
  pub changed : Bool
  pub refused : Bool
  pub prune : List String

-- The state to keep when the render changes nothing.
abbrev pub keep_plan : String → String → IdentityPlan
keep_plan recorded previous = record {
  instance_uuid = recorded;
  previous_instance_uuid = previous;
  changed = false;
  refused = false;
  prune = recorded_identities (recorded ∷ previous ∷ []);
}

-- planIdentities; the cases are those of its switch, in order.
unfoldable pub plan_identities : String → String → String → Bool → IdentityPlan
plan_identities recorded previous rendered legacy_fallback =
    if str_eq rendered "" || str_eq rendered recorded
    then keep_plan recorded previous
    else if str_eq recorded ""
    then record {
      instance_uuid = rendered;
      previous_instance_uuid = "";
      changed = true;
      refused = false;
      prune = if legacy_fallback then rendered ∷ "" ∷ [] else rendered ∷ [];
    }
    else if str_eq previous ""
    then record {
      instance_uuid = rendered;
      previous_instance_uuid = recorded;
      changed = true;
      refused = false;
      prune = rendered ∷ recorded ∷ [];
    }
    else if str_eq rendered previous
    then record {
      instance_uuid = previous;
      previous_instance_uuid = recorded;
      changed = true;
      refused = false;
      prune = previous ∷ recorded ∷ [];
    }
    else record (keep_plan recorded previous) { refused = true }

unfoldable pub keeps_no_op : IdentityPlan → Bool → Bool
keeps_no_op p is_no_op = is_no_op && str_eq p.previous_instance_uuid ""

unfoldable pub fill_empty : IdentityPlan → String → String
fill_empty p recorded = if str_eq recorded "" then p.instance_uuid else recorded

-- The two status fields that `store` writes.
pub record IdentityFields : Type 0 where
  pub current : String
  pub previous : String

-- `store`: the fields in memory after the call, and its error. `patch` commits the fields as they
-- stand; it is called only for a changed plan, and a failed commit leaves the fields written.
unfoldable pub store {ℓ} :
    {E : Type ℓ}
    → IdentityPlan
    → IdentityFields
    → (IdentityFields → Option E)
    → IdentityFields × Option E
store p f patch =
    let written : IdentityFields = record {
      current = p.instance_uuid;
      previous = p.previous_instance_uuid;
    } in
    if p.changed then (written, patch written) else (f, none)
