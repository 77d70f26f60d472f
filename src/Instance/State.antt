-- ===== src/Instance/State.antt =====
-- The object that a reconcile reads and writes, what it writes to the cluster, and the variables
-- that its deferred commit reads.
use opm_operator.Prelude.{ℕ, String, Bool, List, Option}
use opm_operator.Prelude.Int64.{ℤ}
use opm_operator.Status.Counters.{FailureCounters, Outcome, PhaseOutcomes}
use opm_operator.Status.Digests.{DigestSet, RenderInputKey}
use opm_operator.Status.History.{HistoryEntry}
use opm_operator.Reconcile.Health.{InventoryEntry}
use opm_operator.Reconcile.Restore.{Rendered, Inventory}
use opm_operator.Reconcile.Skip.{RenderInputs}
use opm_operator.Reconcile.Identity.{IdentityFields}
use opm_operator.Apply.Guard.{Pin}

-- The lastAttempted fields of a status.
pub record Attempted : Type 0 where
  pub action : String
  pub at : ℕ
  pub duration : ℕ
  pub source_digest : String
  pub config_digest : String
  pub render_digest : String

-- The lastApplied fields of a status, except for the inputs.
pub record LastApplied : Type 0 where
  pub at : Option ℕ
  pub source_digest : String
  pub version : String
  pub config_digest : String
  pub render_digest : String

-- ModuleInstanceStatus, over the conditions `C`
pub record InstanceStatus (C : Type 0) : Type 0 where
  pub conditions : C
  pub observed_generation : ℤ
  pub last_attempted : Option Attempted
  pub last_applied : LastApplied
  pub last_applied_inputs : Option RenderInputs
  pub inventory : Option Inventory
  pub identity : IdentityFields
  pub required_contracts : List String
  pub failure_counters : Option FailureCounters
  pub next_retry_at : Option ℕ
  pub history : List HistoryEntry

-- What a reconcile reads of the spec and the metadata.
pub record InstanceSpec : Type 0 where
  pub generation : ℤ
  pub module_path : String
  pub module_version : String
  pub service_account : String
  pub prune : Bool
  pub force_conflicts : Bool
  pub deletes_claims : Bool

-- apply.ApplyOptions
pub record ApplyOptions : Type 0 where
  pub force : Bool
  pub delete_data : Bool
  pub taken_in : List Pin

-- What a reconcile sends to the cluster, in its order, besides the final commit of the status.
pub data Write : Type 0 where
  write_identity : IdentityFields → Write
  write_apply : List Rendered → ApplyOptions → Write
  write_prune : (identities : List String) → List InventoryEntry → (delete_data : Bool) → Write

-- The variables of ReconcileModuleInstance that its deferred commit reads, with the status in memory,
-- the requeue that it returns, and what it has sent.
pub record Attempt (C : Type 0) : Type 0 where
  pub status : InstanceStatus C
  pub outcome : Outcome
  pub digests : DigestSet
  pub reconciled : Bool
  pub new_entries : List InventoryEntry
  pub err_msg : String
  pub retry_after : ℕ
  pub phases : PhaseOutcomes
  pub skip_commit : Bool
  pub rendered_version : Option String
  pub rendered_inputs : Option RenderInputKey
  pub adopted : ℕ
  pub requeue_after : ℤ
  pub returned_error : Bool
  pub writes : List Write
