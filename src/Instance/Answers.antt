-- ===== src/Instance/Answers.antt =====
-- What a reconcile of a ModuleInstance is told: the flags of the manager, the libraries it calls,
-- and the answers of the API server and the renderer.
use opm_operator.Prelude.{ℕ, String, Bool, List, Option}
use opm_operator.Prelude.Int64.{ℤ}
use opm_operator.Status.Conditions.{Setter}
use opm_operator.Reconcile.Health.{InventoryEntry, HealthRules, HealthRead}
use opm_operator.Reconcile.Restore.{Rendered, DiffAction}
use opm_operator.Reconcile.Identity.{IdentityFields}
use opm_operator.Reconcile.Ownership.{GuardError}
use opm_operator.Apply.Objects.{ReadError}
use opm_operator.Apply.Guard.{ApplyRules, LiveRead}
use opm_operator.Shrink.{StoredClaim, Demand, Decision}
use opm_operator.Instance.State.{InstanceSpec, ApplyOptions}
use opm_operator.Instance.Failures.{RenderError, ClusterError}

-- render.RenderResult, without its resources
pub record RenderResult : Type 0 where
  pub module_version : String
  pub required_contracts : List String
  pub platform_identity : String
  pub skew_policy : String

-- convertedRender; an entry is the library's NewEntry of its resource.
pub record ConvertedRender : Type 0 where
  pub digest : String
  pub resources : List Rendered

-- How the render in its slot ended.
pub data RenderAnswer : Type 0 where
  -- the context ended while the reconcile waited for a slot
  slot_closed : RenderAnswer
  timed_out : (message : String) → RenderAnswer
  render_failed : RenderError → RenderAnswer
  -- a conversionError
  unconverted : RenderResult → (reason message : String) → RenderAnswer
  rendered : RenderResult → ConvertedRender → RenderAnswer

-- apply.Prune: the deleted objects and the kept claims, or its error
pub data PruneAnswer : Type 0 where
  pruned : (deleted kept : ℕ) → PruneAnswer
  prune_failed : ClusterError → PruneAnswer

-- The messages whose wording is left out.
pub data Note : Type 0 where
  ready_note : (adopted : ℕ) → Note
  unsettled_note : (current previous rendered : String) → Note
  unread_claims_note : Note
  guard_note : GuardError → Note
  refused_objects_note : (objects : ℕ) → Note
  refused_claims_note : List Decision → Note
  drift_note : (resources : ℕ) → Note
  drift_failed_note : Note

pub record Env (C L V O S : Type 0) : Type 0 where
  pub spec : InstanceSpec
  -- the flags
  pub default_service_account : String
  pub controller_version : String
  pub library_version : String
  pub reconcile_interval : ℤ
  pub drift_render_interval : ℤ
  -- the libraries
  pub set : Setter C
  pub rules : ApplyRules L V
  pub health_rules : HealthRules O S
  pub entry_of : Rendered → InventoryEntry
  pub stale_set : (previous current : List InventoryEntry) → List InventoryEntry
  pub inventory_digest_of : List InventoryEntry → String
  pub sha256 : String → String
  pub config_digest : String
  pub jitter : ℤ → ℤ
  pub word : Note → String
  -- the clock at the start, and at the end
  pub start : ℕ
  pub now : ℕ
  -- the answers
  pub render : RenderAnswer
  pub read_stored : String → StoredClaim
  pub instances : Option (List Demand)
  -- the error of building the client that applies
  pub impersonation_error : Option String
  pub get : Rendered → LiveRead L
  pub forbidden_read : ReadError → Bool
  pub diff : Rendered → Option DiffAction
  pub forbidden_diff : Bool
  pub patch_identity : IdentityFields → Option ClusterError
  pub apply : List Rendered → ApplyOptions → Option ClusterError
  pub prune : (identities : List String) → List InventoryEntry → (delete_data : Bool) → PruneAnswer
  pub read_health : InventoryEntry → HealthRead O
