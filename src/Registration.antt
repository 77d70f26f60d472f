-- ===== src/Registration.antt =====
-- internal/controller/transformerregistration_*.go: the claims of provider modules, and the tests
-- of one claim that read no other object.
pub mod Holder
pub mod Oldest
pub mod Providers
pub mod Compat
pub mod Verdict
pub mod Judge
pub mod Removal
pub mod Fitness
pub mod Released
pub mod Latch
pub mod Life
pub mod Leased
pub mod Held
pub mod Requirements
pub mod Watches
pub mod Waking
mod Tests
use opm_operator.Prelude.{
  ℕ, String, Bool, true, false, ◌&&◌, ◌||◌, not, List, [], ◌∷◌, ◌++◌, Option, none, some, str_eq,
  ltb, ◌==◌, if◌then◌else◌,
}
use opm_operator.Prelude.Int64.{ℤ, eq_ℤ}
use opm_operator.Prelude.Texts.{contains}
use opm_operator.Prelude.Order.{text_ltb}
use opm_operator.Status.Conditions.{ConditionStatus, is_true, is_false, is_unknown, Condition}
use opm_operator.Reconcile.Restore.{Inventory}
use opm_operator.Instance.Failures.{RenderError, is_transient_failure}

-- TransformerRegistration, over its conditions `C`
pub record Claim (C : Type 0) : Type 0 where
  pub name : String
  pub created : ℕ
  pub generation : ℤ
  -- whether a deletion timestamp is set
  pub deleting : Bool
  pub finalizers : List String
  pub catalog : String
  pub version : String
  pub provides : List String
  pub provider_namespace : String
  pub provider_name : String
  pub conditions : C
  pub observed_generation : ℤ
  pub accepted : Bool
  pub active : Bool

-- A ModuleInstance, as far as a verdict on a claim reads it
pub record Provider (C : Type 0) : Type 0 where
  pub namespace : String
  pub name : String
  pub conditions : C
  pub inventory : Option Inventory
  pub required_contracts : List String

abbrev pub claim_finalizer : String
claim_finalizer = "opmodel.dev/dependents"

abbrev pub same_status : ConditionStatus → ConditionStatus → Bool
same_status is_true is_true = true
same_status is_false is_false = true
same_status is_unknown is_unknown = true
same_status _ _ = false

-- Whether a condition is there with the status, the reason and the message.
abbrev pub stands_as : ConditionStatus → (reason message : String) → Option Condition → Bool
stands_as s reason message none = false
stands_as s reason message (some c) =
    same_status c.status s && str_eq c.reason reason && str_eq c.message message

-- conditions.IsTrue and meta.IsStatusConditionTrue, on the condition that was looked up
abbrev pub stands_true : Option Condition → Bool
stands_true none = false
stands_true (some c) = same_status c.status is_true

-- A failed acquisition of a catalog: the tests of its chain, and the HTTP status of its FetchError
pub record AcquireError : Type 0 where
  pub chain : RenderError
  pub transient : Bool
  pub fetch_status : ℕ

-- keepsVerdict
unfoldable pub keeps_verdict : AcquireError → Bool
unfolding is_transient_failure
keeps_verdict e =
    if not (is_transient_failure (some e.chain))
    then false
    else if e.transient
    then true
    else e.chain.fetch_error && (e.fetch_status == 429)

module _ {C : Type 0} where
  -- claimContributesAfterDeletion
  unfoldable pub claim_contributes_after_deletion : Claim C → Bool
  claim_contributes_after_deletion c = contains c.finalizers claim_finalizer

  -- holdClaim: controllerutil.AddFinalizer
  unfoldable pub hold_claim : Claim C → Claim C
  hold_claim c =
      if contains c.finalizers claim_finalizer
      then c
      else record c { finalizers = c.finalizers ++ (claim_finalizer ∷ []) }

  -- olderClaim
  unfoldable pub older_claim : Claim C → Claim C → Bool
  older_claim a b =
      if a.created == b.created then text_ltb a.name b.name else ltb a.created b.created

  -- verdictStands
  unfoldable pub verdict_stands : Claim C → Bool
  verdict_stands c = c.accepted && eq_ℤ c.observed_generation c.generation
