-- ===== src/Reconcile/Skip.antt =====
-- internal/reconcile/inputs.go: recording the inputs of a render, and skipping the next one while
-- they are unchanged. A time is a number of nanoseconds.
pub mod Soundness
mod Tests
use opm_operator.Prelude.{
  ℕ, ◌-◌, String, Bool, true, false, ◌&&◌, ◌||◌, not, List, [], ◌∷◌, Option, none, some, ltb,
  str_eq, if◌then◌else◌,
}
use opm_operator.Prelude.Int64.{ℤ, pos, ltb_ℤ, leb_ℤ, eq_ℤ}
use opm_operator.Status.Digests.{RenderInputKey, complete, key_digest}
use opm_operator.Status.Conditions.{Condition, ConditionStatus, is_true, is_false, is_unknown}

-- status.lastAppliedInputs
pub record RenderInputs : Type 0 where
  pub digest : String
  pub rendered_at : ℕ

-- renderedKey, over the platform identity and the skew policy that the render reports
unfoldable pub rendered_key :
    (source config identity skew controller library : String) → RenderInputKey
rendered_key source config identity skew controller library = record {
  source = source;
  config = config;
  package_identity = identity;
  skew_policy = skew;
  controller_version = controller;
  library_version = library;
}

-- meta.FindStatusCondition
unfoldable pub find_condition : String → List Condition → Option Condition
find_condition kind [] = none
find_condition kind (c ∷ cs) = if str_eq c.kind kind then some c else find_condition kind cs

abbrev pub is_condition_true : ConditionStatus → Bool
is_condition_true is_true = true
is_condition_true is_false = false
is_condition_true is_unknown = false

module _ (sha256 : String → String) where
  -- recordInputs
  unfoldable pub record_inputs :
      Option RenderInputs → Option RenderInputKey → (now : ℕ) → Option RenderInputs
  record_inputs field none now = field
  record_inputs field (some key) now =
      if complete key
      then some (record { digest = key_digest sha256 key; rendered_at = now })
      else none

  -- noOpInputs
  unfoldable pub no_op_inputs : (interval : ℤ) → Option RenderInputKey → Option RenderInputKey
  no_op_inputs interval key = if leb_ℤ interval (pos 0) then none else key

  -- The Ready condition that a skip needs.
  unfoldable pub is_ready : List Condition → Bool
  unfolding find_condition
  is_ready conditions = elim (find_condition "Ready" conditions) [
    | none ↦ false
    | some c ↦ is_condition_true c.status && str_eq c.reason "ReconciliationSucceeded"
  ]

  -- maySkip
  unfoldable pub may_skip :
      (interval : ℤ) (now : ℕ)
      → List Condition
      → (generation observed : ℤ) → Option RenderInputs
      → RenderInputKey
      → Bool
  unfolding is_ready
  may_skip interval now conditions generation observed none key = false
  may_skip interval now conditions generation observed (some recorded) key =
      if leb_ℤ interval (pos 0)
      then false
      else if ltb now recorded.rendered_at || leb_ℤ interval (pos (now - recorded.rendered_at))
      then false
      else if not (is_ready conditions)
      then false
      else if not (eq_ℤ generation observed)
      then false
      else complete key && str_eq (key_digest sha256 key) recorded.digest
