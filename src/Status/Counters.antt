-- ===== src/Status/Counters.antt =====
-- internal/status/counters.go, and the deferred update of internal/reconcile/moduleinstance.go.
pub mod Streaks
use opm_operator.Prelude.{Bool, true, false, Option, none, some, if◌then◌else◌, String, str_eq}
use opm_operator.Prelude.Int64.{ℤ, pos, inc64}

pub record FailureCounters : Type 0 where
  pub reconcile : ℤ
  pub apply : ℤ
  pub prune : ℤ
  pub drift : ℤ

-- How a reconcile ended.
pub data Outcome : Type 0 where
  no_op applied applied_and_pruned failed_transient failed_stalled : Outcome

-- EnsureCounters: a status without counters has zero ones.
unfoldable pub ensure_counters : Option FailureCounters → FailureCounters
ensure_counters none = record { reconcile = pos 0; apply = pos 0; prune = pos 0; drift = pos 0 }
ensure_counters (some c) = c

-- IncrementCounter
unfoldable pub increment_counter : FailureCounters → String → FailureCounters
increment_counter c field =
    if str_eq field "reconcile"
    then record c { reconcile = inc64 c.reconcile }
    else if str_eq field "apply"
    then record c { apply = inc64 c.apply }
    else if str_eq field "prune"
    then record c { prune = inc64 c.prune }
    else if str_eq field "drift"
    then record c { drift = inc64 c.drift }
    else c

-- ResetCounter
unfoldable pub reset_counter : FailureCounters → String → FailureCounters
reset_counter c field =
    if str_eq field "reconcile"
    then record c { reconcile = pos 0 }
    else if str_eq field "apply"
    then record c { apply = pos 0 }
    else if str_eq field "prune"
    then record c { prune = pos 0 }
    else if str_eq field "drift"
    then record c { drift = pos 0 }
    else c

-- Which phases of a reconcile ran, and which of those failed.
pub record PhaseOutcomes : Type 0 where
  pub drift_ran : Bool
  pub drift_failed : Bool
  pub apply_ran : Bool
  pub apply_failed : Bool
  pub prune_ran : Bool
  pub prune_failed : Bool

-- One phase of updateFailureCounters.
unfoldable pub update_counter : String → (ran failed : Bool) → FailureCounters → FailureCounters
unfolding increment_counter reset_counter
update_counter field ran failed c =
    if ran then if failed then increment_counter c field else reset_counter c field else c

-- The last switch of updateFailureCounters.
unfoldable pub update_reconcile : Outcome → FailureCounters → FailureCounters
unfolding increment_counter reset_counter
update_reconcile failed_transient c = increment_counter c "reconcile"
update_reconcile failed_stalled c = increment_counter c "reconcile"
update_reconcile applied c = reset_counter c "reconcile"
update_reconcile applied_and_pruned c = reset_counter c "reconcile"
update_reconcile no_op c = reset_counter c "reconcile"

-- updateFailureCounters, on the counters of the status
unfoldable pub update_failure_counters :
    Option FailureCounters → Outcome → PhaseOutcomes → Option FailureCounters
unfolding ensure_counters update_counter update_reconcile
update_failure_counters held outcome phases = some (
    update_reconcile outcome (
      update_counter "prune" phases.prune_ran phases.prune_failed (
        update_counter "apply" phases.apply_ran phases.apply_failed
          (update_counter "drift" phases.drift_ran phases.drift_failed (ensure_counters held)))))
