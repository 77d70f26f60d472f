-- ===== src/Status/Conditions.antt =====
-- internal/status/conditions.go: the Mark functions, over the conditions library they call.
pub mod Consistent
pub mod Tests
use Prim.Native.String.{◌++◌}
use opm_operator.Prelude.{String, ◌≡◌, Option, none, some, str_eq, if◌then◌else◌}

-- metav1.ConditionStatus
pub data ConditionStatus : Type 0 where
  is_true is_false is_unknown : ConditionStatus

-- metav1.Condition, without its times
pub record Condition : Type 0 where
  pub kind : String
  pub status : ConditionStatus
  pub reason : String
  pub message : String

-- The package conditions of fluxcd/pkg/runtime, over the conditions `C` of an object. The two
-- marks of a state set its condition and remove the other state's.
pub record Setter (C : Type 0) : Type 0 where
  -- meta.FindStatusCondition
  pub get : String → C → Option Condition
  pub mark : ConditionStatus → (kind reason message : String) → C → C
  pub remove : String → C → C
  pub reconciling : (reason message : String) → C → C
  pub stalled : (reason message : String) → C → C

abbrev pub marked : ConditionStatus → (kind reason message : String) → Condition
marked status kind reason message = record {
  kind = kind;
  status = status;
  reason = reason;
  message = message;
}

-- What the package documents of its functions.
pub record IsSetter {C : Type 0} (set : Setter C) : Type 0 where
  pub get-mark :
      (s : ConditionStatus) (k r m j : String) (c : C)
      → set.get j (set.mark s k r m c) ≡ (if str_eq k j then some (marked s k r m) else set.get j c)
  pub get-remove :
      (k j : String) (c : C)
      → set.get j (set.remove k c) ≡ (if str_eq k j then none else set.get j c)
  pub get-reconciling :
      (r m j : String) (c : C)
      → set.get j (set.reconciling r m c) ≡ (
          if str_eq "Reconciling" j
          then some (marked is_true "Reconciling" r m)
          else if str_eq "Stalled" j
          then none
          else set.get j c)
  pub get-stalled :
      (r m j : String) (c : C)
      → set.get j (set.stalled r m c) ≡ (
          if str_eq "Stalled" j
          then some (marked is_true "Stalled" r m)
          else if str_eq "Reconciling" j
          then none
          else set.get j c)

module _ {C : Type 0} (set : Setter C) where
  -- MarkReconciling
  unfoldable pub mark_reconciling : (reason message : String) → C → C
  mark_reconciling reason message c =
      set.mark is_unknown "Ready" reason message (set.reconciling reason message c)

  -- MarkStalled
  unfoldable pub mark_stalled : (reason message : String) → C → C
  mark_stalled reason message c =
      set.mark is_false "Ready" reason message (set.stalled reason message c)

  -- MarkReadyWithReason
  unfoldable pub mark_ready_with_reason : (reason message : String) → C → C
  mark_ready_with_reason reason message c =
      set.mark is_true "Ready" reason message (set.remove "Stalled" (set.remove "Reconciling" c))

  -- MarkReady
  unfoldable pub mark_ready : (message : String) → C → C
  unfolding mark_ready_with_reason
  mark_ready message c = mark_ready_with_reason "ReconciliationSucceeded" message c

  -- MarkSuspended
  unfoldable pub mark_suspended : C → C
  mark_suspended c =
      set.mark is_false "Ready" "Suspended" "Reconciliation is suspended"
        (set.remove "Stalled" (set.remove "Reconciling" c))

  -- MarkManagedExternally
  unfoldable pub mark_managed_externally : C → C
  mark_managed_externally c =
      set.mark is_unknown "Ready" "ManagedExternally"
        "ModuleInstance is managed externally by the CLI"
        (set.remove "Healthy" (set.remove "Stalled" (set.remove "Reconciling" c)))

  -- MarkSelfManagementRefused
  unfoldable pub mark_self_management_refused : (message : String) → C → C
  unfolding mark_stalled
  mark_self_management_refused message c =
      mark_stalled "SelfManagementRefused" message
        (set.remove "Healthy" (set.remove "Drifted" (set.remove "ModuleResolved" c)))

  -- MarkHealthy
  unfoldable pub mark_healthy : ConditionStatus → (reason message : String) → C → C
  mark_healthy status reason message c = set.mark status "Healthy" reason message c

  -- MarkNotReady
  unfoldable pub mark_not_ready : (reason message : String) → C → C
  mark_not_ready reason message c = set.mark is_false "Ready" reason message c

  -- MarkReconcilePanic
  unfoldable pub mark_reconcile_panic : (message : String) → C → C
  mark_reconcile_panic message c =
      set.mark is_false "Ready" "ReconcilePanic" message
        (set.reconciling "ReconcilePanic" message c)

  -- MarkRenderTimedOut
  unfoldable pub mark_render_timed_out : (message : String) → C → C
  mark_render_timed_out message c =
      set.mark is_false "Ready" "RenderTimedOut" message
        (set.reconciling "RenderTimedOut" message c)

  -- MarkDrifted; its message states a count.
  unfoldable pub mark_drifted : (message : String) → C → C
  mark_drifted message c = set.mark is_true "Drifted" "DriftDetected" message c

  -- MarkDriftUnknown
  unfoldable pub mark_drift_unknown : (reason message : String) → C → C
  mark_drift_unknown reason message c = set.mark is_unknown "Drifted" reason message c

  -- ClearDrifted
  unfoldable pub clear_drifted : C → C
  clear_drifted c = set.remove "Drifted" c

  -- MarkModuleResolved
  unfoldable pub mark_module_resolved : (message : String) → C → C
  mark_module_resolved message c = set.mark is_true "ModuleResolved" "ModuleResolved" message c
