-- ===== src/Deletion/Hold.antt =====
-- The library's hold verdict as the cleanup asks for it: internal/reconcile/deletion.go, and
-- SplitKeptClaims of internal/apply/deletion.go.
pub mod Verdicts
use opm_operator.Prelude.{
  String, Bool, true, false, ◌&&◌, ◌||◌, not, List, [], ◌∷◌, Option, none, some, str_eq,
  if◌then◌else◌,
}
use opm_operator.Reconcile.Health.{InventoryEntry}

-- Why a hold verdict releases or holds.
pub data HoldReason : Type 0 where
  prune_disabled inventory_empty force_orphan cleanup_forbidden other_reason : HoldReason

pub record HoldVerdict : Type 0 where
  pub release : Bool
  pub because : HoldReason

pub record Policy : Type 0 where
  pub prune : Bool
  pub force_orphan : Bool

-- How the deleting identity is held.
pub data HeldIdentity : Type 0 where
  available missing_identity failed_identity : HeldIdentity

-- The library's opm/k8s/lifecycle, over its plans and their states.
pub record Lifecycle (Plan State : Type 0) : Type 0 where
  pub new_plan : List InventoryEntry → Policy → (identity : String) → Plan
  pub zero_state : State
  pub may_release : Plan → State → HeldIdentity → HoldVerdict

unfoldable pub is_forbidden : HoldReason → Bool
is_forbidden cleanup_forbidden = true
is_forbidden prune_disabled = false
is_forbidden inventory_empty = false
is_forbidden force_orphan = false
is_forbidden other_reason = false

-- isDataClaim
unfoldable pub is_data_claim : InventoryEntry → Bool
is_data_claim e = str_eq e.group "" && str_eq e.kind "PersistentVolumeClaim"

-- SplitKeptClaims: the entries a plan deletes, and the claims the data policy keeps.
unfoldable pub split_claims : List InventoryEntry → List InventoryEntry × List InventoryEntry
unfolding is_data_claim
split_claims [] = ([], [])
split_claims (e ∷ es) =
    let (planned, claims) = split_claims es in
    if is_data_claim e then (planned, e ∷ claims) else (e ∷ planned, claims)

unfoldable pub split_kept_claims :
    List InventoryEntry → (delete_data : Bool) → List InventoryEntry × List InventoryEntry
unfolding split_claims
split_kept_claims entries true = (entries, [])
split_kept_claims entries false = split_claims entries

-- firstIdentity
unfoldable pub first_identity : List String → String
first_identity [] = ""
first_identity (i ∷ is) = i

module _ {Plan State : Type 0} (library : Lifecycle Plan State) where
  -- The loop of holdVerdict: the hold kept so far, and the last verdict.
  unfoldable pub hold_loop :
      (held : Option HoldVerdict) → (last : HoldVerdict) → List (Plan × State) → HoldVerdict
  unfolding is_forbidden
  hold_loop none last [] = last
  hold_loop (some v) last [] = v
  hold_loop held last ((plan, state) ∷ runs) =
      let v = library.may_release plan state available in
      let kept : Option HoldVerdict = if v.release then held else (elim held [
        | none ↦ some v
        | some h ↦ if not (is_forbidden h.because) && is_forbidden v.because then some v else some h
      ]) in
      hold_loop kept v runs

  -- holdVerdict
  unfoldable pub hold_verdict : List (Plan × State) → HoldVerdict
  unfolding hold_loop
  hold_verdict runs = hold_loop none (record { release = false; because = other_reason }) runs
