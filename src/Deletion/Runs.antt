-- ===== src/Deletion/Runs.antt =====
-- internal/apply/deletion.go: the plans of one deletion, one per instance identity. `run` drives
-- one plan to its end: a result per entry, in the plan's order, and whether the library refused
-- the plan's state.
pub mod Once
mod Tests
use opm_operator.Prelude.{
  String, Bool, true, false, ◌&&◌, ◌||◌, List, [], ◌∷◌, ◌++◌, is_empty, if◌then◌else◌,
}
use opm_operator.Reconcile.Health.{InventoryEntry}

-- The result of a step, and why it was skipped.
pub data StepOutcome : Type 0 where
  deleted absent failed not_named : StepOutcome
  skipped : (reason : String) → StepOutcome

pub record StepResult : Type 0 where
  pub entry : InventoryEntry
  pub outcome : StepOutcome

pub record DeletionRun : Type 0 where
  pub steps : List StepResult
  pub refused : Bool

-- dependsOnIdentity: another identity can answer differently. The two reasons are the library's.
unfoldable pub depends_on_identity :
    (owner_mismatch adopted_elsewhere : String → Bool) → StepOutcome → Bool
depends_on_identity owner_mismatch adopted_elsewhere (skipped reason) =
    owner_mismatch reason || adopted_elsewhere reason
depends_on_identity owner_mismatch adopted_elsewhere deleted = false
depends_on_identity owner_mismatch adopted_elsewhere absent = false
depends_on_identity owner_mismatch adopted_elsewhere failed = false
depends_on_identity owner_mismatch adopted_elsewhere not_named = false

unfoldable pub is_deleted : StepOutcome → Bool
is_deleted deleted = true
is_deleted absent = false
is_deleted failed = false
is_deleted not_named = false
is_deleted (skipped reason) = false

module _ (owner_mismatch adopted_elsewhere : String → Bool) where
  -- The entries of a run that the next identity is asked for.
  unfoldable pub left_for_next : List StepResult → List InventoryEntry
  unfolding depends_on_identity
  left_for_next [] = []
  left_for_next (s ∷ ss) =
      let rest = left_for_next ss in
      if depends_on_identity owner_mismatch adopted_elsewhere s.outcome
      then s.entry ∷ rest
      else rest

module _ (owner_mismatch adopted_elsewhere : String → Bool)
    (run : List InventoryEntry → String → DeletionRun) where
  -- The loop of RunDeletion after its first plan.
  unfoldable pub run_rest : List String → List InventoryEntry → List DeletionRun
  unfolding left_for_next
  run_rest [] entries = []
  run_rest (identity ∷ identities) entries =
      let r = run entries identity in
      let rest = run_rest identities (left_for_next owner_mismatch adopted_elsewhere r.steps) in
      if is_empty entries then [] else if r.refused then r ∷ [] else r ∷ rest

  -- RunDeletion: the runs in order; one without an identity if none is recorded
  unfoldable pub run_deletion : List InventoryEntry → List String → List DeletionRun
  unfolding run_rest left_for_next
  run_deletion entries [] = run entries "" ∷ []
  run_deletion entries (identity ∷ identities) =
      let r = run entries identity in
      let rest = run_rest identities (left_for_next owner_mismatch adopted_elsewhere r.steps) in
      if r.refused then r ∷ [] else r ∷ rest

-- The loop over the steps of one run in Deleted
unfoldable pub deleted_steps : List StepResult → List StepResult
unfolding is_deleted
deleted_steps [] = []
deleted_steps (s ∷ ss) =
    let rest = deleted_steps ss in if is_deleted s.outcome then s ∷ rest else rest

-- Deleted
unfoldable pub deleted_of : List DeletionRun → List StepResult
unfolding deleted_steps
deleted_of [] = []
deleted_of (r ∷ rs) = deleted_steps r.steps ++ deleted_of rs
