-- ===== src/Deletion/Prune/Gone.antt =====
-- StillThere of internal/apply/deletion.go, and Prune of prune.go.
use opm_operator.Prelude.{
  String, ◌≡◌, ◌↔◌, refl, Bool, true, ◌&&◌, false, not, List, [], ◌∷◌, Option, none, some, is_empty,
  str_eq, if◌then◌else◌, All, arith,
}
use opm_operator.Reconcile.Health.{InventoryEntry}
use opm_operator.Deletion.Runs.{StepResult, DeletionRun}
use opm_operator.Deletion.Prune.{
  EntryRead, entry_gone, entry_unread, entry_found, PruneResult, run_cleanup, DeleteVerdict,
}

-- What replacedError makes of the error of a delete
pub data DeleteError : Type 0 where
  replaced : DeleteError
  as_answered : DeleteError

-- replacedError
unfoldable pub replaced_error : (is_conflict uid_precondition : Bool) → DeleteError
replaced_error is_conflict uid_precondition =
    if uid_precondition && is_conflict then replaced else as_answered

-- The error of Prune
pub data PruneError : Type 0 where
  plan_refused : PruneError
  steps_failed : List StepResult → PruneError

module _ {Live : Type 0} (owner_mismatch adopted_elsewhere : String → Bool)
    (can_delete : InventoryEntry → Live → (identity : String) → DeleteVerdict)
    (read : InventoryEntry → EntryRead Live)
    (run : List InventoryEntry → (identity : String) → DeletionRun) where
  -- Prune
  unfoldable pub prune_stale :
      (identities : List String)
      → (stale : List InventoryEntry) → (delete_data : Bool) → PruneResult × Option PruneError
  prune_stale identities stale delete_data =
      let c =
        run_cleanup owner_mismatch adopted_elsewhere can_delete read run identities stale true
          delete_data in
      (
        c.report,
        if c.refused_state
            then some plan_refused
            else if is_empty c.failed_steps
            then none
            else some (steps_failed c.failed_steps),
      )

module _ {Live : Type 0} (uid_of : Live → String) (read : InventoryEntry → EntryRead Live) where
  -- Whether another object holds the name of the one that the plan read
  unfoldable pub is_replaced : (planned : Option Live) → Live → Bool
  is_replaced none live = false
  is_replaced (some planned) live = not (str_eq (uid_of live) (uid_of planned))

  -- StillThere, after the read of one step's object
  unfoldable pub after_second_read :
      (planned : Option Live) → EntryRead Live → (rest : Option (List Live)) → Option (List Live)
  unfolding is_replaced
  after_second_read planned entry_gone rest = rest
  after_second_read planned entry_unread rest = none
  after_second_read planned (entry_found live) rest =
      if is_replaced planned live
      then rest
      else (elim rest [ none ↦ none | some left ↦ some (live ∷ left) ])

  -- StillThere, over the steps and the object that each plan read; none is an error.
  unfoldable pub still_there : List (StepResult × Option Live) → Option (List Live)
  unfolding after_second_read
  still_there [] = some []
  still_there ((s, planned) ∷ steps) =
      let rest = still_there steps in after_second_read planned (read s.entry) rest

  -- The read of an object says that it is gone.
  abbrev pub IsGone : (planned : Option Live) → EntryRead Live → Type 0
  IsGone planned entry_gone = Unit
  IsGone planned entry_unread = ⊥
  IsGone planned (entry_found live) = is_replaced planned live ≡ true

  after_second_read-IsGone_iff :
      (planned : Option Live) (r : EntryRead Live) (rest : Option (List Live))
      → (after_second_read planned r rest ≡ some []) ↔ (IsGone planned r × (rest ≡ some []))
  unfolding after_second_read
  after_second_read-IsGone_iff planned entry_gone rest = ground arith
  after_second_read-IsGone_iff planned entry_unread rest = ground arith
  after_second_read-IsGone_iff planned (entry_found live) none = ground arith
  after_second_read-IsGone_iff planned (entry_found live) (some left) = ground arith

  -- Nothing is left exactly when every read says that its object is gone or replaced.
  still_there-IsGone_iff :
      (steps : List (StepResult × Option Live))
      → (still_there steps ≡ some []) ↔ All (λ s. IsGone s.1 (read s.0.entry)) steps
  unfolding still_there
  still_there-IsGone_iff [] = (λ _. tt, λ _. refl)
  still_there-IsGone_iff ((s, planned) ∷ steps) =
      let (gone, left) = still_there-IsGone_iff steps in
      let (none_left, empty) =
        after_second_read-IsGone_iff planned (read s.entry) (still_there steps) in
      (λ h. let (g, e) = none_left h in (g, gone e), λ h. empty (h.0, left h.1))
