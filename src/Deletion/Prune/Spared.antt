-- ===== src/Deletion/Prune/Spared.antt =====
-- Whose a kept claim is, and that the data policy keeps claims out of every plan.
use opm_operator.Prelude.{String, ◌≡◌, ◌↔◌, ◌⊎◌, Bool, true, false, List, [], ◌∷◌, arith, Memᴰ}
use opm_operator.Reconcile.Health.{InventoryEntry}
use opm_operator.Deletion.Hold.{is_data_claim, split_kept_claims}
use opm_operator.Deletion.Hold.Verdicts.{split_kept_claims_lem}
use opm_operator.Deletion.Runs.{StepResult, DeletionRun, run_deletion}
use opm_operator.Deletion.Runs.Once.{IsPlanned, run_deletion-within}
use opm_operator.Deletion.Prune.{
  DeleteVerdict, proceed, skip, proceeds, asks_next, judge_loop, judge_first, judge_delete,
  EntryRead, run_cleanup, report_of,
}

module _ (owner_mismatch adopted_elsewhere : String → Bool)
    (can_delete : (identity : String) → DeleteVerdict) where
  abbrev asks : DeleteVerdict → Bool
  asks = asks_next owner_mismatch adopted_elsewhere

  -- Some identity may delete, and each one before it was told that the object is another's.
  abbrev pub IsOwned : List String → Type 0
  IsOwned [] = ⊥
  IsOwned (i ∷ is) = (proceeds (can_delete i) ≡ true) ⊎ ((asks (can_delete i) ≡ true) × IsOwned is)

  judge_loop-proceeds_iff :
      (v : DeleteVerdict) (is : List String)
      → (proceeds (judge_loop asks can_delete v is) ≡ true)
        ↔ ((proceeds v ≡ true) ⊎ ((asks v ≡ true) × IsOwned is))
  unfolding judge_loop asks_next proceeds
  judge_loop-proceeds_iff proceed [] = ground arith
  judge_loop-proceeds_iff (skip reason) [] = ground arith
  judge_loop-proceeds_iff proceed (i ∷ is) = ground arith
  judge_loop-proceeds_iff (skip reason) (i ∷ is) =
      ground (arith, judge_loop-proceeds_iff (can_delete i) is)

  judge_first-proceeds_iff :
      (i : String) (is : List String)
      → (proceeds (judge_first asks can_delete (can_delete i) is) ≡ true) ↔ IsOwned (i ∷ is)
  unfolding judge_first
  judge_first-proceeds_iff i is = ground (arith, judge_loop-proceeds_iff (can_delete i) is)

  -- An object is the instance's to delete exactly when some identity may delete it and each one before
  -- it was told that the object is another's; a list of no identity asks once with none.
  pub judge_delete-proceeds_iff :
      (i : String) (is : List String)
      → ((proceeds (judge_delete asks can_delete (i ∷ is)) ≡ true) ↔ IsOwned (i ∷ is))
        × ((proceeds (judge_delete asks can_delete []) ≡ true) ↔ IsOwned ("" ∷ []))
  unfolding judge_delete
  judge_delete-proceeds_iff i is = (judge_first-proceeds_iff i is, judge_first-proceeds_iff "" [])

module _ {Live : Type 0} (owner_mismatch adopted_elsewhere : String → Bool)
    (can_delete : InventoryEntry → Live → (identity : String) → DeleteVerdict)
    (read : InventoryEntry → EntryRead Live)
    (run : List InventoryEntry → (identity : String) → DeletionRun) where
  run_cleanup-runs :
      (ids : List String) (es : List InventoryEntry) (prunes delete_data : Bool)
      → (run_cleanup owner_mismatch adopted_elsewhere can_delete read run ids es prunes
          delete_data).runs
        ≡ run_deletion owner_mismatch adopted_elsewhere run (split_kept_claims es delete_data).0 ids
  unfolding run_cleanup report_of
  run_cleanup-runs ids es prunes delete_data = ground arith

  -- Where a plan has steps for its entries only, and the data policy keeps data, no plan of a cleanup
  -- has a step for a claim, whatever the identities, the policy and the answers of the cluster.
  pub run_cleanup-spared :
      (planned : IsPlanned owner_mismatch adopted_elsewhere run) (ids : List String)
      (es : List InventoryEntry) (prunes : Bool) (r : DeletionRun) (s : StepResult)
      → Memᴰ r
          (run_cleanup owner_mismatch adopted_elsewhere can_delete read run ids es prunes
            false).runs
      → Memᴰ s r.steps
      → is_data_claim s.entry ≡ false
  run_cleanup-spared planned ids es prunes r s m k =
      let within =
        run_deletion-within owner_mismatch adopted_elsewhere run planned
          (split_kept_claims es false).0 ids r s (rw (run_cleanup-runs ids es prunes false) at m)
          k in
      ((split_kept_claims_lem es s.entry).0.0 within).1
