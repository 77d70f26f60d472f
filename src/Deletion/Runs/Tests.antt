-- ===== src/Deletion/Runs/Tests.antt =====
-- A deletion over two identities: the first plan skips an entry, the second deletes it.
use opm_operator.Prelude.{
  String, ◌≡◌, refl, true, sym, ap, ◌∙◌, Bool, false, List, [], ◌∷◌, map, Memᴰ, str_eq,
  if◌then◌else◌, inl, inr,
}
use opm_operator.Prelude.Memᴰ
use opm_operator.Reconcile.Health.{InventoryEntry}
use opm_operator.Deletion.Runs.{
  deleted, skipped, StepResult, DeletionRun, depends_on_identity, run_deletion,
}
use opm_operator.Prelude.Dicts.{lookup, insert}
use opm_operator.Deletion.Hold.{is_data_claim, split_kept_claims}
use opm_operator.Deletion.Prune.{
  DeleteVerdict, proceed, skip, EntryRead, entry_found, Cleanup, run_cleanup, entry_eq,
}
use opm_operator.Deletion.Prune.Spared.{run_cleanup-spared}
use opm_operator.Deletion.Runs.Once.{AreApart, IsPlanned, run_deletion-AreApart}

abbrev owner_mismatch : String → Bool
owner_mismatch r = str_eq r "owner-mismatch"

abbrev adopted_elsewhere : String → Bool
adopted_elsewhere r = str_eq r "adopted-elsewhere"

-- Only the identity "old" may delete.
abbrev step_of : String → InventoryEntry → StepResult
step_of identity e = record {
  entry = e;
  outcome = if str_eq identity "old" then deleted else skipped "owner-mismatch";
}

abbrev run : List InventoryEntry → String → DeletionRun
run es identity = record { steps = map (step_of identity) es; refused = false }

abbrev entry : InventoryEntry
entry = record {
  group = "apps";
  version = "v1";
  kind = "Deployment";
  namespace = "n";
  name = "a";
  component = "";
}

mem_steps :
    (i : String) (es : List InventoryEntry) (s : StepResult)
    → Memᴰ s (map (step_of i) es)
    → Memᴰ s.entry es × (s ≡ step_of i s.entry)
mem_steps i [] s m = elim m [ ]
mem_steps i (e ∷ es) s m = elim (Memᴰ.cases_cons m) [
  | inl p ↦ (Memᴰ.head (ap (λ x. x.entry) p), p ∙ ap (λ x. step_of i x.entry) (sym p))
  | inr k ↦ let (n, q) = mem_steps i es s k in (Memᴰ.tail n, q)
]

run-IsPlanned : IsPlanned owner_mismatch adopted_elsewhere run
run-IsPlanned = record {
  within = λ es i s m. (mem_steps i es s m).0;
  single =
      λ es i s t m n e. (mem_steps i es s m).1 ∙ ap (step_of i) e ∙ sym ((mem_steps i es t n).1);
}

run_deletion-AreApart_example :
    AreApart owner_mismatch adopted_elsewhere
      (run_deletion owner_mismatch adopted_elsewhere run (entry ∷ []) ("new" ∷ "old" ∷ []))
run_deletion-AreApart_example =
    run_deletion-AreApart owner_mismatch adopted_elsewhere run run-IsPlanned (entry ∷ [])
      ("new" ∷ "old" ∷ [])

abbrev volume : InventoryEntry
volume = record {
  group = "";
  version = "v1";
  kind = "PersistentVolumeClaim";
  namespace = "n";
  name = "data";
  component = "";
}

abbrev can_delete : InventoryEntry → String → String → DeleteVerdict
can_delete e live identity = if str_eq identity "old" then proceed else skip "owner-mismatch"

abbrev read : InventoryEntry → EntryRead String
read e = entry_found "uid"

abbrev cleanup : Cleanup
cleanup =
    run_cleanup owner_mismatch adopted_elsewhere can_delete read run ("new" ∷ "old" ∷ [])
      (entry ∷ volume ∷ []) true false

reported : cleanup.report ≡ record { deleted_count = 1; left = []; kept = volume ∷ [] }
unfolding run_cleanup run_deletion split_kept_claims depends_on_identity lookup insert
reported = refl

second : Memᴰ (run (entry ∷ []) "old") cleanup.runs
unfolding run_cleanup run_deletion split_kept_claims depends_on_identity
second = Memᴰ.tail (Memᴰ.head refl)

run_cleanup-spared_example : is_data_claim entry ≡ false
run_cleanup-spared_example =
    run_cleanup-spared owner_mismatch adopted_elsewhere can_delete read run run-IsPlanned
      ("new" ∷ "old" ∷ []) (entry ∷ volume ∷ []) true (run (entry ∷ []) "old") (step_of "old" entry)
      second (Memᴰ.head refl)
