-- ===== src/Deletion/Prune.antt =====
-- internal/apply/prune.go, and Results and ClassifyKeptClaims of deletion.go: what a prune or a
-- cleanup deleted, left behind, kept and failed on.
pub mod Spared
pub mod Gone
use opm_operator.Prelude.{
  ℕ, zero, suc, String, Bool, true, false, ◌&&◌, ◌||◌, not, List, [], ◌∷◌, ◌++◌, none, some, str_eq,
  eq_iff, if◌then◌else◌, ◌≡◌, ◌↔◌, arith,
}
use opm_operator.Prelude.Dicts.{Eq, lookup, insert}
use opm_operator.Reconcile.Health.{InventoryEntry}
use opm_operator.Deletion.Hold.{split_kept_claims}
use opm_operator.Deletion.Runs.{
  StepOutcome, deleted, absent, failed, not_named, skipped, StepResult, DeletionRun,
  depends_on_identity, run_deletion,
}

abbrev same_entry : InventoryEntry → InventoryEntry → Bool
same_entry a b =
    str_eq a.group b.group
    && str_eq a.version b.version
    && str_eq a.kind b.kind
    && str_eq a.namespace b.namespace
    && str_eq a.name b.name
    && str_eq a.component b.component

pub same_entry_iff : (a b : InventoryEntry) → (same_entry a b ≡ true) ↔ (a ≡ b)
same_entry_iff a b = ground (
  arith,
  eq_iff a.group b.group,
  eq_iff a.version b.version,
  eq_iff a.kind b.kind,
  eq_iff a.namespace b.namespace,
  eq_iff a.name b.name,
  eq_iff a.component b.component,
)

instance abbrev pub entry_eq : Eq InventoryEntry
entry_eq = record { beq = same_entry; beq_iff = same_entry_iff }

-- results[i] = step, where i is in range
unfoldable pub set_at {ℓ} : {A : Type ℓ} → ℕ → A → List A → List A
set_at i a [] = []
set_at zero a (x ∷ xs) = a ∷ xs
set_at (suc i) a (x ∷ xs) = x ∷ set_at i a xs

module _ (owner_mismatch adopted_elsewhere : String → Bool) where
  abbrev depends : StepOutcome → Bool
  depends = depends_on_identity owner_mismatch adopted_elsewhere

  -- The first loop of Results: where a step stands that the next identity was asked for
  unfoldable pub index_steps :
      ℕ → List StepResult → List (InventoryEntry × ℕ) → List (InventoryEntry × ℕ)
  index_steps i [] index = index
  index_steps i (s ∷ ss) index =
      index_steps (suc i) ss (if depends s.outcome then insert s.entry i index else index)

  -- The body of the second loop of Results
  unfoldable pub place_step :
      List (InventoryEntry × ℕ) → StepResult → List StepResult → List StepResult
  unfolding set_at
  place_step index s results = elim (lookup s.entry index) [
    | none ↦ results
    | some i ↦ if depends s.outcome then results else set_at i s results
  ]

  unfoldable pub place_steps :
      List (InventoryEntry × ℕ) → List StepResult → List StepResult → List StepResult
  unfolding place_step
  place_steps index [] results = results
  place_steps index (s ∷ ss) results = place_steps index ss (place_step index s results)

  unfoldable pub place_runs :
      List (InventoryEntry × ℕ) → List DeletionRun → List StepResult → List StepResult
  unfolding place_steps
  place_runs index [] results = results
  place_runs index (r ∷ rs) results = place_runs index rs (place_steps index r.steps results)

  -- Results
  unfoldable pub results_of : List DeletionRun → List StepResult
  unfolding index_steps place_runs
  results_of [] = []
  results_of (r ∷ rs) = place_runs (index_steps 0 r.steps []) rs r.steps

-- The library's delete verdict
pub data DeleteVerdict : Type 0 where
  proceed : DeleteVerdict
  skip : (reason : String) → DeleteVerdict

-- verdict.Proceed
unfoldable pub proceeds : DeleteVerdict → Bool
proceeds proceed = true
proceeds (skip reason) = false

-- The two answers that another identity may change
unfoldable pub asks_next : (owner_mismatch adopted_elsewhere : String → Bool) → DeleteVerdict → Bool
asks_next owner_mismatch adopted_elsewhere proceed = false
asks_next owner_mismatch adopted_elsewhere (skip reason) =
    owner_mismatch reason || adopted_elsewhere reason

module _ (asks : DeleteVerdict → Bool) (can_delete : (identity : String) → DeleteVerdict) where
  -- The loop of judgeDelete
  unfoldable pub judge_loop : DeleteVerdict → List String → DeleteVerdict
  judge_loop verdict [] = verdict
  judge_loop verdict (i ∷ is) =
      let last = judge_loop (can_delete i) is in if not (asks verdict) then verdict else last

  unfoldable pub judge_first : (first : DeleteVerdict) → List String → DeleteVerdict
  unfolding judge_loop proceeds
  judge_first first identities =
      let verdict = judge_loop first identities in if proceeds verdict then verdict else first

  -- judgeDelete
  unfoldable pub judge_delete : (identities : List String) → DeleteVerdict
  unfolding judge_first
  judge_delete [] = judge_first (can_delete "") []
  judge_delete (i ∷ is) = judge_first (can_delete i) is

-- LeftBehind, without the message
pub record LeftBehind : Type 0 where
  pub entry : InventoryEntry
  pub reason : String

-- What the read of an entry answers
pub data EntryRead (Live : Type 0) : Type 0 where
  entry_gone : EntryRead Live
  entry_unread : EntryRead Live
  entry_found : Live → EntryRead Live

-- PruneResult; `left` has every entry that was skipped, which Skipped counts.
pub record PruneResult : Type 0 where
  pub deleted_count : ℕ
  pub left : List LeftBehind
  pub kept : List InventoryEntry

-- Cleanup, and whether the library refused a plan's state
pub record Cleanup : Type 0 where
  pub runs : List DeletionRun
  pub report : PruneResult
  pub failed_steps : List StepResult
  pub refused_state : Bool

abbrev pub empty_report : PruneResult
empty_report = record { deleted_count = 0; left = []; kept = [] }

-- Whether RunDeletion returned an error: the library refused the state of a plan.
unfoldable pub refuses_any : List DeletionRun → Bool
refuses_any [] = false
refuses_any (r ∷ rs) = r.refused || refuses_any rs

-- The loop of RunCleanup over the results
unfoldable pub count_step :
    StepResult → PruneResult × List StepResult → PruneResult × List StepResult
count_step s (report, errs) = elim s.outcome [
  | deleted ↦ (record report { deleted_count = suc report.deleted_count }, errs)
  | absent ↦ (report, errs)
  | failed ↦ (report, s ∷ errs)
  | not_named ↦ (report, errs)
  | skipped reason ↦
      (record report { left = record { entry = s.entry; reason = reason } ∷ report.left }, errs)
]

unfoldable pub count_steps : List StepResult → PruneResult × List StepResult
unfolding count_step
count_steps [] = (empty_report, [])
count_steps (s ∷ ss) = let rest = count_steps ss in count_step s rest

module _ {Live : Type 0} (owner_mismatch adopted_elsewhere : String → Bool)
    (can_delete : InventoryEntry → Live → (identity : String) → DeleteVerdict)
    (read : InventoryEntry → EntryRead Live) where
  -- ClassifyKeptClaims, after the verdict on one claim
  unfoldable pub after_verdict :
      InventoryEntry
      → DeleteVerdict
      → (rest : List InventoryEntry × List LeftBehind) → List InventoryEntry × List LeftBehind
  after_verdict e proceed (kept, left) = (e ∷ kept, left)
  after_verdict e (skip reason) (kept, left) = (kept, record { entry = e; reason = reason } ∷ left)

  -- ClassifyKeptClaims, after the read of one claim
  unfoldable pub after_entry_read :
      (identities : List String)
      → InventoryEntry
      → EntryRead Live
      → (rest : List InventoryEntry × List LeftBehind) → List InventoryEntry × List LeftBehind
  unfolding after_verdict judge_delete asks_next
  after_entry_read identities e entry_gone rest = rest
  after_entry_read identities e entry_unread rest = (e ∷ rest.0, rest.1)
  after_entry_read identities e (entry_found live) rest =
      after_verdict e
        (judge_delete (asks_next owner_mismatch adopted_elsewhere) (can_delete e live) identities)
        rest

  -- ClassifyKeptClaims
  unfoldable pub classify_kept_claims :
      (identities : List String)
      → (claims : List InventoryEntry) → List InventoryEntry × List LeftBehind
  unfolding after_entry_read
  classify_kept_claims identities [] = ([], [])
  classify_kept_claims identities (e ∷ es) =
      let rest = classify_kept_claims identities es in after_entry_read identities e (read e) rest

  module _ (run : List InventoryEntry → (identity : String) → DeletionRun) where
    -- The report of RunCleanup when no plan was refused and the policy prunes
    unfoldable pub report_of :
        (runs : List DeletionRun)
        → (identities : List String) → (claims : List InventoryEntry) → Cleanup
    unfolding results_of count_steps classify_kept_claims
    report_of runs identities claims =
        let (counted, errs) = count_steps (results_of owner_mismatch adopted_elsewhere runs) in
        let (kept, left) = classify_kept_claims identities claims in
        record {
          runs = runs;
          report = record {
            deleted_count = counted.deleted_count;
            left = counted.left ++ left;
            kept = kept;
          };
          failed_steps = errs;
          refused_state = false;
        }

    -- RunCleanup; `run` drives the plan of the policy.
    unfoldable pub run_cleanup :
        (identities : List String)
        → (entries : List InventoryEntry) → (prunes delete_data : Bool) → Cleanup
    unfolding report_of refuses_any
    run_cleanup identities entries prunes delete_data =
        let (planned, claims) = split_kept_claims entries delete_data in
        let runs = run_deletion owner_mismatch adopted_elsewhere run planned identities in
        if refuses_any runs || not prunes
        then record {
          runs = runs;
          report = empty_report;
          failed_steps = [];
          refused_state = refuses_any runs;
        }
        else report_of runs identities claims
