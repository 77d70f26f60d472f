-- ===== src/Reconcile/Health/Tests.antt =====
-- An inventory with a Job that is gone, and one that is rolled out.
use opm_operator.Prelude.{
  ◌+◌, ◌≡◌, ◌↔◌, refl, Bool, true, false, ◌&&◌, List, [], ◌∷◌, length, is_empty, arith, ◌==◌,
}
use opm_operator.Status.Conditions.{is_true}
use opm_operator.Reconcile.Health.{
  InventoryEntry, HealthRules, HealthRead, found, missing, is_job_entry, judge_health,
}
use opm_operator.Reconcile.Health.Verdict.{all_up, IsEmptyUnknown, judge_health-true_iff}

-- Statuses and objects are Booleans: whether the object is ready.
abbrev rules : HealthRules Bool Bool
rules = record {
  evaluate = λ o. o;
  missing_status = false;
  status_string = λ s. "Status";
  is_healthy = λ s. s;
  progress_deadline_exceeded = λ o. false;
  aggregate = λ ss n. (is_empty ss && n == 0, length ss, length ss + n);
}

abbrev job : InventoryEntry
job = record {
  group = "batch";
  version = "v1";
  kind = "Job";
  namespace = "n";
  name = "j";
  component = "";
}

abbrev reads : List (InventoryEntry × HealthRead Bool)
reads = (job, found true) ∷ (job, missing) ∷ []

rules-IsEmptyUnknown : IsEmptyUnknown rules
rules-IsEmptyUnknown ss h = ground arith

judge_health-true_iff_example :
    ((judge_health rules reads).status ≡ is_true)
    ↔ ((is_empty reads ≡ false) × (all_up rules reads ≡ true))
judge_health-true_iff_example = judge_health-true_iff rules rules-IsEmptyUnknown reads

absent : (judge_health rules reads).absent_job ≡ true
unfolding judge_health is_job_entry
absent = refl
