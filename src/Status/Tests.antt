-- ===== src/Status/Tests.antt =====
-- A short run of reconciles, and two keys.
use opm_operator.Prelude.{◌≡◌, refl, true, false, List, [], ◌∷◌, take, arith}
use opm_operator.Prelude.Int64.{pos}
use opm_operator.Status.Counters.{applied, failed_transient, ensure_counters}
use opm_operator.Status.Counters.Streaks.{Attempt, count_all, counters_of, count_all_lem}
use opm_operator.Status.History.{HistoryEntry, max_history_entries, new_failure_entry}
use opm_operator.Status.History.Numbering.{record_all, numbered, record_all_lem}
use opm_operator.Status.Digests.{DigestSet, RenderInputKey}
use opm_operator.Status.Digests.Encoding.{encode_key_injective}

abbrev failing : Attempt
failing = record {
  outcome = failed_transient;
  phases = record {
    drift_ran = true;
    drift_failed = false;
    apply_ran = true;
    apply_failed = true;
    prune_ran = false;
    prune_failed = false;
  };
}

abbrev passing : Attempt
passing = record {
  outcome = applied;
  phases = record {
    drift_ran = true;
    drift_failed = true;
    apply_ran = true;
    apply_failed = false;
    prune_ran = true;
    prune_failed = true;
  };
}

abbrev attempts : List Attempt
attempts = failing ∷ failing ∷ passing ∷ failing ∷ []

count_all_lem_example : ensure_counters (count_all attempts) ≡ counters_of attempts
count_all_lem_example = count_all_lem attempts (omega arith)

-- The two failures after the last success, and the prune failure that no later prune resolved.
counted :
    counters_of attempts ≡ record { reconcile = pos 2; apply = pos 2; prune = pos 1; drift = pos 0 }
counted = refl

abbrev digests : DigestSet
digests = record { source = "s"; config = "c"; render = "r"; inventory = "i" }

abbrev failure : HistoryEntry
failure = new_failure_entry 5 "apply" "refused" digests

abbrev eleven : List HistoryEntry
eleven =
    failure ∷ failure ∷ failure ∷ failure ∷ failure ∷ failure ∷ failure ∷ failure ∷ failure
    ∷ failure ∷ failure ∷ []

record_all_lem_example : record_all eleven ≡ take max_history_entries (numbered eleven)
record_all_lem_example = record_all_lem eleven (omega arith)

abbrev key : RenderInputKey
key = record {
  source = "1:a";
  config = "";
  package_identity = "gen-1";
  skew_policy = "Warn";
  controller_version = "v1";
  library_version = "v1";
}

encode_key_injective_example : key ≡ key
encode_key_injective_example = encode_key_injective key key refl
