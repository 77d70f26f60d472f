-- ===== src/Deletion/Tests.antt =====
-- A deletion that sends its deletes, waits for an object to go, and is released.
use opm_operator.Prelude.{
  ◌≡◌, refl, Bool, true, false, ◌&&◌, not, List, [], ◌∷◌, none, some, is_empty, if◌then◌else◌,
}
use opm_operator.Reconcile.Health.{InventoryEntry}
use opm_operator.Deletion.Hold.{
  HoldVerdict, HoldReason, Policy, HeldIdentity, Lifecycle, split_kept_claims, hold_verdict,
}
use opm_operator.Deletion.Cleanup.{
  Subject, DeletionWait, usable, Answers, run_deletion_cleanup, mark_stalled,
}
use opm_operator.Deletion.Cleanup.Release.{may_remove, run_deletion_cleanup-finalizer}
use opm_operator.Deletion.Cleanup.Protocol.{World}
use opm_operator.Deletion.Cleanup.Waiting.{asks_again, run_deletion_cleanup-settles}

abbrev Plan : Type 0
Plan = List InventoryEntry × Policy

-- A plan is done or not: its state.
judge_plan : Plan → Bool → HeldIdentity → HoldVerdict
judge_plan (es, policy) done held =
    if not policy.prune
    then record { release = true; because = HoldReason.prune_disabled }
    else if is_empty es
    then record { release = true; because = HoldReason.inventory_empty }
    else elim held [
      | HeldIdentity.available ↦ record { release = done; because = HoldReason.other_reason }
      | HeldIdentity.missing_identity ↦ record {
        release = policy.force_orphan;
        because = HoldReason.force_orphan;
      }
      | HeldIdentity.failed_identity ↦ record {
        release = policy.force_orphan;
        because = HoldReason.force_orphan;
      }
    ]

abbrev library : Lifecycle Plan Bool
library = record {
  new_plan = λ es policy identity. (es, policy);
  zero_state = false;
  may_release = judge_plan;
}

abbrev policy : Policy
policy = record { prune = true; force_orphan = false }

abbrev config_map : InventoryEntry
config_map = record {
  group = "";
  version = "v1";
  kind = "ConfigMap";
  namespace = "n";
  name = "c";
  component = "";
}

abbrev claim : InventoryEntry
claim = record {
  group = "";
  version = "v1";
  kind = "PersistentVolumeClaim";
  namespace = "n";
  name = "data";
  component = "";
}

abbrev subject : Subject
subject = record {
  deleting_since = some 0;
  ready = none;
  entries = config_map ∷ claim ∷ [];
  finalizer = true;
}

abbrev wait : DeletionWait
wait = record { blocked_after = 0; min_recheck = 0; max_recheck = 0 }

abbrev runs : List (Plan × Bool)
runs = ((config_map ∷ [], policy), true) ∷ []

abbrev waiting : Answers Plan Bool
waiting = record {
  now = 8;
  identity = usable true;
  ran = some runs;
  still_there = some (some 4 ∷ []);
  patches = true;
  removes = true;
}

abbrev gone : Answers Plan Bool
gone = record waiting { now = 9; still_there = some [] }

abbrev waited : Subject
waited = (run_deletion_cleanup library wait policy false ("u" ∷ []) [] waiting subject).subject

abbrev released : Subject
released = (run_deletion_cleanup library wait policy false ("u" ∷ []) [] gone waited).subject

abbrev end : World library
end = record { subject = released; sent = true; excused = false }

run_deletion_cleanup-finalizer_example :
    released.finalizer
    ≡ (not (may_remove library policy false ("u" ∷ []) gone waited && true) && waited.finalizer)
run_deletion_cleanup-finalizer_example =
    run_deletion_cleanup-finalizer library wait policy false ("u" ∷ []) [] gone waited

stops :
    asks_again (run_deletion_cleanup library wait policy false ("u" ∷ []) [] gone waited).requeue
    ≡ false
unfolding run_deletion_cleanup judge_plan hold_verdict split_kept_claims mark_stalled
stops = refl

run_deletion_cleanup-settles_example : released.finalizer ≡ false
run_deletion_cleanup-settles_example =
    run_deletion_cleanup-settles library wait policy false ("u" ∷ []) [] gone waited stops
