-- ===== src/Reconcile/Health.antt =====
-- internal/reconcile/health.go: judging what an inventory names. The readiness rules are the
-- library's, a parameter here; the verdict made of them is the controller's.
pub mod Verdict
mod Tests
use Prim.Native.String.{◌++◌}
use opm_operator.Prelude.{
  ℕ, ◌+◌, ◌-◌, String, Bool, true, false, ◌&&◌, ◌||◌, not, List, [], ◌∷◌, ◌++◌ as append, take,
  length, is_empty, leb, str_eq, if◌then◌else◌,
}
use opm_operator.Prelude.Decimal.{decimal}
use opm_operator.Status.Conditions.{ConditionStatus, is_true, is_false, is_unknown}
use opm_operator.Reconcile.Backoff.{
  HealthRequeueClass, health_no_requeue, health_backoff, health_stalled,
}

pub record InventoryEntry : Type 0 where
  pub group : String
  pub version : String
  pub kind : String
  pub namespace : String
  pub name : String
  pub component : String

-- The library's opm/k8s/health over its statuses `S` and the objects `O` of the cluster.
pub record HealthRules (O S : Type 0) : Type 0 where
  pub evaluate : O → S
  pub missing_status : S
  pub status_string : S → String
  pub is_healthy : S → Bool
  pub progress_deadline_exceeded : O → Bool
  -- Aggregate: the overall status is unknown, the ready objects, and all objects.
  pub aggregate : List S → (missing : ℕ) → Bool × ℕ × ℕ

-- The result of reading one entry.
pub data HealthRead (O : Type 0) : Type 0 where
  found : O → HealthRead O
  missing : HealthRead O
  failed : (err : String) → HealthRead O

-- What the API server answers to a Get.
pub data Answer (O : Type 0) : Type 0 where
  object : O → Answer O
  not_found no_match : Answer O
  refused : (err : String) → Answer O

pub record HealthVerdict : Type 0 where
  pub status : ConditionStatus
  pub reason : String
  pub message : String
  pub requeue : HealthRequeueClass
  pub absent_job : Bool

abbrev pub health_message_objects : ℕ
health_message_objects = 5

-- isJobEntry
unfoldable pub is_job_entry : InventoryEntry → Bool
is_job_entry e = str_eq e.group "batch" && str_eq e.kind "Job"

-- describeEntry
unfoldable pub describe_entry : InventoryEntry → String
describe_entry e =
    if str_eq e.namespace ""
    then e.kind ++ (" " ++ e.name)
    else e.kind ++ (" " ++ (e.namespace ++ ("/" ++ e.name)))

-- strings.Join(names, ", ")
unfoldable pub join_names : List String → String
join_names [] = ""
join_names (n ∷ ns) = let rest = join_names ns in if is_empty ns then n else n ++ (", " ++ rest)

-- nameObjects
unfoldable pub name_objects : List String → String
unfolding join_names
name_objects names =
    if leb (length names) health_message_objects
    then join_names names
    else join_names (take health_message_objects names)
      ++ (", and " ++ (decimal (length names - health_message_objects) ++ " more"))

module _ {O : Type 0} where
  -- readEntry; `get` is the read of the API server.
  unfoldable pub read_entry : (get : InventoryEntry → Answer O) → InventoryEntry → HealthRead O
  read_entry get e =
      if str_eq e.version ""
      then failed "the inventory entry records no API version"
      else (elim (get e) [
        | object o ↦ found o
        | not_found ↦ missing
        | no_match ↦ missing
        | refused err ↦ failed err
      ])

-- What the loop of judgeHealth collects.
pub record Tally (S : Type 0) : Type 0 where
  pub statuses : List S
  pub stalled : List String
  pub not_ready : List String
  pub absent : ℕ
  pub absent_job : Bool
  pub unreadable : List String

module _ {O S : Type 0} (rules : HealthRules O S) where
  labelled : InventoryEntry → S → String
  labelled e s = describe_entry e ++ (" (" ++ (rules.status_string s ++ ")"))

  -- One round of the loop: what one read adds in front of the rest.
  unfoldable pub tally_read : InventoryEntry → HealthRead O → Tally S → Tally S
  unfolding labelled is_job_entry
  tally_read e missing t = record t {
    absent = t.absent + 1;
    absent_job = is_job_entry e || t.absent_job;
    not_ready = labelled e rules.missing_status ∷ t.not_ready;
  }
  tally_read e (failed err) t = record t {
    unreadable = ("reading " ++ (describe_entry e ++ (": " ++ err))) ∷ t.unreadable;
  }
  tally_read e (found o) t =
      let s = rules.evaluate o in
      if rules.progress_deadline_exceeded o
      then record t { statuses = s ∷ t.statuses; stalled = labelled e s ∷ t.stalled }
      else if rules.is_healthy s
      then record t { statuses = s ∷ t.statuses }
      else record t { statuses = s ∷ t.statuses; not_ready = labelled e s ∷ t.not_ready }

  -- The loop of judgeHealth over the entries and their reads, in inventory order.
  unfoldable pub tally : List (InventoryEntry × HealthRead O) → Tally S
  unfolding tally_read
  tally [] = record {
    statuses = [];
    stalled = [];
    not_ready = [];
    absent = 0;
    absent_job = false;
    unreadable = [];
  }
  tally ((e, r) ∷ reads) = tally_read e r (tally reads)

  unfoldable pub counts_text : (ready total : ℕ) → String
  counts_text ready total = decimal ready ++ ("/" ++ (decimal total ++ " objects ready"))

  -- judgeHealth, over what was read
  unfoldable pub judge_health : List (InventoryEntry × HealthRead O) → HealthVerdict
  unfolding tally counts_text
  judge_health reads =
      let t = tally reads in
      let (unknown, ready, total) = rules.aggregate t.statuses (t.absent + length t.unreadable) in
      let counts = counts_text ready total in
      if not (is_empty t.stalled)
      then record {
        status = is_false;
        reason = "ProgressDeadlineExceeded";
        message = counts ++ (": " ++ name_objects (append t.stalled t.not_ready));
        requeue = health_stalled;
        absent_job = t.absent_job;
      }
      else if not (is_empty t.not_ready)
      then record {
        status = is_false;
        reason = "NotRolledOut";
        message = counts ++ (": " ++ name_objects t.not_ready);
        requeue = health_backoff;
        absent_job = t.absent_job;
      }
      else elim t.unreadable [
        | first ∷ _ ↦ record {
          status = is_unknown;
          reason = "HealthUnknown";
          message = counts ++ (": " ++ first);
          requeue = health_backoff;
          absent_job = t.absent_job;
        }
        | [] ↦
            if unknown
            then record {
              status = is_unknown;
              reason = "HealthUnknown";
              message = counts ++ ": the inventory is empty";
              requeue = health_no_requeue;
              absent_job = false;
            }
            else record {
              status = is_true;
              reason = "RolledOut";
              message = counts;
              requeue = health_no_requeue;
              absent_job = false;
            }
      ]

  -- unreadableVerdict
  unfoldable pub unreadable_verdict : List InventoryEntry → (err : String) → HealthVerdict
  unfolding counts_text
  unreadable_verdict entries err =
      let (unknown, ready, total) = rules.aggregate [] (length entries) in
      record {
        status = is_unknown;
        reason = "HealthUnknown";
        message = counts_text ready total ++ (": building the health reader: " ++ err);
        requeue = health_backoff;
        absent_job = false;
      }
