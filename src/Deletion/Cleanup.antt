-- ===== src/Deletion/Cleanup.antt =====
-- internal/reconcile/deletion.go: one deletion cleanup, as a function from the deleting object and
-- the answers it gets to the object, the events and the requeue it leaves. Of a condition the model
-- keeps the status and the reason; a message is text for readers, and nothing reads it back. A time
-- and a duration are nanoseconds.
pub mod Release
pub mod Protocol
pub mod Waiting
use opm_operator.Prelude.{
  ℕ, ◌-◌, ◌/◌, ◌*◌, ◌^◌, String, Bool, true, false, ◌&&◌, ◌||◌, not, List, [], ◌∷◌, ◌++◌, Option,
  none, some, str_eq, ltb, leb, is_empty, length, if◌then◌else◌,
}
use opm_operator.Reconcile.Backoff.{second, stalled_recheck_interval}
use opm_operator.Status.Conditions.{ConditionStatus, is_true, is_false, is_unknown}
use opm_operator.Reconcile.Health.{InventoryEntry}
use opm_operator.Deletion.Hold.{
  HoldReason, prune_disabled, inventory_empty, force_orphan, cleanup_forbidden, other_reason,
  HoldVerdict, Policy, HeldIdentity, available, missing_identity, failed_identity, Lifecycle,
  split_kept_claims, first_identity, hold_verdict, is_forbidden,
}

pub record Ready : Type 0 where
  pub status : ConditionStatus
  pub reason : String

-- The deleting object as the API server holds it.
pub record Subject : Type 0 where
  pub deleting_since : Option ℕ
  pub ready : Option Ready
  pub entries : List InventoryEntry
  pub finalizer : Bool

-- DeletionWait
pub record DeletionWait : Type 0 where
  pub blocked_after : ℕ
  pub min_recheck : ℕ
  pub max_recheck : ℕ

-- withDefaults
unfoldable pub with_defaults : DeletionWait → DeletionWait
with_defaults w =
    let or_default = λ (d given : ℕ). if leb given 0 then d else given in
    record {
      blocked_after = or_default (600 * second) w.blocked_after;
      min_recheck = or_default second w.min_recheck;
      max_recheck = or_default (60 * second) w.max_recheck;
    }

-- recheckAfter
unfoldable pub recheck_after : DeletionWait → (age : ℕ) → ℕ
recheck_after w age =
    let quarter = age / 4 in
    let above = if ltb quarter w.min_recheck then w.min_recheck else quarter in
    if ltb w.max_recheck above then w.max_recheck else above

-- resolveDeletingIdentity: the identity that deletes, or why there is none. `impersonates` says
-- that a ServiceAccount is in effect; `gone` that the controller's own read of it was NotFound.
pub data Identity : Type 0 where
  usable : (impersonates : Bool) → Identity
  missing : (gone : Bool) → Identity
  failed : Identity

-- What one reconcile is answered: `ran` is nothing when RunCleanup fails; `still_there` holds the
-- deletion times of the deleted objects that are left, or nothing when a read fails.
pub record Answers (Plan State : Type 0) : Type 0 where
  pub now : ℕ
  pub identity : Identity
  pub ran : Option (List (Plan × State))
  pub still_there : Option (List (Option ℕ))
  pub patches : Bool
  pub removes : Bool

pub data Requeue : Type 0 where
  finished : Requeue
  after : ℕ → Requeue
  error : Requeue

-- What a cleanup leaves: the stored object, the reasons of its events, and the requeue.
pub record Ending : Type 0 where
  pub subject : Subject
  pub events : List String
  pub requeue : Requeue

unfoldable pub has_ready : Subject → (reason : String) → Bool
has_ready s reason = elim s.ready [
  | none ↦ false
  | some r ↦ elim r.status [
    | is_false ↦ str_eq r.reason reason
    | is_true ↦ false
    | is_unknown ↦ false
  ]
]

-- recordedWaitReason
unfoldable pub recorded_wait_reason : Subject → Option String
unfolding has_ready
recorded_wait_reason s = elim s.deleting_since [
  | none ↦ none
  | some at ↦
      if has_ready s "DeletionInProgress"
      then some "DeletionInProgress"
      else if has_ready s "DeletionBlocked"
      then some "DeletionBlocked"
      else none
]

-- MarkStalled, and the Ready condition of the two marks of a waiting deletion
unfoldable pub mark_stalled : (reason : String) → Subject → Subject
mark_stalled reason s = record s { ready = some (record { status = is_false; reason = reason }) }

unfoldable pub mark_waiting : (reason : String) → Subject → Subject
unfolding mark_stalled
mark_waiting reason s = elim s.deleting_since [ none ↦ s | some at ↦ mark_stalled reason s ]

-- patchStatus: what is stored after a patch that may fail
unfoldable pub patch_status : (ok : Bool) → (stored marked : Subject) → Subject
patch_status ok stored marked = if ok then marked else stored

-- An event that is emitted unless Ready already carries its reason.
unfoldable pub event_once : Subject → (reason : String) → List String
unfolding has_ready
event_once s reason = if has_ready s reason then [] else reason ∷ []

-- releaseFinalizer
unfoldable pub release_finalizer : (ok : Bool) → Subject → List String → Ending
release_finalizer ok s events =
    if ok
    then record { subject = record s { finalizer = false }; events = events; requeue = finished }
    else record { subject = s; events = events; requeue = error }

-- stallDeletion
unfoldable pub stall_deletion : (patches : Bool) → Subject → (reason : String) → Ending
unfolding mark_stalled patch_status event_once
stall_deletion patches s reason = record {
  subject = patch_status patches s (mark_stalled reason s);
  events = event_once s reason;
  requeue = after stalled_recheck_interval;
}

-- The age of a time at `now`; a time that lies ahead has age 0, as every use bounds it from below.
abbrev pub age_of : (now : ℕ) → Option ℕ → ℕ
age_of now none = now
age_of now (some at) = now - at

-- holdRecheck
unfoldable pub hold_recheck :
    DeletionWait → (now : ℕ) → (patches : Bool) → Subject → (recorded : String) → Ending
unfolding mark_stalled mark_waiting patch_status event_once
hold_recheck w now patches s recorded =
    if str_eq recorded "DeletionBlocked" || leb w.blocked_after (age_of now s.deleting_since)
    then record {
      subject = patch_status patches s (mark_waiting "DeletionBlocked" s);
      events = event_once s "DeletionBlocked";
      requeue = error;
    }
    else record {
      subject = patch_status patches s (mark_waiting "DeletionInProgress" s);
      events = [];
      requeue = error;
    }

-- oldestDeletion
unfoldable pub oldest_deletion : List (Option ℕ) → (now : ℕ) → ℕ
oldest_deletion [] now = now
oldest_deletion (none ∷ left) now = oldest_deletion left now
oldest_deletion (some at ∷ left) now =
    let rest = oldest_deletion left now in if ltb at rest then at else rest

-- awaitGone
unfoldable pub await_gone :
    DeletionWait
    → (now : ℕ) → (still_there : Option (List (Option ℕ))) → (patches removes : Bool) → Subject
    → (recorded : Option String) → (reports : List String) → Ending
unfolding mark_waiting patch_status event_once release_finalizer hold_recheck oldest_deletion
    recheck_after
await_gone w now none patches removes s (some reason) reports = hold_recheck w now patches s reason
await_gone w now none patches removes s none reports = record {
  subject = s;
  events = [];
  requeue = error;
}
await_gone w now (some left) patches removes s recorded reports =
    let age = now - oldest_deletion left now in
    if is_empty left
    then release_finalizer removes s reports
    else if ltb age w.blocked_after
    then record {
      subject = patch_status patches s (mark_waiting "DeletionInProgress" s);
      events = reports ++ event_once s "DeletionInProgress";
      requeue = if patches then after (recheck_after w age) else error;
    }
    else record {
      subject = patch_status patches s (mark_waiting "DeletionBlocked" s);
      events = reports ++ event_once s "DeletionBlocked";
      requeue = if patches then after w.max_recheck else error;
    }

unfoldable pub is_gone : Identity → Bool
is_gone (usable b) = false
is_gone (missing gone) = gone
is_gone failed = false

unfoldable pub held_of : Identity → HeldIdentity
held_of (usable b) = available
held_of (missing gone) = missing_identity
held_of failed = failed_identity

-- actOnLostIdentity, after its two verdicts that release at once
unfoldable pub act_without_identity :
    DeletionWait
    → (now : ℕ) → (patches removes : Bool) → Identity
    → Subject
    → Option String
    → Ending
unfolding hold_recheck release_finalizer stall_deletion is_gone
act_without_identity w now patches removes identity s (some reason) =
    if is_gone identity
    then release_finalizer removes s ("DeletionUnconfirmed" ∷ [])
    else hold_recheck w now patches s reason
act_without_identity w now patches removes (missing gone) s none =
    stall_deletion patches s "DeletionSAMissing"
act_without_identity w now patches removes failed s none =
    stall_deletion patches s "ImpersonationFailed"
act_without_identity w now patches removes (usable b) s none =
    stall_deletion patches s "ImpersonationFailed"

-- actOnLostIdentity
unfoldable pub act_on_lost_identity :
    DeletionWait
    → (now : ℕ) → (patches removes : Bool) → Identity
    → HoldReason
    → Subject
    → Option String
    → Ending
unfolding act_without_identity release_finalizer patch_status
act_on_lost_identity w now patches removes identity inventory_empty s recorded =
    release_finalizer removes s ("DeletionUnconfirmed" ∷ [])
act_on_lost_identity w now patches removes identity force_orphan s recorded =
    release_finalizer removes (patch_status patches s (record s { entries = [] }))
      ("OrphanedOnDeletion" ∷ [])
act_on_lost_identity w now patches removes identity prune_disabled s recorded =
    act_without_identity w now patches removes identity s recorded
act_on_lost_identity w now patches removes identity cleanup_forbidden s recorded =
    act_without_identity w now patches removes identity s recorded
act_on_lost_identity w now patches removes identity other_reason s recorded =
    act_without_identity w now patches removes identity s recorded

-- actOnHold
unfoldable pub act_on_hold : (patches impersonates : Bool) → HoldVerdict → Subject → Ending
unfolding stall_deletion is_forbidden
act_on_hold patches impersonates verdict s =
    if is_forbidden verdict.because && impersonates
    then stall_deletion patches s "ImpersonationFailed"
    else record { subject = s; events = []; requeue = error }

unfoldable pub is_prune_disabled : HoldReason → Bool
is_prune_disabled prune_disabled = true
is_prune_disabled inventory_empty = false
is_prune_disabled force_orphan = false
is_prune_disabled cleanup_forbidden = false
is_prune_disabled other_reason = false

unfoldable pub is_inventory_empty : HoldReason → Bool
is_inventory_empty inventory_empty = true
is_inventory_empty prune_disabled = false
is_inventory_empty force_orphan = false
is_inventory_empty cleanup_forbidden = false
is_inventory_empty other_reason = false

module _ {Plan State : Type 0} (library : Lifecycle Plan State) where
  -- The part of runDeletionCleanup that has an identity: its plans have run.
  unfoldable pub after_run :
      DeletionWait
      → Answers Plan State
      → (impersonates : Bool) → (reports : List String) → Subject
      → Option String
      → List (Plan × State)
      → Ending
  unfolding hold_recheck act_on_hold await_gone
  after_run w a impersonates reports s recorded runs =
      let verdict = hold_verdict library runs in
      if verdict.release
      then await_gone w a.now a.still_there a.patches a.removes s recorded
          (elim recorded [ none ↦ reports | some r ↦ [] ])
      else (elim recorded [
        | some reason ↦ hold_recheck w a.now a.patches s reason
        | none ↦ act_on_hold a.patches impersonates verdict s
      ])

  -- The verdict that comes before the identity.
  unfoldable pub early_release :
      Policy → (delete_data : Bool) → (identities : List String) → Subject → Bool
  unfolding is_prune_disabled is_inventory_empty
  early_release policy delete_data identities s =
      let (planned, claims) = split_kept_claims s.entries delete_data in
      let plan = library.new_plan planned policy (first_identity identities) in
      let because = (library.may_release plan library.zero_state available).because in
      is_prune_disabled because || (is_inventory_empty because && is_empty claims)

  -- The verdict of a cleanup without an identity.
  unfoldable pub lost_reason :
      Policy → (delete_data : Bool) → (identities : List String) → Subject → Identity → HoldReason
  unfolding held_of
  lost_reason policy delete_data identities s identity =
      let (planned, claims) = split_kept_claims s.entries delete_data in
      let plan = library.new_plan planned policy (first_identity identities) in
      (library.may_release plan library.zero_state (held_of identity)).because

  -- runDeletionCleanup. `reports` are the events for kept claims and for objects left behind.
  unfoldable pub run_deletion_cleanup :
      DeletionWait
      → Policy
      → (delete_data : Bool) → (identities : List String) → (reports : List String)
      → Answers Plan State
      → Subject
      → Ending
  unfolding early_release lost_reason act_on_lost_identity after_run release_finalizer with_defaults
  run_deletion_cleanup wait policy delete_data identities reports a s =
      let w = with_defaults wait in
      let recorded = recorded_wait_reason s in
      if early_release policy delete_data identities s
      then release_finalizer a.removes s []
      else (elim a.identity [
        | usable impersonates ↦ elim a.ran [
          | none ↦ record { subject = s; events = []; requeue = error }
          | some runs ↦ after_run w a impersonates reports s recorded runs
        ]
        | missing gone ↦
            act_on_lost_identity w a.now a.patches a.removes (missing gone)
              (lost_reason policy delete_data identities s (missing gone)) s recorded
        | failed ↦
            act_on_lost_identity w a.now a.patches a.removes failed
              (lost_reason policy delete_data identities s failed) s recorded
      ])
