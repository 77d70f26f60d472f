-- ===== src/Apply/Tests.antt =====
-- A forced apply that takes one object in and renders a claim, and an apply that is retried.
use opm_operator.Prelude.{
  ℕ, ◌+◌, ◌*◌, String, true, false, List, [], ◌∷◌, none, some, str_eq, if◌then◌else◌, ◌≡◌, ◌≢◌, ◌↔◌,
  refl, arith, All,
}
use opm_operator.Prelude.Dicts.{lookup, insert}
use opm_operator.Reconcile.Restore.{Rendered}
use opm_operator.Instance.State.{ApplyOptions}
use opm_operator.Apply.Objects.{ObjectKey, object_eq, object_of, no_kind, pending_crd_kind}
use opm_operator.Apply.Staged.{
  DryRun, accepted, immutable, ClaimRead, claim_found, is_core_claim, stage, guard_delete, deletes,
}
use opm_operator.Apply.Staged.Safety.{IsKept, IsKeptClaim, stage-none_iff, guard_delete-protects}
use opm_operator.Apply.Retry.{
  Round, ApplyEnd, apply_failed, apply_with_retry, retry_loop, after_round, wait_round,
  retry_interval, IsClock, apply_with_retry-ends,
}

abbrev web : Rendered
web = record {
  pointer = 1;
  group = "apps";
  version = "v1";
  kind = "Deployment";
  namespace = "n";
  name = "web";
  has_ttl = false;
  uid = "";
  instance_uuid = "i";
  spec_group = "";
  spec_kind = "";
  provides = some [];
}

abbrev data_claim : Rendered
data_claim = record {
  pointer = 2;
  group = "";
  version = "v1";
  kind = "PersistentVolumeClaim";
  namespace = "n";
  name = "data";
  has_ttl = false;
  uid = "";
  instance_uuid = "i";
  spec_group = "";
  spec_kind = "";
  provides = some [];
}

abbrev backups : Rendered
backups = record {
  pointer = 3;
  group = "apiextensions.k8s.io";
  version = "v1";
  kind = "CustomResourceDefinition";
  namespace = "";
  name = "backups.example.com";
  has_ttl = false;
  uid = "";
  instance_uuid = "i";
  spec_group = "example.com";
  spec_kind = "Backup";
  provides = some [];
}

abbrev trim : String → String
trim s = s

-- The size of the claim is immutable.
abbrev dry_run : Rendered → DryRun
dry_run r =
    if str_eq r.kind "PersistentVolumeClaim" then immutable ("spec.resources" ∷ []) else accepted

abbrev read_claim : Rendered → ClaimRead
read_claim r = claim_found

abbrev forced : ApplyOptions
forced = record {
  force = true;
  delete_data = false;
  taken_in = record { object = object_of web; uid = "uid-1" } ∷ [];
}

abbrev rendered : List Rendered
rendered = web ∷ data_claim ∷ []

stage-none_iff_example : ((stage trim dry_run read_claim rendered forced).2 ≡ none) ↔ (
    forced.force ≡ true
    → All
        (λ r.
          lookup (object_of r) (stage trim dry_run read_claim rendered forced).1.kept ≢ none
          → IsKept (dry_run r))
        (stage trim dry_run read_claim rendered forced).0
      × (forced.delete_data ≡ false
          → All
              (λ r. is_core_claim (object_of r) ≡ true → IsKeptClaim (read_claim r) (dry_run r))
              (stage trim dry_run read_claim rendered forced).0))
stage-none_iff_example = stage-none_iff trim dry_run read_claim rendered forced

abbrev crd : ObjectKey
crd = object_of backups

abbrev read_uid : String
read_uid = "uid-3"

goes_through :
    guard_delete (stage trim dry_run read_claim rendered forced).1 crd read_uid
    ≡ deletes (some read_uid)
unfolding guard_delete stage is_core_claim lookup insert object_of
goes_through = refl

guard_delete-protects_example :
    All (λ p. p.object ≢ crd) forced.taken_in
    × (is_core_claim crd ≡ true → forced.delete_data ≡ true)
    × (some read_uid ≡ (if str_eq read_uid "" then none else some read_uid))
guard_delete-protects_example =
    guard_delete-protects trim dry_run read_claim rendered forced crd read_uid (some read_uid)
      goes_through

-- The kind is never served.
abbrev never : ℕ → Round
never i = record {
  changes = none;
  err = some (no_kind "example.com" "Backup");
  context_over = false;
  interrupted = false;
  over_in_wait = false;
  asked_at = i * retry_interval;
  woken_at = i * retry_interval + retry_interval;
}

never-IsClock : IsClock (backups ∷ []) never
never-IsClock = record { waits = λ i. omega arith; forward = λ i. omega arith }

apply_with_retry-ends_example : (r : ApplyEnd) × (apply_with_retry (backups ∷ []) never ≡ some r)
apply_with_retry-ends_example = apply_with_retry-ends (backups ∷ []) never never-IsClock

gives_up :
    apply_with_retry (backups ∷ []) never ≡ some (apply_failed (no_kind "example.com" "Backup"))
unfolding apply_with_retry pending_crd_kind retry_loop after_round wait_round
gives_up = refl
