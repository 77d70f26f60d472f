-- ===== src/Reconcile/Restore.antt =====
-- internal/apply/drift.go, and what a reconcile with unchanged digests does about missing objects:
-- planRestore, expiredJobs, withoutEntries, forgetExpiredJobs, forgetLetGo and nextInventory of
-- internal/reconcile/moduleinstance.go.
pub mod Plan
pub mod Forget
mod Tests
use opm_operator.Prelude.{
  ℕ, suc, String, Bool, true, false, ◌&&◌, ◌||◌, not, List, [], ◌∷◌, ◌++◌, map, Option, none, some,
  str_eq, is_empty, length, ◌==◌, if◌then◌else◌,
}
use opm_operator.Prelude.Int64.{ℤ, pos, inc64}
use opm_operator.Reconcile.Health.{InventoryEntry}

-- A rendered object, as far as the controller looks at it. Two objects of one render are told
-- apart by `pointer`, the address Go holds them by.
pub record Rendered : Type 0 where
  pub pointer : ℕ
  pub group : String
  pub version : String
  pub kind : String
  pub namespace : String
  pub name : String
  -- whether spec.ttlSecondsAfterFinished is set
  pub has_ttl : Bool
  -- metadata.uid, empty unless an apply pins the object
  pub uid : String
  -- the label of the instance UUID
  pub instance_uuid : String
  -- spec.group and spec.names.kind, empty where they are absent
  pub spec_group : String
  pub spec_kind : String
  -- spec.provides, nothing where it is no list of strings
  pub provides : Option (List String)

-- status.inventory
pub record Inventory : Type 0 where
  pub revision : ℤ
  pub digest : String
  pub count : ℕ
  pub entries : List InventoryEntry

-- What the dry-run of one object answers.
pub data DiffAction : Type 0 where
  created configured unchanged : DiffAction

pub record DriftResult : Type 0 where
  pub drifted : Bool
  pub resources : List Rendered
  pub missing : List Rendered

-- The loop of DetectDrift; `diff` is the resource manager's dry-run, nothing on an error.
unfoldable pub diff_all :
    (diff : Rendered → Option DiffAction) → List Rendered → Option (List Rendered × List Rendered)
diff_all diff [] = some ([], [])
diff_all diff (r ∷ rs) =
    let rest = diff_all diff rs in
    elim (diff r) [
      | none ↦ none
      | some action ↦ elim rest [
        | none ↦ none
        | some (drifted, missing) ↦ elim action [
          | created ↦ some (drifted, r ∷ missing)
          | configured ↦ some (r ∷ drifted, missing)
          | unchanged ↦ some (drifted, missing)
        ]
      ]
    ]

-- DetectDrift
unfoldable pub detect_drift :
    (diff : Rendered → Option DiffAction) → List Rendered → Option DriftResult
unfolding diff_all
detect_drift diff rs = elim (diff_all diff rs) [
  | none ↦ none
  | some (drifted, missing) ↦
      some (record { drifted = not (is_empty drifted); resources = drifted; missing = missing })
]

-- expiresAfterFinish
unfoldable pub expires_after_finish : Rendered → Bool
expires_after_finish r =
    if not (str_eq r.group "batch") || not (str_eq r.kind "Job") then false else r.has_ttl

-- Restorable
unfoldable pub restorable : List Rendered → List Rendered
unfolding expires_after_finish
restorable [] = []
restorable (r ∷ rs) = let rest = restorable rs in if expires_after_finish r then rest else r ∷ rest

-- Expired
unfoldable pub expired : List Rendered → List Rendered
unfolding expires_after_finish
expired [] = []
expired (r ∷ rs) = let rest = expired rs in if expires_after_finish r then r ∷ rest else rest

-- planRestore: what to apply, whether the reconcile is still a no-op, and whether it restores.
unfoldable pub plan_restore :
    (is_no_op : Bool) → (missing taken_in apply_list : List Rendered) → List Rendered × Bool × Bool
unfolding restorable
plan_restore false missing taken_in apply_list = (apply_list, false, false)
plan_restore true missing taken_in apply_list =
    if is_empty (restorable missing) && is_empty taken_in
    then (apply_list, true, false)
    else (restorable missing ++ taken_in, false, true)

-- expiredJobs
unfoldable pub expired_jobs : (digests_unchanged : Bool) → List Rendered → List Rendered
unfolding expired
expired_jobs digests_unchanged missing = if digests_unchanged then expired missing else []

-- Whether two entries have one key: group, kind, namespace and name.
unfoldable pub same_key : InventoryEntry → InventoryEntry → Bool
same_key a b =
    str_eq a.group b.group
    && str_eq a.kind b.kind
    && str_eq a.namespace b.namespace
    && str_eq a.name b.name

-- drop[key]
unfoldable pub has_key : InventoryEntry → List InventoryEntry → Bool
unfolding same_key
has_key e [] = false
has_key e (d ∷ ds) = if same_key e d then true else has_key e ds

unfoldable pub keep_entries :
    (drop : List InventoryEntry) → List InventoryEntry → List InventoryEntry
unfolding has_key
keep_entries drop [] = []
keep_entries drop (e ∷ es) =
    let rest = keep_entries drop es in if has_key e drop then rest else e ∷ rest

module _ (entry_of : Rendered → InventoryEntry) where
  -- withoutEntries; `entry_of` is the library's NewEntry.
  unfoldable pub without_entries : List InventoryEntry → List Rendered → List InventoryEntry
  unfolding keep_entries
  without_entries entries objs =
      if is_empty objs then entries else keep_entries (map entry_of objs) entries

  -- forgetExpiredJobs and forgetLetGo, which differ in their log line
  unfoldable pub forget : Option Inventory → List Rendered → Option Inventory
  unfolding without_entries
  forget none objs = none
  forget (some inv) objs =
      let kept = without_entries inv.entries objs in
      if length kept == length inv.entries
      then some inv
      else some (record inv { entries = kept; count = length kept })

-- nextInventory; `digest_of` is the library's Digest.
unfoldable pub next_inventory :
    (digest_of : List InventoryEntry → String) → Option Inventory → List InventoryEntry → Inventory
next_inventory digest_of prev entries = record {
  revision = elim prev [ none ↦ pos 1 | some inv ↦ inc64 inv.revision ];
  digest = digest_of entries;
  count = length entries;
  entries = entries;
}
