-- ===== src/Apply/Staged.antt =====
-- What goes before a staged apply, and what its deletes pass: Apply of internal/apply/apply.go,
-- takein.go, and claims.go.
pub mod Safety
use opm_operator.Prelude.{
  String, Bool, true, false, ◌&&◌, ◌||◌, not, List, [], ◌∷◌, ◌++◌, Option, none, some, str_eq,
  is_empty, if◌then◌else◌,
}
use opm_operator.Prelude.Dicts.{lookup, insert}
use opm_operator.Prelude.Texts.{contains}
use opm_operator.Reconcile.Restore.{Rendered}
use opm_operator.Apply.Objects.{ObjectKey, object_eq, object_of}
use opm_operator.Apply.Guard.{Pin}
use opm_operator.Instance.State.{ApplyOptions}

-- The pins by object, as pinTakenIn and keepTakenIn collect them: a later pin replaces an earlier.
unfoldable pub pins_by_object : List Pin → List (ObjectKey × String) → List (ObjectKey × String)
pins_by_object [] m = m
pins_by_object (p ∷ pins) m = pins_by_object pins (insert p.object p.uid m)

-- The body of the loop of pinTakenIn
unfoldable pub pin_resource : List (ObjectKey × String) → Rendered → Rendered
pin_resource uids r = elim (lookup (object_of r) uids) [
  | none ↦ r
  | some uid ↦ if str_eq uid "" then r else record r { uid = uid }
]

unfoldable pub pin_all : List (ObjectKey × String) → List Rendered → List Rendered
unfolding pin_resource
pin_all uids [] = []
pin_all uids (r ∷ rs) = pin_resource uids r ∷ pin_all uids rs

-- pinTakenIn
unfoldable pub pin_taken_in : List Rendered → List Pin → List Rendered
unfolding pins_by_object
pin_taken_in rs pins = pin_all (pins_by_object pins []) rs

-- isCoreClaim, on an object
unfoldable pub is_core_claim : ObjectKey → Bool
is_core_claim o = str_eq o.group "" && str_eq o.kind "PersistentVolumeClaim"

-- What a dry-run of a forced update answers; `causes` are the fields that the API server names.
pub data DryRun : Type 0 where
  accepted : DryRun
  immutable : (causes : List String) → DryRun
  other_refusal : DryRun

pub data ClaimRead : Type 0 where
  claim_found claim_missing claim_unread : ClaimRead

-- The errors of a check before the first write
pub data ApplyConflict : Type 0 where
  taken_in_conflict : ObjectKey → (fields : List String) → ApplyConflict
  claim_conflict : ObjectKey → (fields : List String) → ApplyConflict
  unread_claim : ObjectKey → ApplyConflict

-- The loop of refusedFields, over the trimmed fields of the causes
unfoldable pub distinct_fields : (seen : List String) → List String → List String
distinct_fields seen [] = []
distinct_fields seen (f ∷ fs) =
    let rest = distinct_fields (if str_eq f "" || contains seen f then seen else f ∷ seen) fs in
    if str_eq f "" || contains seen f then rest else f ∷ rest

-- The context of an apply: the pins it keeps, and whether it may delete claims
pub record ApplyContext : Type 0 where
  pub kept : List (ObjectKey × String)
  pub deletes_claims : Bool

module _ (trim : String → String) (dry_run : Rendered → DryRun)
    (read_claim : Rendered → ClaimRead) where
  unfoldable pub trim_all : List String → List String
  trim_all [] = []
  trim_all (f ∷ fs) = trim f ∷ trim_all fs

  -- refusedFields
  unfoldable pub refused_fields : (causes : List String) → List String
  unfolding trim_all distinct_fields
  refused_fields causes = distinct_fields [] (trim_all causes)

  -- checkTakenIn, after the dry-run of one object
  unfoldable pub after_dry_run :
      (conflict : List String → ApplyConflict)
      → DryRun
      → (rest : Option ApplyConflict) → Option ApplyConflict
  after_dry_run conflict accepted rest = rest
  after_dry_run conflict (immutable causes) rest = some (conflict (refused_fields causes))
  after_dry_run conflict other_refusal rest = rest

  -- checkTakenIn
  unfoldable pub check_taken_in : List (ObjectKey × String) → List Rendered → Option ApplyConflict
  unfolding after_dry_run
  check_taken_in taken [] = none
  check_taken_in taken (r ∷ rs) =
      let rest = check_taken_in taken rs in
      elim (lookup (object_of r) taken) [
        | none ↦ rest
        | some uid ↦ after_dry_run (taken_in_conflict (object_of r)) (dry_run r) rest
      ]

  -- checkClaims, after the read of one claim
  unfoldable pub after_claim_read :
      Rendered → ClaimRead → (rest : Option ApplyConflict) → Option ApplyConflict
  unfolding after_dry_run
  after_claim_read r claim_missing rest = rest
  after_claim_read r claim_unread rest = some (unread_claim (object_of r))
  after_claim_read r claim_found rest =
      after_dry_run (claim_conflict (object_of r)) (dry_run r) rest

  -- checkClaims
  unfoldable pub check_claims : List Rendered → Option ApplyConflict
  unfolding is_core_claim
  check_claims [] = none
  check_claims (r ∷ rs) =
      let rest = check_claims rs in
      if not (is_core_claim (object_of r)) then rest else after_claim_read r (read_claim r) rest

  -- The second switch of Apply
  unfoldable pub before_claims : ApplyOptions → List Rendered → Option ApplyConflict
  before_claims opts rs =
      if opts.delete_data then none else if opts.force then check_claims rs else none

  -- Apply, up to the staged apply: what it would apply and under which context, or the conflict
  unfoldable pub stage :
      List Rendered → ApplyOptions → List Rendered × ApplyContext × Option ApplyConflict
  unfolding pin_taken_in pins_by_object before_claims
  stage rs opts =
      let pins = pins_by_object opts.taken_in [] in
      let pinned = if is_empty opts.taken_in then rs else pin_taken_in rs opts.taken_in in
      let taken =
        if is_empty opts.taken_in
        then none
        else if opts.force
        then check_taken_in pins pinned
        else none in
      (
        pinned,
        record { kept = pins; deletes_claims = opts.delete_data },
        elim taken [ none ↦ before_claims opts pinned | some conflict ↦ some conflict ],
      )

-- What deleteGuard.Delete does: a refusal, or a delete with the precondition on the UID, if any.
pub data GuardedDelete : Type 0 where
  refuses : ApplyConflict → GuardedDelete
  deletes : (precondition : Option String) → GuardedDelete

-- deleteGuard.Delete
unfoldable pub guard_delete : ApplyContext → ObjectKey → (uid : String) → GuardedDelete
unfolding is_core_claim
guard_delete c o uid = elim (lookup o c.kept) [
  | some pin ↦ refuses (taken_in_conflict o [])
  | none ↦
      if is_core_claim o && not c.deletes_claims
      then refuses (claim_conflict o [])
      else if str_eq uid ""
      then deletes none
      else deletes (some uid)
]
