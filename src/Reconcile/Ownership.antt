-- ===== src/Reconcile/Ownership.antt =====
-- internal/reconcile/ownership.go: what the apply guard means for one reconcile that renders.
pub mod Held
mod Tests
use opm_operator.Prelude.{
  ℕ, String, ◌⊎◌, inl, inr, Bool, true, false, ◌&&◌, ◌||◌, not, List, [], ◌∷◌, map, Option, none,
  some, length, is_empty, ◌==◌, if◌then◌else◌,
}
use opm_operator.Status.Conditions.{ConditionStatus, is_true}
use opm_operator.Reconcile.Health.{InventoryEntry}
use opm_operator.Reconcile.Restore.{Rendered}
use opm_operator.Apply.Objects.{ObjectKey, ReadError}
use opm_operator.Apply.Guard.{
  ApplyRules, LiveRead, Judged, Pin, GuardAnswer, sorted, no_identity, unread, guard,
}

-- Why a guard reached no verdict.
pub data GuardError : Type 0 where
  without_identity : GuardError
  unreadable : ObjectKey → ReadError → GuardError

-- guardedApply
pub record GuardedApply (V : Type 0) : Type 0 where
  pub err : Option GuardError
  pub allowed : List Rendered
  pub taken_in : List Rendered
  pub pins : List Pin
  pub let_go : List (Judged V)
  pub refused : List (Judged V)
  pub adopted : ℕ

unfoldable pub unjudged : {V : Type 0} → Option GuardError → List Rendered → ℕ → GuardedApply V
unjudged err apply_list adopted_at_start = record {
  err = err;
  allowed = apply_list;
  taken_in = [];
  pins = [];
  let_go = [];
  refused = [];
  adopted = adopted_at_start;
}

-- What guardApply makes of the answer of Guard.
unfoldable pub guarded_by : {V : Type 0} → GuardAnswer V → List Rendered → ℕ → GuardedApply V
unfolding unjudged
guarded_by no_identity apply_list adopted_at_start =
    unjudged (some without_identity) apply_list adopted_at_start
guarded_by (unread obj err) apply_list adopted_at_start =
    unjudged (some (unreadable obj err)) apply_list adopted_at_start
guarded_by (sorted g) apply_list adopted_at_start = record {
  err = none;
  allowed = g.allowed;
  taken_in = g.taken_in;
  pins = g.pins;
  let_go = g.let_go;
  refused = g.refused;
  adopted = length g.let_go;
}

-- guardApply: `identity_err` is whether the client that applies could not be built.
unfoldable pub guard_apply :
    {L V : Type 0}
    → ApplyRules L V
    → (identity_err : Bool) → (get : Rendered → LiveRead L) → (apply_list : List Rendered)
    → (inventory : List InventoryEntry) → (identity : String) → (adopted_at_start : ℕ)
    → GuardedApply V
unfolding unjudged guarded_by
guard_apply rules true get apply_list inventory identity adopted_at_start =
    unjudged none apply_list adopted_at_start
guard_apply rules false get apply_list inventory identity adopted_at_start =
    guarded_by (guard rules inventory identity get apply_list) apply_list adopted_at_start

-- failsApply
unfoldable pub fails_apply : Option GuardError → (digests_unchanged : Bool) → Bool
fails_apply none digests_unchanged = false
fails_apply (some without_identity) digests_unchanged = true
fails_apply (some (unreadable obj err)) digests_unchanged = not digests_unchanged

-- Whether some judged object is in the inventory.
unfoldable pub any_in_inventory : {V : Type 0} → List (Judged V) → Bool
any_in_inventory [] = false
any_in_inventory (j ∷ js) = j.in_inventory || any_in_inventory js

-- changesInventory
unfoldable pub changes_inventory : {V : Type 0} → GuardedApply V → Bool
unfolding any_in_inventory
changes_inventory g = not (is_empty g.taken_in) || any_in_inventory g.let_go

-- The loop of refusedToWrite.
unfoldable pub outside_inventory : {V : Type 0} → List (Judged V) → List (Judged V)
outside_inventory [] = []
outside_inventory (j ∷ js) =
    let rest = outside_inventory js in if j.in_inventory then rest else j ∷ rest

-- refusedToWrite
unfoldable pub refused_to_write :
    {V : Type 0} → List (Judged V) → (keeps_inventoried : Bool) → List (Judged V)
unfolding outside_inventory
refused_to_write refused keeps_inventoried =
    if keeps_inventoried then outside_inventory refused else refused

-- judgedObjects
unfoldable pub judged_objects : {V : Type 0} → List (Judged V) → List Rendered
judged_objects [] = []
judged_objects (j ∷ js) = j.object ∷ judged_objects js

-- dropped[obj]: the pointers are compared.
unfoldable pub has_pointer : Rendered → List Rendered → Bool
has_pointer r [] = false
has_pointer r (d ∷ ds) = (d.pointer == r.pointer) || has_pointer r ds

-- The loop of withoutObjects.
unfoldable pub keep_objects : (drop : List Rendered) → List Rendered → List Rendered
unfolding has_pointer
keep_objects drop [] = []
keep_objects drop (r ∷ rs) =
    let rest = keep_objects drop rs in if has_pointer r drop then rest else r ∷ rest

-- withoutObjects
unfoldable pub without_objects : List Rendered → (drop : List Rendered) → List Rendered
unfolding keep_objects
without_objects list drop = if is_empty drop then list else keep_objects drop list

-- adoptedBefore: `counted` is what AdoptedElsewhereCount reads in the message of Ready.
unfoldable pub adopted_before : (counted : String → ℕ) → Option (ConditionStatus × String) → ℕ
adopted_before counted none = 0
adopted_before counted (some (is_true, message)) = counted message
adopted_before counted (some (_, message)) = 0

-- reportAdoptedElsewhere: whether it emits its event
unfoldable pub reports_adopted_elsewhere : {V : Type 0} → List (Judged V) → (before : ℕ) → Bool
reports_adopted_elsewhere let_go before = not (is_empty let_go || (length let_go == before))
