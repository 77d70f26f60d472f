-- ===== src/Apply/Guard.antt =====
-- internal/apply/guard.go: the apply guard. The library's apply verdict is a parameter.
pub mod Sorted
mod Tests
use opm_operator.Prelude.{
  String, ◌⊎◌, inl, inr, Bool, true, false, ◌||◌, List, [], ◌∷◌, Option, none, some, str_eq,
  is_empty, if◌then◌else◌,
}
use opm_operator.Prelude.Dicts.{Eq, eqb}
use opm_operator.Reconcile.Health.{InventoryEntry}
use opm_operator.Reconcile.Restore.{Rendered}
use opm_operator.Apply.Objects.{
  ObjectKey, object_eq, object_of, entry_object, ReadError, pending_crd_kind,
}

-- The library's opm/k8s/ownership over its verdicts `V` and the live objects `L`.
pub record ApplyRules (L V : Type 0) : Type 0 where
  -- CanApply
  pub can_apply : ObjectKey → Option L → (in_inventory : Bool) → (instance_uuid : String) → V
  -- verdict.Allowed()
  pub allowed : V → Bool
  -- verdict.Refuse == ownership.RefuseAdoptedElsewhere
  pub adopted_elsewhere : V → Bool
  -- metadata.uid of a live object
  pub uid_of : L → String

-- What the API server answers to a Get.
pub data LiveRead (L : Type 0) : Type 0 where
  live : L → LiveRead L
  not_found : LiveRead L
  read_failed : ReadError → LiveRead L

-- Judged
pub record Judged (V : Type 0) : Type 0 where
  pub object : Rendered
  pub verdict : V
  pub in_inventory : Bool

-- Pin
pub record Pin : Type 0 where
  pub object : ObjectKey
  pub uid : String

-- GuardResult
pub record GuardResult (V : Type 0) : Type 0 where
  pub allowed : List Rendered
  pub taken_in : List Rendered
  pub pins : List Pin
  pub let_go : List (Judged V)
  pub refused : List (Judged V)

-- What Guard returns: its result, ErrNoIdentity, or a GuardReadError.
pub data GuardAnswer (V : Type 0) : Type 0 where
  sorted : GuardResult V → GuardAnswer V
  no_identity : GuardAnswer V
  unread : ObjectKey → ReadError → GuardAnswer V

abbrev pub nothing_judged : {V : Type 0} → GuardResult V
nothing_judged = record { allowed = []; taken_in = []; pins = []; let_go = []; refused = [] }

-- Whether `inventoried` has the object.
unfoldable pub inventoried : ObjectKey → List InventoryEntry → Bool
unfolding entry_object
inventoried obj [] = false
inventoried obj (e ∷ es) = eqb (entry_object e) obj || inventoried obj es

module _ {L V : Type 0} (rules : ApplyRules L V) (inventory : List InventoryEntry)
    (identity : String) where
  -- The verdict on one object whose live object was read.
  unfoldable pub verdict_on : Rendered → Option L → V
  unfolding inventoried object_of
  verdict_on r found =
      rules.can_apply (object_of r) found (inventoried (object_of r) inventory) identity

  unfoldable pub judged_as : Rendered → Option L → Judged V
  unfolding verdict_on inventoried object_of
  judged_as r found = record {
    object = r;
    verdict = verdict_on r found;
    in_inventory = inventoried (object_of r) inventory;
  }

  -- The switch over the verdict, before the objects that are sorted already.
  unfoldable pub sort_in : Rendered → Option L → GuardResult V → GuardResult V
  unfolding verdict_on judged_as inventoried object_of
  sort_in r found g =
      if rules.allowed (verdict_on r found)
      then elim found [
        | none ↦ record g { allowed = r ∷ g.allowed }
        | some l ↦
            if inventoried (object_of r) inventory
            then record g { allowed = r ∷ g.allowed }
            else record g {
              allowed = r ∷ g.allowed;
              taken_in = r ∷ g.taken_in;
              pins = record { object = object_of r; uid = rules.uid_of l } ∷ g.pins;
            }
      ]
      else if rules.adopted_elsewhere (verdict_on r found)
      then record g { let_go = judged_as r found ∷ g.let_go }
      else record g { refused = judged_as r found ∷ g.refused }

  module _ (get : Rendered → LiveRead L) (resources : List Rendered) where
    -- The read of one object: nothing there, the live object, or an error.
    unfoldable pub read_object : Rendered → GuardAnswer V ⊎ Option L
    unfolding object_of pending_crd_kind
    read_object r = elim (get r) [
      | live l ↦ inr (some l)
      | not_found ↦ inr none
      | read_failed err ↦
          if pending_crd_kind err resources then inr none else inl (unread (object_of r) err)
    ]

    -- The loop of Guard.
    unfoldable pub guard_loop : List Rendered → GuardAnswer V
    unfolding read_object sort_in
    guard_loop [] = sorted nothing_judged
    guard_loop (r ∷ rs) =
        let rest = guard_loop rs in
        elim (read_object r) [
          | inl failure ↦ failure
          | inr found ↦ elim rest [ sorted g ↦ sorted (sort_in r found g) | failure ↦ failure ]
        ]

    -- Guard
    unfoldable pub guard : GuardAnswer V
    unfolding guard_loop
    guard =
        if is_empty resources
        then sorted nothing_judged
        else if str_eq identity ""
        then no_identity
        else guard_loop resources
