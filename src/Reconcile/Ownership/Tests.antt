-- ===== src/Reconcile/Ownership/Tests.antt =====
-- A guard over one object that the cluster does not have.
use opm_operator.Prelude.{String, ◌⊎◌, Bool, true, false, [], ◌∷◌, some}
use opm_operator.Reconcile.Restore.{Rendered}
use opm_operator.Apply.Guard.{ApplyRules, LiveRead, not_found}
use opm_operator.Reconcile.Ownership.{guard_apply}
use opm_operator.Reconcile.Ownership.Held.{IsHeld, IsUnheld, guard_apply-IsHeld}

abbrev rules : ApplyRules String Bool
rules = record {
  can_apply = λ obj found held identity. true;
  allowed = λ v. v;
  adopted_elsewhere = λ v. false;
  uid_of = λ l. l;
}

abbrev service : Rendered
service = record {
  pointer = 1;
  group = "";
  version = "v1";
  kind = "Service";
  namespace = "n";
  name = "web";
  has_ttl = false;
  uid = "";
  instance_uuid = "i";
  spec_group = "";
  spec_kind = "";
  provides = some [];
}

abbrev get : Rendered → LiveRead String
get r = not_found

guard_apply-IsHeld_example :
    IsHeld rules [] "i" get (service ∷ []) 0 (guard_apply rules false get (service ∷ []) [] "i" 0)
    ⊎ IsUnheld rules [] "i" get
        (service ∷ [])
        0
        (guard_apply rules false get (service ∷ []) [] "i" 0)
guard_apply-IsHeld_example = guard_apply-IsHeld rules [] "i" get (service ∷ []) 0
