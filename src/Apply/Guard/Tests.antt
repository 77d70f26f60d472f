-- ===== src/Apply/Guard/Tests.antt =====
-- One object that exists outside the inventory, and one that another instance adopted.
use opm_operator.Prelude.{String, Bool, true, false, [], ◌∷◌, some, str_eq}
use opm_operator.Reconcile.Restore.{Rendered}
use opm_operator.Apply.Guard.{ApplyRules, LiveRead, live, guard}
use opm_operator.Apply.Guard.Sorted.{IsRight, guard-IsRight}

-- A verdict is whether it allows the object.
abbrev rules : ApplyRules String Bool
rules = record {
  can_apply = λ obj found held identity. str_eq obj.name "web";
  allowed = λ v. v;
  adopted_elsewhere = λ v. true;
  uid_of = λ l. l;
}

abbrev named : String → Rendered
named name = record {
  pointer = 1;
  group = "apps";
  version = "v1";
  kind = "Deployment";
  namespace = "n";
  name = name;
  has_ttl = false;
  uid = "";
  instance_uuid = "i";
  spec_group = "";
  spec_kind = "";
  provides = some [];
}

abbrev get : Rendered → LiveRead String
get r = live "uid-1"

guard-IsRight_example :
    IsRight rules [] "i" get
      (named "web" ∷ named "db" ∷ [])
      (guard rules [] "i" get (named "web" ∷ named "db" ∷ []))
guard-IsRight_example = guard-IsRight rules [] "i" get (named "web" ∷ named "db" ∷ [])
