-- ===== src/Apply/Objects.antt =====
-- What names an object of the cluster, the errors of a read, and the custom kinds a render defines
-- (objectOf of internal/apply/takein.go, crdKinds and pendingCRDKind of apply.go).
use opm_operator.Prelude.{
  String, ◌≡◌, ◌↔◌, Bool, true, false, ◌&&◌, ◌||◌, not, List, [], ◌∷◌, arith, str_eq, eq_iff,
  if◌then◌else◌,
}
use opm_operator.Prelude.Dicts.{Eq}
use opm_operator.Reconcile.Health.{InventoryEntry}
use opm_operator.Reconcile.Restore.{Rendered}

-- What tells the objects of a cluster apart.
pub record ObjectKey : Type 0 where
  pub group : String
  pub kind : String
  pub namespace : String
  pub name : String

abbrev same_object : ObjectKey → ObjectKey → Bool
same_object a b =
    str_eq a.group b.group
    && str_eq a.kind b.kind
    && str_eq a.namespace b.namespace
    && str_eq a.name b.name

pub same_object_iff : (a b : ObjectKey) → (same_object a b ≡ true) ↔ (a ≡ b)
same_object_iff a b = ground (
  arith,
  eq_iff a.group b.group,
  eq_iff a.kind b.kind,
  eq_iff a.namespace b.namespace,
  eq_iff a.name b.name,
)

instance abbrev pub object_eq : Eq ObjectKey
object_eq = record { beq = same_object; beq_iff = same_object_iff }

-- objectOf
unfoldable pub object_of : Rendered → ObjectKey
object_of r = record { group = r.group; kind = r.kind; namespace = r.namespace; name = r.name }

unfoldable pub entry_object : InventoryEntry → ObjectKey
entry_object e = record { group = e.group; kind = e.kind; namespace = e.namespace; name = e.name }

-- Why a read failed, other than that the object is missing.
pub data ReadError : Type 0 where
  no_kind : (group kind : String) → ReadError
  no_resource : (group : String) → ReadError
  other_error : (text : String) → ReadError

-- crdKinds: the group and the kind that each CustomResourceDefinition defines
unfoldable pub crd_kinds : List Rendered → List (String × String)
crd_kinds [] = []
crd_kinds (r ∷ rs) =
    let rest = crd_kinds rs in
    if not (str_eq r.group "apiextensions.k8s.io") || not (str_eq r.kind "CustomResourceDefinition")
    then rest
    else if str_eq r.spec_group "" || str_eq r.spec_kind ""
    then rest
    else (r.spec_group, r.spec_kind) ∷ rest

-- defined[kindErr.GroupKind]
unfoldable pub defines_kind : String → String → List (String × String) → Bool
defines_kind g k [] = false
defines_kind g k ((h, l) ∷ rest) = (str_eq h g && str_eq l k) || defines_kind g k rest

-- Whether some defined kind is of the group.
unfoldable pub defines_group : String → List (String × String) → Bool
defines_group g [] = false
defines_group g ((h, l) ∷ rest) = str_eq h g || defines_group g rest

-- pendingCRDKind
unfoldable pub pending_crd_kind : ReadError → List Rendered → Bool
unfolding crd_kinds defines_kind defines_group
pending_crd_kind (no_kind g k) rs = defines_kind g k (crd_kinds rs)
pending_crd_kind (no_resource g) rs = defines_group g (crd_kinds rs)
pending_crd_kind (other_error t) rs = false
