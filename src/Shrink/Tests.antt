-- ===== src/Shrink/Tests.antt =====
-- A provider that drops a contract which one of two instances demands.
use opm_operator.Prelude.{String, ◌≡◌, refl, false, List, [], ◌∷◌, some}
use opm_operator.Reconcile.Restore.{Rendered}
use opm_operator.Shrink.{Decision, is_claim, Demand, StoredClaim, stored, decide}
use opm_operator.Shrink.Demanded.{IsVerdict, decide-IsVerdict}

abbrev claim : Rendered
claim = record {
  pointer = 1;
  group = "opmodel.dev";
  version = "v1alpha1";
  kind = "TransformerRegistration";
  namespace = "";
  name = "redis";
  has_ttl = false;
  uid = "";
  instance_uuid = "i";
  spec_group = "";
  spec_kind = "";
  provides = some ("cache@v2" ∷ []);
}

abbrev reads : String → StoredClaim
reads name = stored ("cache@v1" ∷ "cache@v2" ∷ [])

abbrev demanding : List Demand
demanding =
    record { namespace = "shop"; name = "web"; required = "cache@v1" ∷ [] }
    ∷ record { namespace = "shop"; name = "api"; required = "cache@v2" ∷ [] }
    ∷ []

decide-IsVerdict_example :
    (d : Decision) × (decide reads (some demanding) claim ≡ some d)
    × IsVerdict ("cache@v1" ∷ "cache@v2" ∷ []) ("cache@v2" ∷ []) demanding d
unfolding is_claim
decide-IsVerdict_example =
    decide-IsVerdict reads (some demanding) claim ("cache@v2" ∷ []) ("cache@v1" ∷ "cache@v2" ∷ [])
      demanding refl refl refl refl
