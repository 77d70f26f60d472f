-- ===== src/Reconcile/Restore/Tests.antt =====
-- A missing Deployment beside a finished Job that the cluster removed.
use opm_operator.Prelude.{◌≡◌, refl, true, false, List, [], ◌∷◌, some, Memᴰ}
use opm_operator.Prelude.Int64.{pos}
use opm_operator.Reconcile.Health.{InventoryEntry}
use opm_operator.Reconcile.Restore.{Rendered, Inventory, plan_restore}
use opm_operator.Reconcile.Restore.Plan.{IsRestored, plan_restore-IsRestored}

abbrev deployment : Rendered
deployment = record {
  group = "apps";
  version = "v1";
  kind = "Deployment";
  namespace = "n";
  name = "web";
  has_ttl = false;
  pointer = 1;
  uid = "";
  instance_uuid = "i";
  spec_group = "";
  spec_kind = "";
  provides = some [];
}

abbrev job : Rendered
job = record {
  group = "batch";
  version = "v1";
  kind = "Job";
  namespace = "n";
  name = "once";
  has_ttl = true;
  pointer = 2;
  uid = "";
  instance_uuid = "i";
  spec_group = "";
  spec_kind = "";
  provides = some [];
}

abbrev entry_of : Rendered → InventoryEntry
entry_of r = record {
  group = r.group;
  version = r.version;
  kind = r.kind;
  namespace = r.namespace;
  name = r.name;
  component = "";
}

abbrev inventory : Inventory
inventory = record {
  revision = pos 4;
  digest = "d";
  count = 2;
  entries = entry_of deployment ∷ entry_of job ∷ [];
}

abbrev missing : List Rendered
missing = job ∷ deployment ∷ []

restores : (plan_restore true missing [] (job ∷ deployment ∷ [])).2 ≡ true
unfolding plan_restore
restores = refl

applies : Memᴰ deployment (plan_restore true missing [] (job ∷ deployment ∷ [])).0
unfolding plan_restore
applies = Memᴰ.head refl

plan_restore-IsRestored_example :
    IsRestored missing []
      (job ∷ deployment ∷ [])
      (plan_restore true missing [] (job ∷ deployment ∷ []))
plan_restore-IsRestored_example = plan_restore-IsRestored missing [] (job ∷ deployment ∷ [])
