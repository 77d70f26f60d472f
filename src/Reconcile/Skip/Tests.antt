-- ===== src/Reconcile/Skip/Tests.antt =====
-- A render, and a skip of the next one forty nanoseconds later.
use opm_operator.Prelude.{String, List, [], ◌∷◌, none, some}
use opm_operator.Status.Digests.{RenderInputKey}
use opm_operator.Status.Conditions.{Condition, is_true}
use opm_operator.Reconcile.Skip.{record_inputs}
use opm_operator.Reconcile.Skip.Soundness.{World, recorded_render, failed_render}

abbrev hash : String → String
hash s = s

abbrev key : RenderInputKey
key = record {
  source = "s";
  config = "c";
  package_identity = "gen-1";
  skew_policy = "Warn";
  controller_version = "v1";
  library_version = "v2";
}

abbrev ready : List Condition
ready =
    record { kind = "Ready"; status = is_true; reason = "ReconciliationSucceeded"; message = "" }
    ∷ []

-- The render fails first.
abbrev rendered : World hash
rendered = record {
  field = record_inputs hash none (some key) 10;
  conditions = ready;
  renders = recorded_render key 10 ∷ failed_render key ∷ [];
}
