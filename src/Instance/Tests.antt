-- ===== src/Instance/Tests.antt =====
-- The first reconcile of an instance that renders one Deployment, which the cluster does not have.
use opm_operator.Prelude.{
  ℕ, refl, String, Bool, true, false, List, [], ◌∷◌, none, some, All, is_empty, length, ◌+◌, ◌&&◌,
  ◌==◌,
}
use opm_operator.Prelude.Int64.{pos}
use opm_operator.Prelude.Dicts.{string_eq, lookup, insert, delete}
use opm_operator.Status.Conditions.{Condition, is_true, Setter, marked}
use opm_operator.Reconcile.Health.{HealthRules, found}
use opm_operator.Reconcile.Restore.{Rendered, created}
use opm_operator.Apply.Guard.{ApplyRules, not_found}
use opm_operator.Shrink.{no_claim}
use opm_operator.Instance.State.{InstanceStatus}
use opm_operator.Instance.Answers.{Env, RenderResult, ConvertedRender, rendered, pruned}
use opm_operator.Instance.Rendering.{attempt}
use opm_operator.Instance.Commit.{reconcile}
use opm_operator.Instance.Endings.{IsEnded}
use opm_operator.Instance.Endings.Whole.{attempt-IsEnded}
use opm_operator.Instance.Recorded.{IsRecorded, reconcile-IsRecorded}
use opm_operator.Instance.Justified.Grounds.{IsJustified, attempt-IsJustified}

abbrev pub Conditions : Type 0
Conditions = List (String × Condition)

abbrev pub listed : Setter Conditions
listed = record {
  get = lookup;
  mark = λ s k r m c. insert k (marked s k r m) c;
  remove = delete;
  reconciling =
      λ r m c. insert "Reconciling" (marked is_true "Reconciling" r m) (delete "Stalled" c);
  stalled = λ r m c. insert "Stalled" (marked is_true "Stalled" r m) (delete "Reconciling" c);
}

-- A verdict is whether it allows the object: always.
abbrev rules : ApplyRules String Bool
rules = record {
  can_apply = λ obj found held identity. true;
  allowed = λ v. v;
  adopted_elsewhere = λ v. false;
  uid_of = λ l. l;
}

abbrev health_rules : HealthRules Bool Bool
health_rules = record {
  evaluate = λ o. o;
  missing_status = false;
  status_string = λ s. "Status";
  is_healthy = λ s. s;
  progress_deadline_exceeded = λ o. false;
  aggregate = λ ss n. (is_empty ss && n == 0, length ss, length ss + n);
}

abbrev pub deployment : Rendered
deployment = record {
  pointer = 1;
  group = "apps";
  version = "v1";
  kind = "Deployment";
  namespace = "n";
  name = "web";
  has_ttl = false;
  uid = "";
  instance_uuid = "i";
  spec_group = "";
  spec_kind = "";
  provides = some [];
}

abbrev pub result : RenderResult
result = record {
  module_version = "v1.0.0";
  required_contracts = [];
  platform_identity = "gen-1";
  skew_policy = "Warn";
}

abbrev pub converted : ConvertedRender
converted = record { digest = "r"; resources = deployment ∷ [] }

abbrev pub env : Env Conditions String Bool Bool Bool
env = record {
  spec = record {
    generation = pos 1;
    module_path = "m";
    module_version = "v1";
    service_account = "";
    prune = true;
    force_conflicts = false;
    deletes_claims = false;
  };
  default_service_account = "";
  controller_version = "v1";
  library_version = "v2";
  reconcile_interval = pos 0;
  drift_render_interval = pos 0;
  set = listed;
  rules = rules;
  health_rules = health_rules;
  entry_of = λ r. record {
    group = r.group;
    version = r.version;
    kind = r.kind;
    namespace = r.namespace;
    name = r.name;
    component = "";
  };
  stale_set = λ previous current. [];
  inventory_digest_of = λ entries. "e";
  sha256 = λ text. text;
  config_digest = "c";
  jitter = λ i. i;
  word = λ note. "note";
  start = 10;
  now = 20;
  render = rendered result converted;
  read_stored = λ name. no_claim;
  instances = some [];
  impersonation_error = none;
  get = λ r. not_found;
  forbidden_read = λ err. false;
  diff = λ r. some created;
  forbidden_diff = false;
  patch_identity = λ f. none;
  apply = λ l options. none;
  prune = λ ids stale delete_data. pruned 0 0;
  read_health = λ e. found true;
}

abbrev pub status : InstanceStatus Conditions
status = record {
  conditions = [];
  observed_generation = pos 0;
  last_attempted = none;
  last_applied = record {
    at = none;
    source_digest = "";
    version = "";
    config_digest = "";
    render_digest = "";
  };
  last_applied_inputs = none;
  inventory = none;
  identity = record { current = ""; previous = "" };
  required_contracts = [];
  failure_counters = none;
  next_retry_at = none;
  history = [];
}

abbrev pub counted : String → ℕ
counted message = 0

attempt-IsEnded_example : IsEnded status (attempt env counted status)
attempt-IsEnded_example = attempt-IsEnded env status counted

reconcile-IsRecorded_example :
    IsRecorded env.now status (reconcile env counted status).0 (reconcile env counted status).1
reconcile-IsRecorded_example = reconcile-IsRecorded env counted status

attempt-IsJustified_example :
    All (IsJustified env status converted) (attempt env counted status).writes
attempt-IsJustified_example = attempt-IsJustified env status converted counted result refl
