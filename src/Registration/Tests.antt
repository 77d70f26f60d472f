-- ===== src/Registration/Tests.antt =====
-- Two claims of one catalog, the instance of the older one, and what is made of them.
use opm_operator.Prelude.{
  ◌⊎◌, String, ◌≡◌, refl, ◌↔◌, true, false, List, [], ◌∷◌, Memᴰ, Option, none, some, str_eq,
  if◌then◌else◌,
}
use opm_operator.Prelude.Int64.{pos}
use opm_operator.Prelude.Texts.{contains}
use opm_operator.Prelude.Dicts.{string_eq, lookup}
use opm_operator.Prelude.Sorting.{sort, insert_sorted}
use opm_operator.Prelude.SortBy.{sort_by}
use opm_operator.Prelude.Order.{text_ltb}
use opm_operator.Status.Conditions.{is_true, marked}
use opm_operator.Status.Conditions.Tests.{Conditions, listed, listed-IsSetter}
use opm_operator.Reconcile.Restore.{Inventory}
use opm_operator.Platform.Store.{Store, Generated, SkewPolicy}
use opm_operator.Registration.{
  Claim, Provider, AcquireError, claim_finalizer, older_claim, claim_contributes_after_deletion,
}
use opm_operator.Registration.Holder.{
  competes, holder_loop, holder_of, serves, subscribed_contract, active_contract_holder,
  subscribed_loop, contract_loop,
}
use opm_operator.Registration.Oldest.{IsRival, IsOlder, holder_of-none_iff}
use opm_operator.Registration.Providers.{
  IsConflictVerdict, active_contract_holder-IsConflictVerdict,
}
use opm_operator.Registration.Compat.{
  build_incompatibility, platform_requirements, present_deps, judge_paths, judge_path,
  in_opm_namespace, judge_requirement,
}
use opm_operator.Registration.Requirements.{IsClash, build_incompatibility-none_iff}
use opm_operator.Registration.Verdict.{Answers, acquired, instance_found, accept}
use opm_operator.Registration.Judge.{judge, reconcile_claim, after_failure, owns_claim}
use opm_operator.Registration.Fitness.{IsFit, IsRefused}
use opm_operator.Registration.Fitness.Whole.{IsVerdict, judge-IsVerdict}
use opm_operator.Registration.Released.{IsLetGo, reconcile_deletion-released_iff}
use opm_operator.Registration.Removal.{reconcile_deletion}
use opm_operator.Registration.Life.{
  reconciled, here, next, IsGuarded, Reach-active, Reach-IsGuarded,
}
use opm_operator.Registration.Held.{IsHeld, IsStanding, IsPassing, after_failure-IsHeld}
use opm_operator.Registration.Leased.{IsReturned, reconcile_claim-IsReturned}
use opm_operator.Registration.Watches.{map_instance_to_registrations}
use opm_operator.Registration.Waking.{IsWaking, map_instance-IsWaking}

abbrev young : Claim Conditions
young = record {
  name = "backup";
  created = 7;
  generation = pos 1;
  deleting = false;
  finalizers = [];
  catalog = "opmodel.dev/catalogs/backup";
  version = "v1.2.0";
  provides = "backup@v1" ∷ "restore@v1" ∷ [];
  provider_namespace = "infra";
  provider_name = "velero";
  conditions = [];
  observed_generation = pos 0;
  accepted = false;
  active = false;
}

abbrev elder : Claim Conditions
elder = record young { name = "archive"; created = 3; active = true }

abbrev inventory : Inventory
inventory = record {
  revision = pos 1;
  digest = "d";
  count = 1;
  entries =
      record {
        group = "opmodel.dev";
        version = "v1alpha1";
        kind = "TransformerRegistration";
        namespace = "";
        name = "backup";
        component = "";
      }
      ∷ [];
}

abbrev velero : Provider Conditions
velero = record {
  namespace = "infra";
  name = "velero";
  conditions = ("Ready", marked is_true "Ready" "ReconciliationSucceeded" "") ∷ [];
  inventory = some inventory;
  required_contracts = "restore@v1" ∷ [];
}

abbrev blip : AcquireError
blip = record {
  chain = record {
    identity_error = false;
    unresolved_demands = false;
    unmatched_components = false;
    wrong_kind = false;
    invalid_package = false;
    missing_required_field = false;
    fetch_error = true;
    skew_error = false;
    duplicate_identities = false;
    acquire = true;
    platform_not_ready = false;
    message = "too many requests";
  };
  transient = false;
  fetch_status = 429;
}

-- The catalogs and the built platforms are texts here.
abbrev answers : Answers Conditions String String
answers = record {
  set = listed;
  word = λ c note. c.catalog;
  acquire = λ catalog version. acquired catalog;
  provides_of = λ cat. some ("restore@v1" ∷ "backup@v1" ∷ []);
  requires_of = λ cat. some (("opmodel.dev/core@v1", "v1.0.0") ∷ []);
  contracts_of = λ platform. some [];
  split_base = λ path. if str_eq path "opmodel.dev/core@v1" then some "opmodel.dev/core" else none;
  newer = λ a b. text_ltb b a;
  read_modfile = λ dir. some (("opmodel.dev/core@v1", some "v1.1.0") ∷ []);
  jitter = λ delay. delay;
  read_instance = λ namespace name. instance_found velero;
  competing = some (young ∷ []);
  providers = some (young ∷ []);
  instances = some (velero ∷ []);
  takes_conditions = true;
  takes_metadata = true;
  takes_status = true;
  transition_of = λ c. 0;
  now = 100;
}

abbrev built : Generated (Option String)
built = record {
  identity = record { generation = pos 1; claims = "" };
  dir = "gen-1";
  platform = some "p";
  skew = SkewPolicy.warn;
}

abbrev full_store : Store (Option String)
full_store = record { generated = some built; identity = built.identity; leases = [] }

judge-IsVerdict_example :
    IsVerdict answers young built (judge answers young full_store).0
    × ((provider : Provider Conditions)
        → IsFit answers young built provider
        → (judge answers young full_store).0 ≡ accept answers young provider)
judge-IsVerdict_example = judge-IsVerdict answers young full_store built refl

holder_of-none_iff_example : (holder_of young (young ∷ elder ∷ []) ≡ none) ↔ (
    (other : Claim Conditions)
    → Memᴰ other (young ∷ elder ∷ [])
    → IsRival young other
    → ¬ IsOlder other young)
holder_of-none_iff_example = holder_of-none_iff young (young ∷ elder ∷ [])

loses : holder_of young (young ∷ elder ∷ []) ≡ some "archive"
unfolding holder_of holder_loop competes claim_contributes_after_deletion older_claim text_ltb
loses = refl

active_contract_holder-IsConflictVerdict_example :
    IsConflictVerdict young (young ∷ elder ∷ []) (active_contract_holder young (young ∷ elder ∷ []))
active_contract_holder-IsConflictVerdict_example =
    active_contract_holder-IsConflictVerdict young (young ∷ elder ∷ [])

abbrev entries : List (String × List String)
entries = ("backup@v1", "opmodel.dev/catalogs/other" ∷ []) ∷ []

abbrev newer_core : List (String × String)
newer_core = ("opmodel.dev/core@v1", "v1.2.0") ∷ []

abbrev core : List (String × String)
core = ("opmodel.dev/core@v1", "v1.1.0") ∷ []

build_incompatibility-none_iff_example :
    (build_incompatibility answers.split_base answers.newer newer_core core ≡ none)
    ↔ ((qualified : String) → ¬ IsClash answers.split_base answers.newer newer_core core qualified)
build_incompatibility-none_iff_example =
    build_incompatibility-none_iff answers.split_base answers.newer newer_core core

abbrev leaving : Claim Conditions
leaving = record young { deleting = true; finalizers = claim_finalizer ∷ []; active = true }

reconcile_deletion-released_iff_example :
    (contains (reconcile_deletion answers leaving).stored.finalizers claim_finalizer ≡ false)
    ↔ IsLetGo answers leaving
reconcile_deletion-released_iff_example = reconcile_deletion-released_iff answers leaving refl

Reach-IsGuarded_example : IsGuarded (reconcile_claim answers young full_store).0.stored
Reach-IsGuarded_example =
    Reach-IsGuarded String String (next here (reconciled answers full_store)) refl (tt, λ h. refl)

Reach-active_example : (reconcile_claim answers leaving full_store).0.stored.active ≡ true
Reach-active_example = Reach-active String String (next here (reconciled answers full_store)) refl

abbrev standing : Claim Conditions
standing = record young { accepted = true; observed_generation = pos 1 }

after_failure-IsHeld_example :
    (IsStanding standing
      × IsPassing blip
      × IsHeld answers listed-IsSetter standing (after_failure answers standing blip))
    ⊎ ((IsStanding standing → IsPassing blip → ⊥)
        × IsRefused answers standing (after_failure answers standing blip))
after_failure-IsHeld_example = after_failure-IsHeld answers listed-IsSetter standing blip

reconcile_claim-IsReturned_example :
    IsReturned answers young full_store (reconcile_claim answers young full_store).1
reconcile_claim-IsReturned_example = reconcile_claim-IsReturned answers young full_store

map_instance-IsWaking_example :
    IsWaking velero (young ∷ elder ∷ []) (
      map_instance_to_registrations "infra" "velero"
        ("restore@v1" ∷ [])
        (some (young ∷ elder ∷ [])))
map_instance-IsWaking_example = map_instance-IsWaking velero (young ∷ elder ∷ [])

fit : IsFit answers young built velero
unfolding sort insert_sorted text_ltb owns_claim holder_of holder_loop active_contract_holder serves
    subscribed_contract build_incompatibility platform_requirements present_deps judge_paths
    judge_path in_opm_namespace lookup judge_requirement competes subscribed_loop contract_loop
    sort_by
fit = record {
  cat = "opmodel.dev/catalogs/backup";
  resolved = refl;
  honest = record { derived = "restore@v1" ∷ "backup@v1" ∷ []; read = refl; same = refl };
  owned = record { inventory = inventory; found = refl; written = refl; owned = refl };
  compatible = record {
    reqs = ("opmodel.dev/core@v1", "v1.1.0") ∷ [];
    catalog_reqs = ("opmodel.dev/core@v1", "v1.0.0") ∷ [];
    resolved = refl;
    required = refl;
    clear = refl;
  };
  sole = record { list = young ∷ []; listed = refl; clear = refl };
  unsubscribed = record {
    platform = "p";
    provided_by = [];
    built = refl;
    read = refl;
    clear = refl;
  };
  unserved = record { list = young ∷ []; listed = refl; clear = refl };
}

-- The claim passes every check, so it is accepted on the word of its provider.
accepted_on : (judge answers young full_store).0 ≡ accept answers young velero
accepted_on = (judge-IsVerdict answers young full_store built refl).1 velero fit
