-- ===== src/Package/Tests.antt =====
-- A package whose artifact holds one instance, which renders one Deployment, and its reconciles.
use opm_operator.Prelude.{String, ◌≡◌, refl, ◌↔◌, Bool, true, false, [], ◌∷◌, All, none, str_eq}
use opm_operator.Prelude.Int64.{pos}
use opm_operator.Instance.Tests.{Conditions, env, status, counted, result, converted}
use opm_operator.Package.State.{Artifact, source_found, fetched, directory, rendered, PackageEnv}
use opm_operator.Package.Dependencies.{Dependency, PackageRead, package_found, Check}
use opm_operator.Instance.Rendering.{adopted_at_start}
use opm_operator.Package.Rendering.{package_attempt}
use opm_operator.Package.Gates.{PackageObject, reconcile_package}
use opm_operator.Package.Starts.{is_attempt, IsCleared, reconcile_package-attempts_iff}
use opm_operator.Package.Endings.Whole.{IsOver, package_attempt-IsOver}
use opm_operator.Package.Grounds.Whole.{IsBacked, package_attempt-IsBacked}

abbrev artifact : Artifact
artifact = record { revision = "main@sha1:1"; digest = "sha256:2"; url = "http://source/a.tgz" }

-- The references are texts here.
abbrev package_env : PackageEnv Conditions String Bool Bool Bool String
package_env = record {
  shared = env;
  spec_interval = pos 0;
  spec_path = "apps/web";
  source_ref = "OCIRepository/web";
  same_ref = str_eq;
  source = source_found artifact;
  fetch = λ a. fetched;
  clean_path = λ p. p;
  stat = λ p. directory;
  path_error = λ p. "no such path";
  kind_error = λ k. "unexpected kind";
  render = rendered "ModuleInstance" result converted;
  listed = λ c. [];
  platform_identity = "gen-1";
  platform_skew = "Warn";
}

package_attempt-IsBacked_example :
    All
      (IsBacked package_env status (adopted_at_start package_env.shared counted status.conditions))
      (package_attempt package_env counted none status).attempt.writes
package_attempt-IsBacked_example = package_attempt-IsBacked package_env status counted none

package_attempt-IsOver_example :
    IsOver package_env status refl (package_attempt package_env counted none status)
package_attempt-IsOver_example = package_attempt-IsOver package_env status refl counted none

abbrev base : Dependency
base = record { namespace = ""; name = "base" }

abbrev object : PackageObject Conditions String
object = record {
  namespace = "apps";
  has_finalizer = true;
  deleting = false;
  suspended = false;
  depends_on = base ∷ [];
  source = none;
  status = status;
}

abbrev read : (name : String) → PackageRead
read name = package_found true

abbrev blocker_note : Check → String
blocker_note check = "waiting"

reconcile_package-attempts_iff_example :
    (is_attempt (reconcile_package package_env counted read blocker_note true object) ≡ true)
    ↔ IsCleared package_env counted read blocker_note object
reconcile_package-attempts_iff_example =
    reconcile_package-attempts_iff package_env counted read blocker_note true object
