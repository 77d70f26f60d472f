-- ===== src/Package/State.antt =====
-- What a reconcile of a ModulePackage is told, and the variables that it keeps. What it shares with
-- a ModuleInstance stands in Instance.
use opm_operator.Prelude.{String, Bool, List, Option}
use opm_operator.Prelude.Int64.{ℤ}
use opm_operator.Status.Conditions.{Condition}
use opm_operator.Instance.State.{Attempt}
use opm_operator.Instance.Failures.{RenderError}
use opm_operator.Instance.Answers.{Env, RenderResult, ConvertedRender}

-- source.ArtifactRef
pub record Artifact : Type 0 where
  pub revision : String
  pub digest : String
  pub url : String

-- SourceStatus, over the references `R` to sources
pub record SourceStatus (R : Type 0) : Type 0 where
  pub ref : R
  pub artifact_revision : String
  pub artifact_digest : String
  pub artifact_url : String

-- source.Resolve
pub data SourceAnswer : Type 0 where
  source_found : Artifact → SourceAnswer
  source_failed : (not_found unsupported_kind : Bool) (message : String) → SourceAnswer

-- The temporary directory and the fetch into it. The error of the directory has its condition
-- message beside it.
pub data FetchAnswer : Type 0 where
  fetched : FetchAnswer
  no_temp_dir : (message err : String) → FetchAnswer
  fetch_failed : (err : String) → FetchAnswer

-- os.Stat
pub data Stat : Type 0 where
  missing unreadable file directory : Stat

-- A failed render, with the test for an unsupported kind
pub record PackageError : Type 0 where
  pub chain : RenderError
  pub unsupported_kind : Bool

-- How the render in its slot ended; what is rendered is converted when its kind is ModuleInstance.
pub data PackageRender : Type 0 where
  slot_closed : PackageRender
  timed_out : (message : String) → PackageRender
  -- an earlier render of the package still runs, and this one did not start
  still_running : (message : String) → PackageRender
  render_failed : PackageError → PackageRender
  unconverted : RenderResult → (reason message : String) → PackageRender
  rendered : (kind : String) → RenderResult → ConvertedRender → PackageRender

pub record PackageEnv (C L V O S R : Type 0) : Type 0 where
  pub shared : Env C L V O S
  -- spec.interval, 0 where it is not set; nothing keeps it from being negative
  pub spec_interval : ℤ
  pub spec_path : String
  pub source_ref : R
  pub same_ref : R → R → Bool
  pub source : SourceAnswer
  pub fetch : Artifact → FetchAnswer
  -- filepath.Clean of an absolute path, and os.Stat below the extracted artifact
  pub clean_path : String → String
  pub stat : String → Stat
  pub path_error : String → String
  pub kind_error : String → String
  pub render : PackageRender
  -- the conditions as a list, and the identity and the policy that the platform reports
  pub listed : C → List Condition
  pub platform_identity : String
  pub platform_skew : String

-- The temporary directory of an artifact; a render that timed out removes it when it ends.
pub data Extracted : Type 0 where
  absent present left_to_render : Extracted

-- The variables of ReconcileModulePackage
pub record PackageAttempt (C R : Type 0) : Type 0 where
  pub attempt : Attempt C
  pub source : Option (SourceStatus R)
  pub extracted : Extracted
  pub skipped : Bool
