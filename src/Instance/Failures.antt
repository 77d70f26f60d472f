-- ===== src/Instance/Failures.antt =====
-- How a failure is reported: internal/reconcile/resolution.go, and classifyRenderError,
-- markApplyFailure, reportApplyFailure and resolveEffectiveSA of moduleinstance.go.
use opm_operator.Prelude.{
  String, Bool, true, false, ◌&&◌, ◌||◌, not, Option, none, some, str_eq, if◌then◌else◌,
}
use opm_operator.Status.Counters.{Outcome, failed_transient, failed_stalled}
use opm_operator.Status.Conditions.{Setter, mark_not_ready, mark_stalled}

-- A failed render: the tests of its chain against the typed errors of the library and of the
-- renderer, and its message.
pub record RenderError : Type 0 where
  pub identity_error : Bool
  pub unresolved_demands : Bool
  pub unmatched_components : Bool
  pub wrong_kind : Bool
  pub invalid_package : Bool
  pub missing_required_field : Bool
  pub fetch_error : Bool
  pub skew_error : Bool
  pub duplicate_identities : Bool
  pub acquire : Bool
  pub platform_not_ready : Bool
  pub message : String

-- isTypedResolutionError
unfoldable pub is_typed_resolution_error : RenderError → Bool
is_typed_resolution_error e = e.identity_error || e.unresolved_demands || e.unmatched_components

-- isTerminalCause
unfoldable pub is_terminal_cause : RenderError → Bool
unfolding is_typed_resolution_error
is_terminal_cause e =
    if e.wrong_kind || e.invalid_package || e.missing_required_field
    then true
    else is_typed_resolution_error e

-- IsTransientFailure
unfoldable pub is_transient_failure : Option RenderError → Bool
unfolding is_terminal_cause
is_transient_failure none = false
is_transient_failure (some e) = if is_terminal_cause e then false else e.fetch_error

-- renderFailureReason
unfoldable pub render_failure_reason : RenderError → String
unfolding is_typed_resolution_error
render_failure_reason e =
    if e.skew_error
    then "SkewRefused"
    else if e.duplicate_identities
    then "DuplicateIdentities"
    else if is_typed_resolution_error e || e.acquire
    then "ResolutionFailed"
    else "RenderFailed"

-- A failed apply or prune: whether the API server forbade it, and the note of an apply that kept a
-- PersistentVolumeClaim.
pub record ClusterError : Type 0 where
  pub forbidden : Bool
  pub claim_note : Option String
  pub message : String

-- resolveEffectiveSA: the effective name and where it comes from
unfoldable pub resolve_effective_sa : (spec_sa default_sa : String) → String × String
resolve_effective_sa spec_sa default_sa =
    if not (str_eq spec_sa "")
    then (spec_sa, "spec")
    else if not (str_eq default_sa "")
    then (default_sa, "default")
    else ("", "")

module _ {C : Type 0} (set : Setter C) where
  -- classifyRenderError: the conditions, the outcome and the message
  unfoldable pub classify_render_error : RenderError → C → C × Outcome × String
  unfolding is_transient_failure render_failure_reason
  classify_render_error e c =
      if e.platform_not_ready
      then (mark_not_ready set "PlatformNotReady" e.message c, failed_transient, e.message)
      else if is_transient_failure (some e)
      then (mark_not_ready set "ResolutionFailed" e.message c, failed_transient, e.message)
      else (mark_stalled set (render_failure_reason e) e.message c, failed_stalled, e.message)

  -- markApplyFailure
  unfoldable pub mark_apply_failure : ClusterError → (effective_sa : String) → C → C × Outcome
  mark_apply_failure err effective_sa c =
      if not (str_eq effective_sa "") && err.forbidden
      then (mark_stalled set "ImpersonationFailed" err.message c, failed_stalled)
      else (mark_not_ready set "ApplyFailed" err.message c, failed_transient)

  -- reportApplyFailure
  unfoldable pub report_apply_failure :
      ClusterError → (effective_sa : String) → C → C × Outcome × String
  unfolding mark_apply_failure
  report_apply_failure err effective_sa c = elim err.claim_note [
    | some note ↦ (mark_not_ready set "ClaimConflict" note c, failed_transient, note)
    | none ↦
        let (marked, outcome) = mark_apply_failure err effective_sa c in
        (marked, outcome, err.message)
  ]
