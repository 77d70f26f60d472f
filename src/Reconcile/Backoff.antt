-- ===== src/Reconcile/Backoff.antt =====
-- internal/reconcile/backoff.go and the requeue intervals of internal/reconcile/moduleinstance.go
-- and health.go. A duration is a number of nanoseconds.
pub mod Bounds
mod Tests
use opm_operator.Prelude.{
  ℕ, ◌+◌, ◌-◌, ◌*◌, ◌/◌, ◌^◌, String, Bool, true, false, ◌&&◌, ◌||◌, Option, none, some, ltb,
  if◌then◌else◌,
}
use opm_operator.Prelude.Int64.{ℤ, pos, negsuc, inc64, ltb_ℤ, leb_ℤ}
use opm_operator.Status.Counters.{Outcome, failed_transient}

abbrev pub second : ℕ
second = 10 ^ 9

abbrev pub backoff_base_delay : ℕ
backoff_base_delay = 5 * second

abbrev pub backoff_max_delay : ℕ
backoff_max_delay = 300 * second

abbrev pub stalled_recheck_interval : ℕ
stalled_recheck_interval = 1800 * second

-- ComputeBackoff. A float64 holds 5s * 2^(n-1) exactly up to its largest exponent, and what is
-- beyond compares above the cap as the exact number does.
unfoldable pub compute_backoff : (failure_count : ℤ) → ℕ
compute_backoff (negsuc n) = backoff_base_delay
compute_backoff (pos n) =
    if ltb 1 n
    then (let delay = backoff_base_delay * 2 ^ (n - 1) in
        if ltb backoff_max_delay delay then backoff_max_delay else delay)
    else backoff_base_delay

-- retryIntervalFor
unfoldable pub retry_interval_for : Outcome → (failures : ℤ) → ℕ
unfolding compute_backoff
retry_interval_for failed_transient failures = compute_backoff (inc64 failures)
retry_interval_for _ failures = stalled_recheck_interval

-- pruneFailure: the retry interval, the message, and whether the prune failed.
unfoldable pub prune_failure :
    (err : Option String) → (reconciled : Bool) → (failures : ℤ) → ℕ × String × Bool
unfolding compute_backoff
prune_failure (some e) reconciled failures = (compute_backoff (inc64 failures), e, true)
prune_failure none false failures = (stalled_recheck_interval, "", true)
prune_failure none true failures = (0, "", false)

abbrev pub health_requeue_floor : ℕ
health_requeue_floor = 5 * second

abbrev pub health_requeue_ceiling : ℕ
health_requeue_ceiling = 120 * second

-- How a health verdict asks to be judged again.
pub data HealthRequeueClass : Type 0 where
  health_no_requeue health_backoff health_stalled : HealthRequeueClass

-- healthRequeue; a time is the nanoseconds since an epoch.
unfoldable pub health_requeue : HealthRequeueClass → (last_applied_at : Option ℕ) → (now : ℕ) → ℕ
health_requeue health_stalled at now = stalled_recheck_interval
health_requeue health_no_requeue at now = 0
health_requeue health_backoff none now = health_requeue_floor
health_requeue health_backoff (some at) now =
    if ltb now at
    then health_requeue_floor
    else (let half = (now - at) / 2 in
        let above = if ltb half health_requeue_floor then health_requeue_floor else half in
        if ltb health_requeue_ceiling above then health_requeue_ceiling else above)

-- packageRequeue
unfoldable pub package_requeue : (health_after interval : ℤ) → ℤ
package_requeue health_after interval =
    if ltb_ℤ (pos 0) health_after && ltb_ℤ health_after interval then health_after else interval

-- instanceRequeue; `jitter` is wait.Jitter(interval, 0.1).
unfoldable pub instance_requeue : (jitter : ℤ → ℤ) → (health_after interval : ℤ) → ℤ
instance_requeue jitter health_after interval =
    if ltb_ℤ (pos 0) health_after || leb_ℤ interval (pos 0) then health_after else jitter interval
