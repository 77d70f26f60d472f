-- ===== src/Reconcile/Backoff/Tests.antt =====
-- The backoff after three failures and after a hundred, and a health requeue.
use opm_operator.Prelude.{◌≤◌}
use opm_operator.Prelude.Int64.{pos}
use opm_operator.Reconcile.Backoff.{backoff_base_delay, backoff_max_delay, compute_backoff}
use opm_operator.Reconcile.Backoff.Bounds.{compute_backoff-bounds}

compute_backoff-bounds_example :
    (backoff_base_delay ≤ compute_backoff (pos 3)) × (compute_backoff (pos 3) ≤ backoff_max_delay)
compute_backoff-bounds_example = compute_backoff-bounds (pos 3)
