-- ===== src/Reconcile/Backoff/Bounds.antt =====
-- A retry is never sooner than the base delay and never later than the caps.
use opm_operator.Prelude.{
  ℕ, suc, zero, ◌+◌, ◌-◌, ◌*◌, ◌^◌, ◌≤◌, ◌≡◌, ◌≢◌, refl, Option, none, some, ltb, if◌then◌else◌,
  arith,
}
use opm_operator.Prelude.Int64.{ℤ, pos, negsuc}
use opm_operator.Reconcile.Backoff.{
  backoff_base_delay, backoff_max_delay, stalled_recheck_interval, compute_backoff,
  health_requeue_floor, HealthRequeueClass, health_no_requeue, health_backoff, health_stalled,
  health_requeue,
}

pow-pos : (k : ℕ) → 1 ≤ 2 ^ k
pow-pos zero = omega arith
pow-pos (suc k) = omega (arith, pow-pos k)

-- The backoff is between the base delay and the cap, whatever the count is.
pub compute_backoff-bounds :
    (n : ℤ) → (backoff_base_delay ≤ compute_backoff n) × (compute_backoff n ≤ backoff_max_delay)
unfolding compute_backoff
compute_backoff-bounds (negsuc n) = ground arith
compute_backoff-bounds (pos n) = ground (arith, pow-pos (n - 1))

-- Each failure after the first doubles the backoff, up to the cap.
pub compute_backoff-doubles :
    (n : ℕ)
    → compute_backoff (pos (n + 2)) ≡ (
        if ltb backoff_max_delay (2 * compute_backoff (pos (n + 1)))
        then backoff_max_delay
        else 2 * compute_backoff (pos (n + 1)))
unfolding compute_backoff
compute_backoff-doubles n =
    let after : n + 2 - 1 ≡ suc n = omega arith in
    let before : n + 1 - 1 ≡ n = omega arith in
    let double : 2 ^ suc n ≡ 2 * 2 ^ n = omega arith in rw (after, before, double) (ground arith)

-- Seven failures and more wait for the cap.
pub compute_backoff-cap : (n : ℕ) → 7 ≤ n → compute_backoff (pos n) ≡ backoff_max_delay
unfolding compute_backoff
compute_backoff-cap n h =
    let m : ℕ = n - 7 in
    let six : n - 1 ≡ suc (suc (suc (suc (suc (suc m))))) = omega (h, arith) in
    let large : 64 ≤ 2 ^ suc (suc (suc (suc (suc (suc m))))) = omega (arith, pow-pos m) in
    rw six (ground (arith, large))

-- A verdict that asks to be judged again is judged after at least the floor and at most the stalled
-- recheck interval, whenever the last apply was.
pub health_requeue-bounds :
    (class : HealthRequeueClass) (at : Option ℕ) (now : ℕ)
    → class ≢ health_no_requeue
    → (health_requeue_floor ≤ health_requeue class at now)
      × (health_requeue class at now ≤ stalled_recheck_interval)
unfolding health_requeue
health_requeue-bounds health_no_requeue at now h = absurd (h refl)
health_requeue-bounds health_backoff none now h = ground arith
health_requeue-bounds health_backoff (some at) now h = ground arith
health_requeue-bounds health_stalled at now h = ground arith
