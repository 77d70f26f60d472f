-- ===== src/Status/Counters/Streaks.antt =====
-- The failure counters count consecutive failures.
use opm_operator.Prelude.{
  ℕ, suc, ◌^◌, ◌<◌, ◌≤◌, ◌≡◌, refl, Bool, true, false, List, [], ◌∷◌, Option, none, some, arith,
  if◌then◌else◌, length,
}
use opm_operator.Prelude.Int64.{ℤ, pos, inc64, max_int64}
use opm_operator.Status.Counters.{
  FailureCounters, Outcome, no_op, applied, applied_and_pruned, failed_transient, failed_stalled,
  PhaseOutcomes, ensure_counters, update_failure_counters, update_counter, update_reconcile,
  increment_counter, reset_counter,
}

-- One reconcile: how it ended and what its phases did.
pub record Attempt : Type 0 where
  pub outcome : Outcome
  pub phases : PhaseOutcomes

-- The counters after a list of reconciles, the latest first.
abbrev pub count_all : List Attempt → Option FailureCounters
count_all [] = none
count_all (a ∷ older) = update_failure_counters (count_all older) a.outcome a.phases

-- How many of the latest reconciles failed a phase, up to the last that passed it; reconciles in
-- which the phase did not run do not count.
abbrev pub streak : (ran failed : Attempt → Bool) → List Attempt → ℕ
streak ran failed [] = 0
streak ran failed (a ∷ older) =
    let rest = streak ran failed older in if ran a then if failed a then suc rest else 0 else rest

abbrev pub is_failed : Outcome → Bool
is_failed failed_transient = true
is_failed failed_stalled = true
is_failed no_op = false
is_failed applied = false
is_failed applied_and_pruned = false

streak-le :
    (ran failed : Attempt → Bool) (older : List Attempt) → streak ran failed older ≤ length older
streak-le ran failed [] = omega arith
streak-le ran failed (a ∷ older) = ground (arith, streak-le ran failed older)

abbrev pub counters_of : List Attempt → FailureCounters
counters_of older = record {
  reconcile = pos (streak (λ _. true) (λ a. is_failed a.outcome) older);
  apply = pos (streak (λ a. a.phases.apply_ran) (λ a. a.phases.apply_failed) older);
  prune = pos (streak (λ a. a.phases.prune_ran) (λ a. a.phases.prune_failed) older);
  drift = pos (streak (λ a. a.phases.drift_ran) (λ a. a.phases.drift_failed) older);
}

-- The next value of a counter.
abbrev next_of : (ran failed : Bool) → ℤ → ℤ
next_of ran failed n = if ran then if failed then inc64 n else pos 0 else n

drift_lem :
    (ran failed : Bool) (c : FailureCounters)
    → update_counter "drift" ran failed c ≡ record c { drift = next_of ran failed c.drift }
unfolding update_counter increment_counter reset_counter
drift_lem true true c = refl
drift_lem true false c = refl
drift_lem false failed c = refl

apply_lem :
    (ran failed : Bool) (c : FailureCounters)
    → update_counter "apply" ran failed c ≡ record c { apply = next_of ran failed c.apply }
unfolding update_counter increment_counter reset_counter
apply_lem true true c = refl
apply_lem true false c = refl
apply_lem false failed c = refl

prune_lem :
    (ran failed : Bool) (c : FailureCounters)
    → update_counter "prune" ran failed c ≡ record c { prune = next_of ran failed c.prune }
unfolding update_counter increment_counter reset_counter
prune_lem true true c = refl
prune_lem true false c = refl
prune_lem false failed c = refl

reconcile_lem :
    (outcome : Outcome) (c : FailureCounters)
    → update_reconcile outcome c
      ≡ record c { reconcile = next_of true (is_failed outcome) c.reconcile }
unfolding update_reconcile increment_counter reset_counter
reconcile_lem no_op c = refl
reconcile_lem applied c = refl
reconcile_lem applied_and_pruned c = refl
reconcile_lem failed_transient c = refl
reconcile_lem failed_stalled c = refl

next_of_lem :
    (ran failed : Bool) (n : ℕ)
    → n < max_int64
    → next_of ran failed (pos n) ≡ pos (if ran then if failed then suc n else 0 else n)
next_of_lem ran failed n h = ground arith

next_of-streak :
    (ran failed : Attempt → Bool) (a : Attempt) (older : List Attempt)
    → length older < max_int64
    → next_of (ran a) (failed a) (pos (streak ran failed older))
      ≡ pos (streak ran failed (a ∷ older))
next_of-streak ran failed a older h =
    next_of_lem (ran a) (failed a) (streak ran failed older)
      (omega (arith, h, streak-le ran failed older))

update_lem :
    (held : Option FailureCounters) (a : Attempt)
    → update_failure_counters held a.outcome a.phases
      ≡ some (record {
        reconcile = next_of true (is_failed a.outcome) (ensure_counters held).reconcile;
        apply = next_of a.phases.apply_ran a.phases.apply_failed (ensure_counters held).apply;
        prune = next_of a.phases.prune_ran a.phases.prune_failed (ensure_counters held).prune;
        drift = next_of a.phases.drift_ran a.phases.drift_failed (ensure_counters held).drift;
      })
unfolding update_failure_counters
update_lem held a = rw (reconcile_lem, prune_lem, apply_lem, drift_lem)

-- Each counter is the number of consecutive failures since the phase last passed, over any list of
-- fewer than 2^63 reconciles.
pub count_all_lem :
    (older : List Attempt)
    → length older < 2 ^ 63
    → ensure_counters (count_all older) ≡ counters_of older
unfolding ensure_counters
count_all_lem [] h = refl
count_all_lem (a ∷ older) h =
    let small : length older < max_int64 = omega (arith, h) in
    rw (
      update_lem (count_all older) a,
      count_all_lem older (omega (arith, h)),
      next_of-streak (λ _. true) (λ a. is_failed a.outcome) a older small,
      next_of-streak (λ a. a.phases.apply_ran) (λ a. a.phases.apply_failed) a older small,
      next_of-streak (λ a. a.phases.prune_ran) (λ a. a.phases.prune_failed) a older small,
      next_of-streak (λ a. a.phases.drift_ran) (λ a. a.phases.drift_failed) a older small,
    )
