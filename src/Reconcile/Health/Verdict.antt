-- ===== src/Reconcile/Health/Verdict.antt =====
-- When an inventory counts as rolled out, and when its judgement is asked for again.
use opm_operator.Prelude.{
  ◌+◌, ◌≡◌, ◌≢◌, ◌↔◌, inl, inr, refl, Bool, true, false, ◌&&◌, not, List, [], ◌∷◌, length, is_empty,
  Bool-cases, arith, All, Memᴰ,
}
use opm_operator.Reconcile.Backoff.{health_no_requeue}
use opm_operator.Status.Conditions.{is_true}
use opm_operator.Reconcile.Health.{
  InventoryEntry, HealthRules, HealthRead, found, missing, failed, is_job_entry, Tally, tally_read,
  tally, judge_health,
}

module _ {O S : Type 0} (rules : HealthRules O S) where
  -- An object that was read, is healthy and is within its deadline.
  abbrev pub is_up : HealthRead O → Bool
  is_up (found o) = rules.is_healthy (rules.evaluate o) && not (rules.progress_deadline_exceeded o)
  is_up missing = false
  is_up (failed err) = false

  abbrev pub all_up : List (InventoryEntry × HealthRead O) → Bool
  all_up [] = true
  all_up ((e, r) ∷ reads) = is_up r && all_up reads

  -- Whether the loop found nothing to report.
  abbrev is_clean : Tally S → Bool
  is_clean t = is_empty t.stalled && is_empty t.not_ready && is_empty t.unreadable

  tally-clean :
      (reads : List (InventoryEntry × HealthRead O)) → is_clean (tally rules reads) ≡ all_up reads
  unfolding tally tally_read
  tally-clean [] = refl
  tally-clean ((e, found o) ∷ reads) = ground (arith, tally-clean reads)
  tally-clean ((e, missing) ∷ reads) = ground (arith, tally-clean reads)
  tally-clean ((e, failed err) ∷ reads) = ground (arith, tally-clean reads)

  tally-statuses :
      (reads : List (InventoryEntry × HealthRead O))
      → all_up reads ≡ true
      → All (λ s. rules.is_healthy s ≡ true) (tally rules reads).statuses
        × ((tally rules reads).absent ≡ 0)
        × (is_empty (tally rules reads).statuses ≡ is_empty reads)
  unfolding tally tally_read
  tally-statuses [] h = (tt, refl, refl)
  tally-statuses ((e, found o) ∷ reads) h =
      let healthy : rules.is_healthy (rules.evaluate o) ≡ true = ground (arith, h) in
      let in_time : rules.progress_deadline_exceeded o ≡ false = ground (arith, h) in
      let (sound, none_absent, same) = tally-statuses reads (ground (arith, h)) in
      rw (in_time, healthy) ((healthy, sound), none_absent, refl)
  tally-statuses ((e, missing) ∷ reads) h = ground arith
  tally-statuses ((e, failed err) ∷ reads) h = ground arith

  -- A verdict asks for no judgement of its own exactly when every entry was read, healthy and in
  -- time: whatever is missing, unreadable, not ready or stalled is judged again.
  pub judge_health-settled_iff :
      (reads : List (InventoryEntry × HealthRead O))
      → ((judge_health rules reads).requeue ≡ health_no_requeue) ↔ (all_up reads ≡ true)
  unfolding judge_health
  judge_health-settled_iff reads = ground (arith, tally-clean reads)

  -- The library calls a list of healthy objects with none missing unknown only if it is empty.
  abbrev pub IsEmptyUnknown : Type 0
  IsEmptyUnknown =
      (ss : List S)
      → All (λ s. rules.is_healthy s ≡ true) ss
      → (rules.aggregate ss 0).0 ≡ is_empty ss

  -- Healthy is True exactly when the inventory is not empty and every entry was read, healthy and
  -- in time.
  pub judge_health-true_iff :
      IsEmptyUnknown
      → (reads : List (InventoryEntry × HealthRead O))
      → ((judge_health rules reads).status ≡ is_true)
        ↔ ((is_empty reads ≡ false) × (all_up reads ≡ true))
  unfolding judge_health
  judge_health-true_iff law reads = elim (Bool-cases (all_up reads)) [
    | inl up ↦
        let (sound, none_absent, same) = tally-statuses reads up in
        let clean = tally-clean reads in
        let readable : length (tally rules reads).unreadable ≡ 0 = ground (arith, up, clean) in
        let none_missing : (tally rules reads).absent + length (tally rules reads).unreadable ≡ 0 =
          omega (arith, none_absent, readable) in
        ground (arith, up, clean, none_missing, law (tally rules reads).statuses sound, same)
    | inr down ↦ ground (arith, down, tally-clean reads)
  ]

  tally-absent_job :
      (reads : List (InventoryEntry × HealthRead O))
      → (tally rules reads).absent_job ≡ true
      → (e : InventoryEntry) × Memᴰ (e, missing) reads × (is_job_entry e ≡ true)
  unfolding tally tally_read
  tally-absent_job [] h = ground arith
  tally-absent_job ((e, found o) ∷ reads) h =
      let (j, i, k) = tally-absent_job reads (ground (arith, h)) in (j, Memᴰ.tail i, k)
  tally-absent_job ((e, missing) ∷ reads) h = elim (Bool-cases (is_job_entry e)) [
    | inl t ↦ (e, Memᴰ.head refl, t)
    | inr f ↦ let (j, i, k) = tally-absent_job reads (ground (arith, h, f)) in (j, Memᴰ.tail i, k)
  ]
  tally-absent_job ((e, failed err) ∷ reads) h =
      let (j, i, k) = tally-absent_job reads h in (j, Memᴰ.tail i, k)

  -- A verdict that reports an absent Job comes from an inventory whose entries name a Job that was
  -- read as missing, and it asks to be judged again.
  pub judge_health-absent_job :
      (reads : List (InventoryEntry × HealthRead O))
      → (judge_health rules reads).absent_job ≡ true
      → ((judge_health rules reads).requeue ≢ health_no_requeue)
        × ((e : InventoryEntry) × Memᴰ (e, missing) reads × (is_job_entry e ≡ true))
  unfolding judge_health
  judge_health-absent_job reads h = (ground (arith, h), tally-absent_job reads (ground (arith, h)))
