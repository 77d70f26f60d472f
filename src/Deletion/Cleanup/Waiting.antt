-- ===== src/Deletion/Cleanup/Waiting.antt =====
-- A cleanup that keeps the finalizer is run again, and how soon.
use opm_operator.Prelude.{
  ℕ, ◌≤◌, ◌-◌, ltb, true, String, ◌≡◌, inl, inr, Bool, false, List, [], ◌∷◌, Option, none, some,
  Bool-cases, Option-cases, arith,
}
use opm_operator.Deletion.Hold.{
  HoldReason, inventory_empty, force_orphan, prune_disabled, cleanup_forbidden, other_reason,
  Policy, Lifecycle,
}
use opm_operator.Deletion.Cleanup.{
  Subject, DeletionWait, with_defaults, recheck_after, Identity, usable, missing, failed, Answers,
  Ending, Requeue, finished, after, error, oldest_deletion, recorded_wait_reason, patch_status,
  release_finalizer, stall_deletion, hold_recheck, await_gone, act_without_identity,
  act_on_lost_identity, act_on_hold, after_run, early_release, lost_reason, run_deletion_cleanup,
}
use opm_operator.Deletion.Cleanup.Release.{Identity-cases}

-- A waiting deletion is looked at again within the bounds of its wait, whatever the age of the
-- objects that are left; the smaller bound is not above the larger one.
pub recheck_after-bounds :
    (w : DeletionWait) (age : ℕ)
    → w.min_recheck ≤ w.max_recheck
    → (w.min_recheck ≤ recheck_after w age) × (recheck_after w age ≤ w.max_recheck)
unfolding recheck_after
recheck_after-bounds w age h = ground (arith, h)

-- Whether a requeue brings a further run: an error is retried, a delay only when it is positive.
abbrev pub asks_again : Requeue → Bool
asks_again finished = false
asks_again (after delay) = ltb 0 delay
asks_again error = true

-- An ending that asks for no further run has removed the finalizer.
abbrev Settles : Ending → Type 0
Settles e = asks_again e.requeue ≡ false → e.subject.finalizer ≡ false

-- The bounds of a wait that its defaults fill are positive.
with_defaults-positive :
    (w : DeletionWait) → (1 ≤ (with_defaults w).min_recheck) × (1 ≤ (with_defaults w).max_recheck)
unfolding with_defaults
with_defaults-positive w = ground arith

recheck_after-positive :
    (w : DeletionWait) (age : ℕ) → 1 ≤ w.min_recheck → 1 ≤ w.max_recheck → 1 ≤ recheck_after w age
unfolding recheck_after
recheck_after-positive w age least most = ground (arith, least, most)

hold_recheck-Settles :
    (w : DeletionWait) (now : ℕ) (patches : Bool) (s : Subject) (reason : String)
    → Settles (hold_recheck w now patches s reason)
unfolding hold_recheck
hold_recheck-Settles w now patches s reason h = ground (arith, h)

stall_deletion-Settles :
    (patches : Bool) (s : Subject) (reason : String) → Settles (stall_deletion patches s reason)
unfolding stall_deletion
stall_deletion-Settles patches s reason h = ground (arith, h)

release_finalizer-Settles :
    (ok : Bool) (s : Subject) (events : List String) → Settles (release_finalizer ok s events)
unfolding release_finalizer
release_finalizer-Settles ok s events h = ground (arith, h)

await_gone-Settles :
    (w : DeletionWait) (now : ℕ) (still : Option (List (Option ℕ))) (patches removes : Bool)
    (s : Subject) (recorded : Option String) (reports : List String)
    → 1 ≤ w.min_recheck
    → 1 ≤ w.max_recheck
    → Settles (await_gone w now still patches removes s recorded reports)
unfolding await_gone
await_gone-Settles w now none patches removes s (some r) reports least most h =
    hold_recheck-Settles w now patches s r h
await_gone-Settles w now none patches removes s none reports least most h = ground (arith, h)
await_gone-Settles w now (some left) patches removes s recorded reports least most h = ground (
  arith,
  h,
  least,
  most,
  recheck_after-positive w (now - oldest_deletion left now),
  release_finalizer-Settles removes s reports,
)

act_without_identity-Settles :
    (w : DeletionWait) (now : ℕ) (patches removes : Bool) (identity : Identity) (s : Subject)
    (recorded : Option String)
    → Settles (act_without_identity w now patches removes identity s recorded)
unfolding act_without_identity
act_without_identity-Settles w now patches removes identity s (some r) h = ground (
  arith,
  h,
  hold_recheck-Settles w now patches s r,
  release_finalizer-Settles removes s ("DeletionUnconfirmed" ∷ []),
)
act_without_identity-Settles w now patches removes (missing gone) s none h =
    stall_deletion-Settles patches s "DeletionSAMissing" h
act_without_identity-Settles w now patches removes failed s none h =
    stall_deletion-Settles patches s "ImpersonationFailed" h
act_without_identity-Settles w now patches removes (usable b) s none h =
    stall_deletion-Settles patches s "ImpersonationFailed" h

act_on_lost_identity-Settles :
    (w : DeletionWait) (now : ℕ) (patches removes : Bool) (identity : Identity)
    (reason : HoldReason) (s : Subject) (recorded : Option String)
    → Settles (act_on_lost_identity w now patches removes identity reason s recorded)
unfolding act_on_lost_identity
act_on_lost_identity-Settles w now patches removes identity inventory_empty s recorded h =
    release_finalizer-Settles removes s ("DeletionUnconfirmed" ∷ []) h
act_on_lost_identity-Settles w now patches removes identity force_orphan s recorded h =
    release_finalizer-Settles removes (patch_status patches s (record s { entries = [] }))
      ("OrphanedOnDeletion" ∷ []) h
act_on_lost_identity-Settles w now patches removes identity prune_disabled s recorded h =
    act_without_identity-Settles w now patches removes identity s recorded h
act_on_lost_identity-Settles w now patches removes identity cleanup_forbidden s recorded h =
    act_without_identity-Settles w now patches removes identity s recorded h
act_on_lost_identity-Settles w now patches removes identity other_reason s recorded h =
    act_without_identity-Settles w now patches removes identity s recorded h

module _ {Plan State : Type 0} (library : Lifecycle Plan State) where
  after_run-Settles :
      (w : DeletionWait) (a : Answers Plan State) (impersonates : Bool) (reports : List String)
      (s : Subject) (recorded : Option String) (runs : List (Plan × State))
      → 1 ≤ w.min_recheck
      → 1 ≤ w.max_recheck
      → Settles (after_run library w a impersonates reports s recorded runs)
  unfolding after_run act_on_hold
  after_run-Settles w a impersonates reports s none runs least most h = ground (
    arith,
    h,
    await_gone-Settles w a.now a.still_there a.patches a.removes s none reports least most,
    stall_deletion-Settles a.patches s "ImpersonationFailed",
  )
  after_run-Settles w a impersonates reports s (some r) runs least most h = ground (
    arith,
    h,
    await_gone-Settles w a.now a.still_there a.patches a.removes s (some r) [] least most,
    hold_recheck-Settles w a.now a.patches s r,
  )

  -- A cleanup never gives up: one that asks for no further run, as it returns neither an error nor a
  -- positive delay, has removed the finalizer, whatever the wait that is configured.
  pub run_deletion_cleanup-settles :
      (wait : DeletionWait) (policy : Policy) (delete_data : Bool)
      (identities reports : List String) (a : Answers Plan State) (s : Subject)
      → asks_again
          (run_deletion_cleanup library wait policy delete_data identities reports a s).requeue
        ≡ false
      → (run_deletion_cleanup library wait policy delete_data identities reports a
          s).subject.finalizer
        ≡ false
  unfolding run_deletion_cleanup
  run_deletion_cleanup-settles wait policy delete_data identities reports a s h =
      let recorded = recorded_wait_reason s in
      let w = with_defaults wait in
      let (least, most) = with_defaults-positive wait in
      elim (Bool-cases (early_release library policy delete_data identities s)) [
        | inl e ↦ ground (arith, e, h, release_finalizer-Settles a.removes s [])
        | inr e ↦ elim (Identity-cases a.identity) [
          | inl (b, i) ↦ elim (Option-cases a.ran) [
            | inl r ↦ ground (arith, e, i, r, h)
            | inr (runs, r) ↦
                ground
                  (arith, e, i, r, h, after_run-Settles w a b reports s recorded runs least most)
          ]
          | inr (inl (gone, i)) ↦ ground (
            arith,
            e,
            i,
            h,
            act_on_lost_identity-Settles w a.now a.patches a.removes (missing gone)
                (lost_reason library policy delete_data identities s (missing gone)) s recorded,
          )
          | inr (inr i) ↦ ground (
            arith,
            e,
            i,
            h,
            act_on_lost_identity-Settles w a.now a.patches a.removes failed
                (lost_reason library policy delete_data identities s failed) s recorded,
          )
        ]
      ]
