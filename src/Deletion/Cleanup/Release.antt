-- ===== src/Deletion/Cleanup/Release.antt =====
-- The finalizer comes off for the stated reasons only.
use opm_operator.Prelude.{
  ℕ, String, ◌≡◌, ap, ◌⊎◌, inl, inr, refl, Bool, true, false, ◌&&◌, ◌||◌, not, List, [], ◌∷◌,
  Option, none, some, is_empty, select, Bool-cases, Option-cases, arith,
}
use opm_operator.Deletion.Hold.{
  HoldReason, inventory_empty, force_orphan, prune_disabled, cleanup_forbidden, other_reason,
  Policy, Lifecycle, hold_verdict, HeldIdentity, available, missing_identity, failed_identity,
  first_identity, is_data_claim, split_kept_claims,
}
use opm_operator.Deletion.Hold.Verdicts.{all_release, hold_verdict-release, split_claims_lem}
use opm_operator.Reconcile.Health.{InventoryEntry}
use opm_operator.Deletion.Cleanup.{
  Subject, DeletionWait, with_defaults, Identity, usable, missing, failed, Answers,
  recorded_wait_reason, mark_stalled, mark_waiting, patch_status, release_finalizer, stall_deletion,
  hold_recheck, await_gone, is_gone, act_without_identity, act_on_lost_identity, act_on_hold,
  after_run, is_prune_disabled, is_inventory_empty, early_release, lost_reason,
  run_deletion_cleanup,
}

-- Every deleted object was read again and none is left.
abbrev pub all_gone : Option (List (Option ℕ)) → Bool
all_gone none = false
all_gone (some left) = is_empty left

mark_waiting-finalizer :
    (reason : String) (s : Subject) → (mark_waiting reason s).finalizer ≡ s.finalizer
unfolding mark_waiting mark_stalled
mark_waiting-finalizer reason s = ground arith

hold_recheck-finalizer :
    (w : DeletionWait) (now : ℕ) (patches : Bool) (s : Subject) (reason : String)
    → (hold_recheck w now patches s reason).subject.finalizer ≡ s.finalizer
unfolding hold_recheck patch_status
hold_recheck-finalizer w now patches s reason = ground (
  arith,
  mark_waiting-finalizer "DeletionBlocked" s,
  mark_waiting-finalizer "DeletionInProgress" s,
)

stall_deletion-finalizer :
    (patches : Bool) (s : Subject) (reason : String)
    → (stall_deletion patches s reason).subject.finalizer ≡ s.finalizer
unfolding stall_deletion patch_status mark_stalled
stall_deletion-finalizer patches s reason = ground arith

release_finalizer-finalizer :
    (ok : Bool) (s : Subject) (events : List String)
    → (release_finalizer ok s events).subject.finalizer ≡ (not ok && s.finalizer)
unfolding release_finalizer
release_finalizer-finalizer ok s events = ground arith

await_gone-finalizer :
    (w : DeletionWait) (now : ℕ) (still : Option (List (Option ℕ))) (patches removes : Bool)
    (s : Subject) (recorded : Option String) (reports : List String)
    → (await_gone w now still patches removes s recorded reports).subject.finalizer
      ≡ (not (all_gone still && removes) && s.finalizer)
unfolding await_gone patch_status
await_gone-finalizer w now none patches removes s (some r) reports =
    hold_recheck-finalizer w now patches s r
await_gone-finalizer w now none patches removes s none reports = refl
await_gone-finalizer w now (some left) patches removes s recorded reports = ground (
  arith,
  mark_waiting-finalizer "DeletionBlocked" s,
  mark_waiting-finalizer "DeletionInProgress" s,
  release_finalizer-finalizer removes s reports,
)

abbrev pub is_recorded : Subject → Bool
is_recorded s = elim (recorded_wait_reason s) [ none ↦ false | some r ↦ true ]

abbrev pub is_some : Option String → Bool
is_some none = false
is_some (some r) = true

act_without_identity-finalizer :
    (w : DeletionWait) (now : ℕ) (patches removes : Bool) (identity : Identity) (s : Subject)
    (recorded : Option String)
    → (act_without_identity w now patches removes identity s recorded).subject.finalizer
      ≡ (not (is_some recorded && is_gone identity && removes) && s.finalizer)
unfolding act_without_identity
act_without_identity-finalizer w now patches removes identity s (some r) = ground (
  arith,
  hold_recheck-finalizer w now patches s r,
  release_finalizer-finalizer removes s ("DeletionUnconfirmed" ∷ []),
)
act_without_identity-finalizer w now patches removes (missing gone) s none =
    stall_deletion-finalizer patches s "DeletionSAMissing"
act_without_identity-finalizer w now patches removes failed s none =
    stall_deletion-finalizer patches s "ImpersonationFailed"
act_without_identity-finalizer w now patches removes (usable b) s none =
    stall_deletion-finalizer patches s "ImpersonationFailed"

pub Identity-cases :
    (i : Identity)
    → ((b : Bool) × (i ≡ usable b)) ⊎ ((gone : Bool) × (i ≡ missing gone)) ⊎ (i ≡ failed)
Identity-cases (usable b) = inl (b, refl)
Identity-cases (missing gone) = inr (inl (gone, refl))
Identity-cases failed = inr (inr refl)

-- The two verdicts that release a cleanup without an identity.
abbrev pub releases_unread : HoldReason → Bool
releases_unread inventory_empty = true
releases_unread force_orphan = true
releases_unread prune_disabled = false
releases_unread cleanup_forbidden = false
releases_unread other_reason = false

act_on_lost_identity-finalizer :
    (w : DeletionWait) (now : ℕ) (patches removes : Bool) (identity : Identity)
    (reason : HoldReason) (s : Subject) (recorded : Option String)
    → (act_on_lost_identity w now patches removes identity reason s recorded).subject.finalizer ≡ (
        not ((releases_unread reason || (is_some recorded && is_gone identity)) && removes)
        && s.finalizer)
unfolding act_on_lost_identity patch_status
act_on_lost_identity-finalizer w now patches removes identity inventory_empty s recorded =
    release_finalizer-finalizer removes s ("DeletionUnconfirmed" ∷ [])
act_on_lost_identity-finalizer w now patches removes identity force_orphan s recorded = ground (
  arith,
  release_finalizer-finalizer removes s ("OrphanedOnDeletion" ∷ []),
  release_finalizer-finalizer removes (record s { entries = [] }) ("OrphanedOnDeletion" ∷ []),
)
act_on_lost_identity-finalizer w now patches removes identity prune_disabled s recorded =
    ground (arith, act_without_identity-finalizer w now patches removes identity s recorded)
act_on_lost_identity-finalizer w now patches removes identity cleanup_forbidden s recorded =
    ground (arith, act_without_identity-finalizer w now patches removes identity s recorded)
act_on_lost_identity-finalizer w now patches removes identity other_reason s recorded =
    ground (arith, act_without_identity-finalizer w now patches removes identity s recorded)

-- The entries of the first plan, and the claims that the data policy keeps
abbrev pub planned_of : (delete_data : Bool) → List InventoryEntry → List InventoryEntry
planned_of true entries = entries
planned_of false entries = select (λ e. not (is_data_claim e)) entries

abbrev pub kept_of : (delete_data : Bool) → List InventoryEntry → List InventoryEntry
kept_of true entries = []
kept_of false entries = select is_data_claim entries

abbrev pub pardoned : (nothing_kept : Bool) → HoldReason → Bool
pardoned nothing_kept prune_disabled = true
pardoned nothing_kept inventory_empty = nothing_kept
pardoned nothing_kept force_orphan = false
pardoned nothing_kept cleanup_forbidden = false
pardoned nothing_kept other_reason = false

split_kept_claims-lem :
    (delete_data : Bool) (entries : List InventoryEntry)
    → split_kept_claims entries delete_data
      ≡ (planned_of delete_data entries, kept_of delete_data entries)
unfolding split_kept_claims
split_kept_claims-lem true entries = refl
split_kept_claims-lem false entries = split_claims_lem entries

pardoned-lem :
    (nothing_kept : Bool) (r : HoldReason)
    → (is_prune_disabled r || (is_inventory_empty r && nothing_kept)) ≡ pardoned nothing_kept r
unfolding is_prune_disabled is_inventory_empty
pardoned-lem nothing_kept prune_disabled = refl
pardoned-lem nothing_kept inventory_empty = refl
pardoned-lem nothing_kept force_orphan = refl
pardoned-lem nothing_kept cleanup_forbidden = refl
pardoned-lem nothing_kept other_reason = refl

module _ {Plan State : Type 0} (library : Lifecycle Plan State) where
  -- Every plan of this reconcile ran, there was one, and the library releases each: every delete was
  -- sent.
  abbrev pub sends_all : Answers Plan State → Bool
  sends_all a = elim a.identity [
    | usable b ↦ elim a.ran [
      | none ↦ false
      | some runs ↦ all_release library runs && not (is_empty runs)
    ]
    | missing gone ↦ false
    | failed ↦ false
  ]

  -- What the library says of the first plan as it was built, which has no claim that is kept
  abbrev pub unrun :
      Policy
      → (delete_data : Bool) → (identities : List String) → Subject
      → HeldIdentity
      → HoldReason
  unrun policy delete_data identities s held =
      (library.may_release
        (library.new_plan (planned_of delete_data s.entries) policy (first_identity identities))
        library.zero_state held).because

  -- Pruning is off, or nothing was planned and no claim is kept.
  abbrev pub pardons : Policy → (delete_data : Bool) → (identities : List String) → Subject → Bool
  pardons policy delete_data identities s =
      pardoned (is_empty (kept_of delete_data s.entries))
        (unrun policy delete_data identities s available)

  pub early_release-lem :
      (policy : Policy) (delete_data : Bool) (identities : List String) (s : Subject)
      → early_release library policy delete_data identities s
        ≡ pardons policy delete_data identities s
  unfolding early_release split_kept_claims
  early_release-lem policy true identities s =
      pardoned-lem true (unrun policy true identities s available)
  early_release-lem policy false identities s = rw split_claims_lem (
      pardoned-lem (is_empty (select is_data_claim s.entries))
        (unrun policy false identities s available))

  pub lost_reason-missing :
      (policy : Policy) (delete_data : Bool) (identities : List String) (s : Subject) (gone : Bool)
      → lost_reason library policy delete_data identities s (missing gone)
        ≡ unrun policy delete_data identities s missing_identity
  unfolding lost_reason
  lost_reason-missing policy delete_data identities s gone =
      let split = split_kept_claims-lem delete_data s.entries in
      ap
        (λ p.
          (library.may_release (library.new_plan p policy (first_identity identities))
            library.zero_state missing_identity).because)
        (ap (λ p. p.0) split)

  pub lost_reason-failed :
      (policy : Policy) (delete_data : Bool) (identities : List String) (s : Subject)
      → lost_reason library policy delete_data identities s failed
        ≡ unrun policy delete_data identities s failed_identity
  unfolding lost_reason
  lost_reason-failed policy delete_data identities s =
      let split = split_kept_claims-lem delete_data s.entries in
      ap
        (λ p.
          (library.may_release (library.new_plan p policy (first_identity identities))
            library.zero_state failed_identity).because)
        (ap (λ p. p.0) split)

  -- What a cleanup needs before it removes the finalizer.
  abbrev pub may_remove :
      Policy
      → (delete_data : Bool) → (identities : List String) → Answers Plan State
      → Subject
      → Bool
  may_remove policy delete_data identities a s =
      pardons policy delete_data identities s || (elim a.identity [
        | usable b ↦ sends_all a && all_gone a.still_there
        | missing gone ↦
            releases_unread (unrun policy delete_data identities s missing_identity)
            || (is_some (recorded_wait_reason s) && gone)
        | failed ↦ releases_unread (unrun policy delete_data identities s failed_identity)
      ])

  after_run-finalizer :
      (w : DeletionWait) (a : Answers Plan State) (impersonates : Bool) (reports : List String)
      (s : Subject) (recorded : Option String) (runs : List (Plan × State))
      → (after_run library w a impersonates reports s recorded runs).subject.finalizer ≡ (
          not ((hold_verdict library runs).release && all_gone a.still_there && a.removes)
          && s.finalizer)
  unfolding after_run act_on_hold
  after_run-finalizer w a impersonates reports s none runs = ground (
    arith,
    await_gone-finalizer w a.now a.still_there a.patches a.removes s none reports,
    stall_deletion-finalizer a.patches s "ImpersonationFailed",
  )
  after_run-finalizer w a impersonates reports s (some r) runs = ground (
    arith,
    await_gone-finalizer w a.now a.still_there a.patches a.removes s (some r) [],
    hold_recheck-finalizer w a.now a.patches s r,
  )

  -- A cleanup removes the finalizer exactly when it may and the API server accepts the removal. It
  -- may when the library says of the first plan that pruning is disabled, or that nothing is planned
  -- and no claim is kept; when the identity is lost and the library says that nothing is planned or
  -- that the orphan annotation is set; when the ServiceAccount is gone and the status records that
  -- an earlier reconcile sent every delete; and otherwise only when the library releases every
  -- plan of this reconcile, of which there is one, and every deleted object was read again and is gone.
  pub run_deletion_cleanup-finalizer :
      (wait : DeletionWait) (policy : Policy) (delete_data : Bool)
      (identities reports : List String) (a : Answers Plan State) (s : Subject)
      → (run_deletion_cleanup library wait policy delete_data identities reports a
          s).subject.finalizer
        ≡ (not (may_remove policy delete_data identities a s && a.removes) && s.finalizer)
  unfolding run_deletion_cleanup
  run_deletion_cleanup-finalizer wait policy delete_data identities reports a s =
      let early = pardons policy delete_data identities s in
      let known = early_release-lem policy delete_data identities s in
      let recorded = recorded_wait_reason s in
      let w = with_defaults wait in
      elim (Bool-cases early) [
        | inl e ↦ ground (arith, known, e, release_finalizer-finalizer a.removes s [])
        | inr e ↦ elim (Identity-cases a.identity) [
          | inl (b, i) ↦ elim (Option-cases a.ran) [
            | inl r ↦ ground (arith, known, e, i, r)
            | inr (runs, r) ↦ ground (
              arith,
              known,
              e,
              i,
              r,
              hold_verdict-release library runs,
              after_run-finalizer w a b reports s recorded runs,
            )
          ]
          | inr (inl (gone, i)) ↦ ground (
            arith,
            e,
            i,
            known,
            lost_reason-missing policy delete_data identities s gone,
            act_on_lost_identity-finalizer w a.now a.patches a.removes (missing gone)
                (lost_reason library policy delete_data identities s (missing gone)) s recorded,
          )
          | inr (inr i) ↦ ground (
            arith,
            e,
            i,
            known,
            lost_reason-failed policy delete_data identities s,
            act_on_lost_identity-finalizer w a.now a.patches a.removes failed
                (lost_reason library policy delete_data identities s failed) s recorded,
          )
        ]
      ]
