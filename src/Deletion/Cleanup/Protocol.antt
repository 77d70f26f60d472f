-- ===== src/Deletion/Cleanup/Protocol.antt =====
-- The record that every delete was sent is true, over every schedule of reconciles of a deletion.
use opm_operator.Prelude.{String, ◌≡◌, Bool, true, false, ◌&&◌, ◌||◌, not, List, none}
use opm_operator.Deletion.Hold.{Policy, Lifecycle, missing_identity, failed_identity}
use opm_operator.Deletion.Cleanup.{
  Subject, DeletionWait, Identity, usable, missing, failed, Answers, recorded_wait_reason,
  run_deletion_cleanup,
}
use opm_operator.Deletion.Cleanup.Release.{releases_unread, sends_all, unrun, pardons}

module _ {Plan State : Type 0} (library : Lifecycle Plan State) where
  -- A deleting object beside what its reconciles have done: whether in one of them every plan ran,
  -- there was one, and the library released each, so that every delete was sent; and whether one was
  -- excused from it, as the library said of its first plan that pruning is off, that nothing is
  -- planned (with a claim that is kept only where the identity is lost), or, where the identity is
  -- lost, that the orphan annotation is set.
  pub record World : Type 0 where
    pub subject : Subject
    pub sent : Bool
    pub excused : Bool

  -- Whether a lost identity releases without a read.
  abbrev lost_release : Policy → Bool → List String → Subject → Identity → Bool
  lost_release policy delete_data identities s identity = elim identity [
    | usable b ↦ false
    | missing gone ↦
        releases_unread (unrun library policy delete_data identities s missing_identity)
    | failed ↦ releases_unread (unrun library policy delete_data identities s failed_identity)
  ]

  -- One reconcile of the deletion, with any spec, any identities and any answers.
  pub data Step (v : World) : World → Type 0 where
    cleans :
        (wait : DeletionWait) (policy : Policy) (delete_data : Bool)
        (identities reports : List String) (a : Answers Plan State)
        → Step v (record {
          subject =
              (run_deletion_cleanup library wait policy delete_data identities reports a
                v.subject).subject;
          sent =
              v.sent
              || (not (pardons library policy delete_data identities v.subject)
                  && sends_all library a);
          excused =
              v.excused
              || pardons library policy delete_data identities v.subject
              || lost_release policy delete_data identities v.subject a.identity;
        })

  -- What any schedule of reconciles reaches from a deletion that has just begun.
  pub data Reach : World → Type 0 where
    start :
        (s : Subject)
        → s.finalizer ≡ true
        → recorded_wait_reason s ≡ none
        → Reach (record { subject = s; sent = false; excused = false })
    next : {v w : World} → Reach v → Step v w → Reach w

  pub record Inv (w : World) : Type 0 where
    pub true_record : w.sent ≡ false → recorded_wait_reason w.subject ≡ none
    pub justified : w.subject.finalizer ≡ false → (w.sent || w.excused) ≡ true
