-- ===== src/Instance/Recorded.antt =====
-- What the status records of a reconcile, by how the reconcile ended.
use opm_operator.Prelude.{
  ℕ, ◌+◌, ◌<◌, String, ◌≡◌, ◌⊎◌, inl, inr, refl, ap, ◌∙◌, true, false, [], Option, none, some,
  arith, if◌then◌else◌,
}
use opm_operator.Status.Counters.{
  Outcome, no_op, applied, applied_and_pruned, failed_transient, failed_stalled,
}
use opm_operator.Status.Digests.{DigestSet}
use opm_operator.Instance.State.{InstanceStatus, Attempt}
use opm_operator.Instance.Answers.{Env}
use opm_operator.Instance.Planning.{inventory_digest}
use opm_operator.Instance.Rendering.{attempt}
use opm_operator.Instance.Commit.{
  commit_no_op, commit_applied, commit_failed, commit_attempt, commit_by, commit, reconcile,
}
use opm_operator.Instance.Endings.{is_failure, is_success, IsEnded, IsFailed, IsDone, IsIdle}
use opm_operator.Instance.Endings.Whole.{attempt-IsEnded}

-- The digests that the next reconcile compares with.
abbrev pub applied_digests : {C : Type 0} → InstanceStatus C → DigestSet
applied_digests t = record {
  source = t.last_applied.source_digest;
  config = t.last_applied.config_digest;
  render = t.last_applied.render_digest;
  inventory = inventory_digest t.inventory;
}

module _ {C : Type 0} (now : ℕ) (s : InstanceStatus C) (a : Attempt C) where
  -- A failure: what was applied last and the inventory stay, and a retry is due.
  pub record RecordsFailure (t : InstanceStatus C) : Type 0 where
    pub last_applied : t.last_applied ≡ s.last_applied
    pub last_applied_inputs : t.last_applied_inputs ≡ s.last_applied_inputs
    pub inventory : t.inventory ≡ s.inventory
    pub identity : t.identity ≡ a.status.identity
    pub retried : 0 < a.retry_after
    pub next_retry_at : t.next_retry_at ≡ some (now + a.retry_after)

  -- A success: the digests of this attempt are recorded, no earlier identity is left, and no retry
  -- is due.
  pub record RecordsSuccess (t : InstanceStatus C) : Type 0 where
    pub digests : applied_digests t ≡ a.digests
    pub current : t.identity.current ≡ a.status.identity.current
    pub previous : t.identity.previous ≡ ""
    pub next_retry_at : t.next_retry_at ≡ none

  -- Nothing to do: the digests and the history stay, nothing was sent, and no retry is due.
  pub record RecordsNothing (t : InstanceStatus C) : Type 0 where
    pub source_digest : t.last_applied.source_digest ≡ s.last_applied.source_digest
    pub config_digest : t.last_applied.config_digest ≡ s.last_applied.config_digest
    pub render_digest : t.last_applied.render_digest ≡ s.last_applied.render_digest
    pub applied_at : t.last_applied.at ≡ s.last_applied.at
    pub history : t.history ≡ s.history
    pub sent : a.writes ≡ []
    pub next_retry_at : t.next_retry_at ≡ none

  abbrev pub IsRecorded : Option (InstanceStatus C) → Type 0
  IsRecorded none = a.writes ≡ []
  IsRecorded (some t) =
      ((a.reconciled ≡ false) × (is_failure a.outcome ≡ true) × RecordsFailure t)
      ⊎ (((a.reconciled ≡ true) × (is_success a.outcome ≡ true) × RecordsSuccess t)
          ⊎ ((a.outcome ≡ no_op) × RecordsNothing t))

module _ {C L V O S : Type 0} (env : Env C L V O S) (s : InstanceStatus C) (a : Attempt C) where
  commit_by-failure : (o : Outcome) → is_failure o ≡ true → commit_by env o a ≡ commit_attempt env a
  unfolding commit_by
  commit_by-failure failed_transient h = refl
  commit_by-failure failed_stalled h = refl
  commit_by-failure no_op h = cc
  commit_by-failure applied h = cc
  commit_by-failure applied_and_pruned h = cc

  commit_by-success : (o : Outcome) → is_success o ≡ true → commit_by env o a ≡ commit_attempt env a
  unfolding commit_by
  commit_by-success failed_transient h = cc
  commit_by-success failed_stalled h = cc
  commit_by-success no_op h = cc
  commit_by-success applied h = refl
  commit_by-success applied_and_pruned h = refl

  failure-recorded : IsFailed s a → RecordsFailure env.now s a (commit_attempt env a)
  unfolding commit_attempt commit_failed
  failure-recorded (f, (left, inv)) = record {
    last_applied = rw f.not_reconciled left.last_applied;
    last_applied_inputs = rw f.not_reconciled left.last_applied_inputs;
    inventory = rw f.not_reconciled inv;
    identity = rw f.not_reconciled;
    retried = f.retried;
    next_retry_at = ground (arith, f.retried);
  }

  success-recorded : IsDone s a → RecordsSuccess env.now s a (commit_attempt env a)
  unfolding commit_attempt commit_applied inventory_digest
  success-recorded (d, k) = record {
    digests = rw d.is_reconciled;
    current = rw d.is_reconciled;
    previous = rw d.is_reconciled;
    next_retry_at = rw d.no_retry;
  }

  idle-recorded : IsIdle s a → RecordsNothing env.now s a (commit_no_op env a)
  unfolding commit_no_op
  idle-recorded (o, left, w) = record {
    source_digest = ap (λ l. l.source_digest) left.last_applied;
    config_digest = ap (λ l. l.config_digest) left.last_applied;
    render_digest = ap (λ l. l.render_digest) left.last_applied;
    applied_at = ap (λ l. l.at) left.last_applied;
    history = left.same_history;
    sent = w;
    next_retry_at = refl;
  }

  commit_by-idle : (o : Outcome) → o ≡ no_op → commit_by env o a ≡ commit_no_op env a
  unfolding commit_by
  commit_by-idle o e = ap (λ x. commit_by env x a) e

  commit-some :
      (t : InstanceStatus C)
      → a.skip_commit ≡ false
      → commit_by env a.outcome a ≡ t
      → commit env a ≡ some t
  unfolding commit
  commit-some t k q =
      ap (λ b. if b then none else some (commit_by env a.outcome a)) k ∙ ap (λ x. some x) q

  commit-none : a.skip_commit ≡ true → commit env a ≡ none
  unfolding commit
  commit-none k = ap (λ b. if b then none else some (commit_by env a.outcome a)) k

  pub ended-IsRecorded : IsEnded s a → IsRecorded env.now s a (commit env a)
  ended-IsRecorded h = elim h.ended [
    | inl f ↦
        let (d, k) = f in
        rw (commit-some _ d.commits (commit_by-failure a.outcome d.failure))
          (inl (d.not_reconciled, d.failure, failure-recorded f))
    | inr (inl f) ↦
        let (d, k) = f in
        rw (commit-some _ d.commits (commit_by-success a.outcome d.success))
          (inr (inl (d.is_reconciled, d.success, success-recorded f)))
    | inr (inr (inl i)) ↦
        let (o, k, w) = i in
        rw (commit-some _ o.commits (commit_by-idle a.outcome o.undecided))
          (inr (inr (o.undecided, idle-recorded i)))
    | inr (inr (inr (k, w))) ↦ rw (commit-none k) w
  ]

module _ {C L V O S : Type 0} (env : Env C L V O S) (counted : String → ℕ)
    (s : InstanceStatus C) where
  -- The status that a reconcile commits says how it ended: after a failure what was applied last,
  -- its inputs and the inventory are the ones before, and the next retry is due after a positive
  -- interval; after a success the digests are those of this attempt, no earlier identity is left
  -- and no retry is due; and with nothing to do the digests and the history stay, no retry is due
  -- and nothing was sent to the cluster. Where nothing is committed, nothing was sent either.
  pub reconcile-IsRecorded :
      IsRecorded env.now s (reconcile env counted s).0 (reconcile env counted s).1
  unfolding reconcile
  reconcile-IsRecorded =
      ended-IsRecorded env s (attempt env counted s) (attempt-IsEnded env s counted)
