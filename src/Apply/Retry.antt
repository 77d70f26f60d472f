-- ===== src/Apply/Retry.antt =====
-- The retry of a staged apply while the API server does not serve a kind of the render yet:
-- applyWithDiscoveryRetry and actionLedger of internal/apply/apply.go.
use opm_operator.Prelude.{
  ℕ, zero, suc, ◌+◌, ◌*◌, ◌^◌, ◌≤◌, ◌<◌, Bool, true, false, ◌&&◌, ◌||◌, not, List, [], ◌∷◌, Option,
  none, some, ltb, if◌then◌else◌, ◌≡◌, refl, arith, Bool-cases, inl, inr, Option-cases,
}
use opm_operator.Prelude.Dicts.{lookup, insert}
use opm_operator.Reconcile.Restore.{Rendered}
use opm_operator.Apply.Objects.{ObjectKey, object_eq, ReadError, pending_crd_kind}

-- fluxssa.Action, the ones that are counted
pub data Action : Type 0 where
  created configured unchanged other_action : Action

-- ApplyResult
pub record ApplyResult : Type 0 where
  pub created_count : ℕ
  pub updated_count : ℕ
  pub unchanged_count : ℕ

abbrev pub writes : Action → Bool
writes created = true
writes configured = true
writes unchanged = false
writes other_action = false

-- actionLedger.record, on the entries of a change set
unfoldable pub record_entries :
    List (ObjectKey × Action) → List (ObjectKey × Action) → List (ObjectKey × Action)
record_entries [] l = l
record_entries ((o, a) ∷ entries) l =
    record_entries entries
      (if not (writes a) then l else elim (lookup o l) [ none ↦ insert o a l | some first ↦ l ])

-- actionLedger.record
unfoldable pub record_changes :
    Option (List (ObjectKey × Action)) → List (ObjectKey × Action) → List (ObjectKey × Action)
unfolding record_entries
record_changes none l = l
record_changes (some entries) l = record_entries entries l

unfoldable pub count_action : Action → ApplyResult → ApplyResult
count_action created r = record r { created_count = suc r.created_count }
count_action configured r = record r { updated_count = suc r.updated_count }
count_action unchanged r = record r { unchanged_count = suc r.unchanged_count }
count_action other_action r = r

-- The action that a result counts for an entry
unfoldable pub counted_action : List (ObjectKey × Action) → ObjectKey → Action → Action
counted_action l o a = elim (lookup o l) [ none ↦ a | some first ↦ first ]

unfoldable pub result_entries : List (ObjectKey × Action) → List (ObjectKey × Action) → ApplyResult
unfolding counted_action count_action
result_entries l [] = record { created_count = 0; updated_count = 0; unchanged_count = 0 }
result_entries l ((o, a) ∷ entries) =
    let rest = result_entries l entries in count_action (counted_action l o a) rest

-- actionLedger.result
unfoldable pub result_of :
    List (ObjectKey × Action) → Option (List (ObjectKey × Action)) → ApplyResult
unfolding result_entries
result_of l none = result_entries l []
result_of l (some entries) = result_entries l entries

-- One round: what the staged apply answers, the state of the context, and the clock. The round is
-- asked for the time at `asked_at`, when it starts to wait, and at `woken_at` after the wait.
pub record Round : Type 0 where
  pub changes : Option (List (ObjectKey × Action))
  pub err : Option ReadError
  pub context_over : Bool
  pub interrupted : Bool
  pub over_in_wait : Bool
  pub asked_at : ℕ
  pub woken_at : ℕ

pub data ApplyEnd : Type 0 where
  applied : ApplyResult → ApplyEnd
  apply_failed : ReadError → ApplyEnd

-- In nanoseconds
abbrev pub retry_interval : ℕ
retry_interval = 500 * 10 ^ 6

abbrev pub retry_timeout : ℕ
retry_timeout = 10 * 10 ^ 9

abbrev pub deadline_of : Option ℕ → (asked_at : ℕ) → ℕ
deadline_of none asked = asked + retry_timeout
deadline_of (some deadline) asked = deadline

module _ (resources : List Rendered) where
  -- The first test after a failed attempt: the error to return
  unfoldable pub earlier_error : Round → (pending : Option ReadError) → ReadError → Option ReadError
  earlier_error r none err = none
  earlier_error r (some pending) err =
      if r.context_over && (r.interrupted || pending_crd_kind err resources)
      then some pending
      else none

  -- The rest of a round whose attempt failed with an error that is retried or not
  unfoldable pub wait_round : Round → (deadline : ℕ) → ReadError → Option ApplyEnd → Option ApplyEnd
  wait_round r deadline err next =
      if not (pending_crd_kind err resources)
      then some (apply_failed err)
      else if r.over_in_wait
      then some (apply_failed err)
      else if ltb deadline r.woken_at
      then some (apply_failed err)
      else next

  -- One round; `next` is the loop with this error pending.
  unfoldable pub after_round :
      Round
      → (ledger : List (ObjectKey × Action)) → (pending : Option ReadError) → (deadline : ℕ)
      → Option ReadError
      → (next : ReadError → Option ApplyEnd) → Option ApplyEnd
  unfolding earlier_error
  after_round r ledger pending deadline none next = some (applied (result_of ledger r.changes))
  after_round r ledger pending deadline (some err) next = elim (earlier_error r pending err) [
    | some earlier ↦ some (apply_failed earlier)
    | none ↦ wait_round r deadline err (next err)
  ]

  module _ (rounds : ℕ → Round) where
    -- The loop of applyWithDiscoveryRetry, on fuel
    unfoldable pub retry_loop :
        (fuel i : ℕ)
        → (ledger : List (ObjectKey × Action)) → (pending : Option ReadError)
        → (deadline : Option ℕ) → Option ApplyEnd
    unfolding record_changes
    retry_loop zero i ledger pending deadline = none
    retry_loop (suc fuel) i ledger pending deadline =
        let r = rounds i in
        let known = record_changes r.changes ledger in
        let end = deadline_of deadline r.asked_at in
        after_round r known pending end r.err
          (λ err. retry_loop fuel (suc i) known (some err) (some end))

    -- applyWithDiscoveryRetry, with fuel for 21 rounds
    unfoldable pub apply_with_retry : Option ApplyEnd
    apply_with_retry = retry_loop 21 0 [] none none

    -- The clock: a wait that is not cut short lasts its interval, and time does not go back.
    pub record IsClock : Type 0 where
      pub waits : (i : ℕ) → (rounds i).asked_at + retry_interval ≤ (rounds i).woken_at
      pub forward : (i : ℕ) → (rounds i).woken_at ≤ (rounds (suc i)).asked_at

    wait_round-goes :
        (i deadline : ℕ) (err : ReadError) (next : Option ApplyEnd)
        → ((rounds i).woken_at ≤ deadline → (r : ApplyEnd) × (next ≡ some r))
        → (r : ApplyEnd) × (wait_round (rounds i) deadline err next ≡ some r)
    unfolding wait_round
    wait_round-goes i deadline err next h = elim (Bool-cases (pending_crd_kind err resources)) [
      | inl p ↦ elim (Bool-cases (rounds i).over_in_wait) [
        | inl o ↦ (apply_failed err, rw (p, o))
        | inr o ↦ elim (Bool-cases (ltb deadline (rounds i).woken_at)) [
          | inl w ↦ (apply_failed err, rw (p, o, w))
          | inr w ↦ let (end, ended) = h (ground (arith, w)) in (end, rw (p, o, w) ended)
        ]
      ]
      | inr p ↦ (apply_failed err, rw p)
    ]

    -- A round ends the loop, or the wait ended by the deadline and the loop goes on.
    after_round-goes :
        (i : ℕ) (ledger : List (ObjectKey × Action)) (pending : Option ReadError) (deadline : ℕ)
        (err : Option ReadError) (next : ReadError → Option ApplyEnd)
        → ((e : ReadError) → (rounds i).woken_at ≤ deadline → (r : ApplyEnd) × (next e ≡ some r))
        → (r : ApplyEnd) × (after_round (rounds i) ledger pending deadline err next ≡ some r)
    unfolding after_round
    after_round-goes i ledger pending deadline none next h = (_, refl)
    after_round-goes i ledger pending deadline (some err) next h =
        elim (Option-cases (earlier_error (rounds i) pending err)) [
          | inl none_earlier ↦
              let (end, ended) = wait_round-goes i deadline err (next err) (h err) in
              (end, rw (after_round, none_earlier) ended)
          | inr (e, earlier) ↦ (apply_failed e, rw (after_round, earlier))
        ]

    retry_loop-ends :
        IsClock
        → (fuel i : ℕ) (ledger : List (ObjectKey × Action)) (pending : Option ReadError)
          (deadline : Option ℕ)
        → deadline_of deadline (rounds i).asked_at < (rounds i).asked_at + suc fuel * retry_interval
        → (r : ApplyEnd) × (retry_loop (suc fuel) i ledger pending deadline ≡ some r)
    unfolding retry_loop
    retry_loop-ends clock zero i ledger pending deadline below =
        after_round-goes i (record_changes (rounds i).changes ledger) pending
          (deadline_of deadline (rounds i).asked_at) (rounds i).err _
          (λ e woken. absurd (omega (arith, woken, below, clock.waits i)))
    retry_loop-ends clock (suc fuel) i ledger pending deadline below =
        after_round-goes i (record_changes (rounds i).changes ledger) pending
          (deadline_of deadline (rounds i).asked_at) (rounds i).err _
          (λ e woken.
            retry_loop-ends clock fuel (suc i) _ (some e) (some _)
              (omega (arith, below, clock.waits i, clock.forward i)))

    -- With a clock that does not go back and waits that last their interval, the retry of an apply
    -- ends: whatever the attempts answer, it returns a result or an error.
    pub apply_with_retry-ends : IsClock → (r : ApplyEnd) × (apply_with_retry ≡ some r)
    unfolding apply_with_retry
    apply_with_retry-ends clock = retry_loop-ends clock 20 0 [] none none (omega arith)
