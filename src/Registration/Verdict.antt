-- ===== src/Registration/Verdict.antt =====
-- What a reconcile of a claim is told, and how it writes a verdict: accept, gateActivation, refuse,
-- transitioned, deferVerdict, holdBackoff, holdVerdict and patchStatus of
-- internal/controller/transformerregistration_controller.go.
use opm_operator.Prelude.{
  ℕ, ◌-◌, String, Bool, true, false, ◌&&◌, not, List, Option, none, some, ltb, if◌then◌else◌,
}
use opm_operator.Status.Conditions.{
  Setter, is_true, is_false, is_unknown, mark_reconciling, mark_stalled, mark_ready_with_reason,
}
use opm_operator.Reconcile.Backoff.{backoff_base_delay, backoff_max_delay, stalled_recheck_interval}
use opm_operator.Registration.{Claim, Provider, stands_as, stands_true, AcquireError, hold_claim}
use opm_operator.Registration.Compat.{Conflict}

-- The messages whose wording is left out.
pub data Note : Type 0 where
  no_platform wrong_kind unresolved underivable missing_instance unread_instance no_inventory : Note
  not_owned unread_resolution unread_requirements unlisted_claims unbuilt unread_contracts : Note
  unlisted_providers accepted_note waiting_note ready_note kept_note : Note
  drift_note : (claimed derived : List String) → Note
  conflict_note : Conflict → Note
  duplicate_note subscribed_note : (first second : String) → Note
  claimed_note : (contract holder : String) → Note
  dependents_note : (names : List String) → Note

-- AcquireCatalogFromRegistry, over the library's catalogs `K`
pub data Acquired (K : Type 0) : Type 0 where
  acquired : K → Acquired K
  acquire_failed : AcquireError → Acquired K

pub data InstanceRead (C : Type 0) : Type 0 where
  instance_found : Provider C → InstanceRead C
  instance_missing instance_unread : InstanceRead C

-- `P` is the library's built platform.
pub record Answers (C K P : Type 0) : Type 0 where
  pub set : Setter C
  pub word : Claim C → Note → String
  -- the library
  pub acquire : (catalog version : String) → Acquired K
  pub provides_of : K → Option (List String)
  pub requires_of : K → Option (List (String × String))
  pub contracts_of : P → Option (List (String × List String))
  pub split_base : String → Option String
  pub newer : String → String → Bool
  pub read_modfile : String → Option (List (String × Option String))
  pub jitter : ℕ → ℕ
  -- the API server: its reads, and which of the three requests of a patch it takes: the conditions,
  -- the metadata, and the rest of the status
  pub read_instance : (namespace name : String) → InstanceRead C
  pub competing : Option (List (Claim C))
  pub providers : Option (List (Claim C))
  pub instances : Option (List (Provider C))
  pub takes_conditions : Bool
  pub takes_metadata : Bool
  pub takes_status : Bool
  -- the time of the last transition of the Reconciling condition, and the clock
  pub transition_of : C → ℕ
  pub now : ℕ

-- What a reconcile returns, what it leaves in the API server, and the reason of its event.
pub record Result (C : Type 0) : Type 0 where
  pub stored : Claim C
  pub event : Option (String × String)
  pub requeue_after : ℕ
  pub returned_error : Bool

-- holdBackoff; a clock that stands before the start of the hold gives the least delay.
unfoldable pub hold_backoff : (since now : ℕ) → ℕ
hold_backoff since now =
    let delay = now - since in
    if ltb delay backoff_base_delay
    then backoff_base_delay
    else if ltb backoff_max_delay delay
    then backoff_max_delay
    else delay

module _ {C K P : Type 0} (env : Answers C K P) where
  -- patchStatus, and what the reconcile returns after it: each request is taken or not
  unfoldable pub patch_status :
      (before after : Claim C) → Option (String × String) → (requeue_after : ℕ) → Result C
  patch_status before after event requeue_after = record {
    stored = record before {
      conditions = if env.takes_conditions then after.conditions else before.conditions;
      finalizers = if env.takes_metadata then after.finalizers else before.finalizers;
      observed_generation =
          if env.takes_status then after.observed_generation else before.observed_generation;
      accepted = if env.takes_status then after.accepted else before.accepted;
      active = if env.takes_status then after.active else before.active;
    };
    event = event;
    requeue_after = requeue_after;
    returned_error = not (env.takes_conditions && env.takes_metadata && env.takes_status);
  }

  -- gateActivation
  unfoldable pub gate_activation : Claim C → Provider C → Claim C
  gate_activation c provider =
      if c.active
      then c
      else if not (stands_true (env.set.get "Ready" provider.conditions))
      then record c {
        conditions =
            env.set.mark is_false "Active" "ProviderNotReady" (env.word c waiting_note)
              c.conditions;
      }
      else record c {
        active = true;
        conditions =
            env.set.mark is_true "Active" "ProviderReady" (env.word c ready_note) c.conditions;
      }

  -- The mutations of accept, before the gate
  unfoldable pub accepted_claim : Claim C → Claim C
  unfolding hold_claim mark_ready_with_reason
  accepted_claim c = record (hold_claim c) {
    observed_generation = c.generation;
    accepted = true;
    conditions = mark_ready_with_reason env.set "Accepted" (env.word c accepted_note) c.conditions;
  }

  -- accept
  unfoldable pub accept : Claim C → Provider C → Result C
  unfolding accepted_claim gate_activation patch_status
  accept c provider = patch_status c (gate_activation (accepted_claim c) provider) none 0

  -- transitioned
  unfoldable pub transitioned : Claim C → (reason message : String) → Bool
  transitioned c reason message =
      not (stands_as is_false reason message (env.set.get "Ready" c.conditions))

  -- The mutations of refuse
  unfoldable pub refused_claim : Claim C → (reason message : String) → Claim C
  unfolding mark_stalled
  refused_claim c reason message = record c {
    observed_generation = c.generation;
    accepted = false;
    conditions =
        let marked = mark_stalled env.set reason message c.conditions in
        if c.active then marked else env.set.remove "Active" marked;
  }

  -- refuse
  unfoldable pub refuse : Claim C → (reason : String) → Note → Result C
  unfolding transitioned refused_claim patch_status
  refuse c reason note =
      let message = env.word c note in
      patch_status c (refused_claim c reason message)
        (if transitioned c reason message then some (reason, message) else none)
        stalled_recheck_interval

  -- deferVerdict
  unfoldable pub defer_verdict : Claim C → (reason : String) → Note → Result C
  unfolding mark_reconciling patch_status
  defer_verdict c reason note =
      patch_status c
        (record c {
          observed_generation = c.generation;
          conditions = mark_reconciling env.set reason (env.word c note) c.conditions;
        })
        none stalled_recheck_interval

  -- The conditions that holdVerdict writes
  unfoldable pub held_conditions : (message : String) → C → C
  held_conditions message conditions =
      let marked = env.set.reconciling "CatalogUnresolved" message conditions in
      if stands_true (env.set.get "Ready" marked)
      then marked
      else env.set.mark is_unknown "Ready" "CatalogUnresolved" message marked

  -- The start of the hold
  unfoldable pub held_since : C → ℕ
  held_since conditions = elim (env.set.get "Reconciling" conditions) [
    | none ↦ env.now
    | some _ ↦ env.transition_of conditions
  ]

  -- holdVerdict
  unfoldable pub hold_verdict : Claim C → Result C
  unfolding held_conditions held_since hold_backoff patch_status
  hold_verdict c =
      let message = env.word c kept_note in
      let held = held_conditions message c.conditions in
      patch_status c (record c { conditions = held })
        (if stands_as is_true "CatalogUnresolved" message (env.set.get "Reconciling" c.conditions)
          then none
          else some ("CatalogUnresolved", message))
        (env.jitter (hold_backoff (held_since held) env.now))
