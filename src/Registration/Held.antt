-- ===== src/Registration/Held.antt =====
-- A registry that does not answer takes nothing from a claim that stands.
use opm_operator.Prelude.{
  ℕ, ◌≤◌, ◌⊎◌, refl, String, ◌≡◌, true, false, ◌&&◌, inl, inr, none, some, arith, Bool-cases,
}
use mathlib.Core.Path.{subst, sym}
use opm_operator.Prelude.Int64.{ℤ, pos, negsuc, eq_ℤ, eq_ℤ-sound}
use opm_operator.Instance.Failures.{
  is_transient_failure, is_terminal_cause, is_typed_resolution_error,
}
use opm_operator.Status.Conditions.{is_true, is_unknown, marked, IsSetter}
use opm_operator.Reconcile.Backoff.{backoff_base_delay, backoff_max_delay}
use opm_operator.Registration.{
  Claim, stands_as, stands_true, AcquireError, keeps_verdict, verdict_stands,
}
use opm_operator.Registration.Verdict.{
  unresolved, wrong_kind, Answers, Result, kept_note, patch_status, hold_backoff, held_conditions,
  hold_verdict,
}
use opm_operator.Registration.Judge.{after_failure}
use opm_operator.Registration.Fitness.{IsRefused, refuse-IsRefused}

-- The delay of a retry lies between the least and the greatest backoff, and in between it is as
-- long as the hold has lasted, so that the next one is twice as long.
pub hold_backoff-bounds :
    (since now : ℕ)
    → (backoff_base_delay ≤ hold_backoff since now) × (hold_backoff since now ≤ backoff_max_delay)
unfolding hold_backoff
hold_backoff-bounds since now = ground arith

eq_ℤ-refl : (a : ℤ) → eq_ℤ a a ≡ true
eq_ℤ-refl (pos a) = ground arith
eq_ℤ-refl (negsuc a) = ground arith

-- A failure to fetch that passes: of the chain of errors no cause is terminal, it holds a typed fetch
-- error, and that is transient or a rate limit.
pub record IsPassing (e : AcquireError) : Type 0 where
  pub fetch_error : e.chain.fetch_error ≡ true
  pub passing : (e.transient ≡ true) ⊎ (e.fetch_status ≡ 429)
  pub wrong_kind : e.chain.wrong_kind ≡ false
  pub invalid_package : e.chain.invalid_package ≡ false
  pub missing_required_field : e.chain.missing_required_field ≡ false
  pub identity_error : e.chain.identity_error ≡ false
  pub unresolved_demands : e.chain.unresolved_demands ≡ false
  pub unmatched_components : e.chain.unmatched_components ≡ false

passing-keeps : (e : AcquireError) → IsPassing e → keeps_verdict e ≡ true
unfolding keeps_verdict is_transient_failure is_terminal_cause is_typed_resolution_error
passing-keeps e p = elim p.passing [
  | inl t ↦
      rw
        (
          p.wrong_kind, p.invalid_package, p.missing_required_field, p.identity_error,
          p.unresolved_demands, p.unmatched_components, p.fetch_error, t,
        )
        refl
  | inr r ↦
      rw
        (
          p.wrong_kind, p.invalid_package, p.missing_required_field, p.identity_error,
          p.unresolved_demands, p.unmatched_components, p.fetch_error, r,
        )
        (ground arith)
]

-- An acceptance whose status is for the present generation of the claim
pub record IsStanding {C : Type 0} (c : Claim C) : Type 0 where
  pub accepted : c.accepted ≡ true
  pub present : c.observed_generation ≡ c.generation

IsStanding-of : {C : Type 0} (c : Claim C) → verdict_stands c ≡ true → IsStanding c
unfolding verdict_stands
IsStanding-of c h = record {
  accepted = ground (arith, h);
  present = eq_ℤ-sound c.observed_generation c.generation (ground (arith, h));
}

IsPassing-of :
    (e : AcquireError) → e.chain.wrong_kind ≡ false → keeps_verdict e ≡ true → IsPassing e
unfolding keeps_verdict is_transient_failure is_terminal_cause is_typed_resolution_error
IsPassing-of e w h = record {
  fetch_error = ground (arith, h);
  passing = elim (Bool-cases e.transient) [ inl t ↦ inl t | inr f ↦ inr (ground (arith, h, f)) ];
  wrong_kind = w;
  invalid_package = ground (arith, h);
  missing_required_field = ground (arith, h);
  identity_error = ground (arith, h);
  unresolved_demands = ground (arith, h);
  unmatched_components = ground (arith, h);
}

stands-of :
    {C : Type 0} (c : Claim C)
    → c.accepted ≡ true
    → c.observed_generation ≡ c.generation
    → verdict_stands c ≡ true
unfolding verdict_stands
stands-of c a g = rw (a, g) (eq_ℤ-refl c.generation)

module _ {C K P : Type 0} (env : Answers C K P) (laws : IsSetter env.set) where
  -- What a held claim keeps, and what it reports
  pub record IsHeld (c : Claim C) (r : Result C) : Type 0 where
    pub accepted : r.stored.accepted ≡ true
    pub active : r.stored.active ≡ c.active
    pub finalizers : r.stored.finalizers ≡ c.finalizers
    pub observed : r.stored.observed_generation ≡ c.observed_generation
    pub ready :
        stands_true (env.set.get "Ready" c.conditions) ≡ true
        → env.set.get "Ready" r.stored.conditions ≡ env.set.get "Ready" c.conditions
    pub other : env.set.get "Active" r.stored.conditions ≡ env.set.get "Active" c.conditions
    pub reported :
        env.takes_conditions ≡ true
        → env.set.get "Reconciling" r.stored.conditions
          ≡ some (marked is_true "Reconciling" "CatalogUnresolved" (env.word c kept_note))
    pub quiet :
        stands_as is_true "CatalogUnresolved"
            (env.word c kept_note)
            (env.set.get "Reconciling" c.conditions)
          ≡ true
        → r.event ≡ none

  module _ (m : String) (conditions : C) where
    held-reconciling :
        env.set.get "Reconciling" (held_conditions env m conditions)
        ≡ some (marked is_true "Reconciling" "CatalogUnresolved" m)
    unfolding held_conditions
    held-reconciling = ground (
      arith,
      laws.get-mark is_unknown "Ready" "CatalogUnresolved" m "Reconciling"
          (env.set.reconciling "CatalogUnresolved" m conditions),
      laws.get-reconciling "CatalogUnresolved" m "Reconciling" conditions,
    )

    held-active :
        env.set.get "Active" (held_conditions env m conditions) ≡ env.set.get "Active" conditions
    unfolding held_conditions
    held-active = ground (
      arith,
      laws.get-mark is_unknown "Ready" "CatalogUnresolved" m "Active"
          (env.set.reconciling "CatalogUnresolved" m conditions),
      laws.get-reconciling "CatalogUnresolved" m "Active" conditions,
    )

    held-ready :
        stands_true (env.set.get "Ready" conditions) ≡ true
        → env.set.get "Ready" (held_conditions env m conditions) ≡ env.set.get "Ready" conditions
    unfolding held_conditions
    held-ready h =
        let same : env.set.get "Ready" (env.set.reconciling "CatalogUnresolved" m conditions)
            ≡ env.set.get "Ready" conditions =
          laws.get-reconciling "CatalogUnresolved" m "Ready" conditions in
        ground (arith, same, h)

  hold_verdict-IsHeld : (c : Claim C) → c.accepted ≡ true → IsHeld c (hold_verdict env c)
  unfolding hold_verdict patch_status
  hold_verdict-IsHeld c a =
      let m = env.word c kept_note in
      elim (Bool-cases env.takes_conditions) [
        | inl t ↦ record {
          accepted = ground (arith, t, a);
          active = ground (arith, t);
          finalizers = ground (arith, t);
          observed = ground (arith, t);
          ready = λ h. ground (arith, t, held-ready m c.conditions h);
          other = ground (arith, t, held-active m c.conditions);
          reported = λ h. ground (arith, t, held-reconciling m c.conditions);
          quiet = λ h. ground (arith, h);
        }
        | inr f ↦ record {
          accepted = ground (arith, f, a);
          active = ground (arith, f);
          finalizers = ground (arith, f);
          observed = ground (arith, f);
          ready = λ h. ground (arith, f);
          other = ground (arith, f);
          reported = λ h. cc;
          quiet = λ h. ground (arith, h);
        }
      ]

  -- Either the claim is accepted, its status is for its present generation (by a verdict or by one
  -- that was deferred), and its catalog cannot be fetched because the registry gave no answer or a
  -- server error, or because of a rate limit (429), with no terminal cause in the chain: then it keeps
  -- its acceptance, its activity, its finalizers and its observed generation, a Ready that stands, and
  -- its Active condition, reports that it is retried, and emits no event when it did so before. Or one
  -- of these fails, and then the claim is refused: its acceptance is taken back where the API server
  -- takes the status, and its activity and its finalizers stay.
  pub after_failure-IsHeld :
      (c : Claim C) (e : AcquireError)
      → (IsStanding c × IsPassing e × IsHeld c (after_failure env c e))
        ⊎ ((IsStanding c → IsPassing e → ⊥) × IsRefused env c (after_failure env c e))
  unfolding after_failure
  after_failure-IsHeld c e = elim (Bool-cases e.chain.wrong_kind) [
    | inl w ↦ inr (
      λ t p. absurd (ground (arith, w, p.wrong_kind)),
      subst (IsRefused env c) (sym (ground (arith, w)))
          (refuse-IsRefused env c "CatalogWrongKind" wrong_kind),
    )
    | inr w ↦ elim (Bool-cases (verdict_stands c && keeps_verdict e)) [
      | inl t ↦
          let s = IsStanding-of c (ground (arith, t)) in
          inl (
            s,
            IsPassing-of e w (ground (arith, t)),
            subst (IsHeld c) (sym (ground (arith, w, t))) (hold_verdict-IsHeld c s.accepted),
          )
      | inr f ↦ inr (
        λ s p. absurd (ground (arith, f, stands-of c s.accepted s.present, passing-keeps e p)),
        subst (IsRefused env c) (sym (ground (arith, w, f)))
            (refuse-IsRefused env c "CatalogUnresolved" unresolved),
      )
    ]
  ]
