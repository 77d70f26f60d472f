-- ===== src/Registration/Latch.antt =====
-- The life of a claim: what its reconciles, the edits of its author and its deletion do to it.
use opm_operator.Prelude.{
  ◌≡◌, sym, ap, ◌∙◌, true, ◌||◌, ◌⊎◌, inl, inr, [], ◌∷◌, Option, eq_iff, if-cases, arith,
  Bool-cases, Option-cases,
}
use mathlib.Core.Path.{subst}
use opm_operator.Prelude.Texts.{contains, contains-append}
use opm_operator.Platform.Store.{Store, Generated, lease}
use opm_operator.Registration.{Claim, Provider, stands_true, claim_finalizer, hold_claim}
use opm_operator.Registration.Verdict.{
  Answers, Result, patch_status, gate_activation, accepted_claim, accept,
}
use opm_operator.Registration.Judge.{judge, reconcile_claim}
use opm_operator.Registration.Removal.{reconcile_deletion}
use opm_operator.Registration.Fitness.{IsKept, IsRefused, defer_verdict-IsKept}
use opm_operator.Registration.Fitness.Whole.{IsVerdict, judge-IsVerdict, judge-empty}
use opm_operator.Registration.Released.{reconcile_deletion-IsUnjudged}

hold_claim-held :
    {C : Type 0} (c : Claim C) → contains (hold_claim c).finalizers claim_finalizer ≡ true
unfolding hold_claim
hold_claim-held c = elim (Bool-cases (contains c.finalizers claim_finalizer)) [
  | inl t ↦ ground (arith, t)
  | inr f ↦ ground (
    arith,
    f,
    contains-append claim_finalizer c.finalizers (claim_finalizer ∷ []),
    eq_iff claim_finalizer claim_finalizer,
  )
]

module _ {C K P : Type 0} (env : Answers C K P) where
  -- What an acceptance writes
  pub record IsAcceptance (c : Claim C) (provider : Provider C) (d : Claim C) : Type 0 where
    pub accepted : d.accepted ≡ true
    pub active : d.active ≡ (c.active || stands_true (env.set.get "Ready" provider.conditions))
    pub held : contains d.finalizers claim_finalizer ≡ true
    pub deleting : d.deleting ≡ c.deleting
    pub observed : d.observed_generation ≡ c.generation

  gate_activation-finalizers :
      (c : Claim C) (provider : Provider C)
      → (gate_activation env c provider).finalizers ≡ c.finalizers
  unfolding gate_activation
  gate_activation-finalizers c provider = ground arith

  accepted_claim-held :
      (c : Claim C) → contains (accepted_claim env c).finalizers claim_finalizer ≡ true
  unfolding accepted_claim
  accepted_claim-held c = hold_claim-held c

  gate_activation-IsAcceptance :
      (c : Claim C) (provider : Provider C)
      → IsAcceptance c provider (gate_activation env (accepted_claim env c) provider)
  unfolding gate_activation accepted_claim hold_claim
  gate_activation-IsAcceptance c provider = record {
    accepted = ground arith;
    active = ground arith;
    held =
        ap (λ fs. contains fs claim_finalizer)
          (gate_activation-finalizers (accepted_claim env c) provider)
        ∙ accepted_claim-held c;
    deleting = ground arith;
    observed = ground arith;
  }

  -- What a reconcile of the claim `c` leaves as `d`: the acceptance on the word of a provider, or
  -- less. A deletion does not change what was accepted.
  pub record IsFollowing (c d : Claim C) : Type 0 where
    pub latched : c.active ≡ true → d.active ≡ true
    pub guarded :
        (contains c.finalizers claim_finalizer || c.deleting) ≡ true
        → (contains d.finalizers claim_finalizer || d.deleting) ≡ true
    pub fresh :
        (env.takes_status ≡ true → env.takes_metadata ≡ true)
        → (d.accepted || d.active) ≡ true
        → ((c.accepted || c.active) ≡ true) ⊎ (contains d.finalizers claim_finalizer ≡ true)

  accept-IsFollowing :
      (c : Claim C) (provider : Provider C) → IsFollowing c (accept env c provider).stored
  unfolding accept patch_status
  accept-IsFollowing c provider =
      let a = gate_activation-IsAcceptance c provider in
      elim (Bool-cases env.takes_status) [
        | inl t ↦ elim (Bool-cases env.takes_metadata) [
          | inl m ↦ record {
            latched = λ h. ground (arith, t, a.active, h);
            guarded = λ h. ground (arith, m, a.held);
            fresh = λ w h. inr (ground (arith, m, a.held));
          }
          | inr n ↦ record {
            latched = λ h. ground (arith, t, a.active, h);
            guarded = λ h. ground (arith, n, h);
            fresh = λ w h. absurd (ground (arith, w t, n));
          }
        ]
        | inr f ↦ elim (Bool-cases env.takes_metadata) [
          | inl m ↦ record {
            latched = λ h. ground (arith, f, h);
            guarded = λ h. ground (arith, m, a.held);
            fresh = λ w h. inl (ground (arith, f, h));
          }
          | inr n ↦ record {
            latched = λ h. ground (arith, f, h);
            guarded = λ h. ground (arith, n, h);
            fresh = λ w h. inl (ground (arith, f, h));
          }
        ]
      ]

  kept-IsFollowing : (c : Claim C) (r : Result C) → IsKept env c r → IsFollowing c r.stored
  kept-IsFollowing c r k = record {
    latched = λ h. k.active ∙ h;
    guarded = λ h. ground (arith, k.finalizers, k.deleting, h);
    fresh = λ w h. inl (ground (arith, k.accepted, k.active, h));
  }

  refused-IsFollowing : (c : Claim C) (r : Result C) → IsRefused env c r → IsFollowing c r.stored
  refused-IsFollowing c r k = record {
    latched = λ h. k.active ∙ h;
    guarded = λ h. ground (arith, k.finalizers, k.deleting, h);
    fresh = λ w h. inl (ground (arith, k.accepted, k.active, h));
  }

  verdict-IsFollowing :
      (c : Claim C) (g : Generated (Option P)) (r : Result C)
      → IsVerdict env c g r
      → IsFollowing c r.stored
  verdict-IsFollowing c g r (inl (provider, f, e)) =
      subst (λ (x : Result C). IsFollowing c x.stored) (sym e) (accept-IsFollowing c provider)
  verdict-IsFollowing c g r (inr (inl k)) = kept-IsFollowing c r k
  verdict-IsFollowing c g r (inr (inr k)) = refused-IsFollowing c r k

  judge-IsFollowing :
      (c : Claim C) (store : Store (Option P)) → IsFollowing c (judge env c store).0.stored
  unfolding judge lease
  judge-IsFollowing c store = elim (Option-cases store.generated) [
    | inl n ↦
        kept-IsFollowing c _
          (subst (IsKept env c) (sym (judge-empty env c store n)) (defer_verdict-IsKept env c _ _))
    | inr (g, s) ↦ verdict-IsFollowing c g _ (judge-IsVerdict env c store g s).0
  ]

  removal-IsFollowing :
      (c : Claim C) → c.deleting ≡ true → IsFollowing c (reconcile_deletion env c).stored
  removal-IsFollowing c d =
      let s = reconcile_deletion-IsUnjudged env c in
      record {
        latched = λ h. s.active ∙ h;
        guarded = λ h. ground (arith, s.deleting, d);
        fresh = λ w h. inl (ground (arith, s.accepted, s.active, h));
      }

  pub reconcile_claim-IsFollowing :
      (c : Claim C) (store : Store (Option P))
      → IsFollowing c (reconcile_claim env c store).0.stored
  unfolding reconcile_claim
  reconcile_claim-IsFollowing c store =
      if-cases (λ (r : Result C × Store (Option P)). IsFollowing c r.0.stored) c.deleting
        (λ t. removal-IsFollowing c t) (λ f. judge-IsFollowing c store)
