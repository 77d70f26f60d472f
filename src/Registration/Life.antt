-- ===== src/Registration/Life.antt =====
-- What a claim can become: its reconciles, under any answers, the edits of its spec, and its
-- deletion. Nobody else removes the guard finalizer.
use opm_operator.Prelude.{String, ◌≡◌, true, false, ◌||◌, List, Option, inl, inr, arith}
use opm_operator.Prelude.Int64.{ℤ}
use opm_operator.Prelude.Texts.{contains}
use opm_operator.Platform.Store.{Store}
use opm_operator.Registration.{Claim, claim_finalizer}
use opm_operator.Registration.Verdict.{Answers}
use opm_operator.Registration.Judge.{reconcile_claim}
use opm_operator.Registration.Latch.{reconcile_claim-IsFollowing}

-- What is accepted or active is held by the finalizer, or is being deleted.
abbrev pub IsGuarded : {C : Type 0} → Claim C → Type 0
IsGuarded {C} c =
    (c.accepted || c.active) ≡ true → (contains c.finalizers claim_finalizer || c.deleting) ≡ true

module _ {C : Type 0} (K P : Type 0) where
  pub data Step (c : Claim C) : Claim C → Type 0 where
    reconciled :
        (env : Answers C K P) (store : Store (Option P))
        → Step c (reconcile_claim env c store).0.stored
    edited :
        (generation : ℤ)
        → (catalog version : String) → (provides : List String)
        → (provider_namespace provider_name : String)
        → Step c (record c {
          generation = generation;
          catalog = catalog;
          version = version;
          provides = provides;
          provider_namespace = provider_namespace;
          provider_name = provider_name;
        })
    deleted : Step c (record c { deleting = true })

  pub data Reach (c : Claim C) : Claim C → Type 0 where
    here : Reach c c
    next : {d e : Claim C} → Reach c d → Step d e → Reach c e

  -- No patch of this step had the rest of its status taken and its metadata refused.
  abbrev IsWholeStep : {c d : Claim C} → Step c d → Type 0
  IsWholeStep (reconciled env store) = env.takes_status ≡ true → env.takes_metadata ≡ true
  IsWholeStep (edited g k v p n m) = Unit
  IsWholeStep deleted = Unit

  -- The same of every step
  abbrev pub IsWhole : {c d : Claim C} → Reach c d → Type 0
  IsWhole here = Unit
  IsWhole (next r s) = IsWhole r × IsWholeStep s

  Step-IsGuarded : {c d : Claim C} (s : Step c d) → IsWholeStep s → IsGuarded c → IsGuarded d
  Step-IsGuarded {c} (reconciled env store) w i h =
      let f = reconcile_claim-IsFollowing env c store in
      elim (f.fresh w h) [ inl o ↦ f.guarded (i o) | inr k ↦ ground (arith, k) ]
  Step-IsGuarded (edited g k v p n m) w i h = i h
  Step-IsGuarded deleted w i h = ground arith

  Step-active : {c d : Claim C} → Step c d → c.active ≡ true → d.active ≡ true
  Step-active {c} (reconciled env store) h = (reconcile_claim-IsFollowing env c store).latched h
  Step-active (edited g k v p n m) h = h
  Step-active deleted h = h

  -- Activation latches: once a claim is active it stays active, whatever its reconciles are told,
  -- refusals and failed patches included, and whatever its author edits.
  pub Reach-active : {c d : Claim C} → Reach c d → c.active ≡ true → d.active ≡ true
  Reach-active here h = h
  Reach-active (next r s) h = Step-active s (Reach-active r h)

  -- A claim that starts neither accepted nor active is, at every later moment at which it is
  -- accepted or active, held by the guard finalizer or already being deleted, as long as no patch of
  -- its reconciles has the rest of its status taken and its metadata, which has the finalizer, refused.
  pub Reach-IsGuarded :
      {c d : Claim C} (r : Reach c d) → (c.accepted || c.active) ≡ false → IsWhole r → IsGuarded d
  Reach-IsGuarded here h w = λ k. cc
  Reach-IsGuarded (next r s) h (w, t) = Step-IsGuarded s t (Reach-IsGuarded r h w)
