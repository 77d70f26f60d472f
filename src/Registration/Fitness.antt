-- ===== src/Registration/Fitness.antt =====
-- What a claim must pass to be accepted, and what a verdict that does not accept it leaves alone.
pub mod Chain
pub mod Whole
use opm_operator.Prelude.{
  ℕ, String, ◌≡◌, refl, sym, ap, ◌∙◌, Bool, true, false, ◌&&◌, ◌||◌, not, ◌↔◌, ◌⊎◌, inl, inr, List,
  [], ◌∷◌, Option, none, some, str_eq, eq_iff, if◌then◌else◌, if-cases, arith, Bool-cases,
  Option-cases,
}
use opm_operator.Prelude.Sorting.{sort}
use opm_operator.Prelude.Texts.{contains}
use opm_operator.Reconcile.Restore.{Inventory}
use opm_operator.Platform.Store.{Store, Generated, lease, release}
use opm_operator.Registration.{
  Claim, Provider, AcquireError, keeps_verdict, verdict_stands, hold_claim, claim_finalizer,
}
use opm_operator.Registration.Holder.{subscribed_contract, holder_of, active_contract_holder}
use opm_operator.Registration.Compat.{Conflict, platform_requirements, build_incompatibility}
use opm_operator.Registration.Verdict.{
  Answers, Result, Note, Acquired, acquired, acquire_failed, InstanceRead, instance_found,
  instance_missing, instance_unread, patch_status, gate_activation, accepted_claim, accept,
  refused_claim, refuse, defer_verdict, hold_verdict,
}
use opm_operator.Registration.Judge.{
  equal_lists, IdentityVerdict, identity_ok, identity_pending, identity_refused, owns_claim,
  identity_in, identity_of, provides_drift, check_provider_identity, after_active, after_providers,
  after_subscribed, after_contracts, after_built, after_holder, after_competing, after_build,
  after_requires, after_resolution, after_identity, after_drift, after_failure, after_acquire,
  judge,
}

module _ {C K P : Type 0} (env : Answers C K P) (c : Claim C) where
  -- No other active claim provides a contract of this one.
  pub record IsUnserved : Type 0 where
    pub list : List (Claim C)
    pub listed : env.providers ≡ some list
    pub clear : active_contract_holder c list ≡ none

  -- No other subscribed catalog provides a contract of this one.
  pub record IsUnsubscribed (g : Generated (Option P)) : Type 0 where
    pub platform : P
    pub provided_by : List (String × List String)
    pub built : g.platform ≡ some platform
    pub read : env.contracts_of platform ≡ some provided_by
    pub clear : subscribed_contract c.provides provided_by c.catalog ≡ none

  -- This claim holds its catalog.
  pub record IsSole : Type 0 where
    pub list : List (Claim C)
    pub listed : env.competing ≡ some list
    pub clear : holder_of c list ≡ none

  -- The requirements of the catalog fit the versions that the platform resolved.
  pub record IsCompatible (g : Generated (Option P)) (cat : K) : Type 0 where
    pub reqs : List (String × String)
    pub catalog_reqs : List (String × String)
    pub resolved : platform_requirements env.read_modfile g.dir ≡ some reqs
    pub required : env.requires_of cat ≡ some catalog_reqs
    pub clear : build_incompatibility env.split_base env.newer catalog_reqs reqs ≡ none

  -- The instance that the claim names rendered it.
  pub record IsOwned (provider : Provider C) : Type 0 where
    pub inventory : Inventory
    pub found : env.read_instance c.provider_namespace c.provider_name ≡ instance_found provider
    pub written : provider.inventory ≡ some inventory
    pub owned : owns_claim c.name inventory.entries ≡ true

  -- The claim lists what the catalog provides, in any order.
  pub record IsHonest (cat : K) : Type 0 where
    pub derived : List String
    pub read : env.provides_of cat ≡ some derived
    pub same : sort c.provides ≡ sort derived

  pub record IsFit (g : Generated (Option P)) (provider : Provider C) : Type 0 where
    pub cat : K
    pub resolved : env.acquire c.catalog c.version ≡ acquired cat
    pub honest : IsHonest cat
    pub owned : IsOwned provider
    pub compatible : IsCompatible g cat
    pub sole : IsSole
    pub unsubscribed : IsUnsubscribed g
    pub unserved : IsUnserved

  -- What is left alone where no verdict is written
  pub record IsKept (r : Result C) : Type 0 where
    pub accepted : r.stored.accepted ≡ c.accepted
    pub active : r.stored.active ≡ c.active
    pub finalizers : r.stored.finalizers ≡ c.finalizers
    pub deleting : r.stored.deleting ≡ c.deleting

  -- What a refusal writes, where the API server takes it
  pub record IsRefused (r : Result C) : Type 0 where
    pub accepted : r.stored.accepted ≡ (if env.takes_status then false else c.accepted)
    pub active : r.stored.active ≡ c.active
    pub finalizers : r.stored.finalizers ≡ c.finalizers
    pub deleting : r.stored.deleting ≡ c.deleting

  abbrev pub IsUnaccepted : Result C → Type 0
  IsUnaccepted r = IsKept r ⊎ IsRefused r

  -- Accepted with the fact `Q`, or not accepted
  abbrev pub IsJudged : Type 0 → Provider C → Result C → Type 0
  IsJudged Q provider r = (Q × (r ≡ accept env c provider)) ⊎ IsUnaccepted r

  pub refuse-IsRefused : (reason : String) (note : Note) → IsRefused (refuse env c reason note)
  unfolding refuse refused_claim patch_status
  refuse-IsRefused reason note = elim (Bool-cases env.takes_status) [
    | inl t ↦ record {
      accepted = ground (arith, t);
      active = ground (arith, t);
      finalizers = ground (arith, t);
      deleting = ground (arith, t);
    }
    | inr f ↦ record {
      accepted = ground (arith, f);
      active = ground (arith, f);
      finalizers = ground (arith, f);
      deleting = ground (arith, f);
    }
  ]

  pub defer_verdict-IsKept :
      (reason : String) (note : Note) → IsKept (defer_verdict env c reason note)
  unfolding defer_verdict patch_status
  defer_verdict-IsKept reason note = record {
    accepted = ground arith;
    active = ground arith;
    finalizers = ground arith;
    deleting = ground arith;
  }

  pub hold_verdict-IsKept : IsKept (hold_verdict env c)
  unfolding hold_verdict patch_status
  hold_verdict-IsKept = record {
    accepted = ground arith;
    active = ground arith;
    finalizers = ground arith;
    deleting = ground arith;
  }

  pub after_failure-IsUnaccepted : (e : AcquireError) → IsUnaccepted (after_failure env c e)
  unfolding after_failure
  after_failure-IsUnaccepted e =
      if-cases IsUnaccepted e.chain.wrong_kind (λ t. inr (refuse-IsRefused _ _))
        (λ f.
          if-cases IsUnaccepted (verdict_stands c && keeps_verdict e) (λ t. inl hold_verdict-IsKept)
            (λ n. inr (refuse-IsRefused _ _)))
