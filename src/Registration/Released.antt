-- ===== src/Registration/Released.antt =====
-- A deleted claim is released exactly when no instance demands what it provides.
use opm_operator.Prelude.{
  String, ◌≡◌, refl, sym, ap, ◌∙◌, true, false, not, ◌↔◌, inl, inr, List, [], ◌∷◌, Memᴰ, Option,
  none, some, str_eq, eq_iff, is_empty, select, if◌then◌else◌, if-cases, arith, Bool-cases,
}
use mathlib.Core.List.Memᴰ
use opm_operator.Prelude.Texts.{contains}
use opm_operator.Prelude.Sorting.{is_empty-sort}
use opm_operator.Registration.{Claim, Provider, claim_finalizer, claim_contributes_after_deletion}
use opm_operator.Registration.Verdict.{Answers, Result, patch_status}
use opm_operator.Registration.Removal.{
  demands_any, dependent_names, dependents, without_finalizer, block_deletion, release_claim,
  after_dependents, reconcile_deletion,
}

-- No listed instance demands a contract that the claim provides.
abbrev pub IsFree : {C : Type 0} → Claim C → List (Provider C) → Type 0
IsFree {C} c instances =
    (i : Provider C) (fqn : String)
    → Memᴰ i instances
    → contains c.provides fqn ≡ true
    → contains i.required_contracts fqn ≡ false

demands_any-false :
    (provided required : List String) (fqn : String)
    → demands_any provided required ≡ false
    → contains provided fqn ≡ true
    → contains required fqn ≡ false
unfolding demands_any
demands_any-false provided [] fqn h c = refl
demands_any-false provided (x ∷ required) fqn h c =
    ground (arith, h, c, demands_any-false provided required fqn, eq_iff x fqn)

demands_any_of_none :
    (provided required : List String)
    → ((fqn : String) → contains provided fqn ≡ true → contains required fqn ≡ false)
    → demands_any provided required ≡ false
unfolding demands_any
demands_any_of_none provided [] h = refl
demands_any_of_none provided (x ∷ required) h = ground (
  arith,
  h x,
  eq_iff x x,
  demands_any_of_none provided required (λ fqn c. ground (arith, h fqn c)),
)

without_finalizer-clear :
    (fs : List String)
    → contains (select (λ f. not (str_eq f claim_finalizer)) fs) claim_finalizer ≡ false
without_finalizer-clear [] = refl
without_finalizer-clear (f ∷ fs) = ground (arith, without_finalizer-clear fs)

module _ {C : Type 0} where
  dependent_names-empty :
      (provided : List String) (instances : List (Provider C)) (i : Provider C)
      → is_empty (dependent_names provided instances) ≡ true
      → Memᴰ i instances
      → demands_any provided i.required_contracts ≡ false
  unfolding dependent_names
  dependent_names-empty provided [] i h m = elim m [ ]
  dependent_names-empty provided (x ∷ instances) i h m =
      elim (Bool-cases (demands_any provided x.required_contracts)) [
        | inl t ↦ absurd (ground (arith, t, h))
        | inr f ↦ elim (Memᴰ.cases_cons m) [
          | inl e ↦ ap (λ (y : Provider C). demands_any provided y.required_contracts) e ∙ f
          | inr k ↦ dependent_names-empty provided instances i (ground (arith, f, h)) k
        ]
      ]

  dependent_names-none :
      (provided : List String) (instances : List (Provider C))
      → ((i : Provider C) → Memᴰ i instances → demands_any provided i.required_contracts ≡ false)
      → is_empty (dependent_names provided instances) ≡ true
  unfolding dependent_names
  dependent_names-none provided [] h = refl
  dependent_names-none provided (x ∷ instances) h = ground (
    arith,
    h x (Memᴰ.head refl),
    dependent_names-none provided instances (λ i m. h i (Memᴰ.tail m)),
  )

  dependents-empty_iff :
      (c : Claim C) (instances : List (Provider C))
      → (is_empty (dependents c instances) ≡ true) ↔ IsFree c instances
  unfolding dependents
  dependents-empty_iff c instances =
      let names = dependent_names c.provides instances in
      (
        λ h i fqn m p.
            demands_any-false c.provides i.required_contracts fqn
              (dependent_names-empty c.provides instances i (sym (is_empty-sort names) ∙ h) m) p,
        λ h.
            is_empty-sort names
            ∙ dependent_names-none c.provides instances
                (λ i m. demands_any_of_none c.provides i.required_contracts (λ fqn p. h i fqn m p)),
      )

module _ {C K P : Type 0} (env : Answers C K P) (c : Claim C) where
  -- A deletion does not judge the claim.
  pub record IsUnjudged (d : Claim C) : Type 0 where
    pub accepted : d.accepted ≡ c.accepted
    pub active : d.active ≡ c.active
    pub deleting : d.deleting ≡ c.deleting

  release_claim-IsUnjudged : IsUnjudged (release_claim env c).stored
  unfolding release_claim patch_status without_finalizer
  release_claim-IsUnjudged = record {
    accepted = ground arith;
    active = ground arith;
    deleting = ground arith;
  }

  block_deletion-IsUnjudged : (names : List String) → IsUnjudged (block_deletion env c names).stored
  unfolding block_deletion patch_status
  block_deletion-IsUnjudged names = record {
    accepted = ground arith;
    active = ground arith;
    deleting = ground arith;
  }

  after_dependents-IsUnjudged :
      (answer : Option (List (Provider C))) → IsUnjudged (after_dependents env c answer).stored
  unfolding after_dependents
  after_dependents-IsUnjudged none = record { accepted = refl; active = refl; deleting = refl }
  after_dependents-IsUnjudged (some instances) =
      if-cases (λ (r : Result C). IsUnjudged r.stored) (is_empty (dependents c instances))
        (λ t. release_claim-IsUnjudged) (λ f. block_deletion-IsUnjudged _)

  pub reconcile_deletion-IsUnjudged : IsUnjudged (reconcile_deletion env c).stored
  unfolding reconcile_deletion
  reconcile_deletion-IsUnjudged =
      if-cases (λ (r : Result C). IsUnjudged r.stored) (not (claim_contributes_after_deletion c))
        (λ t. record { accepted = refl; active = refl; deleting = refl })
        (λ f. after_dependents-IsUnjudged env.instances)

  blocked-finalizers :
      (names : List String) → (block_deletion env c names).stored.finalizers ≡ c.finalizers
  unfolding block_deletion patch_status
  blocked-finalizers names = ground arith

  released-finalizers :
      (release_claim env c).stored.finalizers
      ≡ (if env.takes_metadata then (without_finalizer c).finalizers else c.finalizers)
  unfolding release_claim patch_status
  released-finalizers = ground arith

  -- What lets a deleted claim go
  pub record IsLetGo : Type 0 where
    pub instances : List (Provider C)
    pub listed : env.instances ≡ some instances
    pub free : IsFree c instances
    pub taken : env.takes_metadata ≡ true

  after_dependents-released :
      (answer : Option (List (Provider C)))
      → env.instances ≡ answer
      → contains c.finalizers claim_finalizer ≡ true
      → contains (after_dependents env c answer).stored.finalizers claim_finalizer ≡ false
      → IsLetGo
  unfolding after_dependents
  after_dependents-released none e h r = cc
  after_dependents-released (some instances) e h r =
      elim (Bool-cases (is_empty (dependents c instances))) [
        | inr f ↦ absurd (ground (arith, f, h, r, blocked-finalizers (dependents c instances)))
        | inl t ↦ elim (Bool-cases env.takes_metadata) [
          | inr n ↦ absurd (ground (arith, t, h, r, n, released-finalizers))
          | inl y ↦ record {
            instances = instances;
            listed = e;
            free = (dependents-empty_iff c instances).0 t;
            taken = y;
          }
        ]
      ]

  without-clear : contains (without_finalizer c).finalizers claim_finalizer ≡ false
  unfolding without_finalizer
  without-clear = without_finalizer-clear c.finalizers

  after_dependents-free :
      (instances : List (Provider C))
      → IsFree c instances
      → after_dependents env c (some instances) ≡ release_claim env c
  unfolding after_dependents
  after_dependents-free instances f = ground (arith, (dependents-empty_iff c instances).1 f)

  -- A reconcile of a deleted claim that carries the guard finalizer removes it exactly when the
  -- instances were listed, none of them demands a contract that the claim provides, and the API
  -- server takes the patch; a listing that fails, or one dependent, keeps it.
  pub reconcile_deletion-released_iff :
      contains c.finalizers claim_finalizer ≡ true
      → (contains (reconcile_deletion env c).stored.finalizers claim_finalizer ≡ false) ↔ IsLetGo
  unfolding reconcile_deletion claim_contributes_after_deletion
  reconcile_deletion-released_iff h = (
    λ r. after_dependents-released env.instances refl h (ground (arith, h, r)),
    λ l. ground (
      arith,
      h,
      l.listed,
      l.taken,
      (dependents-empty_iff c l.instances).1 l.free,
      after_dependents-free l.instances l.free,
      released-finalizers,
      without-clear,
    ),
  )
