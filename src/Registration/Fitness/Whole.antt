-- ===== src/Registration/Fitness/Whole.antt =====
-- A claim is accepted exactly when every check of its verdict passes.
use opm_operator.Prelude.{
  String, ◌≡◌, refl, sym, ap, ◌∙◌, true, ◌⊎◌, inl, inr, List, [], ◌∷◌, Option, none, some, eq_iff,
  arith, Bool-cases,
}
use mathlib.Core.Path.{subst}
use opm_operator.Prelude.Sorting.{sort}
use opm_operator.Reconcile.Restore.{Inventory}
use opm_operator.Platform.Store.{Store, Generated, lease}
use opm_operator.Registration.{Claim, Provider}
use opm_operator.Registration.Verdict.{
  Answers, Result, Note, no_platform, Acquired, acquired, acquire_failed, InstanceRead,
  instance_found, instance_missing, instance_unread, accept, defer_verdict,
}
use opm_operator.Registration.Judge.{
  equal_lists, IdentityVerdict, identity_ok, identity_pending, identity_refused, owns_claim,
  identity_in, identity_of, provides_drift, check_provider_identity, after_active, after_providers,
  after_subscribed, after_contracts, after_built, after_holder, after_competing, after_build,
  after_requires, after_resolution, after_identity, after_drift, after_acquire, judge,
}
use opm_operator.Registration.Fitness.{
  IsUnserved, IsUnsubscribed, IsSole, IsOwned, IsHonest, IsFit, IsUnaccepted, refuse-IsRefused,
  defer_verdict-IsKept, after_failure-IsUnaccepted,
}
use opm_operator.Registration.Fitness.Chain.{after_resolution-IsJudged}

equal_lists_sound : (xs ys : List String) → equal_lists xs ys ≡ true → xs ≡ ys
unfolding equal_lists
equal_lists_sound [] [] h = refl
equal_lists_sound [] (y ∷ ys) h = cc
equal_lists_sound (x ∷ xs) [] h = cc
equal_lists_sound (x ∷ xs) (y ∷ ys) h = ground (arith, eq_iff x y, equal_lists_sound xs ys, h)

module _ {C : Type 0} (name : String) (provider : Provider C) where
  identity_in-ok :
      (p : Provider C) (found : Option Inventory)
      → identity_in name p found ≡ identity_ok provider
      → (p ≡ provider)
        × ((inventory : Inventory) × (found ≡ some inventory)
            × (owns_claim name inventory.entries ≡ true))
  unfolding identity_in
  identity_in-ok p none h = cc
  identity_in-ok p (some inventory) h = elim (Bool-cases (owns_claim name inventory.entries)) [
    | inl t ↦
        let z : identity_ok p ≡ identity_ok provider = ground (arith, t, h) in
        (cc z, (inventory, refl, t))
    | inr f ↦ absurd (ground (arith, f, h))
  ]

  identity_of-ok :
      (answer : InstanceRead C)
      → identity_of name answer ≡ identity_ok provider
      → (answer ≡ instance_found provider)
        × ((inventory : Inventory) × (provider.inventory ≡ some inventory)
            × (owns_claim name inventory.entries ≡ true))
  unfolding identity_of
  identity_of-ok instance_missing h = cc
  identity_of-ok instance_unread h = cc
  identity_of-ok (instance_found p) h =
      let (e, (inventory, w, o)) = identity_in-ok p p.inventory h in
      (ap instance_found e, (inventory, ap (λ (x : Provider C). x.inventory) (sym e) ∙ w, o))

module _ {C K P : Type 0} (env : Answers C K P) (c : Claim C) where
  -- The claim passed every check with the provider, or was not accepted.
  abbrev pub IsVerdict : Generated (Option P) → Result C → Type 0
  IsVerdict g r =
      ((provider : Provider C) × IsFit env c g provider × (r ≡ accept env c provider))
      ⊎ IsUnaccepted env c r

  after_identity-IsVerdict :
      (g : Generated (Option P)) (cat : K) (verdict : IdentityVerdict C)
      → env.acquire c.catalog c.version ≡ acquired cat
      → IsHonest env c cat
      → ((provider : Provider C) → verdict ≡ identity_ok provider → IsOwned env c provider)
      → IsVerdict g (after_identity env c g cat verdict)
  unfolding after_identity
  after_identity-IsVerdict g cat (identity_ok provider) a h o =
      elim (after_resolution-IsJudged env c g provider cat _ refl) [
        | inl ((k, s, n, m), e) ↦ inl (
          provider,
          record {
            cat = cat;
            resolved = a;
            honest = h;
            owned = o provider refl;
            compatible = k;
            sole = s;
            unsubscribed = n;
            unserved = m;
          },
          e,
        )
        | inr u ↦ inr u
      ]
  after_identity-IsVerdict g cat (identity_pending note) a h o =
      inr (inl (defer_verdict-IsKept env c _ _))
  after_identity-IsVerdict g cat (identity_refused note) a h o =
      inr (inr (refuse-IsRefused env c _ _))

  identity-IsOwned :
      (provider : Provider C)
      → check_provider_identity env c ≡ identity_ok provider
      → IsOwned env c provider
  unfolding check_provider_identity
  identity-IsOwned provider h =
      let (f, (inventory, w, o)) = identity_of-ok c.name provider _ h in
      record { inventory = inventory; found = f; written = w; owned = o }

  provides_drift-IsHonest :
      (cat : K) (answer : Option (List String))
      → env.provides_of cat ≡ answer
      → provides_drift env cat c.provides ≡ none
      → IsHonest env c cat
  unfolding provides_drift
  provides_drift-IsHonest cat none r h = absurd (ground (arith, r, h))
  provides_drift-IsHonest cat (some derived) r h = record {
    derived = derived;
    read = r;
    same = equal_lists_sound (sort c.provides) (sort derived) (ground (arith, r, h));
  }

  after_drift-IsVerdict :
      (g : Generated (Option P)) (cat : K) (found : Option Note)
      → env.acquire c.catalog c.version ≡ acquired cat
      → provides_drift env cat c.provides ≡ found
      → IsVerdict g (after_drift env c g cat found)
  unfolding after_drift
  after_drift-IsVerdict g cat none a e =
      after_identity-IsVerdict g cat (check_provider_identity env c) a
        (provides_drift-IsHonest cat _ refl e) identity-IsOwned
  after_drift-IsVerdict g cat (some note) a e = inr (inr (refuse-IsRefused env c _ _))

  after_acquire-IsVerdict :
      (g : Generated (Option P)) (answer : Acquired K)
      → env.acquire c.catalog c.version ≡ answer
      → IsVerdict g (after_acquire env c g answer)
  unfolding after_acquire
  after_acquire-IsVerdict g (acquired cat) e = after_drift-IsVerdict g cat _ e refl
  after_acquire-IsVerdict g (acquire_failed err) e = inr (after_failure-IsUnaccepted env c err)

  equal_lists_refl : (xs : List String) → equal_lists xs xs ≡ true
  unfolding equal_lists
  equal_lists_refl [] = refl
  equal_lists_refl (x ∷ xs) = ground (arith, eq_iff x x, equal_lists_refl xs)

  tail-accepts :
      (g : Generated (Option P)) (provider : Provider C)
      → IsSole env c
      → IsUnsubscribed env c g
      → IsUnserved env c
      → after_competing env c g provider env.competing ≡ accept env c provider
  unfolding after_competing after_holder after_built after_contracts after_subscribed
      after_providers after_active
  tail-accepts g provider s n u =
      ground (arith, s.listed, s.clear, n.built, n.read, n.clear, u.listed, u.clear)

  drift-none : (cat : K) → IsHonest env c cat → provides_drift env cat c.provides ≡ none
  unfolding provides_drift
  drift-none cat h = ground (arith, h.read, h.same, equal_lists_refl (sort h.derived))

  identity-ok :
      (provider : Provider C)
      → IsOwned env c provider
      → check_provider_identity env c ≡ identity_ok provider
  unfolding check_provider_identity identity_of identity_in
  identity-ok provider o = ground (arith, o.found, o.written, o.owned)

  after_acquire-accepts :
      (g : Generated (Option P)) (provider : Provider C)
      → IsFit env c g provider
      → after_acquire env c g (env.acquire c.catalog c.version) ≡ accept env c provider
  unfolding after_acquire after_drift after_identity after_resolution after_requires after_build
  after_acquire-accepts g provider f = ground (
    arith,
    f.resolved,
    drift-none f.cat f.honest,
    identity-ok provider f.owned,
    f.compatible.resolved,
    f.compatible.required,
    f.compatible.clear,
    tail-accepts g provider f.sole f.unsubscribed f.unserved,
  )

  pub judge-generated :
      (store : Store (Option P)) (g : Generated (Option P))
      → store.generated ≡ some g
      → (judge env c store).0 ≡ after_acquire env c g (env.acquire c.catalog c.version)
  unfolding judge lease
  judge-generated store g e = ground (arith, e)

  pub judge-empty :
      (store : Store (Option P))
      → store.generated ≡ none
      → (judge env c store).0 ≡ defer_verdict env c "PlatformNotReady" no_platform
  unfolding judge lease
  judge-empty store e = ground (arith, e)

  -- Where a platform is generated, a reconcile of a claim that is not being deleted accepts it, on
  -- the word of a provider, exactly when the claim passes every check with that provider: the
  -- catalog resolves, lists what the claim lists, and requires nothing newer than the platform; the
  -- provider's inventory has the claim; no older claim competes for the catalog; and no subscribed
  -- catalog and no active claim provides one of its contracts. Otherwise the claim's acceptance, its
  -- activity and its finalizers are left alone, or it is refused: its acceptance is taken back.
  pub judge-IsVerdict :
      (store : Store (Option P)) (g : Generated (Option P))
      → store.generated ≡ some g
      → IsVerdict g (judge env c store).0
        × ((provider : Provider C)
            → IsFit env c g provider
            → (judge env c store).0 ≡ accept env c provider)
  judge-IsVerdict store g e =
      let j = judge-generated store g e in
      (
        subst (IsVerdict g) (sym j) (after_acquire-IsVerdict g _ refl),
        λ provider f. j ∙ after_acquire-accepts g provider f,
      )
