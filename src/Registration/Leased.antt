-- ===== src/Registration/Leased.antt =====
-- The lease of a verdict: the platform package that it reads stays leased while it is read, and the
-- lease is given back.
use opm_operator.Prelude.{
  ◌+◌, ◌≡◌, refl, false, Option, some, if-cases, arith, Option-cases, inl, inr,
}
use opm_operator.Prelude.Dicts.{insert, lookup-insert}
use opm_operator.Platform.Identity.{PackageIdentity, identity_key, identity_eq_iff}
use opm_operator.Platform.Store.{Store, Generated, Handle, count_of, lease, release}
use opm_operator.Platform.Store.Leases.{count-release}
use opm_operator.Registration.{Claim}
use opm_operator.Registration.Verdict.{Answers, Result}
use opm_operator.Registration.Judge.{judge, reconcile_claim}

module _ {C K P : Type 0} (env : Answers C K P) (c : Claim C) where
  -- The store after a reconcile has the platform, and the leases, that it had before.
  pub record IsReturned (before after : Store (Option P)) : Type 0 where
    pub generated : after.generated ≡ before.generated
    pub counts : (id : PackageIdentity) → count_of id after.leases ≡ count_of id before.leases

  release-generated : (h : Handle) (s : Store (Option P)) → (release h s).1.generated ≡ s.generated
  unfolding release
  release-generated h s = ground arith

  lease-IsReturned :
      (store : Store (Option P)) (g : Generated (Option P))
      → store.generated ≡ some g
      → IsReturned store
          (release
            (record { id = g.identity; fired = false })
            (record store {
              leases = insert g.identity (count_of g.identity store.leases + 1) store.leases;
            })).1
  lease-IsReturned store g e =
      let n = count_of g.identity store.leases + 1 in
      let leased = record store { leases = insert g.identity n store.leases } in
      let h : Handle = record { id = g.identity; fired = false } in
      record {
        generated = release-generated h leased;
        counts = λ id. ground (
          arith,
          count-release h leased id,
          lookup-insert g.identity id n store.leases,
          identity_eq_iff g.identity id,
        );
      }

  judge-IsReturned : (store : Store (Option P)) → IsReturned store (judge env c store).1
  unfolding judge lease
  judge-IsReturned store = elim (Option-cases store.generated) [
    | inl n ↦ record { generated = ground (arith, n); counts = λ id. ground (arith, n) }
    | inr (g, s) ↦
        let k = lease-IsReturned store g s in
        record {
          generated = ground (arith, s, k.generated);
          counts = λ id. ground (arith, s, k.counts id);
        }
  ]

  -- A reconcile of a claim, on each of its paths, gives back the lease that it takes: the store
  -- holds the platform that it held, and each package is leased as often as before.
  pub reconcile_claim-IsReturned :
      (store : Store (Option P)) → IsReturned store (reconcile_claim env c store).1
  unfolding reconcile_claim
  reconcile_claim-IsReturned store =
      if-cases (λ (r : Result C × Store (Option P)). IsReturned store r.1) c.deleting
        (λ t. record { generated = refl; counts = λ id. refl }) (λ f. judge-IsReturned store)
