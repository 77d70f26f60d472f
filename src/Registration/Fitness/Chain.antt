-- ===== src/Registration/Fitness/Chain.antt =====
-- The checks that follow the provider's identity: what an acceptance after them says.
use opm_operator.Prelude.{String, ◌≡◌, refl, inl, inr, List, Option, none, some}
use opm_operator.Platform.Store.{Generated}
use opm_operator.Registration.{Claim, Provider}
use opm_operator.Registration.Holder.{subscribed_contract, holder_of, active_contract_holder}
use opm_operator.Registration.Compat.{Conflict, platform_requirements, build_incompatibility}
use opm_operator.Registration.Verdict.{Answers}
use opm_operator.Registration.Judge.{
  after_active, after_providers, after_subscribed, after_contracts, after_built, after_holder,
  after_competing, after_build, after_requires, after_resolution,
}
use opm_operator.Registration.Fitness.{
  IsUnserved, IsUnsubscribed, IsSole, IsCompatible, IsJudged, refuse-IsRefused,
  defer_verdict-IsKept,
}

module _ {C K P : Type 0} (env : Answers C K P) (c : Claim C) where
  module _ (provider : Provider C) where
    after_active-IsJudged :
        (list : List (Claim C)) (found : Option (String × String))
        → env.providers ≡ some list
        → active_contract_holder c list ≡ found
        → IsJudged env c (IsUnserved env c) provider (after_active env c provider found)
    unfolding after_active
    after_active-IsJudged list none l e = inl (record { list = list; listed = l; clear = e }, refl)
    after_active-IsJudged list (some (k, h)) l e = inr (inr (refuse-IsRefused env c _ _))

    after_providers-IsJudged :
        (answer : Option (List (Claim C)))
        → env.providers ≡ answer
        → IsJudged env c (IsUnserved env c) provider (after_providers env c provider answer)
    unfolding after_providers
    after_providers-IsJudged none e = inr (inl (defer_verdict-IsKept env c _ _))
    after_providers-IsJudged (some list) e = after_active-IsJudged list _ e refl

  module _ (g : Generated (Option P)) (provider : Provider C) where
    after_subscribed-IsJudged :
        (platform : P) (provided_by : List (String × List String))
        (found : Option (String × String))
        → g.platform ≡ some platform
        → env.contracts_of platform ≡ some provided_by
        → subscribed_contract c.provides provided_by c.catalog ≡ found
        → IsJudged env c
            (IsUnsubscribed env c g × IsUnserved env c)
            provider
            (after_subscribed env c provider found)
    unfolding after_subscribed
    after_subscribed-IsJudged platform provided_by none b r e =
        elim (after_providers-IsJudged provider env.providers refl) [
          | inl (q, a) ↦ inl (
            (
              record {
                platform = platform;
                provided_by = provided_by;
                built = b;
                read = r;
                clear = e;
              },
              q,
            ),
            a,
          )
          | inr u ↦ inr u
        ]
    after_subscribed-IsJudged platform provided_by (some (k, h)) b r e =
        inr (inr (refuse-IsRefused env c _ _))

    after_contracts-IsJudged :
        (platform : P) (answer : Option (List (String × List String)))
        → g.platform ≡ some platform
        → env.contracts_of platform ≡ answer
        → IsJudged env c
            (IsUnsubscribed env c g × IsUnserved env c)
            provider
            (after_contracts env c provider answer)
    unfolding after_contracts
    after_contracts-IsJudged platform none b e = inr (inl (defer_verdict-IsKept env c _ _))
    after_contracts-IsJudged platform (some provided_by) b e =
        after_subscribed-IsJudged platform provided_by _ b e refl

    after_built-IsJudged :
        (built : Option P)
        → g.platform ≡ built
        → IsJudged env c
            (IsUnsubscribed env c g × IsUnserved env c)
            provider
            (after_built env c provider built)
    unfolding after_built
    after_built-IsJudged none e = inr (inl (defer_verdict-IsKept env c _ _))
    after_built-IsJudged (some platform) e = after_contracts-IsJudged platform _ e refl

    after_holder-IsJudged :
        (list : List (Claim C)) (holder : Option String)
        → env.competing ≡ some list
        → holder_of c list ≡ holder
        → IsJudged env c
            (IsSole env c × IsUnsubscribed env c g × IsUnserved env c)
            provider
            (after_holder env c g provider holder)
    unfolding after_holder
    after_holder-IsJudged list none l e = elim (after_built-IsJudged g.platform refl) [
      | inl (q, a) ↦ inl ((record { list = list; listed = l; clear = e }, q.0, q.1), a)
      | inr u ↦ inr u
    ]
    after_holder-IsJudged list (some holder) l e = inr (inr (refuse-IsRefused env c _ _))

    after_competing-IsJudged :
        (answer : Option (List (Claim C)))
        → env.competing ≡ answer
        → IsJudged env c
            (IsSole env c × IsUnsubscribed env c g × IsUnserved env c)
            provider
            (after_competing env c g provider answer)
    unfolding after_competing
    after_competing-IsJudged none e = inr (inl (defer_verdict-IsKept env c _ _))
    after_competing-IsJudged (some list) e = after_holder-IsJudged list _ e refl

    module _ (cat : K) where
      after_build-IsJudged :
          (reqs catalog_reqs : List (String × String)) (found : Option Conflict)
          → platform_requirements env.read_modfile g.dir ≡ some reqs
          → env.requires_of cat ≡ some catalog_reqs
          → build_incompatibility env.split_base env.newer catalog_reqs reqs ≡ found
          → IsJudged env c
              (IsCompatible env c g cat × IsSole env c × IsUnsubscribed env c g × IsUnserved env c)
              provider
              (after_build env c g provider found)
      unfolding after_build
      after_build-IsJudged reqs catalog_reqs none r q e =
          elim (after_competing-IsJudged env.competing refl) [
            | inl (rest, a) ↦ inl (
              (
                record {
                  reqs = reqs;
                  catalog_reqs = catalog_reqs;
                  resolved = r;
                  required = q;
                  clear = e;
                },
                rest.0,
                rest.1,
                rest.2,
              ),
              a,
            )
            | inr u ↦ inr u
          ]
      after_build-IsJudged reqs catalog_reqs (some conflict) r q e =
          inr (inr (refuse-IsRefused env c _ _))

      after_requires-IsJudged :
          (reqs : List (String × String)) (answer : Option (List (String × String)))
          → platform_requirements env.read_modfile g.dir ≡ some reqs
          → env.requires_of cat ≡ answer
          → IsJudged env c
              (IsCompatible env c g cat × IsSole env c × IsUnsubscribed env c g × IsUnserved env c)
              provider
              (after_requires env c g provider reqs answer)
      unfolding after_requires
      after_requires-IsJudged reqs none r e = inr (inr (refuse-IsRefused env c _ _))
      after_requires-IsJudged reqs (some catalog_reqs) r e =
          after_build-IsJudged reqs catalog_reqs _ r e refl

      pub after_resolution-IsJudged :
          (answer : Option (List (String × String)))
          → platform_requirements env.read_modfile g.dir ≡ answer
          → IsJudged env c
              (IsCompatible env c g cat × IsSole env c × IsUnsubscribed env c g × IsUnserved env c)
              provider
              (after_resolution env c g cat provider answer)
      unfolding after_resolution
      after_resolution-IsJudged none e = inr (inl (defer_verdict-IsKept env c _ _))
      after_resolution-IsJudged (some reqs) e = after_requires-IsJudged reqs _ e refl
