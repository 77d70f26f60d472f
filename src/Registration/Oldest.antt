-- ===== src/Registration/Oldest.antt =====
-- Among the claims that compete for a catalog exactly the oldest one holds it.
use opm_operator.Prelude.{
  String, ◌≡◌, refl, ap, ◌≢◌, true, false, ◌&&◌, ◌↔◌, ◌⊎◌, inl, inr, List, [], ◌∷◌, Memᴰ, none,
  some, eq_iff, arith, Bool-cases, ◌<◌,
}
use mathlib.Core.List.Memᴰ
use mathlib.Core.Path.{subst}
use opm_operator.Prelude.Order.{
  text_ltb, text_ltb_irrefl, text_ltb_trans, text_ltb_connex, text_ltb_asymm,
}
use opm_operator.Prelude.Texts.{contains}
use opm_operator.Registration.{
  Claim, older_claim, claim_finalizer, claim_contributes_after_deletion,
}
use opm_operator.Registration.Holder.{competes, holder_loop, holder_of}

module _ {C : Type 0} where
  pub older_claim_trans :
      (a b c : Claim C) → older_claim a b ≡ true → older_claim b c ≡ true → older_claim a c ≡ true
  unfolding older_claim
  older_claim_trans a b c h k = ground (arith, text_ltb_trans a.name b.name c.name)

  -- Two claims of which neither is older have one name.
  pub older_claim_connex :
      (a b : Claim C) → older_claim a b ≡ false → older_claim b a ≡ false → a.name ≡ b.name
  unfolding older_claim
  older_claim_connex a b h k = ground (arith, text_ltb_connex a.name b.name)

  older_claim_negtrans :
      (a b c : Claim C)
      → older_claim a b ≡ false
      → older_claim b c ≡ false
      → older_claim a c ≡ false
  unfolding older_claim
  older_claim_negtrans a b c h k = ground (
    arith,
    text_ltb_connex a.name b.name,
    text_ltb_connex b.name c.name,
    text_ltb_trans a.name c.name b.name,
    text_ltb_trans b.name a.name c.name,
    text_ltb_asymm a.name c.name,
    text_ltb_trans c.name b.name a.name,
    Bool-cases (text_ltb b.name a.name),
    Bool-cases (text_ltb c.name b.name),
  )

  older_claim_irrefl : (a : Claim C) → older_claim a a ≡ false
  unfolding older_claim
  older_claim_irrefl a = ground (arith, text_ltb_irrefl a.name)

  older_claim_asymm : (a b : Claim C) → older_claim a b ≡ true → older_claim b a ≡ false
  unfolding older_claim
  older_claim_asymm a b h = ground (arith, text_ltb_asymm a.name b.name)

  -- What the loop ends with, from the holder `first`: it or a competing claim of the list, and no
  -- older one is left behind.
  pub record IsOldest (claim first last : Claim C) (list : List (Claim C)) : Type 0 where
    pub among : (last ≡ first) ⊎ (Memᴰ last list × (competes claim last ≡ true))
    pub before_first : older_claim first last ≡ false
    pub before :
        (other : Claim C)
        → Memᴰ other list
        → competes claim other ≡ true
        → older_claim other last ≡ false

  holder_loop-IsOldest :
      (claim first : Claim C) (list : List (Claim C))
      → IsOldest claim first (holder_loop claim first list) list
  unfolding holder_loop
  holder_loop-IsOldest claim first [] = record {
    among = inl refl;
    before_first = older_claim_irrefl first;
    before = λ other m c. elim m [ ];
  }
  holder_loop-IsOldest claim first (o ∷ list) =
      elim (Bool-cases (competes claim o && older_claim o first)) [
        | inl t ↦ rw t (
            let ih = holder_loop-IsOldest claim o list in
            let older : older_claim o first ≡ true = ground (arith, t) in
            let own : competes claim o ≡ true = ground (arith, t) in
            record {
              among = elim ih.among [
                | inl e ↦ inr (Memᴰ.head e, rw e own)
                | inr (m, c) ↦ inr (Memᴰ.tail m, c)
              ];
              before_first =
                  older_claim_negtrans first o (holder_loop claim o list)
                    (older_claim_asymm o first older) ih.before_first;
              before = λ other m c. elim (Memᴰ.cases_cons m) [
                | inl e ↦ rw e ih.before_first
                | inr m' ↦ ih.before other m' c
              ];
            })
        | inr f ↦ rw f (
            let ih = holder_loop-IsOldest claim first list in
            record {
              among = elim ih.among [ inl e ↦ inl e | inr (m, c) ↦ inr (Memᴰ.tail m, c) ];
              before_first = ih.before_first;
              before = λ other m c. elim (Memᴰ.cases_cons m) [
                | inl e ↦
                    older_claim_negtrans other first (holder_loop claim first list)
                      (ground (arith, f, ap (competes claim) e, ap (λ x. older_claim x first) e, c))
                      ih.before_first
                | inr m' ↦ ih.before other m' c
              ];
            })
      ]

  competes-name : (claim other : Claim C) → competes claim other ≡ true → other.name ≢ claim.name
  unfolding competes
  competes-name claim other h = ground (arith, eq_iff other.name claim.name)

  -- A claim is told that it holds its catalog exactly when no listed claim that competes with it is
  -- older.
  holder_of-none_tests :
      (claim : Claim C) (list : List (Claim C))
      → (holder_of claim list ≡ none) ↔ (
          (other : Claim C)
          → Memᴰ other list
          → competes claim other ≡ true
          → older_claim other claim ≡ false)
  unfolding holder_of
  holder_of-none_tests claim list =
      let last = holder_loop claim claim list in
      let oldest = holder_loop-IsOldest claim claim list in
      (
        λ h other m c. elim oldest.among [
          | inl e ↦ subst (λ x. older_claim other x ≡ false) e (oldest.before other m c)
          | inr (n, d) ↦
              absurd (competes-name claim last d (ground (arith, h, eq_iff last.name claim.name)))
        ],
        λ h. elim oldest.among [
          | inl e ↦ ground (arith, ap (λ (x : Claim C). x.name) e, eq_iff last.name claim.name)
          | inr (n, d) ↦ absurd (
              competes-name claim last d
                (older_claim_connex last claim (h last n d) oldest.before_first))
        ],
      )

  -- Otherwise the answer names the oldest of the listed claims that compete with it.
  pub holder_of-some :
      (claim : Claim C) (list : List (Claim C)) (name : String)
      → holder_of claim list ≡ some name
      → (holder : Claim C) × (holder.name ≡ name)
        × Memᴰ holder list
        × (competes claim holder ≡ true)
        × IsOldest claim claim holder list
  unfolding holder_of
  holder_of-some claim list name h =
      let last = holder_loop claim claim list in
      let oldest = holder_loop-IsOldest claim claim list in
      elim oldest.among [
        | inl e ↦
            absurd (ground (arith, h, ap (λ (x : Claim C). x.name) e, eq_iff last.name claim.name))
        | inr (n, d) ↦ (last, ground (arith, h), n, d, oldest)
      ]

  -- Of two listed claims that compete with each other, at most one is told that it holds the
  -- catalog.
  pub one_holder :
      (a b : Claim C) (list : List (Claim C))
      → Memᴰ a list
      → Memᴰ b list
      → competes a b ≡ true
      → competes b a ≡ true
      → (holder_of a list ≢ none) ⊎ (holder_of b list ≢ none)
  one_holder a b list m n c d = elim (Bool-cases (older_claim b a)) [
    | inl t ↦ inl (λ h. cc ((holder_of-none_tests a list).0 h b n c, t))
    | inr f ↦ inr (λ h.
        absurd (
          competes-name b a d (older_claim_connex a b ((holder_of-none_tests b list).0 h a m d) f)))
  ]

  -- Two claims of different names for one catalog, of which the other one is in force: it is not
  -- being deleted, or its deletion is held.
  pub record IsRival (claim other : Claim C) : Type 0 where
    pub distinct : other.name ≢ claim.name
    pub same_catalog : other.catalog ≡ claim.catalog
    pub in_force : other.deleting ≡ true → contains other.finalizers claim_finalizer ≡ true

  abbrev pub IsOlder : Claim C → Claim C → Type 0
  IsOlder a b =
      (a.created < b.created) ⊎ ((a.created ≡ b.created) × (text_ltb a.name b.name ≡ true))

  competes-IsRival : (claim other : Claim C) → competes claim other ≡ true → IsRival claim other
  unfolding competes claim_contributes_after_deletion
  competes-IsRival claim other h = record {
    distinct = competes-name claim other h;
    same_catalog = ground (arith, h, eq_iff other.catalog claim.catalog);
    in_force = λ d. ground (arith, h, d);
  }

  IsRival-competes : (claim other : Claim C) → IsRival claim other → competes claim other ≡ true
  unfolding competes claim_contributes_after_deletion
  IsRival-competes claim other r = ground (
    arith,
    r.distinct,
    r.same_catalog,
    r.in_force,
    eq_iff other.name claim.name,
    eq_iff other.catalog claim.catalog,
  )

  older_claim-IsOlder : (a b : Claim C) → older_claim a b ≡ true → IsOlder a b
  unfolding older_claim
  older_claim-IsOlder a b h = ground (arith, h)

  IsOlder-older_claim : (a b : Claim C) → IsOlder a b → older_claim a b ≡ true
  unfolding older_claim
  IsOlder-older_claim a b o = ground (arith, o)

  -- A claim is told that it holds its catalog exactly when no other listed claim for the catalog,
  -- whether not being deleted or held in its deletion, was created earlier, or at the same time with
  -- a lower name.
  pub holder_of-none_iff :
      (claim : Claim C) (list : List (Claim C))
      → (holder_of claim list ≡ none)
        ↔ ((other : Claim C) → Memᴰ other list → IsRival claim other → ¬ IsOlder other claim)
  holder_of-none_iff claim list =
      let tests = holder_of-none_tests claim list in
      (
        λ h other m r o.
            cc (
              tests.0 h other m (IsRival-competes claim other r),
              IsOlder-older_claim other claim o,
            ),
        λ h. tests.1 (λ other m c. elim (Bool-cases (older_claim other claim)) [
          | inl t ↦
              absurd
                (h other m (competes-IsRival claim other c) (older_claim-IsOlder other claim t))
          | inr f ↦ f
        ]),
      )
