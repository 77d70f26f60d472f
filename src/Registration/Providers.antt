-- ===== src/Registration/Providers.antt =====
-- A contract with another provider is found exactly when there is one.
use opm_operator.Prelude.{
  String, ◌≡◌, ◌≢◌, refl, sym, true, false, inl, inr, List, [], ◌∷◌, Memᴰ, Option, none, some,
  str_eq, eq_iff, select, mem-select, mem-select_of, arith, Bool-cases, Option-cases,
}
use mathlib.Core.List.Memᴰ
use mathlib.Core.Path.{subst}
use opm_operator.Prelude.Dicts.{string_eq, lookup}
use opm_operator.Prelude.Texts.{contains}
use opm_operator.Prelude.Sorting.{sort, contains-sort}
use opm_operator.Prelude.SortBy.{sort_by, mem-sort_by}
use opm_operator.Registration.{Claim, claim_finalizer, claim_contributes_after_deletion}
use opm_operator.Registration.Holder.{
  other_entry, subscribed_loop, subscribed_contract, first_held, serves, contract_loop,
  active_contract_holder,
}

-- Another entry than the claim's own catalog provides the contract.
abbrev pub IsSubscribed : List (String × List String) → String → String → String → Type 0
IsSubscribed providers own fqn held =
    (entries : List String) × (lookup fqn providers ≡ some entries)
    × (contains entries held ≡ true)
    × (str_eq held own ≡ false)

other_entry-some :
    (own : String) (entries : List String) (held : String)
    → other_entry own entries ≡ some held
    → (contains entries held ≡ true) × (str_eq held own ≡ false)
unfolding other_entry
other_entry-some own [] held h = cc
other_entry-some own (e ∷ entries) held h = elim (Bool-cases (str_eq e own)) [
  | inl t ↦ let (c, n) = other_entry-some own entries held (rw t at h) in (ground (arith, c), n)
  | inr f ↦
      let s : some e ≡ some held = rw f at h in
      (ground (arith, s, eq_iff e held), ground (arith, s, f))
]

other_entry-none :
    (own : String) (entries : List String) (held : String)
    → other_entry own entries ≡ none
    → contains entries held ≡ true
    → str_eq held own ≡ true
unfolding other_entry
other_entry-none own [] held h c = cc
other_entry-none own (e ∷ entries) held h c =
    ground (arith, h, c, other_entry-none own entries held, eq_iff e held)

subscribed_loop-some :
    (providers : List (String × List String)) (own : String) (provides : List String)
    (fqn held : String)
    → subscribed_loop providers own provides ≡ some (fqn, held)
    → (contains provides fqn ≡ true) × IsSubscribed providers own fqn held
unfolding subscribed_loop
subscribed_loop-some providers own [] fqn held h = cc
subscribed_loop-some providers own (p ∷ provides) fqn held h =
    let ih = subscribed_loop-some providers own provides fqn held in
    elim (Option-cases (lookup p providers)) [
      | inl n ↦ let (c, s) = ih (ground (arith, h, n)) in (ground (arith, c), s)
      | inr (entries, e) ↦ elim (Option-cases (other_entry own entries)) [
        | inl n ↦ let (c, s) = ih (ground (arith, h, e, n)) in (ground (arith, c), s)
        | inr (x, y) ↦
            let z : ◌≡◌ {A = Option (String × String)} (some (p, x)) (some (fqn, held)) =
              ground (arith, e, y, h) in
            let pf : p ≡ fqn = ground (arith, z) in
            let xh : x ≡ held = ground (arith, z) in
            let (c, n) = other_entry-some own entries held (ground (arith, y, xh)) in
            (ground (arith, eq_iff p fqn, pf), (entries, ground (arith, e, pf), c, n))
      ]
    ]

subscribed_loop-none :
    (providers : List (String × List String)) (own : String) (provides : List String)
    → subscribed_loop providers own provides ≡ none
    → (fqn held : String) → contains provides fqn ≡ true
    → ¬ IsSubscribed providers own fqn held
unfolding subscribed_loop
subscribed_loop-none providers own [] h fqn held c s = cc
subscribed_loop-none providers own (p ∷ provides) h fqn held c (entries, e, m, n) =
    elim (Bool-cases (str_eq p fqn)) [
      | inl t ↦
          let same : p ≡ fqn = (eq_iff p fqn).0 t in
          let here : lookup p providers ≡ some entries = ground (arith, same, e) in
          elim (Option-cases (other_entry own entries)) [
            | inl x ↦ cc (other_entry-none own entries held x m, n)
            | inr (x, y) ↦ absurd (ground (arith, here, y, h))
          ]
      | inr f ↦
          let rest : contains provides fqn ≡ true = ground (arith, f, c) in
          let quiet : subscribed_loop providers own provides ≡ none =
            ground (arith, h, Option-cases (lookup p providers)) in
          subscribed_loop-none providers own provides quiet fqn held rest (entries, e, m, n)
    ]

-- The contract and the entry that are found: the claim provides the contract, and the entry is
-- another catalog that provides it too. Where none is found, there is none.
pub record IsSubscriptionVerdict (provides : List String) (providers : List (String × List String))
    (own : String) (found : Option (String × String)) : Type 0 where
  pub sound :
      (fqn held : String)
      → found ≡ some (fqn, held)
      → (contains provides fqn ≡ true) × IsSubscribed providers own fqn held
  pub complete :
      found ≡ none
      → (fqn held : String) → contains provides fqn ≡ true
      → ¬ IsSubscribed providers own fqn held

-- A claim is refused for a subscribed contract exactly when an entry that is not its own catalog
-- provides a contract that it lists; the refusal names such a contract and such an entry.
pub subscribed_contract-IsSubscriptionVerdict :
    (provides : List String) (providers : List (String × List String)) (own : String)
    → IsSubscriptionVerdict provides providers own (subscribed_contract provides providers own)
unfolding subscribed_contract
subscribed_contract-IsSubscriptionVerdict provides providers own = record {
  sound = λ fqn held h.
      let (c, s) = subscribed_loop-some providers own (sort provides) fqn held h in
      (rw (contains-sort fqn provides) at c, s);
  complete = λ h fqn held c.
      subscribed_loop-none providers own (sort provides) h fqn held
        (ground (arith, c, contains-sort fqn provides));
}

first_held-some :
    (claimed held : List String) (fqn : String)
    → first_held claimed held ≡ some fqn
    → (contains claimed fqn ≡ true) × (contains held fqn ≡ true)
unfolding first_held
first_held-some [] held fqn h = cc
first_held-some (x ∷ claimed) held fqn h = elim (Bool-cases (contains held x)) [
  | inl t ↦
      let same : x ≡ fqn = ground (arith, h, t) in
      (ground (arith, eq_iff x fqn, same), ground (arith, t, same))
  | inr f ↦
      let (c, d) = first_held-some claimed held fqn (ground (arith, h, f)) in (ground (arith, c), d)
]

first_held-none :
    (claimed held : List String) (fqn : String)
    → first_held claimed held ≡ none
    → contains claimed fqn ≡ true
    → contains held fqn ≡ false
unfolding first_held
first_held-none [] held fqn h c = cc
first_held-none (x ∷ claimed) held fqn h c =
    ground (arith, h, c, first_held-none claimed held fqn, eq_iff x fqn)

module _ {C : Type 0} where
  contract_loop-some :
      (claimed : List String) (others : List (Claim C)) (fqn name : String)
      → contract_loop claimed others ≡ some (fqn, name)
      → (contains claimed fqn ≡ true)
        × (other : Claim C) × Memᴰ other others
        × (other.name ≡ name)
        × (contains other.provides fqn ≡ true)
  unfolding contract_loop
  contract_loop-some claimed [] fqn name h = cc
  contract_loop-some claimed (o ∷ others) fqn name h =
      elim (Option-cases (first_held claimed o.provides)) [
        | inl n ↦
            let (c, other, m, e, d) =
              contract_loop-some claimed others fqn name (ground (arith, h, n)) in
            (c, other, Memᴰ.tail m, e, d)
        | inr (x, y) ↦
            let z : ◌≡◌ {A = Option (String × String)} (some (x, o.name)) (some (fqn, name)) =
              ground (arith, h, y) in
            let (c, d) = first_held-some claimed o.provides fqn (ground (arith, y, z)) in
            (c, o, Memᴰ.head refl, ground (arith, z), d)
      ]

  contract_loop-none :
      (claimed : List String) (others : List (Claim C)) (other : Claim C) (fqn : String)
      → contract_loop claimed others ≡ none
      → contains claimed fqn ≡ true
      → Memᴰ other others
      → contains other.provides fqn ≡ false
  unfolding contract_loop
  contract_loop-none claimed [] other fqn h c m = elim m [ ]
  contract_loop-none claimed (o ∷ others) other fqn h c m =
      elim (Option-cases (first_held claimed o.provides)) [
        | inl n ↦ elim (Memᴰ.cases_cons m) [
          | inl e ↦
              subst (λ (x : Claim C). contains x.provides fqn ≡ false) (sym e)
                (first_held-none claimed o.provides fqn n c)
          | inr i ↦ contract_loop-none claimed others other fqn (ground (arith, h, n)) c i
        ]
        | inr (x, y) ↦ absurd (ground (arith, h, y))
      ]

  -- The other claim is active under another name, and in force: it is not being deleted, or its
  -- deletion is held.
  pub record IsServing (claim other : Claim C) : Type 0 where
    pub distinct : other.name ≢ claim.name
    pub active : other.active ≡ true
    pub in_force : other.deleting ≡ true → contains other.finalizers claim_finalizer ≡ true

  serves-IsServing : (claim other : Claim C) → serves claim other ≡ true → IsServing claim other
  unfolding serves claim_contributes_after_deletion
  serves-IsServing claim other h = record {
    distinct = λ e. ground (arith, h, e, eq_iff other.name claim.name);
    active = ground (arith, h);
    in_force = λ d. ground (arith, h, d);
  }

  IsServing-serves : (claim other : Claim C) → IsServing claim other → serves claim other ≡ true
  unfolding serves claim_contributes_after_deletion
  IsServing-serves claim other r =
      ground (arith, r.distinct, r.active, r.in_force, eq_iff other.name claim.name)

  -- What the search for another active provider of the claim's contracts finds: a contract and a
  -- claim that serves it; and where it finds nothing, no such claim is listed.
  pub record IsConflictVerdict (claim : Claim C) (list : List (Claim C))
      (found : Option (String × String)) : Type 0 where
    pub sound :
        (fqn name : String)
        → found ≡ some (fqn, name)
        → (contains claim.provides fqn ≡ true)
          × (other : Claim C) × Memᴰ other list
          × (other.name ≡ name)
          × IsServing claim other
          × (contains other.provides fqn ≡ true)
    pub complete :
        found ≡ none
        → (fqn : String) (other : Claim C) → contains claim.provides fqn ≡ true
        → Memᴰ other list
        → IsServing claim other
        → contains other.provides fqn ≡ false

  -- The search for another active provider finds a contract that this claim lists, and the name of a
  -- listed claim that serves it: it is active under another name, and either not being deleted or
  -- held in its deletion. Where the search finds nothing, no such claim provides a contract that
  -- this claim lists.
  pub active_contract_holder-IsConflictVerdict :
      (claim : Claim C) (list : List (Claim C))
      → IsConflictVerdict claim list (active_contract_holder claim list)
  unfolding active_contract_holder
  active_contract_holder-IsConflictVerdict claim list =
      let key : Claim C → String = λ c. c.name in
      let picked = select (serves claim) list in
      record {
        sound = λ fqn name h.
            let (c, other, m, e, d) =
              contract_loop-some (sort claim.provides) (sort_by key picked) fqn name h in
            let (i, s) =
              mem-select (serves claim) other list ((mem-sort_by key other picked).0 m) in
            (
              rw (contains-sort fqn claim.provides) at c,
              other,
              i,
              e,
              serves-IsServing claim other s,
              d,
            );
        complete = λ h fqn other c m s.
            contract_loop-none (sort claim.provides) (sort_by key picked) other fqn h
              (ground (arith, c, contains-sort fqn claim.provides))
              ((mem-sort_by key other picked).1
                (mem-select_of (serves claim) other list m (IsServing-serves claim other s)));
      }
