-- ===== src/Reconcile/Identity/Plan.antt =====
-- What a plan of the identities keeps, and when it refuses.
use opm_operator.Prelude.{
  String, ◌≡◌, ◌≢◌, ◌∙◌, ◌↔◌, ◌⊎◌, inl, inr, Bool, true, false, List, [], ◌∷◌, Memᴰ, arith, str_eq,
  eq_iff, Bool-cases, Option, none,
}
use opm_operator.Prelude.Memᴰ
use opm_operator.Prelude.Texts.{contains}
use opm_operator.Reconcile.Identity.{
  recorded_identities, IdentityPlan, plan_identities, keeps_no_op, fill_empty, IdentityFields,
  store,
}

mem_of_recorded :
    (id : String) (l : List String) → Memᴰ id (recorded_identities l) → Memᴰ id l × (id ≢ "")
unfolding recorded_identities
mem_of_recorded id [] m = elim m [ ]
mem_of_recorded id (x ∷ l) m = elim (Bool-cases (str_eq x "")) [
  | inl t ↦ let (i, h) = mem_of_recorded id l (rw t at m) in (Memᴰ.tail i, h)
  | inr f ↦ elim (Memᴰ.cases_cons (rw f at m)) [
    | inl e ↦ (Memᴰ.head e, λ z. ground (arith, eq_iff x ""))
    | inr i ↦ let (j, h) = mem_of_recorded id l i in (Memᴰ.tail j, h)
  ]
]

recorded_of_mem :
    (id : String) (l : List String) → Memᴰ id l → id ≢ "" → Memᴰ id (recorded_identities l)
unfolding recorded_identities
recorded_of_mem id [] m h = elim m [ ]
recorded_of_mem id (x ∷ l) (Memᴰ.head e) h = elim (Bool-cases (str_eq x "")) [
  | inl t ↦ absurd (h (e ∙ (eq_iff x "").0 t))
  | inr f ↦ rw f (Memᴰ.head e)
]
recorded_of_mem id (x ∷ l) (Memᴰ.tail m) h = elim (Bool-cases (str_eq x "")) [
  | inl t ↦ rw t (recorded_of_mem id l m h)
  | inr f ↦ rw f (Memᴰ.tail (recorded_of_mem id l m h))
]

-- A name is in the list to judge with exactly when it is not empty and was among the names given.
pub mem-recorded_identities :
    (id : String) (ids : List String)
    → Memᴰ id (recorded_identities ids) ↔ (Memᴰ id ids × (id ≢ ""))
mem-recorded_identities id ids = (mem_of_recorded id ids, λ h. recorded_of_mem id ids h.0 h.1)

-- An earlier identity is recorded only beside a current one that differs from it.
pub record IsSettled (recorded previous : String) : Type 0 where
  pub named : previous ≢ "" → recorded ≢ ""
  pub distinct : previous ≢ "" → recorded ≢ previous

-- What a prune or a deletion cleanup judges as the instance's own.
abbrev pub IsOwn : String → String → String → Type 0
IsOwn id recorded previous = (id ≢ "") × ((id ≡ recorded) ⊎ (id ≡ previous))

pub IsOwn-of_mem :
    (id recorded previous : String)
    → Memᴰ id (recorded_identities (recorded ∷ previous ∷ []))
    → IsOwn id recorded previous
IsOwn-of_mem id r p m =
    let (i, h) = mem_of_recorded id (r ∷ p ∷ []) m in
    elim (Memᴰ.cases_cons i) [ inl e ↦ (h, inl e) | inr j ↦ (h, inr (Memᴰ.eq_of_singleton j)) ]

pub mem_of_own :
    (id recorded previous : String)
    → IsOwn id recorded previous
    → Memᴰ id (recorded_identities (recorded ∷ previous ∷ []))
mem_of_own id r p (h, inl e) = recorded_of_mem id (r ∷ p ∷ []) (Memᴰ.head e) h
mem_of_own id r p (h, inr e) = recorded_of_mem id (r ∷ p ∷ []) (Memᴰ.tail (Memᴰ.head e)) h

module _ (recorded previous rendered : String) (legacy_fallback : Bool) where
  abbrev plan : IdentityPlan
  plan = plan_identities recorded previous rendered legacy_fallback

  -- A render is refused if and only if it carries an identity, an earlier change is pending, and
  -- the identity is neither the recorded nor the previous one.
  pub refused_iff :
      ((plan_identities recorded previous rendered legacy_fallback).refused ≡ true) ↔ (
        (rendered ≢ "")
        × (recorded ≢ "")
        × (previous ≢ "")
        × (rendered ≢ recorded)
        × (rendered ≢ previous))
  unfolding plan_identities
  refused_iff = ground (
    arith,
    eq_iff rendered "",
    eq_iff rendered recorded,
    eq_iff recorded "",
    eq_iff previous "",
    eq_iff rendered previous,
  )

  -- A plan never forgets an identity, and one that is not refused records the render's.
  pub plan-IsOwn :
      (id : String)
      → IsSettled recorded previous
      → IsOwn id recorded previous ⊎ ((id ≡ rendered) × (id ≢ "") × (plan.refused ≡ false))
      → IsOwn id plan.instance_uuid plan.previous_instance_uuid
  unfolding plan_identities
  plan-IsOwn id s h = ground (
    arith,
    eq_iff rendered "",
    eq_iff rendered recorded,
    eq_iff recorded "",
    eq_iff previous "",
    eq_iff rendered previous,
  )

  -- A plan that is not refused stores the identity of a render that carries one.
  pub plan-current : plan.refused ≡ false → rendered ≢ "" → plan.instance_uuid ≡ rendered
  unfolding plan_identities
  plan-current ok h = ground (
    arith,
    eq_iff rendered "",
    eq_iff rendered recorded,
    eq_iff recorded "",
    eq_iff previous "",
    eq_iff rendered previous,
  )

  -- The state to store is well formed again, and is the recorded one if the plan is refused.
  pub plan-IsSettled :
      IsSettled recorded previous → IsSettled plan.instance_uuid plan.previous_instance_uuid
  unfolding plan_identities
  plan-IsSettled s = ground (
    arith,
    eq_iff rendered "",
    eq_iff rendered recorded,
    eq_iff recorded "",
    eq_iff previous "",
    eq_iff rendered previous,
  )

  -- The prune of a plan that is not refused judges with exactly the identities that the state to
  -- store records (and, for a legacy object, with no identity).
  pub plan-prune_iff :
      (id : String)
      → id ≢ ""
      → IsSettled recorded previous
      → plan.refused ≡ false
      → (contains plan.prune id ≡ true)
        ↔ ((id ≡ plan.instance_uuid) ⊎ (id ≡ plan.previous_instance_uuid))
  unfolding plan_identities recorded_identities
  plan-prune_iff id h s ok = ground (
    arith,
    eq_iff rendered "",
    eq_iff rendered recorded,
    eq_iff recorded "",
    eq_iff previous "",
    eq_iff rendered previous,
    eq_iff rendered id,
    eq_iff recorded id,
    eq_iff previous id,
    eq_iff "" id,
  )

  -- Without a pending change a no-op leaves the recorded identity as it is, and fills an empty one.
  pub no_op_fill :
      IsSettled recorded previous
      → keeps_no_op plan true ≡ true
      → (recorded ≢ "" → fill_empty plan recorded ≡ recorded)
        × (previous ≡ "")
        × (plan.previous_instance_uuid ≡ "")
        × (plan.refused ≡ false)
  unfolding plan_identities keeps_no_op fill_empty
  no_op_fill s h = ground (
    arith,
    eq_iff rendered "",
    eq_iff rendered recorded,
    eq_iff recorded "",
    eq_iff previous "",
    eq_iff rendered previous,
  )

-- Going back: after a change from `a` to `b`, a render of `a` swaps the two, whatever was pending.
pub plan-swap :
    (a b : String) (fallback : Bool)
    → a ≢ ""
    → b ≢ ""
    → a ≢ b
    → ((plan_identities b a a fallback).instance_uuid ≡ a)
      × ((plan_identities b a a fallback).previous_instance_uuid ≡ b)
      × ((plan_identities b a a fallback).changed ≡ true)
unfolding plan_identities
plan-swap a b fallback ha hb hab = ground (arith, eq_iff a "", eq_iff a b, eq_iff b "", eq_iff a a)

-- `store` commits what the plan says, and its error is that of the commit. An unchanged plan
-- commits nothing and cannot fail.
pub store_lem {ℓ} :
    {E : Type ℓ} (p : IdentityPlan) (f : IdentityFields) (patch : IdentityFields → Option E)
    → ((store p f patch).1 ≡ none)
    → (p.changed ≡ true → patch (store p f patch).0 ≡ none)
      × (p.changed ≡ false → (store p f patch).0 ≡ f)
unfolding store
store_lem p f patch h = ground arith
