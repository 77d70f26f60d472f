-- ===== src/Registration/Waking.antt =====
-- An instance wakes exactly the claims whose verdict or whose deletion it bears on.
use opm_operator.Prelude.{
  String, ◌≡◌, refl, sym, ap, true, ◌⊎◌, inl, inr, List, [], ◌∷◌, map, Memᴰ, some, eq_iff, select,
  mem-select, mem-select_of, arith, Bool-cases,
}
use mathlib.Core.List.Memᴰ
use opm_operator.Prelude.Texts.{contains}
use opm_operator.Registration.{Claim, Provider}
use opm_operator.Registration.Removal.{demands_any}
use opm_operator.Registration.Watches.{provides_any, is_woken_by, map_instance_to_registrations}

-- The two lists have a contract in common.
abbrev pub Meets : (provides demanded : List String) → Type 0
Meets provides demanded =
    (fqn : String) × (contains provides fqn ≡ true) × (contains demanded fqn ≡ true)

provides_any-Meets :
    (provides demanded : List String)
    → provides_any provides demanded ≡ true
    → Meets provides demanded
unfolding provides_any
provides_any-Meets [] demanded h = cc
provides_any-Meets (x ∷ provides) demanded h = elim (Bool-cases (contains demanded x)) [
  | inl t ↦ (x, ground (arith, eq_iff x x), t)
  | inr f ↦
      let (fqn, c, d) = provides_any-Meets provides demanded (ground (arith, f, h)) in
      (fqn, ground (arith, c), d)
]

provides_any_of_Meets :
    (provides demanded : List String) (fqn : String)
    → contains provides fqn ≡ true
    → contains demanded fqn ≡ true
    → provides_any provides demanded ≡ true
unfolding provides_any
provides_any_of_Meets [] demanded fqn c d = cc
provides_any_of_Meets (x ∷ provides) demanded fqn c d =
    ground (arith, c, d, eq_iff x fqn, provides_any_of_Meets provides demanded fqn)

demands_any-Meets :
    (provided required : List String)
    → demands_any provided required ≡ true
    → Meets provided required
unfolding demands_any
demands_any-Meets provided [] h = cc
demands_any-Meets provided (x ∷ required) h = elim (Bool-cases (contains provided x)) [
  | inl t ↦ (x, t, ground (arith, eq_iff x x))
  | inr f ↦
      let (fqn, c, d) = demands_any-Meets provided required (ground (arith, f, h)) in
      (fqn, c, ground (arith, d))
]

mem-map_of {ℓ κ} :
    {A : Type ℓ} {B : Type κ} (f : A → B) (a : A) (xs : List A) → Memᴰ a xs → Memᴰ (f a) (map f xs)
mem-map_of f a [] m = elim m [ ]
mem-map_of f a (x ∷ xs) (Memᴰ.head e) = Memᴰ.head (ap f e)
mem-map_of f a (x ∷ xs) (Memᴰ.tail m) = Memᴰ.tail (mem-map_of f a xs m)

mem-map {ℓ κ} :
    {A : Type ℓ} {B : Type κ} (f : A → B) (b : B) (xs : List A)
    → Memᴰ b (map f xs)
    → (a : A) × Memᴰ a xs × (f a ≡ b)
mem-map f b [] m = elim m [ ]
mem-map f b (x ∷ xs) m = elim (Memᴰ.cases_cons m) [
  | inl e ↦ (x, Memᴰ.head refl, sym e)
  | inr i ↦ let (a, j, e) = mem-map f b xs i in (a, Memᴰ.tail j, e)
]

module _ {C : Type 0} (i : Provider C) where
  -- The claim names the instance as its provider, or provides a contract that the instance demands.
  abbrev pub Concerns : Claim C → Type 0
  Concerns c =
      ((c.provider_namespace ≡ i.namespace) × (c.provider_name ≡ i.name))
      ⊎ Meets c.provides i.required_contracts

  is_woken_by-Concerns :
      (c : Claim C) → is_woken_by i.namespace i.name i.required_contracts c ≡ true → Concerns c
  unfolding is_woken_by
  is_woken_by-Concerns c h = elim (Bool-cases (provides_any c.provides i.required_contracts)) [
    | inl t ↦ inr (provides_any-Meets c.provides i.required_contracts t)
    | inr f ↦ inl (
      ground (arith, f, h, eq_iff c.provider_namespace i.namespace),
      ground (arith, f, h, eq_iff c.provider_name i.name),
    )
  ]

  Concerns-is_woken_by :
      (c : Claim C) → Concerns c → is_woken_by i.namespace i.name i.required_contracts c ≡ true
  unfolding is_woken_by
  Concerns-is_woken_by c (inl (n, m)) =
      ground (arith, n, m, eq_iff c.provider_namespace i.namespace, eq_iff c.provider_name i.name)
  Concerns-is_woken_by c (inr (fqn, p, d)) =
      ground (arith, provides_any_of_Meets c.provides i.required_contracts fqn p d)

  -- What an event of the instance enqueues: each listed claim that it concerns, none else, and so
  -- each claim whose deletion it blocks.
  pub record IsWaking (claims : List (Claim C)) (requests : List String) : Type 0 where
    pub sound :
        (name : String)
        → Memᴰ name requests
        → (c : Claim C) × Memᴰ c claims × (c.name ≡ name) × Concerns c
    pub complete : (c : Claim C) → Memᴰ c claims → Concerns c → Memᴰ c.name requests
    pub blocked :
        (c : Claim C)
        → Memᴰ c claims
        → demands_any c.provides i.required_contracts ≡ true
        → Memᴰ c.name requests

  -- An event of a ModuleInstance enqueues exactly the listed claims that name the instance as their
  -- provider or provide a contract that it demands, among them every claim whose deletion it
  -- blocks.
  pub map_instance-IsWaking :
      (claims : List (Claim C))
      → IsWaking claims
          (map_instance_to_registrations i.namespace i.name i.required_contracts (some claims))
  unfolding map_instance_to_registrations
  map_instance-IsWaking claims =
      let test = is_woken_by i.namespace i.name i.required_contracts in
      let complete : (c : Claim C)
          → Memᴰ c claims
          → Concerns c
          → Memᴰ c.name (map (λ (x : Claim C). x.name) (select test claims)) =
        λ c m k.
          mem-map_of (λ (x : Claim C). x.name) c (select test claims)
            (mem-select_of test c claims m (Concerns-is_woken_by c k)) in
      record {
        sound = λ name m.
            let (c, j, e) = mem-map (λ (x : Claim C). x.name) name (select test claims) m in
            let (l, t) = mem-select test c claims j in (c, l, e, is_woken_by-Concerns c t);
        complete = complete;
        blocked = λ c m d. complete c m (inr (demands_any-Meets c.provides i.required_contracts d));
      }
