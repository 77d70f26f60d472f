-- ===== src/Registration/Requirements.antt =====
-- A catalog is refused for its build exactly when one of its requirements clashes with the platform.
use opm_operator.Prelude.{
  String, ◌≡◌, refl, sym, ap, ◌∙◌, ◌≢◌, Bool, true, false, ◌↔◌, ◌⊎◌, inl, inr, List, [], ◌∷◌, ◌++◌,
  map, Option, none, some, str_eq, eq_iff, is_empty, if◌then◌else◌, arith, Bool-cases, Option-cases,
}
use mathlib.Core.Path.{subst}
use opm_operator.Prelude.Dicts.{string_eq, lookup, insert, lookup-insert, lookup-nil, mem-keys}
use opm_operator.Prelude.Texts.{contains, contains_iff}
use opm_operator.Prelude.Sorting.{sort, contains-sort, is_empty-sort}
use opm_operator.Registration.Compat.{
  in_opm_namespace, values_of, group_majors, majors_by_base, judge_requirement, judge_path,
  judge_paths, build_incompatibility,
}

is_empty-append_one : (xs : List String) (x : String) → is_empty (xs ++ (x ∷ [])) ≡ false
is_empty-append_one [] x = refl
is_empty-append_one (y ∷ xs) x = refl

lookup-sorted :
    (base : String) (m : List (String × List String))
    → is_empty (values_of base (map (λ e. (e.0, sort e.1)) m)) ≡ is_empty (values_of base m)
unfolding lookup
lookup-sorted base [] = refl
lookup-sorted base ((k, v) ∷ m) = ground (arith, lookup-sorted base m, is_empty-sort v)

module _ (split_base : String → Option String) (newer : String → String → Bool) where
  -- A requirement of the catalog, in the namespaces of the platform, that the platform does not
  -- meet: it resolved an older build, or only another major of the same path.
  pub record IsClash (catalog_reqs reqs : List (String × String)) (qualified : String)
      : Type 0 where
    pub base : String
    pub version : String
    pub own : in_opm_namespace qualified ≡ true
    pub split : split_base qualified ≡ some base
    pub required : lookup qualified catalog_reqs ≡ some version
    pub reason :
        ((resolved : String) × (lookup qualified reqs ≡ some resolved)
          × (str_eq version "" ≡ false)
          × (str_eq resolved "" ≡ false)
          × (newer version resolved ≡ true))
        ⊎ ((lookup qualified reqs ≡ none)
            × ((other : String) × (contains (map (λ e. e.0) reqs) other ≡ true)
                × (split_base other ≡ some base)))

  module _ (base : String) where
    values-insert :
        (b q : String) (m : List (String × List String))
        → is_empty (values_of base (insert b (values_of b m ++ (q ∷ [])) m))
          ≡ (if str_eq b base then false else is_empty (values_of base m))
    values-insert b q m = ground (
      arith,
      lookup-insert b base (values_of b m ++ (q ∷ [])) m,
      is_empty-append_one (values_of b m) q,
    )

    group_majors-kept :
        (reqs : List (String × String)) (m : List (String × List String))
        → is_empty (values_of base m) ≡ false
        → is_empty (values_of base (group_majors split_base newer reqs m)) ≡ false
    unfolding group_majors
    group_majors-kept [] m h = h
    group_majors-kept ((q, v) ∷ reqs) m h = elim (Option-cases (split_base q)) [
      | inl n ↦ ground (arith, n, group_majors-kept reqs m h)
      | inr (b, s) ↦
          let next = insert b (values_of b m ++ (q ∷ [])) m in
          ground (arith, s, group_majors-kept reqs next (ground (arith, values-insert b q m, h)))
    ]

    group_majors-met :
        (reqs : List (String × String)) (m : List (String × List String)) (other : String)
        → contains (map (λ e. e.0) reqs) other ≡ true
        → split_base other ≡ some base
        → is_empty (values_of base (group_majors split_base newer reqs m)) ≡ false
    unfolding group_majors
    group_majors-met [] m other c s = cc
    group_majors-met ((q, v) ∷ reqs) m other c s = elim (Bool-cases (str_eq q other)) [
      | inl t ↦
          let same : split_base q ≡ some base = ap split_base ((eq_iff q other).0 t) ∙ s in
          let next = insert base (values_of base m ++ (q ∷ [])) m in
          ground (
            arith,
            same,
            group_majors-kept reqs next (ground (arith, values-insert base q m, eq_iff base base)),
          )
      | inr f ↦
          let rest : contains (map (λ e. e.0) reqs) other ≡ true = ground (arith, f, c) in
          elim (Option-cases (split_base q)) [
            | inl n ↦ ground (arith, n, group_majors-met reqs m other rest s)
            | inr (b, e) ↦ ground (
              arith,
              e,
              group_majors-met reqs (insert b (values_of b m ++ (q ∷ [])) m) other rest s,
            )
          ]
    ]

    -- Some requirement has the base.
    abbrev Shares : List (String × String) → Type 0
    Shares reqs =
        (other : String) × (contains (map (λ e. e.0) reqs) other ≡ true)
        × (split_base other ≡ some base)

    Shares-later :
        (q v : String) (reqs : List (String × String)) → Shares reqs → Shares ((q, v) ∷ reqs)
    Shares-later q v reqs (other, c, s) = (other, ground (arith, c), s)

    group_majors-found :
        (reqs : List (String × String)) (m : List (String × List String))
        → is_empty (values_of base (group_majors split_base newer reqs m)) ≡ false
        → (is_empty (values_of base m) ≡ false) ⊎ Shares reqs
    unfolding group_majors
    group_majors-found [] m h = inl h
    group_majors-found ((q, v) ∷ reqs) m h = elim (Option-cases (split_base q)) [
      | inl n ↦ elim (group_majors-found reqs m (ground (arith, n, h))) [
        | inl k ↦ inl k
        | inr s ↦ inr (Shares-later q v reqs s)
      ]
      | inr (b, e) ↦
          elim (group_majors-found reqs (insert b (values_of b m ++ (q ∷ [])) m)
            (ground (arith, e, h))) [
              | inr s ↦ inr (Shares-later q v reqs s)
              | inl k ↦ elim (Bool-cases (str_eq b base)) [
                | inl t ↦ inr (q, ground (arith, eq_iff q q), e ∙ ap some ((eq_iff b base).0 t))
                | inr f ↦ inl (ground (arith, values-insert b q m, f, k))
              ]
            ]
    ]

  module _ (catalog_reqs reqs : List (String × String)) (q base version : String) where
    majors-found :
        is_empty (values_of base (majors_by_base split_base newer reqs)) ≡ false → Shares base reqs
    unfolding majors_by_base
    majors-found h =
        let m = group_majors split_base newer reqs [] in
        elim (group_majors-found base reqs [] (ground (arith, h, lookup-sorted base m))) [
          | inl k ↦ absurd (ground (arith, k, lookup-nil {K = String} {V = List String} base))
          | inr s ↦ s
        ]

    majors-met :
        (other : String)
        → contains (map (λ e. e.0) reqs) other ≡ true
        → split_base other ≡ some base
        → is_empty (values_of base (majors_by_base split_base newer reqs)) ≡ false
    unfolding majors_by_base
    majors-met other c s =
        lookup-sorted base (group_majors split_base newer reqs [])
        ∙ group_majors-met base reqs [] other c s

    -- What is wrong with the requirement.
    abbrev IsUnmet : Type 0
    IsUnmet =
        ((resolved : String) × (lookup q reqs ≡ some resolved)
          × (str_eq version "" ≡ false)
          × (str_eq resolved "" ≡ false)
          × (newer version resolved ≡ true))
        ⊎ ((lookup q reqs ≡ none)
            × ((other : String) × (contains (map (λ e. e.0) reqs) other ≡ true)
                × (split_base other ≡ some base)))

    judge_requirement-unmet :
        judge_requirement split_base newer base q version reqs ≢ none → IsUnmet
    unfolding judge_requirement
    judge_requirement-unmet h = elim (Option-cases (lookup q reqs)) [
      | inr (resolved, e) ↦
          inl (resolved, e, ground (arith, e, h), ground (arith, e, h), ground (arith, e, h))
      | inl n ↦ inr (n, majors-found (ground (arith, n, h)))
    ]

    judge_requirement-met : IsUnmet → judge_requirement split_base newer base q version reqs ≢ none
    unfolding judge_requirement
    judge_requirement-met (inl (resolved, e, v, r, n)) h = ground (arith, e, v, r, n, h)
    judge_requirement-met (inr (n, (other, c, s))) h = ground (arith, n, majors-met other c s, h)

  module _ (catalog_reqs reqs : List (String × String)) where
    judge_path-IsClash :
        (q version : String)
        → lookup q catalog_reqs ≡ some version
        → judge_path split_base newer q catalog_reqs reqs ≢ none
        → IsClash catalog_reqs reqs q
    unfolding judge_path
    judge_path-IsClash q version v h = elim (Bool-cases (in_opm_namespace q)) [
      | inr f ↦ absurd (h (ground (arith, f)))
      | inl t ↦ elim (Option-cases (split_base q)) [
        | inl n ↦ absurd (h (ground (arith, t, n)))
        | inr (base, s) ↦ record {
          base = base;
          version = version;
          own = t;
          split = s;
          required = v;
          reason =
              judge_requirement-unmet catalog_reqs reqs q base version
                (λ e. h (ground (arith, t, s, v, e)));
        }
      ]
    ]

    judge_path-met :
        (q : String)
        → IsClash catalog_reqs reqs q
        → judge_path split_base newer q catalog_reqs reqs ≢ none
    unfolding judge_path
    judge_path-met q c h =
        judge_requirement-met catalog_reqs reqs q c.base c.version c.reason
          (ground (arith, h, c.own, c.split, c.required))

    judge_paths-quiet :
        (paths : List String) (q : String)
        → judge_paths split_base newer paths catalog_reqs reqs ≡ none
        → contains paths q ≡ true
        → judge_path split_base newer q catalog_reqs reqs ≡ none
    unfolding judge_paths
    judge_paths-quiet [] q h c = cc
    judge_paths-quiet (p ∷ paths) q h c =
        elim (Option-cases (judge_path split_base newer p catalog_reqs reqs)) [
          | inr (x, e) ↦ absurd (ground (arith, e, h))
          | inl n ↦ elim (Bool-cases (str_eq p q)) [
            | inl t ↦
                subst (λ s. judge_path split_base newer s catalog_reqs reqs ≡ none)
                  ((eq_iff p q).0 t) n
            | inr f ↦ judge_paths-quiet paths q (ground (arith, n, h)) (ground (arith, f, c))
          ]
        ]

    judge_paths-none :
        (paths : List String)
        → ((q : String)
            → contains paths q ≡ true
            → judge_path split_base newer q catalog_reqs reqs ≡ none)
        → judge_paths split_base newer paths catalog_reqs reqs ≡ none
    unfolding judge_paths
    judge_paths-none [] h = refl
    judge_paths-none (p ∷ paths) h = ground (
      arith,
      h p (ground (arith, eq_iff p p)),
      judge_paths-none paths (λ q c. h q (ground (arith, c))),
    )

    contains-required :
        (q version : String)
        → lookup q catalog_reqs ≡ some version
        → contains (sort (map (λ e. e.0) catalog_reqs)) q ≡ true
    contains-required q version h =
        let keys = map (λ e. e.0) catalog_reqs in
        contains-sort q keys
        ∙ (contains_iff keys q).1 ((mem-keys q catalog_reqs).1 (λ n. ground (arith, n, h)))

    required-lookup :
        (q : String)
        → contains (sort (map (λ e. e.0) catalog_reqs)) q ≡ true
        → (version : String) × (lookup q catalog_reqs ≡ some version)
    required-lookup q c =
        let keys = map (λ e. e.0) catalog_reqs in
        elim (Option-cases (lookup q catalog_reqs)) [
          | inl n ↦ absurd (
              (mem-keys q catalog_reqs).0 ((contains_iff keys q).0 (sym (contains-sort q keys) ∙ c))
                n)
          | inr s ↦ s
        ]

    -- The claim of a catalog is refused for its build exactly when one of the catalog's requirements
    -- in the platform's namespaces clashes with what the platform resolved: it requires a newer
    -- build of the same path and major, or only other majors of its path are resolved. A path that
    -- the platform does not resolve at all, and an empty version, are not held against it.
    pub build_incompatibility-none_iff :
        (build_incompatibility split_base newer catalog_reqs reqs ≡ none)
        ↔ ((qualified : String) → ¬ IsClash catalog_reqs reqs qualified)
    unfolding build_incompatibility
    build_incompatibility-none_iff = (
      λ h q c. judge_path-met q c (
          judge_paths-quiet (sort (map (λ e. e.0) catalog_reqs)) q h
            (contains-required q c.version c.required)),
      λ h. judge_paths-none (sort (map (λ e. e.0) catalog_reqs)) (λ q c.
          let (version, v) = required-lookup q c in
          elim (Option-cases (judge_path split_base newer q catalog_reqs reqs)) [
            | inl n ↦ n
            | inr (x, e) ↦ absurd (h q (judge_path-IsClash q version v (λ n. ground (arith, n, e))))
          ]),
    )
