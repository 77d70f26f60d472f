-- ===== src/Registration/Compat.antt =====
-- internal/controller/transformerregistration_buildcompat.go: the requirements of a claimed catalog
-- against the versions that the platform resolved.
use opm_operator.Prelude.{
  String, Bool, ◌||◌, not, List, [], ◌∷◌, ◌++◌, map, Option, none, some, str_eq, is_empty,
  if◌then◌else◌,
}
use opm_operator.Prelude.Texts.{has_prefix}
use opm_operator.Prelude.Dicts.{string_eq, lookup, insert}
use opm_operator.Prelude.Sorting.{sort}

-- inOPMNamespace
unfoldable pub in_opm_namespace : (path : String) → Bool
unfolding has_prefix
in_opm_namespace path = has_prefix path "opmodel.dev/" || has_prefix path "testing.opmodel.dev/"

-- The loop of platformRequirements: the entries of the module file that are not nil.
unfoldable pub present_deps : List (String × Option String) → List (String × String)
present_deps [] = []
present_deps ((path, dep) ∷ deps) =
    let rest = present_deps deps in elim dep [ none ↦ rest | some version ↦ (path, version) ∷ rest ]

-- platformRequirements; `read_modfile` reads and parses the module file of the directory.
unfoldable pub platform_requirements :
    (read_modfile : String → Option (List (String × Option String)))
    → (dir : String) → Option (List (String × String))
platform_requirements read_modfile dir = elim (read_modfile dir) [
  | none ↦ none
  | some deps ↦ some (present_deps deps)
]

-- What conservativeRefusal is told; the resolved versions are those that resolvedMajors names.
pub data Conflict : Type 0 where
  newer_build : (base qualified catalog_version platform_version : String) → Conflict
  other_major :
      (base qualified catalog_version : String)
      → (resolved : List (String × Option String)) → Conflict

abbrev pub values_of : String → List (String × List String) → List String
values_of base m = elim (lookup base m) [ none ↦ [] | some qs ↦ qs ]

-- `split_base` is the base that ast.SplitPackageVersion finds, `newer` whether semver.Compare is
-- above zero.
module _ (split_base : String → Option String) (newer : String → String → Bool) where
  -- The first loop of buildIncompatibility
  unfoldable pub group_majors :
      List (String × String) → List (String × List String) → List (String × List String)
  group_majors [] m = m
  group_majors ((qualified, version) ∷ reqs) m = group_majors reqs (elim (split_base qualified) [
    | none ↦ m
    | some base ↦ insert base (values_of base m ++ (qualified ∷ [])) m
  ])

  -- majorsByBase, sorted
  unfoldable pub majors_by_base : List (String × String) → List (String × List String)
  majors_by_base reqs = map (λ e. (e.0, sort e.1)) (group_majors reqs [])

  -- resolvedMajors, before it joins the names
  unfoldable pub resolved_majors :
      List String → List (String × String) → List (String × Option String)
  resolved_majors [] reqs = []
  resolved_majors (path ∷ paths) reqs =
      let rest = resolved_majors paths reqs in
      elim (lookup path reqs) [
        | none ↦ (path, none) ∷ rest
        | some version ↦ (path, if str_eq version "" then none else some version) ∷ rest
      ]

  -- The body of the last loop, for a requirement in the namespace that splits
  unfoldable pub judge_requirement :
      (base qualified catalog_version : String) → List (String × String) → Option Conflict
  judge_requirement base qualified catalog_version reqs = elim (lookup qualified reqs) [
    | some platform_version ↦
        if str_eq catalog_version "" || str_eq platform_version ""
        then none
        else if newer catalog_version platform_version
        then some (newer_build base qualified catalog_version platform_version)
        else none
    | none ↦
        let resolved = values_of base (majors_by_base reqs) in
        if is_empty resolved
        then none
        else some (other_major base qualified catalog_version (resolved_majors resolved reqs))
  ]

  -- The guards of the last loop
  unfoldable pub judge_path :
      (qualified : String) → (catalog_reqs reqs : List (String × String)) → Option Conflict
  judge_path qualified catalog_reqs reqs =
      if not (in_opm_namespace qualified) then none else elim (split_base qualified) [
        | none ↦ none
        | some base ↦ elim (lookup qualified catalog_reqs) [
          | none ↦ judge_requirement base qualified "" reqs
          | some version ↦ judge_requirement base qualified version reqs
        ]
      ]

  -- The last loop of buildIncompatibility, over the sorted paths
  unfoldable pub judge_paths :
      List String → (catalog_reqs reqs : List (String × String)) → Option Conflict
  judge_paths [] catalog_reqs reqs = none
  judge_paths (path ∷ paths) catalog_reqs reqs =
      let rest = judge_paths paths catalog_reqs reqs in
      elim (judge_path path catalog_reqs reqs) [ none ↦ rest | some conflict ↦ some conflict ]

  -- buildIncompatibility, for a catalog whose requirements were read
  unfoldable pub build_incompatibility :
      (catalog_reqs reqs : List (String × String)) → Option Conflict
  build_incompatibility catalog_reqs reqs =
      judge_paths (sort (map (λ e. e.0) catalog_reqs)) catalog_reqs reqs
