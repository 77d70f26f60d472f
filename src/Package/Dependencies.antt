-- ===== src/Package/Dependencies.antt =====
-- checkDependsOn of internal/reconcile/modulepackage.go.
use opm_operator.Prelude.{
  String, ◌≡◌, refl, Bool, true, false, ◌&&◌, not, ◌↔◌, List, [], ◌∷◌, Memᴰ, str_eq, eq_iff,
  if◌then◌else◌, arith, Bool-cases, inl, inr, sym, ◌∙◌,
}
use mathlib.Core.List.Memᴰ
use mathlib.Core.Path.{subst}

-- An entry of spec.dependsOn
pub record Dependency : Type 0 where
  pub namespace : String
  pub name : String

-- What a read of the package that an entry names tells: whether its Ready condition is true.
pub data PackageRead : Type 0 where
  package_found : (ready : Bool) → PackageRead
  package_missing package_unread : PackageRead

-- What checkDependsOn returns: nothing blocks, the name of a blocker, or an error.
pub data Check : Type 0 where
  nothing_blocks : Check
  blocked_by : (name : String) (found : Bool) → Check
  check_failed : (name : String) → Check

-- The loop of checkDependsOn, after the read of one entry
unfoldable pub after_read : (name : String) → PackageRead → (rest : Check) → Check
after_read name package_missing rest = blocked_by name false
after_read name package_unread rest = check_failed name
after_read name (package_found ready) rest = if ready then rest else blocked_by name true

module _ (own_namespace : String) (read : (name : String) → PackageRead) where
  -- checkDependsOn
  unfoldable pub check_depends_on : List Dependency → Check
  unfolding after_read
  check_depends_on [] = nothing_blocks
  check_depends_on (d ∷ deps) =
      let rest = check_depends_on deps in
      if not (str_eq d.namespace "") && not (str_eq d.namespace own_namespace)
      then check_failed d.name
      else after_read d.name (read d.name) rest

  -- The entry stays in the package's namespace, and the package that it names is ready.
  pub record IsMet (d : Dependency) : Type 0 where
    pub local : str_eq d.namespace "" ≡ false → d.namespace ≡ own_namespace
    pub ready : read d.name ≡ package_found true

  after_read-clear :
      (name : String) (answer : PackageRead) (rest : Check)
      → after_read name answer rest ≡ nothing_blocks
      → (answer ≡ package_found true) × (rest ≡ nothing_blocks)
  unfolding after_read
  after_read-clear name package_missing rest h = cc
  after_read-clear name package_unread rest h = cc
  after_read-clear name (package_found true) rest h = (refl, h)
  after_read-clear name (package_found false) rest h = cc

  stays : Dependency → Bool
  stays d = not (not (str_eq d.namespace "") && not (str_eq d.namespace own_namespace))

  step-clear :
      (d : Dependency) (deps : List Dependency)
      → check_depends_on (d ∷ deps) ≡ nothing_blocks
      → IsMet d × (check_depends_on deps ≡ nothing_blocks)
  unfolding check_depends_on stays
  step-clear d deps h = elim (Bool-cases (stays d)) [
    | inr f ↦ absurd (ground (arith, f, h))
    | inl t ↦
        let (r, k) =
          after_read-clear d.name (read d.name) (check_depends_on deps) (ground (arith, t, h)) in
        (
          record { local = λ n. ground (arith, t, n, eq_iff d.namespace own_namespace); ready = r },
          k,
        )
  ]

  step-IsMet :
      (d : Dependency) (deps : List Dependency)
      → IsMet d
      → check_depends_on (d ∷ deps) ≡ check_depends_on deps
  unfolding check_depends_on after_read
  step-IsMet d deps m = elim (Bool-cases (str_eq d.namespace "")) [
    | inl t ↦ ground (arith, t, m.ready)
    | inr f ↦ ground (arith, f, m.local f, eq_iff d.namespace own_namespace, m.ready)
  ]

  check_depends_on-IsMet :
      (deps : List Dependency) (d : Dependency)
      → check_depends_on deps ≡ nothing_blocks
      → Memᴰ d deps
      → IsMet d
  check_depends_on-IsMet [] d h m = elim m [ ]
  check_depends_on-IsMet (x ∷ deps) d h m =
      let (met, rest) = step-clear x deps h in
      elim (Memᴰ.cases_cons m) [
        | inl e ↦ subst IsMet (sym e) met
        | inr k ↦ check_depends_on-IsMet deps d rest k
      ]

  IsMet-check_depends_on :
      (deps : List Dependency)
      → ((d : Dependency) → Memᴰ d deps → IsMet d)
      → check_depends_on deps ≡ nothing_blocks
  unfolding check_depends_on
  IsMet-check_depends_on [] h = refl
  IsMet-check_depends_on (x ∷ deps) h =
      step-IsMet x deps (h x (Memᴰ.head refl))
      ∙ IsMet-check_depends_on deps (λ d m. h d (Memᴰ.tail m))

  -- A package goes on past its dependencies exactly when each of them stays in its own namespace and
  -- names a package that is there and reports that it is ready.
  pub check_depends_on-clear_iff :
      (deps : List Dependency)
      → (check_depends_on deps ≡ nothing_blocks) ↔ ((d : Dependency) → Memᴰ d deps → IsMet d)
  check_depends_on-clear_iff deps =
      (λ h d m. check_depends_on-IsMet deps d h m, IsMet-check_depends_on deps)
