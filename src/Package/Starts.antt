-- ===== src/Package/Starts.antt =====
-- When a reconcile of a ModulePackage attempts anything, and what it commits.
use opm_operator.Prelude.{
  ℕ, String, ◌≡◌, refl, Bool, true, false, ◌&&◌, not, ◌↔◌, inl, inr, Memᴰ, arith, Bool-cases,
}
use opm_operator.Package.State.{PackageEnv}
use opm_operator.Package.Dependencies.{
  Dependency, PackageRead, Check, nothing_blocks, blocked_by, check_failed, check_depends_on, IsMet,
  check_depends_on-clear_iff,
}
use opm_operator.Package.Gates.{
  PackageObject, PackageRun, attempted, after_check, reconcile_package,
}

-- Whether a reconcile passed its gates
abbrev pub is_attempt : {C R : Type 0} → PackageRun C R → Bool
is_attempt (attempted p s) = true
is_attempt _ = false

module _ {C L V O S R : Type 0} (env : PackageEnv C L V O S R) (counted : String → ℕ)
    (read : (name : String) → PackageRead) (blocker_note : Check → String) where
  -- What lets a package pass its gates
  pub record IsCleared (o : PackageObject C R) : Type 0 where
    pub held : o.has_finalizer ≡ true
    pub kept : o.deleting ≡ false
    pub running : o.suspended ≡ false
    pub met : (d : Dependency) → Memᴰ d o.depends_on → IsMet o.namespace read d

  after_check-clear :
      (check : Check) (o : PackageObject C R)
      → is_attempt (after_check env counted read blocker_note check o) ≡ true
      → check ≡ nothing_blocks
  unfolding after_check
  after_check-clear nothing_blocks o h = refl
  after_check-clear (blocked_by name found) o h = cc
  after_check-clear (check_failed name) o h = cc

  clear-after_check :
      (o : PackageObject C R)
      → is_attempt (after_check env counted read blocker_note nothing_blocks o) ≡ true
  unfolding after_check
  clear-after_check o = refl

  gated :
      (adds : Bool) (o : PackageObject C R)
      → is_attempt (reconcile_package env counted read blocker_note adds o) ≡ (
          o.has_finalizer
          && not o.deleting
          && not o.suspended
          && is_attempt (
              after_check env counted read blocker_note
                (check_depends_on o.namespace read o.depends_on)
                o))
  unfolding reconcile_package
  gated adds o = elim (Bool-cases o.has_finalizer) [
    | inr f ↦ ground (arith, f)
    | inl t ↦ elim (Bool-cases o.deleting) [
      | inl d ↦ ground (arith, t, d)
      | inr d ↦ elim (Bool-cases o.suspended) [
        | inl u ↦ ground (arith, t, d, u)
        | inr u ↦ ground (arith, t, d, u)
      ]
    ]
  ]

  -- A reconcile of a package passes its gates, and so reads its source and may render or skip the
  -- render, exactly when the package carries the finalizer, is neither being deleted nor suspended,
  -- and each of its dependencies is a package of its own namespace that reports that it is ready.
  pub reconcile_package-attempts_iff :
      (adds : Bool) (o : PackageObject C R)
      → (is_attempt (reconcile_package env counted read blocker_note adds o) ≡ true) ↔ IsCleared o
  unfolding reconcile_package
  reconcile_package-attempts_iff adds o =
      let gate = gated adds o in
      let check = check_depends_on o.namespace read o.depends_on in
      (
        λ h. record {
          held = ground (arith, gate, h);
          kept = ground (arith, gate, h);
          running = ground (arith, gate, h);
          met =
              (check_depends_on-clear_iff o.namespace read o.depends_on).0
                (after_check-clear check o (ground (arith, gate, h)));
        },
        λ c. ground (
          arith,
          gate,
          c.held,
          c.kept,
          c.running,
          (check_depends_on-clear_iff o.namespace read o.depends_on).1 c.met,
          clear-after_check o,
        ),
      )
