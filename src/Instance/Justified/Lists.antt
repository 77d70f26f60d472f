-- ===== src/Instance/Justified/Lists.antt =====
-- The lists between the guard and the first write: what is missing, and what a restore applies,
-- was allowed.
use opm_operator.Prelude.{
  ◌≡◌, inl, inr, Bool, true, false, List, [], ◌∷◌, Option, some, is_empty, arith, Bool-cases,
  Option-cases, Memᴰ,
}
use opm_operator.Prelude.Memᴰ
use opm_operator.Reconcile.Restore.{
  Rendered, DiffAction, created, configured, unchanged, diff_all, detect_drift, plan_restore,
}
use opm_operator.Reconcile.Restore.Plan.{plan_restore-IsRestored}
use opm_operator.Reconcile.Ownership.{GuardError, has_pointer, keep_objects, without_objects}
use opm_operator.Instance.Answers.{Env}
use opm_operator.Instance.Planning.{detect_instance_drift}

-- Every member of the one list is in the other.
abbrev pub Within : List Rendered → List Rendered → Type 0
Within xs ys = (r : Rendered) → Memᴰ r xs → Memᴰ r ys

keep_objects-Within : (drop l : List Rendered) → Within (keep_objects drop l) l
unfolding keep_objects
keep_objects-Within drop [] r m = m
keep_objects-Within drop (x ∷ l) r m = elim (Bool-cases (has_pointer x drop)) [
  | inl t ↦ Memᴰ.tail (keep_objects-Within drop l r (rw t at m))
  | inr f ↦ elim (Memᴰ.cases_cons (rw f at m)) [
    | inl e ↦ Memᴰ.head e
    | inr i ↦ Memᴰ.tail (keep_objects-Within drop l r i)
  ]
]

pub without_objects-Within : (l drop : List Rendered) → Within (without_objects l drop) l
unfolding without_objects
without_objects-Within l drop r m = elim (Bool-cases (is_empty drop)) [
  | inl t ↦ rw t at m
  | inr f ↦ keep_objects-Within drop l r (rw f at m)
]

tail_or_head :
    (x : Rendered) (missing l : List Rendered) → Within missing l → Within (x ∷ missing) (x ∷ l)
tail_or_head x missing l h r m = elim (Memᴰ.cases_cons m) [
  | inl e ↦ Memᴰ.head e
  | inr i ↦ Memᴰ.tail (h r i)
]

diff_all-Within :
    (diff : Rendered → Option DiffAction) (l drifted missing : List Rendered)
    → diff_all diff l ≡ some (drifted, missing)
    → Within missing l
unfolding diff_all
diff_all-Within diff [] drifted missing h =
    let e : missing ≡ [] = ground (arith, h) in rw e (λ r m. m)
diff_all-Within diff (x ∷ l) drifted missing h = elim (Option-cases (diff x)) [
  | inl e ↦ ground (arith, h, e)
  | inr (action, e) ↦ elim (Option-cases (diff_all diff l)) [
    | inl f ↦ ground (arith, h, e, f)
    | inr ((others, absent), f) ↦
        on_action action absent (diff_all-Within diff l others absent f) (ground (arith, h, e, f))
  ]
]
  where
    on_action :
        (action : DiffAction) (absent : List Rendered)
        → Within absent l
        → missing ≡ elim action [ created ↦ x ∷ absent | configured ↦ absent | unchanged ↦ absent ]
        → Within missing (x ∷ l)
    on_action created absent k q = rw q (tail_or_head x absent l k)
    on_action configured absent k q = rw q (λ r m. Memᴰ.tail (k r m))
    on_action unchanged absent k q = rw q (λ r m. Memᴰ.tail (k r m))

module _ {C L V O S : Type 0} (env : Env C L V O S) where
  -- What the drift detection of a reconcile calls missing was among what it was given.
  pub detect_instance_drift-Within :
      (err : Option GuardError) (l : List Rendered) (c : C)
      → Within (detect_instance_drift env err l c).1 l
  unfolding detect_instance_drift detect_drift
  detect_instance_drift-Within err l c = elim (Option-cases env.impersonation_error) [
    | inr (e, p) ↦
        let z : (detect_instance_drift env err l c).1 ≡ [] = ground (arith, p) in none_missing z
    | inl p ↦ elim (Option-cases err) [
      | inr (e, q) ↦
          let z : (detect_instance_drift env err l c).1 ≡ [] = ground (arith, p, q) in
          none_missing z
      | inl q ↦ elim (Option-cases (diff_all env.diff l)) [
        | inl f ↦
            let z : (detect_instance_drift env err l c).1 ≡ [] = ground (arith, p, q, f) in
            none_missing z
        | inr ((drifted, missing), f) ↦
            let z : (detect_instance_drift env err l c).1 ≡ missing = ground (arith, p, q, f) in
            rw z (diff_all-Within env.diff l drifted missing f)
      ]
    ]
  ]
    where
      none_missing : {xs : List Rendered} → xs ≡ [] → Within xs l
      none_missing z = rw z (λ r m. elim m [ ])

  -- A guard that reached no verdict leaves nothing missing.
  pub detect_instance_drift-unread :
      (err : GuardError) (l : List Rendered) (c : C)
      → (detect_instance_drift env (some err) l c).1 ≡ []
  unfolding detect_instance_drift
  detect_instance_drift-unread err l c = elim (Option-cases env.impersonation_error) [
    | inr (e, p) ↦ rw p
    | inl p ↦ rw p
  ]

-- What a reconcile that is no no-op applies was allowed.
pub plan_restore-Within :
    (no_change : Bool) (missing taken_in allowed : List Rendered)
    → Within missing allowed
    → Within taken_in allowed
    → (plan_restore no_change missing taken_in allowed).1 ≡ false
    → Within (plan_restore no_change missing taken_in allowed).0 allowed
unfolding plan_restore
plan_restore-Within false missing taken_in allowed h k n r m = m
plan_restore-Within true missing taken_in allowed h k n r m =
    let plan = plan_restore-IsRestored missing taken_in allowed in
    elim ((plan.applies (ground (arith, n)) r).0 m) [ inl (i, lasting) ↦ h r i | inr i ↦ k r i ]
