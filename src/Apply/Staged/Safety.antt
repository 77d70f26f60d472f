-- ===== src/Apply/Staged/Safety.antt =====
-- What the checks before a forced apply protect: checkTakenIn, checkClaims and deleteGuard of
-- internal/apply.
use opm_operator.Prelude.{
  String, true, false, List, [], ◌∷◌, Option, none, some, str_eq, is_empty, if◌then◌else◌, ◌≡◌, ◌≢◌,
  ◌↔◌, refl, inl, inr, arith, Bool-cases, Option-cases, All,
}
use opm_operator.Prelude.Dicts.{lookup, insert, lookup-insert}
use opm_operator.Reconcile.Restore.{Rendered}
use opm_operator.Apply.Objects.{ObjectKey, object_eq, object_of}
use opm_operator.Apply.Staged.{
  DryRun, accepted, immutable, other_refusal, ClaimRead, claim_found, claim_missing, claim_unread,
  ApplyConflict, taken_in_conflict, claim_conflict, is_core_claim, pins_by_object, pin_taken_in,
  ApplyContext, check_taken_in, check_claims, before_claims, stage, guard_delete, deletes,
  after_dry_run, after_claim_read,
}
use opm_operator.Apply.Guard.{Pin}
use opm_operator.Instance.State.{ApplyOptions}

-- A forced apply would not delete the object of this dry-run.
abbrev pub IsKept : DryRun → Type 0
IsKept accepted = Unit
IsKept (immutable causes) = ⊥
IsKept other_refusal = Unit

-- A claim is missing, or it was read and a forced apply would not delete it.
abbrev pub IsKeptClaim : ClaimRead → DryRun → Type 0
IsKeptClaim claim_found d = IsKept d
IsKeptClaim claim_missing d = Unit
IsKeptClaim claim_unread d = ⊥

module _ (trim : String → String) (dry_run : Rendered → DryRun)
    (read_claim : Rendered → ClaimRead) where
  after_dry_run-none_iff :
      (conflict : List String → ApplyConflict) (d : DryRun) (rest : Option ApplyConflict)
      → (after_dry_run trim dry_run read_claim conflict d rest ≡ none) ↔ (IsKept d × (rest ≡ none))
  unfolding after_dry_run
  after_dry_run-none_iff conflict accepted rest = ground arith
  after_dry_run-none_iff conflict (immutable causes) rest = ground arith
  after_dry_run-none_iff conflict other_refusal rest = ground arith

  check_taken_in-none_iff :
      (taken : List (ObjectKey × String)) (rs : List Rendered)
      → (check_taken_in trim dry_run read_claim taken rs ≡ none)
        ↔ All (λ r. lookup (object_of r) taken ≢ none → IsKept (dry_run r)) rs
  unfolding check_taken_in
  check_taken_in-none_iff taken [] = (λ _. tt, λ _. refl)
  check_taken_in-none_iff taken (r ∷ rs) =
      let (empty, kept) = check_taken_in-none_iff taken rs in
      elim (Option-cases (lookup (object_of r) taken)) [
        | inl n ↦ rw (check_taken_in, n) (λ h. (λ q. absurd (q refl), empty h), λ h. kept h.1)
        | inr (uid, u) ↦
            let (judged, free) =
              after_dry_run-none_iff (taken_in_conflict (object_of r)) (dry_run r)
                (check_taken_in trim dry_run read_claim taken rs) in
            rw (check_taken_in, u)
              (
                λ h. let (k, e) = judged h in (λ q. k, empty e),
                λ h. free (h.0 (λ q. ground (arith, q)), kept h.1),
              )
      ]

  after_claim_read-none_iff :
      (r : Rendered) (c : ClaimRead) (rest : Option ApplyConflict)
      → (after_claim_read trim dry_run read_claim r c rest ≡ none)
        ↔ (IsKeptClaim c (dry_run r) × (rest ≡ none))
  unfolding after_claim_read
  after_claim_read-none_iff r claim_missing rest = ground arith
  after_claim_read-none_iff r claim_unread rest = ground arith
  after_claim_read-none_iff r claim_found rest =
      after_dry_run-none_iff (claim_conflict (object_of r)) (dry_run r) rest

  check_claims-none_iff :
      (rs : List Rendered)
      → (check_claims trim dry_run read_claim rs ≡ none)
        ↔ All (λ r. is_core_claim (object_of r) ≡ true → IsKeptClaim (read_claim r) (dry_run r)) rs
  unfolding check_claims
  check_claims-none_iff [] = (λ _. tt, λ _. refl)
  check_claims-none_iff (r ∷ rs) =
      let (empty, kept) = check_claims-none_iff rs in
      elim (Bool-cases (is_core_claim (object_of r))) [
        | inl t ↦
            let (judged, free) =
              after_claim_read-none_iff r (read_claim r)
                (check_claims trim dry_run read_claim rs) in
            rw t (λ h. let (k, e) = judged h in (λ q. k, empty e), λ h. free (h.0 refl, kept h.1))
        | inr f ↦ rw f (λ h. (λ q. ground (arith, q), empty h), λ h. kept h.1)
      ]

  without_pins :
      (pins : List Pin)
      → is_empty pins ≡ true
      → (rs : List Rendered)
      → All (λ r. lookup (object_of r) (pins_by_object pins []) ≢ none → IsKept (dry_run r)) rs
  unfolding pins_by_object lookup
  without_pins [] e [] = tt
  without_pins [] e (r ∷ rs) = (λ q. absurd (q refl), without_pins [] e rs)
  without_pins (p ∷ pins) e rs = ground (arith, e)

  -- Apply goes on to the staged apply without a conflict exactly when it is not forced, or no
  -- object it takes in would be deleted and created again and, unless the options let it delete data,
  -- every claim is missing, or was read and would not be deleted and created again.
  pub stage-none_iff :
      (rs : List Rendered) (opts : ApplyOptions)
      → let pinned = (stage trim dry_run read_claim rs opts).0 in
        let pins = (stage trim dry_run read_claim rs opts).1.kept in
        ((stage trim dry_run read_claim rs opts).2 ≡ none) ↔ (
          opts.force ≡ true
          → All (λ r. lookup (object_of r) pins ≢ none → IsKept (dry_run r)) pinned
            × (opts.delete_data ≡ false
                → All
                    (λ r.
                      is_core_claim (object_of r) ≡ true → IsKeptClaim (read_claim r) (dry_run r))
                    pinned))
  unfolding stage before_claims
  stage-none_iff rs opts =
      let pins = pins_by_object opts.taken_in [] in
      elim (Bool-cases (is_empty opts.taken_in)) [
        | inl t ↦
            rw (stage, t)
              (let c = check_claims-none_iff rs in
                let w = without_pins opts.taken_in t rs in ground (arith, c, w))
        | inr f ↦
            rw (stage, f)
              (let pinned = pin_taken_in rs opts.taken_in in
                let c = check_claims-none_iff pinned in
                let k = check_taken_in-none_iff pins pinned in ground (arith, c, k))
      ]

  pins-lookup :
      (o : ObjectKey) (pins : List Pin) (m : List (ObjectKey × String))
      → lookup o (pins_by_object pins m) ≡ none
      → All (λ p. p.object ≢ o) pins × (lookup o m ≡ none)
  unfolding pins_by_object
  pins-lookup o [] m missing = (tt, missing)
  pins-lookup o (p ∷ pins) m missing =
      let (others, rest) = pins-lookup o pins (insert p.object p.uid m) missing in
      (
        (
          λ same.
              ground
                (arith, object_eq.beq_iff p.object o, same, rest, lookup-insert p.object o p.uid m),
          others,
        ),
        ground (arith, object_eq.beq_iff p.object o, rest, lookup-insert p.object o p.uid m),
      )

  guard_delete-free :
      (c : ApplyContext) (o : ObjectKey) (uid : String) (precondition : Option String)
      → lookup o c.kept ≡ none
      → guard_delete c o uid ≡ deletes precondition
      → (is_core_claim o ≡ true → c.deletes_claims ≡ true)
        × (precondition ≡ (if str_eq uid "" then none else some uid))
  unfolding guard_delete
  guard_delete-free c o uid precondition missing deleted =
      let after = rw (guard_delete, missing) at deleted in ground (arith, after)

  -- A delete that goes through while an apply runs removes no object the apply takes in, and no
  -- claim unless the options let it delete data; it names the UID that was read, when there is one.
  pub guard_delete-protects :
      (rs : List Rendered) (opts : ApplyOptions) (o : ObjectKey) (uid : String)
      (precondition : Option String)
      → guard_delete (stage trim dry_run read_claim rs opts).1 o uid ≡ deletes precondition
      → All (λ p. p.object ≢ o) opts.taken_in
        × (is_core_claim o ≡ true → opts.delete_data ≡ true)
        × (precondition ≡ (if str_eq uid "" then none else some uid))
  unfolding stage guard_delete
  guard_delete-protects rs opts o uid precondition deleted =
      elim (Option-cases (lookup o (pins_by_object opts.taken_in []))) [
        | inl missing ↦
            let (others, _) = pins-lookup o opts.taken_in [] missing in
            let (claims, named) =
              guard_delete-free (stage trim dry_run read_claim rs opts).1 o uid precondition missing
                deleted in
            (others, claims, named)
        | inr (pin, kept) ↦ absurd (ground (arith, rw (guard_delete, kept) at deleted))
      ]
