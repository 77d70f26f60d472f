-- ===== src/Reconcile/Withhold/Split.antt =====
-- The two loops over indexes split the resources as one pass over the decisions does.
use opm_operator.Prelude.{
  ℕ, suc, ◌≤◌, ◌≡◌, inl, inr, refl, ap, Bool, true, List, [], ◌∷◌, Option, none, some, is_empty,
  if◌then◌else◌, Bool-cases, Option-cases, arith,
}
use opm_operator.Reconcile.Withhold.{judge, skip_withheld, withhold_refused}

skip_withheld-nil : {R : Type 0} (i : ℕ) (rs : List R) → skip_withheld i [] rs ≡ rs
unfolding skip_withheld
skip_withheld-nil i [] = refl
skip_withheld-nil i (r ∷ rs) = ap (λ t. r ∷ t) (skip_withheld-nil (suc i) rs)

-- No withheld index is before `i`.
abbrev StartsAt : ℕ → List ℕ → Type 0
StartsAt i [] = Unit
StartsAt i (w ∷ ws) = i ≤ w

skip_withheld-ahead :
    {R : Type 0} (i : ℕ) (ws : List ℕ) (r : R) (rs : List R)
    → StartsAt (suc i) ws
    → skip_withheld i ws (r ∷ rs) ≡ r ∷ skip_withheld (suc i) ws rs
unfolding skip_withheld
skip_withheld-ahead i [] r rs h = refl
skip_withheld-ahead i (w ∷ ws) r rs h = ground (arith, h)

skip_withheld-here :
    {R : Type 0} (i : ℕ) (ws : List ℕ) (r : R) (rs : List R)
    → skip_withheld i (i ∷ ws) (r ∷ rs) ≡ skip_withheld (suc i) ws rs
unfolding skip_withheld
skip_withheld-here i ws r rs = ground arith

starts_earlier : (i : ℕ) (ws : List ℕ) → StartsAt (suc i) ws → StartsAt i ws
starts_earlier i [] h = tt
starts_earlier i (w ∷ ws) h = omega (arith, h)

none_refused : {D : Type 0} (refused : List D) → is_empty refused ≡ true → refused ≡ []
none_refused [] h = refl
none_refused (d ∷ ds) h = ground (arith, h)

module _ {R D : Type 0} (decide : R → Option D) (refuses : D → Bool) where
  -- One pass: what is not refused, in order, and the refusals, in order.
  abbrev pub split : List R → Option (List R × List D)
  split [] = some ([], [])
  split (r ∷ rs) =
      let rest = split rs in
      elim (decide r) [
        | none ↦ none
        | some d ↦ elim rest [
          | none ↦ none
          | some (allowed, refused) ↦
              if refuses d then some (allowed, d ∷ refused) else some (r ∷ allowed, refused)
        ]
      ]

  abbrev Judged : ℕ → List R → Option (List D × List ℕ) → Type 0
  Judged i rs none = split rs ≡ none
  Judged i rs (some (refused, withheld)) =
      (split rs ≡ some (skip_withheld i withheld rs, refused))
      × StartsAt i withheld
      × (is_empty refused ≡ is_empty withheld)

  judge_lem : (i : ℕ) (rs : List R) → Judged i rs (judge decide refuses i rs)
  unfolding judge skip_withheld
  judge_lem i [] = (refl, tt, refl)
  judge_lem i (r ∷ rs) = elim (Option-cases (decide r)) [
    | inl e ↦
        let stops : judge decide refuses i (r ∷ rs) ≡ none = ground (arith, e) in
        rw stops (ground (arith, e))
    | inr (d, e) ↦ elim (Option-cases (judge decide refuses (suc i) rs)) [
      | inl f ↦
          let stops : judge decide refuses i (r ∷ rs) ≡ none = ground (arith, e, f) in
          rw stops (ground (arith, e, rw f at (judge_lem (suc i) rs)))
      | inr ((refused, withheld), f) ↦
          let (same, ahead, empties) = rw f at (judge_lem (suc i) rs) in
          elim (Bool-cases (refuses d)) [
            | inl t ↦
                let here : judge decide refuses i (r ∷ rs) ≡ some (d ∷ refused, i ∷ withheld) =
                  ground (arith, e, f, t) in
                rw here (
                  ground (arith, e, same, t, skip_withheld-here i withheld r rs),
                  omega arith,
                  refl,
                )
            | inr t ↦
                let on : judge decide refuses i (r ∷ rs) ≡ some (refused, withheld) =
                  ground (arith, e, f, t) in
                rw on (
                  ground (arith, e, same, t, skip_withheld-ahead i withheld r rs ahead),
                  starts_earlier i withheld ahead,
                  empties,
                )
          ]
    ]
  ]

  -- Withholding gives what one pass over the decisions gives: what may be applied is what was not
  -- refused, in order, beside the refusals in order, and a decision that fails fails the whole.
  pub withhold_refused-split : (rs : List R) → withhold_refused decide refuses rs ≡ split rs
  unfolding withhold_refused
  withhold_refused-split rs = elim (Option-cases (judge decide refuses 0 rs)) [
    | inl f ↦ ground (arith, f, rw f at (judge_lem 0 rs))
    | inr ((refused, []), f) ↦
        ground (arith, f, rw f at (judge_lem 0 rs), skip_withheld-nil 0 rs, none_refused refused)
    | inr ((refused, w ∷ withheld), f) ↦ ground (arith, f, rw f at (judge_lem 0 rs))
  ]
