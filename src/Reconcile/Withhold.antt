-- ===== src/Reconcile/Withhold.antt =====
-- internal/reconcile/withhold.go: taking refused resources out of the apply list.
pub mod Split
mod Tests
use opm_operator.Prelude.{
  ℕ, suc, zero, Bool, true, false, not, List, [], ◌∷◌, ◌++◌, Option, none, some, is_empty, ◌==◌,
  if◌then◌else◌,
}

module _ {R D : Type 0} (decide : R → Option D) (refuses : D → Bool) where
  -- The first loop of withholdRefused, from index `i`: the refusing decisions and their indexes,
  -- or nothing when a decision fails.
  unfoldable pub judge : (i : ℕ) → List R → Option (List D × List ℕ)
  judge i [] = some ([], [])
  judge i (r ∷ rs) =
      let rest = judge (suc i) rs in
      elim (decide r) [
        | none ↦ none
        | some d ↦ elim rest [
          | none ↦ none
          | some (refused, withheld) ↦
              if refuses d then some (d ∷ refused, i ∷ withheld) else some (refused, withheld)
        ]
      ]

module _ {R : Type 0} where
  -- The second loop, from index `i`: the resources whose index is not withheld. The withheld
  -- indexes ascend, and the loop keeps those that are still ahead.
  unfoldable pub skip_withheld : (i : ℕ) → (withheld : List ℕ) → List R → List R
  skip_withheld i withheld [] = []
  skip_withheld i [] (r ∷ rs) = r ∷ skip_withheld (suc i) [] rs
  skip_withheld i (w ∷ ws) (r ∷ rs) =
      let skipped = skip_withheld (suc i) ws rs in
      let kept = r ∷ skip_withheld (suc i) (w ∷ ws) rs in if w == i then skipped else kept

module _ {R D : Type 0} (decide : R → Option D) (refuses : D → Bool) where
  -- withholdRefused: what may be applied and the refusals, or nothing when a decision fails
  unfoldable pub withhold_refused : List R → Option (List R × List D)
  unfolding judge skip_withheld
  withhold_refused resources = elim (judge decide refuses 0 resources) [
    | none ↦ none
    | some (refused, withheld) ↦
        if is_empty refused
        then some (resources, [])
        else some (skip_withheld 0 withheld resources, refused)
  ]
