-- ===== src/Reconcile/Withhold/Tests.antt =====
-- Four resources of which the first and the third are refused.
use opm_operator.Prelude.{ℕ, ◌≡◌, refl, Bool, [], ◌∷◌, Option, some, leb}
use opm_operator.Reconcile.Withhold.{withhold_refused}
use opm_operator.Reconcile.Withhold.Split.{split, withhold_refused-split}

abbrev decide : ℕ → Option ℕ
decide r = some r

abbrev refuses : ℕ → Bool
refuses d = leb d 5

withhold_refused-split_example :
    withhold_refused decide refuses (3 ∷ 8 ∷ 5 ∷ 9 ∷ []) ≡ split decide refuses (3 ∷ 8 ∷ 5 ∷ 9 ∷ [])
withhold_refused-split_example = withhold_refused-split decide refuses (3 ∷ 8 ∷ 5 ∷ 9 ∷ [])

splits : split decide refuses (3 ∷ 8 ∷ 5 ∷ 9 ∷ []) ≡ some (8 ∷ 9 ∷ [], 3 ∷ 5 ∷ [])
splits = refl
