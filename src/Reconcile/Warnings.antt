-- ===== src/Reconcile/Warnings.antt =====
-- internal/reconcile/warnings.go: the advisory facts each object reported last, and whether they
-- changed. An object is named by its namespaced name as one text. The mutex makes a call one step.
pub mod Transitions
mod Tests
use opm_operator.Prelude.{
  String, Bool, true, false, ◌&&◌, not, List, [], ◌∷◌, Option, none, some, str_eq, is_empty,
  if◌then◌else◌,
}
use opm_operator.Prelude.Dicts.{lookup, insert, delete, string_eq}
use opm_operator.Prelude.Sorting.{distinct}

-- The non-empty items, in order.
unfoldable pub non_empty : List String → List String
non_empty [] = []
non_empty (w ∷ ws) = let rest = non_empty ws in if str_eq w "" then rest else w ∷ rest

-- distinctSorted
unfoldable pub distinct_sorted : List String → List String
unfolding non_empty
distinct_sorted items = distinct (non_empty items)

-- slices.Equal
unfoldable pub equal : List String → List String → Bool
equal [] [] = true
equal [] (y ∷ ys) = false
equal (x ∷ xs) [] = false
equal (x ∷ xs) (y ∷ ys) = str_eq x y && equal xs ys

abbrev pub Seen : Type 0
Seen = List (String × List String)

-- Update of a tracker: what is seen afterwards, and whether the set changed.
unfoldable pub update : (key : String) → (facts : List String) → Seen → Seen × Bool
unfolding distinct_sorted equal
update key facts seen =
    let current = distinct_sorted facts in
    elim (lookup key seen) [
      | some previous ↦
          if equal previous current
          then (seen, false)
          else if is_empty current
          then (insert key [] seen, not (is_empty previous))
          else (insert key current seen, true)
      | none ↦
          if is_empty current then (insert key [] seen, false) else (insert key current seen, true)
    ]

-- Update of a nil tracker
unfoldable pub update_nil : (facts : List String) → Bool
unfolding distinct_sorted
update_nil facts = not (is_empty (distinct_sorted facts))

-- Forget
unfoldable pub forget_object : (key : String) → Seen → Seen
forget_object key seen = delete key seen
