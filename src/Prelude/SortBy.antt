-- ===== src/Prelude/SortBy.antt =====
-- slices.SortFunc by a text key, as an insertion sort.
use mathlib.Core.Logic.{◌↔◌, inl, inr}
use mathlib.Core.List.{List, [], ◌∷◌, Memᴰ}
use mathlib.Core.List.Memᴰ
use Prim.Native.String.{String}
use opm_operator.Prelude.Tests.{if◌then◌else◌, Bool-cases}
use opm_operator.Prelude.Order.{text_ltb}

module _ {ℓ} {A : Type ℓ} (key : A → String) where
  unfoldable pub insert_by : A → List A → List A
  insert_by a [] = a ∷ []
  insert_by a (x ∷ xs) =
      let rest = insert_by a xs in if text_ltb (key x) (key a) then x ∷ rest else a ∷ x ∷ xs

  unfoldable pub sort_by : List A → List A
  unfolding insert_by
  sort_by [] = []
  sort_by (x ∷ xs) = insert_by x (sort_by xs)

  mem_of_insert_by : (b a : A) (xs : List A) → Memᴰ b (insert_by a xs) → Memᴰ b (a ∷ xs)
  unfolding insert_by
  mem_of_insert_by b a [] m = m
  mem_of_insert_by b a (x ∷ xs) m = elim (Bool-cases (text_ltb (key x) (key a))) [
    | inl t ↦ elim (Memᴰ.cases_cons (rw t at m)) [
      | inl e ↦ Memᴰ.tail (Memᴰ.head e)
      | inr i ↦ elim (Memᴰ.cases_cons (mem_of_insert_by b a xs i)) [
        | inl e ↦ Memᴰ.head e
        | inr j ↦ Memᴰ.tail (Memᴰ.tail j)
      ]
    ]
    | inr f ↦ rw f at m
  ]

  insert_by-mem : (b a : A) (xs : List A) → Memᴰ b (a ∷ xs) → Memᴰ b (insert_by a xs)
  unfolding insert_by
  insert_by-mem b a [] m = m
  insert_by-mem b a (x ∷ xs) m = elim (Bool-cases (text_ltb (key x) (key a))) [
    | inr f ↦ rw f m
    | inl t ↦ elim (Memᴰ.cases_cons m) [
      | inl e ↦ rw t (Memᴰ.tail (insert_by-mem b a xs (Memᴰ.head e)))
      | inr i ↦ elim (Memᴰ.cases_cons i) [
        | inl e ↦ rw t (Memᴰ.head e)
        | inr j ↦ rw t (Memᴰ.tail (insert_by-mem b a xs (Memᴰ.tail j)))
      ]
    ]
  ]

  mem_of_sort_by : (b : A) (xs : List A) → Memᴰ b (sort_by xs) → Memᴰ b xs
  unfolding sort_by
  mem_of_sort_by b [] m = m
  mem_of_sort_by b (x ∷ xs) m = elim (Memᴰ.cases_cons (mem_of_insert_by b x (sort_by xs) m)) [
    | inl e ↦ Memᴰ.head e
    | inr i ↦ Memᴰ.tail (mem_of_sort_by b xs i)
  ]

  sort_by-mem : (b : A) (xs : List A) → Memᴰ b xs → Memᴰ b (sort_by xs)
  unfolding sort_by
  sort_by-mem b [] m = m
  sort_by-mem b (x ∷ xs) m = elim (Memᴰ.cases_cons m) [
    | inl e ↦ insert_by-mem b x (sort_by xs) (Memᴰ.head e)
    | inr i ↦ insert_by-mem b x (sort_by xs) (Memᴰ.tail (sort_by-mem b xs i))
  ]

  -- Sorting keeps the elements.
  pub mem-sort_by : (b : A) (xs : List A) → Memᴰ b (sort_by xs) ↔ Memᴰ b xs
  mem-sort_by b xs = (mem_of_sort_by b xs, sort_by-mem b xs)
