-- ===== src/Prelude/Sorting.antt =====
-- slices.Sort and slices.Compact on strings, and the canonical list of a set of names.
use mathlib.Core.Path.{◌≡◌, refl, sym, ap₂, ◌∙◌}
use mathlib.Core.Logic.{inl, inr}
use mathlib.Core.Bool.{true, false}
use mathlib.Core.List.{List, [], ◌∷◌}
use Prim.Native.String.{String}
use native.Mathlib.Omega.{arith}
use text.Mathlib.Text.{◌==◌ as str_eq}
use text.Mathlib.TextEquality.{eq_iff}
use opm_operator.Prelude.Tests.{if◌then◌else◌, Bool-cases}
use opm_operator.Prelude.Lists.{All, is_empty}
use opm_operator.Prelude.Texts.{contains}
use opm_operator.Prelude.Order.{
  text_ltb, text_ltb_irrefl, text_ltb_trans, text_ltb_connex, text_ltb_asymm,
}

unfoldable pub insert_sorted : String → List String → List String
insert_sorted a [] = a ∷ []
insert_sorted a (x ∷ xs) =
    let rest = insert_sorted a xs in if text_ltb x a then x ∷ rest else a ∷ x ∷ xs

-- slices.Sort
unfoldable pub sort : List String → List String
unfolding insert_sorted
sort [] = []
sort (x ∷ xs) = insert_sorted x (sort xs)

-- slices.Compact: of each run of equal elements the first.
unfoldable pub compact : List String → List String
compact [] = []
compact (x ∷ []) = x ∷ []
compact (x ∷ y ∷ l) = let rest = compact (y ∷ l) in if str_eq x y then rest else x ∷ rest

-- No element is below one before it.
abbrev pub IsSorted : List String → Type 0
IsSorted [] = Unit
IsSorted (x ∷ xs) = All (λ y. text_ltb y x ≡ false) xs × IsSorted xs

-- Every element is above the ones before it.
abbrev pub IsStrict : List String → Type 0
IsStrict [] = Unit
IsStrict (x ∷ xs) = All (λ y. text_ltb x y ≡ true) xs × IsStrict xs

not-below_trans :
    (x y z : String) → text_ltb y x ≡ false → text_ltb z y ≡ false → text_ltb z x ≡ false
not-below_trans x y z h k = ground (
  arith,
  text_ltb_connex x y,
  text_ltb_connex y z,
  text_ltb_trans z x y,
  text_ltb_trans x y z,
  text_ltb_asymm z x,
)

All-insert_sorted {ℓ} :
    (P : String → Type ℓ) (a : String) (xs : List String)
    → P a
    → All P xs
    → All P (insert_sorted a xs)
unfolding insert_sorted
All-insert_sorted P a [] p h = (p, tt)
All-insert_sorted P a (x ∷ xs) p h = elim (Bool-cases (text_ltb x a)) [
  | inl t ↦ rw t (h.0, All-insert_sorted P a xs p h.1)
  | inr f ↦ rw f (p, h)
]

All-map {ℓ κ} :
    {P : String → Type ℓ} {Q : String → Type κ} (xs : List String)
    → ((y : String) → P y → Q y)
    → All P xs
    → All Q xs
All-map [] f h = tt
All-map (x ∷ xs) f h = (f x h.0, All-map xs f h.1)

insert_sorted-IsSorted :
    (a : String) (xs : List String) → IsSorted xs → IsSorted (insert_sorted a xs)
unfolding insert_sorted
insert_sorted-IsSorted a [] h = (tt, tt)
insert_sorted-IsSorted a (x ∷ xs) h = elim (Bool-cases (text_ltb x a)) [
  | inl t ↦ rw t (
    All-insert_sorted (λ y. text_ltb y x ≡ false) a xs (text_ltb_asymm x a t) h.0,
    insert_sorted-IsSorted a xs h.1,
  )
  | inr f ↦ rw f ((f, All-map xs (λ y k. not-below_trans a x y f k) h.0), h)
]

pub sort-IsSorted : (xs : List String) → IsSorted (sort xs)
unfolding sort
sort-IsSorted [] = tt
sort-IsSorted (x ∷ xs) = insert_sorted-IsSorted x (sort xs) (sort-IsSorted xs)

lt_of_lt_not-lt :
    (x y z : String) → text_ltb x y ≡ true → text_ltb z y ≡ false → text_ltb x z ≡ true
lt_of_lt_not-lt x y z h k =
    ground (arith, text_ltb_connex y z, text_ltb_trans x y z, Bool-cases (text_ltb y z))

All-compact {ℓ} : (P : String → Type ℓ) (xs : List String) → All P xs → All P (compact xs)
unfolding compact
All-compact P [] h = tt
All-compact P (x ∷ []) h = h
All-compact P (x ∷ y ∷ l) h = elim (Bool-cases (str_eq x y)) [
  | inl t ↦ rw t (All-compact P (y ∷ l) h.1)
  | inr f ↦ rw f (h.0, All-compact P (y ∷ l) h.1)
]

lt_of_ne : (x y : String) → text_ltb y x ≡ false → str_eq x y ≡ false → text_ltb x y ≡ true
lt_of_ne x y h k = ground (arith, text_ltb_connex x y, eq_iff x y, Bool-cases (text_ltb x y))

pub compact-IsStrict : (xs : List String) → IsSorted xs → IsStrict (compact xs)
unfolding compact
compact-IsStrict [] h = tt
compact-IsStrict (x ∷ []) h = (tt, tt)
compact-IsStrict (x ∷ y ∷ l) h = elim (Bool-cases (str_eq x y)) [
  | inl t ↦ rw t (compact-IsStrict (y ∷ l) h.1)
  | inr f ↦ rw f (
    All-compact (λ z. text_ltb x z ≡ true) (y ∷ l)
        (
          lt_of_ne x y h.0.0 f,
          All-map l (λ z k. lt_of_lt_not-lt x y z (lt_of_ne x y h.0.0 f) k) h.1.0,
        ),
    compact-IsStrict (y ∷ l) h.1,
  )
]

-- Sorting and compacting keep the names of a list.
contains-insert_sorted :
    (b a : String) (xs : List String)
    → contains (insert_sorted a xs) b ≡ (if str_eq a b then true else contains xs b)
unfolding insert_sorted
contains-insert_sorted b a [] = refl
contains-insert_sorted b a (x ∷ xs) = ground (arith, contains-insert_sorted b a xs)

pub contains-sort : (b : String) (xs : List String) → contains (sort xs) b ≡ contains xs b
unfolding sort
contains-sort b [] = refl
contains-sort b (x ∷ xs) = ground (arith, contains-insert_sorted b x (sort xs), contains-sort b xs)

pub contains-compact : (b : String) (xs : List String) → contains (compact xs) b ≡ contains xs b
unfolding compact
contains-compact b [] = refl
contains-compact b (x ∷ []) = refl
contains-compact b (x ∷ y ∷ l) =
    ground (arith, contains-compact b (y ∷ l), eq_iff x y, eq_iff x b, eq_iff y b)

not-contains_of_below :
    (x : String) (l : List String) → All (λ y. text_ltb x y ≡ true) l → contains l x ≡ false
not-contains_of_below x [] h = refl
not-contains_of_below x (y ∷ l) h =
    ground (arith, not-contains_of_below x l h.1, h.0, eq_iff y x, text_ltb_irrefl x)

below_of_contains :
    (x z : String) (l : List String)
    → All (λ y. text_ltb x y ≡ true) l
    → contains l z ≡ true
    → text_ltb x z ≡ true
below_of_contains x z [] h m = cc
below_of_contains x z (y ∷ l) h m = ground (arith, below_of_contains x z l h.1, h.0, eq_iff y z)

head-eq :
    (x y : String) (xs ys : List String)
    → IsStrict (x ∷ xs)
    → IsStrict (y ∷ ys)
    → contains (x ∷ xs) x ≡ contains (y ∷ ys) x
    → contains (x ∷ xs) y ≡ contains (y ∷ ys) y
    → x ≡ y
head-eq x y xs ys hx hy ex ey = elim (Bool-cases (str_eq x y)) [
  | inl t ↦ (eq_iff x y).0 t
  | inr f ↦ ground (
    arith,
    eq_iff x x,
    eq_iff y y,
    eq_iff y x,
    eq_iff x y,
    below_of_contains x y xs hx.0,
    below_of_contains y x ys hy.0,
    text_ltb_asymm x y,
  )
]

-- Two strictly increasing lists with the same names are one list.
pub IsStrict-unique :
    (xs ys : List String)
    → IsStrict xs
    → IsStrict ys
    → ((b : String) → contains xs b ≡ contains ys b)
    → xs ≡ ys
IsStrict-unique [] [] hx hy e = refl
IsStrict-unique [] (y ∷ ys) hx hy e = ground (arith, e y, eq_iff y y)
IsStrict-unique (x ∷ xs) [] hx hy e = ground (arith, e x, eq_iff x x)
IsStrict-unique (x ∷ xs) (y ∷ ys) hx hy e =
    let same : x ≡ y = head-eq x y xs ys hx hy (e x) (e y) in
    ap₂ ◌∷◌ same (
      IsStrict-unique xs ys hx.1 hy.1 λ b. ground (
        arith,
        e b,
        same,
        eq_iff x b,
        eq_iff y b,
        not-contains_of_below x xs hx.0,
        not-contains_of_below y ys hy.0,
      ))

-- The canonical list of a set of names: slices.Compact after slices.Sort.
unfoldable pub distinct : List String → List String
distinct xs = compact (sort xs)

pub distinct-IsStrict : (xs : List String) → IsStrict (distinct xs)
unfolding distinct
distinct-IsStrict xs = compact-IsStrict (sort xs) (sort-IsSorted xs)

pub contains-distinct : (b : String) (xs : List String) → contains (distinct xs) b ≡ contains xs b
unfolding distinct
contains-distinct b xs = contains-compact b (sort xs) ∙ contains-sort b xs

-- The list depends on the names alone: not on their order, and not on repetitions.
pub distinct_canonical :
    (xs ys : List String)
    → ((b : String) → contains xs b ≡ contains ys b)
    → distinct xs ≡ distinct ys
distinct_canonical xs ys h =
    IsStrict-unique (distinct xs) (distinct ys) (distinct-IsStrict xs) (distinct-IsStrict ys)
      λ b. contains-distinct b xs ∙ h b ∙ sym (contains-distinct b ys)

is_empty-insert_sorted : (x : String) (ys : List String) → is_empty (insert_sorted x ys) ≡ false
unfolding insert_sorted
is_empty-insert_sorted x [] = refl
is_empty-insert_sorted x (y ∷ ys) = ground arith

pub is_empty-sort : (xs : List String) → is_empty (sort xs) ≡ is_empty xs
unfolding sort
is_empty-sort [] = refl
is_empty-sort (x ∷ xs) = is_empty-insert_sorted x (sort xs)
