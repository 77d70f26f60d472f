-- ===== src/Prelude/Texts.antt =====
-- Text: equality tests with their laws, membership in a list of names, and decimal numbers.
use Prim.Native.String.{String}
use mathlib.Core.Path.{◌≡◌, refl, sym}
use mathlib.Core.Logic.{◌≢◌, ◌↔◌, inl, inr}
use mathlib.Core.Bool.{Bool, true, false, ◌||◌}
use mathlib.Core.List.{List, [], ◌∷◌, ◌++◌, Memᴰ}
use native.Mathlib.Omega.{arith}
use text.Mathlib.Text.{◌==◌ as str_eq}
use text.Mathlib.TextEquality.{eq_iff}
use opm_operator.Prelude.Tests.{if◌then◌else◌, Bool-cases}

pub str_eq_refl : (s : String) → str_eq s s ≡ true
str_eq_refl s = (eq_iff s s).1 refl

pub str_eq_ne : (s t : String) → s ≢ t → str_eq s t ≡ false
str_eq_ne s t h = ground (arith, eq_iff s t)

-- slices.Contains on strings
abbrev pub contains : List String → String → Bool
contains [] a = false
contains (x ∷ xs) a = if str_eq x a then true else contains xs a

pub mem_of_contains : (xs : List String) (a : String) → contains xs a ≡ true → Memᴰ a xs
mem_of_contains [] a h = cc
mem_of_contains (x ∷ xs) a h = elim (Bool-cases (str_eq x a)) [
  | inl t ↦ Memᴰ.head (sym ((eq_iff x a).0 t))
  | inr f ↦ Memᴰ.tail (mem_of_contains xs a (rw f at h))
]

pub contains_of_mem : (xs : List String) (a : String) → Memᴰ a xs → contains xs a ≡ true
contains_of_mem [] a m = elim m [ ]
contains_of_mem (x ∷ xs) a (Memᴰ.head e) = ground (arith, eq_iff x a)
contains_of_mem (x ∷ xs) a (Memᴰ.tail m) = ground (arith, contains_of_mem xs a m)

pub contains_iff : (xs : List String) (a : String) → (contains xs a ≡ true) ↔ Memᴰ a xs
contains_iff xs a = (mem_of_contains xs a, contains_of_mem xs a)

pub contains-append :
    (fqn : String) (xs ys : List String)
    → contains (xs ++ ys) fqn ≡ (contains xs fqn || contains ys fqn)
contains-append fqn [] ys = refl
contains-append fqn (x ∷ xs) ys = ground (arith, contains-append fqn xs ys)

-- strings.HasPrefix
unfoldable pub has_prefix : (s prefix : String) → Bool
has_prefix s String.[] = true
has_prefix String.[] (String.◌∷◌ d p) = false
has_prefix (String.◌∷◌ c s) (String.◌∷◌ d p) =
    let rest = has_prefix s p in
    if str_eq (String.◌∷◌ c String.[]) (String.◌∷◌ d String.[]) then rest else false

-- strings.Contains
unfoldable pub has_text : (s part : String) → Bool
unfolding has_prefix
has_text String.[] part = has_prefix String.[] part
has_text (String.◌∷◌ c s) part =
    let rest = has_text s part in if has_prefix (String.◌∷◌ c s) part then true else rest
