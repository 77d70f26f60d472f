-- ===== src/Prelude/Dicts.antt =====
-- Go's maps as association lists, over keys with a Boolean equality.
use mathlib.Core.Path.{◌≡◌, refl, sym}
use mathlib.Core.Logic.{◌≢◌, ◌↔◌, inl, inr}
use mathlib.Core.Bool.{Bool, true}
use mathlib.Core.Option.{Option, none, some}
use mathlib.Core.List.{List, [], ◌∷◌, map, Memᴰ}
use mathlib.Core.List.Memᴰ
use Prim.Native.String.{String}
use native.Mathlib.Omega.{arith}
use text.Mathlib.Text.{◌==◌ as str_eq}
use text.Mathlib.TextEquality.{eq_iff}
use opm_operator.Prelude.Tests.{if◌then◌else◌, Bool-cases}

pub record Eq {ℓ} (K : Type ℓ) : Type ℓ where
  pub beq : K → K → Bool
  pub beq_iff : (a b : K) → (beq a b ≡ true) ↔ (a ≡ b)

instance abbrev pub string_eq : Eq String
string_eq = record { beq = str_eq; beq_iff = eq_iff }

module _ {ℓ} {K : Type ℓ} ⦃e : Eq K⦄ where
  abbrev pub eqb : K → K → Bool
  eqb = e.beq

  pub eqb_refl : (a : K) → eqb a a ≡ true
  eqb_refl a = (e.beq_iff a a).1 refl

module _ {ℓ κ} {K : Type ℓ} {V : Type κ} ⦃e : Eq K⦄ where
  -- m[k]
  unfoldable pub lookup : K → List (K × V) → Option V
  lookup k [] = none
  lookup k ((j, v) ∷ m) = if e.beq j k then some v else lookup k m

  -- m[k] = v
  unfoldable pub insert : K → V → List (K × V) → List (K × V)
  insert k v [] = (k, v) ∷ []
  insert k v ((j, w) ∷ m) = if e.beq j k then (k, v) ∷ m else (j, w) ∷ insert k v m

  -- delete(m, k)
  unfoldable pub delete : K → List (K × V) → List (K × V)
  delete k [] = []
  delete k ((j, w) ∷ m) = let rest = delete k m in if e.beq j k then rest else (j, w) ∷ rest

  pub lookup-insert :
      (k j : K) (v : V) (m : List (K × V))
      → lookup j (insert k v m) ≡ (if e.beq k j then some v else lookup j m)
  unfolding lookup insert
  lookup-insert k j v [] = refl
  lookup-insert k j v ((i, w) ∷ m) =
      ground (arith, e.beq_iff k j, e.beq_iff i k, e.beq_iff i j, lookup-insert k j v m)

  pub lookup-delete :
      (k j : K) (m : List (K × V))
      → lookup j (delete k m) ≡ (if e.beq k j then none else lookup j m)
  unfolding lookup delete
  lookup-delete k j [] = ground arith
  lookup-delete k j ((i, w) ∷ m) =
      ground (arith, e.beq_iff k j, e.beq_iff i k, e.beq_iff i j, lookup-delete k j m)

  mem_keys-lookup : (k : K) (m : List (K × V)) → Memᴰ k (map (λ e. e.0) m) → lookup k m ≢ none
  unfolding lookup
  mem_keys-lookup k [] i = elim i [ ]
  mem_keys-lookup k ((j, w) ∷ m) i = elim (Memᴰ.cases_cons i) [
    | inl p ↦ ground (arith, e.beq_iff j k)
    | inr r ↦ ground (arith, mem_keys-lookup k m r)
  ]

  lookup-mem_keys : (k : K) (m : List (K × V)) → lookup k m ≢ none → Memᴰ k (map (λ e. e.0) m)
  unfolding lookup
  lookup-mem_keys k [] i = absurd (i refl)
  lookup-mem_keys k ((j, w) ∷ m) i = elim (Bool-cases (e.beq j k)) [
    | inl t ↦ Memᴰ.head (sym ((e.beq_iff j k).0 t))
    | inr f ↦ Memᴰ.tail (lookup-mem_keys k m (rw f at i))
  ]

  -- A key stands among the entries exactly when the map has a value for it.
  pub mem-keys : (k : K) (m : List (K × V)) → Memᴰ k (map (λ e. e.0) m) ↔ (lookup k m ≢ none)
  mem-keys k m = (mem_keys-lookup k m, lookup-mem_keys k m)

  pub lookup-nil : (k : K) → lookup k [] ≡ none
  unfolding lookup
  lookup-nil k = refl
