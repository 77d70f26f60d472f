-- ===== src/Platform/Identity/Claims.antt =====
-- The claims of an identity are read back as they were given, in canonical order.
use Prim.Native.Char.{Char, code}
use Prim.Native.String.append
use Prim.Native.String.{◌++◌}
use opm_operator.Prelude.{
  String, ◌≡◌, ◌≢◌, refl, sym, ap, ◌∙◌, Bool, true, false, List, [], ◌∷◌, map, arith, ◌==◌, str_eq,
  eq_iff, if◌then◌else◌, All,
}
use opm_operator.Prelude.Int64.{ℤ}
use opm_operator.Prelude.Texts.{contains, str_eq_ne}
use opm_operator.Prelude.Sorting.{distinct, contains-distinct}
use opm_operator.Platform.Identity.{
  ClaimCoordinate, coordinate_string, join_comma, split_comma, new_package_identity,
  identity_claims,
}

abbrev pub no_comma : String → Bool
no_comma String.[] = true
no_comma (String.◌∷◌ c s) = let rest = no_comma s in if code c == b',' then false else rest

split-join_cons :
    (x r : String) → no_comma x ≡ true → split_comma (x ++ String.◌∷◌ "," r) ≡ x ∷ split_comma r
unfolding split_comma
split-join_cons String.[] r h = rw append.nil
split-join_cons (String.◌∷◌ c x) r h = rw append.cons (ground (arith, split-join_cons x r))

split_one : (x : String) → no_comma x ≡ true → split_comma x ≡ x ∷ []
unfolding split_comma
split_one String.[] h = refl
split_one (String.◌∷◌ c x) h = ground (arith, split_one x)

split-join :
    (x : String) (l : List String)
    → All (λ s. no_comma s ≡ true) (x ∷ l)
    → split_comma (join_comma (x ∷ l)) ≡ x ∷ l
unfolding join_comma
split-join x [] h = split_one x h.0
split-join x (y ∷ l) h =
    split-join_cons x (join_comma (y ∷ l)) h.0 ∙ ap (◌∷◌ x) (split-join y l h.1)

All-of_contains :
    {P : String → Type 0} (l : List String) → ((b : String) → contains l b ≡ true → P b) → All P l
All-of_contains [] f = tt
All-of_contains (x ∷ l) f =
    (f x (ground (arith, eq_iff x x)), All-of_contains l (λ b m. f b (ground arith)))

append_cons-ne-nil : (s : String) (c : Char) (t : String) → s ++ String.◌∷◌ c t ≢ ""
append_cons-ne-nil String.[] c t e = cc (append.nil (String.◌∷◌ c t), e)
append_cons-ne-nil (String.◌∷◌ d s) c t e = cc (append.cons d s (String.◌∷◌ c t), e)

not-contains-nil : (xs : List ClaimCoordinate) → contains (map coordinate_string xs) "" ≡ false
unfolding coordinate_string
not-contains-nil [] = refl
not-contains-nil (c ∷ xs) = ground (
  arith,
  append_cons-ne-nil c.catalog "@" c.version,
  eq_iff (c.catalog ++ String.◌∷◌ "@" c.version) "",
  not-contains-nil xs,
)

join-ne-nil : (x : String) (l : List String) → x ≢ "" → join_comma (x ∷ l) ≢ ""
unfolding join_comma
join-ne-nil x [] h = h
join-ne-nil x (y ∷ l) h = append_cons-ne-nil x "," (join_comma (y ∷ l))

split-join-All :
    (l : List String)
    → All (λ s. no_comma s ≡ true) l
    → contains l "" ≡ false
    → (if str_eq (join_comma l) "" then [] else split_comma (join_comma l)) ≡ l
unfolding join_comma
split-join-All [] plain named = refl
split-join-All (x ∷ l) plain named =
    let filled : join_comma (x ∷ l) ≢ "" = join-ne-nil x l (λ e. ground (arith, eq_iff x "")) in
    rw (str_eq_ne (join_comma (x ∷ l)) "" filled) (split-join x l plain)

-- Claims gives back the coordinates an identity was made of, in canonical order, if none of them
-- has a comma in it.
pub claims-new_package_identity :
    (generation : ℤ) (claims : List ClaimCoordinate)
    → ((b : String) → contains (map coordinate_string claims) b ≡ true → no_comma b ≡ true)
    → identity_claims (new_package_identity generation claims)
      ≡ distinct (map coordinate_string claims)
unfolding new_package_identity identity_claims
claims-new_package_identity g claims h =
    split-join-All (distinct (map coordinate_string claims))
      (All-of_contains (distinct (map coordinate_string claims))
        λ b m. h b (sym (contains-distinct b (map coordinate_string claims)) ∙ m))
      (contains-distinct "" (map coordinate_string claims) ∙ not-contains-nil claims)
