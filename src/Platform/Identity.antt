-- ===== src/Platform/Identity.antt =====
-- internal/platform/identity.go: the identity of a generated platform package.
mod Claims
mod Tests
use Prim.Native.Char.{Char, code}
use Prim.Native.String.{◌++◌}
use opm_operator.Prelude.{
  ℕ, String, ◌≡◌, ◌↔◌, refl, ap, Bool, true, false, ◌&&◌, List, [], ◌∷◌, map, Memᴰ, arith, ◌==◌,
  str_eq, eq_iff, if◌then◌else◌, All,
}
use opm_operator.Prelude.Int64.{ℤ, pos, negsuc}
use opm_operator.Prelude.Decimal.{format_int}
use opm_operator.Prelude.Dicts.{Eq}
use opm_operator.Prelude.Texts.{contains}
use opm_operator.Prelude.Sorting.{distinct, distinct_canonical}

pub record ClaimCoordinate : Type 0 where
  pub catalog : String
  pub version : String

-- ClaimCoordinate.String
unfoldable pub coordinate_string : ClaimCoordinate → String
coordinate_string c = c.catalog ++ String.◌∷◌ "@" c.version

pub record PackageIdentity : Type 0 where
  pub generation : ℤ
  pub claims : String

-- strings.Join(l, ",")
unfoldable pub join_comma : List String → String
join_comma [] = ""
join_comma (x ∷ []) = x
join_comma (x ∷ y ∷ l) = x ++ String.◌∷◌ "," (join_comma (y ∷ l))

-- The first piece of a split, one character longer.
abbrev grow : Char → List String → List String
grow c [] = String.◌∷◌ c String.[] ∷ []
grow c (x ∷ l) = String.◌∷◌ c x ∷ l

-- strings.Split(s, ",")
unfoldable pub split_comma : String → List String
split_comma String.[] = "" ∷ []
split_comma (String.◌∷◌ c s) =
    let rest = split_comma s in if code c == b',' then "" ∷ rest else grow c rest

-- NewPackageIdentity
unfoldable pub new_package_identity : ℤ → List ClaimCoordinate → PackageIdentity
new_package_identity generation claims = record {
  generation = generation;
  claims = join_comma (distinct (map coordinate_string claims));
}

-- PackageIdentity.Claims
unfoldable pub identity_claims : PackageIdentity → List String
identity_claims id = if str_eq id.claims "" then [] else split_comma id.claims

abbrev pub zero_identity : PackageIdentity
zero_identity = record { generation = pos 0; claims = "" }

eqb_ℤ : ℤ → ℤ → Bool
eqb_ℤ (pos a) (pos b) = a == b
eqb_ℤ (pos a) (negsuc b) = false
eqb_ℤ (negsuc a) (pos b) = false
eqb_ℤ (negsuc a) (negsuc b) = a == b

-- Go's == on identities, by which the store's map compares its keys.
unfoldable pub identity_eq : PackageIdentity → PackageIdentity → Bool
unfolding eqb_ℤ
identity_eq a b = eqb_ℤ a.generation b.generation && str_eq a.claims b.claims

eqb_ℤ_iff : (a b : ℤ) → (eqb_ℤ a b ≡ true) ↔ (a ≡ b)
unfolding eqb_ℤ
eqb_ℤ_iff (pos a) (pos b) = ground arith
eqb_ℤ_iff (pos a) (negsuc b) = ground arith
eqb_ℤ_iff (negsuc a) (pos b) = ground arith
eqb_ℤ_iff (negsuc a) (negsuc b) = ground arith

pub identity_eq_iff : (a b : PackageIdentity) → (identity_eq a b ≡ true) ↔ (a ≡ b)
unfolding identity_eq
identity_eq_iff a b = ground (arith, eqb_ℤ_iff a.generation b.generation, eq_iff a.claims b.claims)

instance abbrev pub identity_key : Eq PackageIdentity
identity_key = record { beq = identity_eq; beq_iff = identity_eq_iff }

-- PackageIdentity.IsZero
unfoldable pub is_zero : PackageIdentity → Bool
unfolding identity_eq
is_zero id = identity_eq id zero_identity

-- PackageIdentity.String. `digest` is the hex form of the first 8 bytes of a text's SHA-256.
unfoldable pub identity_string : (digest : String → String) → PackageIdentity → String
identity_string digest id =
    let name : String = "gen-" ++ format_int id.generation in
    if str_eq id.claims "" then name else name ++ "-" ++ digest id.claims

-- The identity depends on the set of the claims' coordinates and on the generation: not on the
-- order in which claims are listed, and not on repetitions.
pub new_package_identity_canonical :
    (generation : ℤ) (xs ys : List ClaimCoordinate)
    → ((b : String) → contains (map coordinate_string xs) b ≡ contains (map coordinate_string ys) b)
    → new_package_identity generation xs ≡ new_package_identity generation ys
unfolding new_package_identity
new_package_identity_canonical g xs ys h =
    ap (λ l. record { generation = g; claims = join_comma l })
      (distinct_canonical (map coordinate_string xs) (map coordinate_string ys) h)
