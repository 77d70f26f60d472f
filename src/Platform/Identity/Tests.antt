-- ===== src/Platform/Identity/Tests.antt =====
-- Two claims in both orders, one of them twice.
use opm_operator.Prelude.{◌≡◌, String, [], ◌∷◌, map, arith}
use opm_operator.Prelude.Texts.{contains}
use opm_operator.Platform.Identity.{ClaimCoordinate, coordinate_string}

abbrev a_claim : ClaimCoordinate
a_claim = record { catalog = "a"; version = "1" }

abbrev b_claim : ClaimCoordinate
b_claim = record { catalog = "b"; version = "2" }

same_claims :
    (b : String)
    → contains (map coordinate_string (b_claim ∷ a_claim ∷ b_claim ∷ [])) b
      ≡ contains (map coordinate_string (a_claim ∷ b_claim ∷ [])) b
same_claims b = ground arith
