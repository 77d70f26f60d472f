-- ===== src/Reconcile/Warnings/Tests.antt =====
-- Two facts reported in both orders.
use opm_operator.Prelude.{String, ◌≡◌, List, [], ◌∷◌, arith}
use opm_operator.Prelude.Texts.{contains}
use opm_operator.Reconcile.Warnings.{Seen}

abbrev seen : Seen
seen = ("n/a", "skew x" ∷ []) ∷ ("n/b", []) ∷ []

abbrev other : String
other = "n/b"

abbrev facts : List String
facts = "trait t" ∷ "skew x" ∷ []

same_facts : (b : String) → contains ("skew x" ∷ "trait t" ∷ "skew x" ∷ []) b ≡ contains facts b
same_facts b = ground arith
