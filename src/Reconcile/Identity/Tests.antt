-- ===== src/Reconcile/Identity/Tests.antt =====
-- Runs of the identity plan, and its theorems at concrete inputs.
use opm_operator.Prelude.{String, ◌≡◌, refl, ◌⊎◌, inl, inr, false, [], ◌∷◌, Memᴰ, arith, eq_iff}
use opm_operator.Prelude.Memᴰ
use opm_operator.Reconcile.Identity.{recorded_identities, plan_identities, store}
use opm_operator.Reconcile.Identity.Plan.{IsSettled}
use opm_operator.Reconcile.Identity.Protocol.{
  World, fresh, Step, start, next, interrupted, labels_recorded,
}

abbrev first : World
first = record { fields = record { current = "a"; previous = "" }; labels = "a" ∷ [] }

abbrev half_way : World
half_way = record { fields = record { current = "b"; previous = "a" }; labels = "b" ∷ "a" ∷ [] }

each_first : (l : String) → Memᴰ l ("a" ∷ []) → Memᴰ l [] ⊎ (l ≡ "a")
each_first l m = inr (Memᴰ.eq_of_singleton m)

each_half_way : (l : String) → Memᴰ l ("b" ∷ "a" ∷ []) → Memᴰ l ("a" ∷ []) ⊎ (l ≡ "b")
each_half_way l (Memᴰ.head e) = inr e
each_half_way l (Memᴰ.tail m) = inl m

Step-first : Step false fresh first
unfolding plan_identities store
Step-first = interrupted "a" ("a" ∷ []) refl each_first

Step-half_way : Step false first half_way
unfolding plan_identities store
Step-half_way = interrupted "b" ("b" ∷ "a" ∷ []) refl each_half_way

labels_recorded_example : Memᴰ "a" (recorded_identities ("b" ∷ "a" ∷ []))
labels_recorded_example =
    labels_recorded false half_way "a" (next (next start Step-first) Step-half_way)
      (Memᴰ.tail (Memᴰ.head refl)) (ground (arith, eq_iff "a" ""))

abbrev third : String
third = "c"

settled : IsSettled "b" ""
settled = record { named = λ h. absurd (h refl); distinct = λ h. absurd (h refl) }

-- Going back to the earlier identity while a change is pending swaps the two.
swaps : (plan_identities "b" "a" "a" false).previous_instance_uuid ≡ "b"
unfolding plan_identities
swaps = refl
