-- ===== src/Deletion/Hold/Verdicts.antt =====
-- A cleanup is released only when every one of its plans is.
use opm_operator.Prelude.{
  ◌≡◌, ◌↔◌, refl, Bool, true, false, ◌&&◌, ◌||◌, not, List, [], ◌∷◌, Option, none, some, is_empty,
  arith, Memᴰ, select, mem-select, mem-select_of,
}
use opm_operator.Reconcile.Health.{InventoryEntry}
use opm_operator.Deletion.Hold.{
  HoldReason, HoldVerdict, Lifecycle, available, is_data_claim, split_claims, split_kept_claims,
  hold_loop, hold_verdict,
}

module _ {Plan State : Type 0} (library : Lifecycle Plan State) where
  -- Whether every plan of a list releases.
  abbrev pub all_release : List (Plan × State) → Bool
  all_release [] = true
  all_release ((plan, state) ∷ runs) =
      (library.may_release plan state available).release && all_release runs

  abbrev is_held : Option HoldVerdict → Bool
  is_held none = false
  is_held (some v) = not v.release

  -- A hold that is kept is no release.
  hold_loop-held :
      (h last : HoldVerdict) (runs : List (Plan × State))
      → h.release ≡ false
      → (hold_loop library (some h) last runs).release ≡ false
  unfolding hold_loop
  hold_loop-held h last [] e = e
  hold_loop-held h last ((plan, state) ∷ runs) e =
      let v = library.may_release plan state available in
      ground (arith, hold_loop-held h v runs e, hold_loop-held v v runs)

  hold_loop-free :
      (last : HoldVerdict) (runs : List (Plan × State))
      → (hold_loop library none last runs).release
        ≡ (all_release runs && (last.release || not (is_empty runs)))
  unfolding hold_loop
  hold_loop-free last [] = ground arith
  hold_loop-free last ((plan, state) ∷ runs) =
      let v = library.may_release plan state available in
      ground (arith, hold_loop-free v runs, hold_loop-held v v runs)

  -- The verdict over the plans of a cleanup is a release exactly when there is a plan and every
  -- plan releases.
  pub hold_verdict-release :
      (runs : List (Plan × State))
      → (hold_verdict library runs).release ≡ (all_release runs && not (is_empty runs))
  unfolding hold_verdict
  hold_verdict-release runs =
      ground
        (arith, hold_loop-free (record { release = false; because = HoldReason.other_reason }) runs)

pub split_claims_lem :
    (entries : List InventoryEntry)
    → split_claims entries
      ≡ (select (λ e. not (is_data_claim e)) entries, select is_data_claim entries)
unfolding split_claims
split_claims_lem [] = refl
split_claims_lem (e ∷ es) = ground (arith, split_claims_lem es)

-- With the data policy that keeps data no claim is planned for deletion, and every entry is either
-- planned or reported as a kept claim.
pub split_kept_claims_lem :
    (entries : List InventoryEntry) (e : InventoryEntry)
    → (Memᴰ e (split_kept_claims entries false).0 ↔ (Memᴰ e entries × (is_data_claim e ≡ false)))
      × (Memᴰ e (split_kept_claims entries false).1 ↔ (Memᴰ e entries × (is_data_claim e ≡ true)))
unfolding split_kept_claims
split_kept_claims_lem entries e =
    let objects = λ (x : InventoryEntry). not (is_data_claim x) in
    rw split_claims_lem (
      (
        λ m. let (i, h) = mem-select objects e entries m in (i, ground (arith, h)),
        λ m. mem-select_of objects e entries m.0 (ground (arith, m.1)),
      ),
      (mem-select is_data_claim e entries, λ m. mem-select_of is_data_claim e entries m.0 m.1),
    )
