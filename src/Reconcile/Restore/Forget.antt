-- ===== src/Reconcile/Restore/Forget.antt =====
-- Forgetting objects removes exactly their entries, and keeps the count true.
use opm_operator.Prelude.{
  ◌≡◌, refl, Bool, not, List, [], ◌∷◌, map, some, length, select, length-select-le, arith,
}
use opm_operator.Reconcile.Health.{InventoryEntry}
use opm_operator.Reconcile.Restore.{
  Rendered, Inventory, has_key, keep_entries, without_entries, forget,
}

keep_entries_lem :
    (drop es : List InventoryEntry) → keep_entries drop es ≡ select (λ e. not (has_key e drop)) es
unfolding keep_entries
keep_entries_lem drop [] = refl
keep_entries_lem drop (e ∷ es) = ground (arith, keep_entries_lem drop es)

select-all :
    (p : InventoryEntry → Bool) (es : List InventoryEntry)
    → length (select p es) ≡ length es
    → select p es ≡ es
select-all p [] h = refl
select-all p (e ∷ es) h = ground (arith, h, select-all p es, length-select-le p es)

select-none_dropped : (es : List InventoryEntry) → select (λ e. not (has_key e [])) es ≡ es
unfolding has_key
select-none_dropped [] = refl
select-none_dropped (e ∷ es) = ground (arith, select-none_dropped es)

module _ (entry_of : Rendered → InventoryEntry) where
  without_entries_lem :
      (es : List InventoryEntry) (objs : List Rendered)
      → without_entries entry_of es objs ≡ select (λ e. not (has_key e (map entry_of objs))) es
  unfolding without_entries
  without_entries_lem es [] = ground (arith, select-none_dropped es)
  without_entries_lem es (o ∷ objs) = keep_entries_lem (map entry_of (o ∷ objs)) es

  -- Forgetting objects leaves the digest and the revision, removes exactly the entries that name
  -- one of the objects, in order, and keeps the count equal to the number of entries, if it was.
  pub forget_lem :
      (inv : Inventory) (objs : List Rendered)
      → inv.count ≡ length inv.entries
      → forget entry_of (some inv) objs
        ≡ some (record inv {
          entries = select (λ e. not (has_key e (map entry_of objs))) inv.entries;
          count = length (select (λ e. not (has_key e (map entry_of objs))) inv.entries);
        })
  unfolding forget
  forget_lem inv objs h =
      let kept = select (λ e. not (has_key e (map entry_of objs))) inv.entries in
      ground (
        arith,
        h,
        without_entries_lem inv.entries objs,
        select-all (λ e. not (has_key e (map entry_of objs))) inv.entries,
      )
