-- ===== src/Shrink/Demanded.antt =====
-- A refusal names exactly the contracts that a claim takes away and an instance still demands.
use opm_operator.Prelude.{
  String, ◌≡◌, refl, Bool, true, false, ◌&&◌, ◌||◌, not, List, [], ◌∷◌, ◌++◌ as append, ◌∙◌, Option,
  some, eq_iff, is_empty, if◌then◌else◌, arith, Bool-cases, inl, inr,
}
use opm_operator.Prelude.Texts.{contains, contains-append}
use Prim.Native.String.{◌++◌}
use opm_operator.Prelude.Sorting.{
  sort, compact, distinct, contains-distinct, IsStrict, distinct-IsStrict, is_empty-sort,
}
use opm_operator.Reconcile.Restore.{Rendered}
use opm_operator.Shrink.{
  Decision, refused, no_decision, is_claim, Demand, removed_contracts, demanded_by, demand_loop,
  evaluate, StoredClaim, stored, compare_stored, decide,
}

-- Whether some instance demands the contract.
abbrev pub demands : List Demand → String → Bool
demands [] fqn = false
demands (i ∷ instances) fqn = contains i.required fqn || demands instances fqn

contains-removed :
    (fqn : String) (s r : List String)
    → contains (removed_contracts s r) fqn ≡ (contains s fqn && not (contains r fqn))
unfolding removed_contracts
contains-removed fqn [] r = refl
contains-removed fqn (x ∷ s) r = ground (arith, contains-removed fqn s r, eq_iff x fqn)

contains-demanded_by :
    (fqn : String) (removed required : List String)
    → contains (demanded_by removed required) fqn ≡ (contains required fqn && contains removed fqn)
unfolding demanded_by
contains-demanded_by fqn removed [] = refl
contains-demanded_by fqn removed (x ∷ required) =
    ground (arith, contains-demanded_by fqn removed required, eq_iff x fqn)

contains-demand_loop :
    (fqn : String) (removed : List String) (instances : List Demand)
    → contains (demand_loop removed instances).0 fqn
      ≡ (demands instances fqn && contains removed fqn)
unfolding demand_loop
contains-demand_loop fqn removed [] = refl
contains-demand_loop fqn removed (i ∷ instances) = ground (
  arith,
  contains-append fqn (demanded_by removed i.required) (demand_loop removed instances).0,
  contains-demanded_by fqn removed i.required,
  contains-demand_loop fqn removed instances,
)

nothing_in : (fqn : String) (xs : List String) → is_empty xs ≡ true → contains xs fqn ≡ false
nothing_in fqn [] h = refl
nothing_in fqn (x ∷ xs) h = cc

-- Both lists of the outer loop are empty together.
demand_loop-empty :
    (removed : List String) (instances : List Demand)
    → is_empty (demand_loop removed instances).1 ≡ is_empty (demand_loop removed instances).0
unfolding demand_loop
demand_loop-empty removed [] = refl
demand_loop-empty removed (i ∷ instances) =
    with_own (demanded_by removed i.required) (demand_loop-empty removed instances)
  where
    with_own :
        (own : List String)
        → is_empty (demand_loop removed instances).1 ≡ is_empty (demand_loop removed instances).0
        → is_empty (
            if is_empty own
            then (demand_loop removed instances).1
            else (i.namespace ++ ("/" ++ i.name)) ∷ (demand_loop removed instances).1)
          ≡ is_empty (append own (demand_loop removed instances).0)
    with_own [] h = h
    with_own (x ∷ own) h = refl

-- What a decision on a stored claim says: `provides` is what the stored claim provides, `rendered`
-- what the rendered one does.
pub record IsVerdict (provides rendered : List String) (instances : List Demand) (d : Decision)
    : Type 0 where
  pub dropped :
      (fqn : String)
      → contains d.dropped fqn
        ≡ (contains provides fqn && not (contains rendered fqn) && demands instances fqn)
  pub ordered : IsStrict d.dropped
  pub dependents : is_empty d.dependents ≡ not (refused d)

is_empty-compact : (xs : List String) → is_empty (compact xs) ≡ is_empty xs
unfolding compact
is_empty-compact [] = refl
is_empty-compact (x ∷ []) = refl
is_empty-compact (x ∷ y ∷ l) = ground (arith, is_empty-compact (y ∷ l))

is_empty-distinct : (xs : List String) → is_empty (distinct xs) ≡ is_empty xs
unfolding distinct
is_empty-distinct xs = is_empty-compact (sort xs) ∙ is_empty-sort xs

no_decision-IsVerdict :
    (provides rendered : List String) (instances : List Demand)
    → ((fqn : String)
        → (contains provides fqn && not (contains rendered fqn) && demands instances fqn) ≡ false)
    → IsVerdict provides rendered instances no_decision
unfolding refused
no_decision-IsVerdict provides rendered instances h = record {
  dropped = λ fqn. rw (h fqn);
  ordered = tt;
  dependents = refl;
}

evaluate-IsVerdict :
    (claim : String) (provides rendered : List String) (instances : List Demand)
    → IsVerdict provides rendered instances
        (evaluate claim (removed_contracts provides rendered) instances)
unfolding evaluate refused
evaluate-IsVerdict claim provides rendered instances =
    let removed = removed_contracts provides rendered in
    let demanded = (demand_loop removed instances).0 in
    elim (Bool-cases (is_empty demanded)) [
      | inl t ↦ rw t (
          no_decision-IsVerdict provides rendered instances (λ fqn. ground (
            arith,
            nothing_in fqn demanded t,
            contains-demand_loop fqn removed instances,
            contains-removed fqn provides rendered,
          )))
      | inr f ↦ rw f (record {
        dropped = λ fqn. ground (
          arith,
          contains-distinct fqn demanded,
          contains-demand_loop fqn removed instances,
          contains-removed fqn provides rendered,
        );
        ordered = distinct-IsStrict demanded;
        dependents = ground (
          arith,
          is_empty-sort (demand_loop removed instances).1,
          demand_loop-empty removed instances,
          is_empty-distinct demanded,
        );
      })
    ]

module _ (read_stored : String → StoredClaim) (instances : Option (List Demand)) where
  -- For a rendered claim whose provides can be read and that the cluster stores, where the
  -- instances are listed, the decision names exactly the contracts the stored claim provides, the
  -- rendered one does not, and some instance demands, each once and in order; it names a dependent
  -- instance exactly when it refuses.
  pub decide-IsVerdict :
      (r : Rendered) (rendered provides : List String) (list : List Demand)
      → is_claim r ≡ true
      → r.provides ≡ some rendered
      → read_stored r.name ≡ stored provides
      → instances ≡ some list
      → (d : Decision) × (decide read_stored instances r ≡ some d)
        × IsVerdict provides rendered list d
  unfolding decide compare_stored
  decide-IsVerdict r rendered provides list c p s i =
      let removed = removed_contracts provides rendered in
      elim (Bool-cases (is_empty removed)) [
        | inl t ↦ (
          no_decision,
          ground (arith, c, p, s, t),
          no_decision-IsVerdict provides rendered list (λ fqn.
              ground (arith, nothing_in fqn removed t, contains-removed fqn provides rendered)),
        )
        | inr f ↦ (
          evaluate r.name removed list,
          ground (arith, c, p, s, f, i),
          evaluate-IsVerdict r.name provides rendered list,
        )
      ]
