-- ===== src/Reconcile/Warnings/Transitions.antt =====
-- A change is reported exactly when the set of facts differs from the last one.
use opm_operator.Prelude.{
  String, ◌≡◌, ◌≢◌, ◌↔◌, inl, inr, refl, true, ◌&&◌, not, List, [], ◌∷◌, none, some, str_eq, eq_iff,
  is_empty, Option-cases, arith,
}
use opm_operator.Prelude.Texts.{contains}
use opm_operator.Prelude.Dicts.{lookup, string_eq, lookup-insert}
use opm_operator.Prelude.Sorting.{distinct_canonical}
use opm_operator.Reconcile.Warnings.{non_empty, distinct_sorted, equal, Seen, update}

equal_iff : (xs ys : List String) → (equal xs ys ≡ true) ↔ (xs ≡ ys)
unfolding equal
equal_iff [] [] = ground arith
equal_iff [] (y ∷ ys) = ground arith
equal_iff (x ∷ xs) [] = ground arith
equal_iff (x ∷ xs) (y ∷ ys) = ground (arith, eq_iff x y, equal_iff xs ys)

-- The set an object reported last, nothing being the empty set.
abbrev pub reported : String → Seen → List String
reported key seen = elim (lookup key seen) [ none ↦ [] | some facts ↦ facts ]

is_empty_iff : (xs : List String) → (is_empty xs ≡ true) ↔ (xs ≡ [])
is_empty_iff [] = ground arith
is_empty_iff (x ∷ xs) = ground arith

-- Update reports a change exactly when the object's set of facts, sorted and without repetitions,
-- differs from the one it reported last, and remembers the new one; other objects keep theirs.
pub update_lem :
    (key other : String) (facts : List String) (seen : Seen)
    → (((update key facts seen).1 ≡ true) ↔ (distinct_sorted facts ≢ reported key seen))
      × (reported key (update key facts seen).0 ≡ distinct_sorted facts)
      × (other ≢ key → reported other (update key facts seen).0 ≡ reported other seen)
unfolding update
update_lem key other facts seen =
    let current = distinct_sorted facts in
    elim (Option-cases (lookup key seen)) [
      | inl e ↦ (
        ground (arith, e, is_empty_iff current),
        ground (
          arith,
          e,
          lookup-insert key key [] seen,
          lookup-insert key other [] seen,
          eq_iff key key,
          eq_iff key other,
          lookup-insert key key current seen,
          lookup-insert key other current seen,
          is_empty_iff current,
        ),
        λ h. ground (
          arith,
          e,
          h,
          lookup-insert key key [] seen,
          lookup-insert key other [] seen,
          eq_iff key key,
          eq_iff key other,
          lookup-insert key key current seen,
          lookup-insert key other current seen,
        ),
      )
      | inr (previous, e) ↦
          let same = equal_iff previous current in
          (
            ground (arith, e, same, is_empty_iff current, is_empty_iff previous),
            ground (
              arith,
              e,
              same,
              lookup-insert key key [] seen,
              lookup-insert key other [] seen,
              eq_iff key key,
              eq_iff key other,
              lookup-insert key key current seen,
              lookup-insert key other current seen,
              is_empty_iff current,
            ),
            λ h. ground (
              arith,
              e,
              h,
              same,
              lookup-insert key key [] seen,
              lookup-insert key other [] seen,
              eq_iff key key,
              eq_iff key other,
              lookup-insert key key current seen,
              lookup-insert key other current seen,
            ),
          )
    ]

contains-non_empty :
    (b : String) (xs : List String)
    → contains (non_empty xs) b ≡ (contains xs b && not (str_eq b ""))
unfolding non_empty
contains-non_empty b [] = refl
contains-non_empty b (x ∷ xs) =
    ground (arith, contains-non_empty b xs, eq_iff x b, eq_iff x "", eq_iff b "")

-- Two lists with the same facts, in any order and with any repetitions, are one set.
pub distinct_sorted_canonical :
    (xs ys : List String)
    → ((b : String) → contains xs b ≡ contains ys b)
    → distinct_sorted xs ≡ distinct_sorted ys
unfolding distinct_sorted
distinct_sorted_canonical xs ys h =
    distinct_canonical (non_empty xs) (non_empty ys)
      (λ b. ground (arith, contains-non_empty b xs, contains-non_empty b ys, h b))
