-- ===== src/Status/Conditions/Tests.antt =====
-- Conditions in an association list, and an object that stalls after a successful reconcile.
use opm_operator.Prelude.{String, refl, List, [], ◌∷◌}
use opm_operator.Prelude.Dicts.{string_eq, lookup, insert, delete, lookup-insert, lookup-delete}
use opm_operator.Status.Conditions.{Condition, is_true, Setter, IsSetter, marked}
use opm_operator.Status.Conditions.Consistent.{
  MarkCall, ready, stalled, drift_cleared, IsConsistent, call_marks, call_marks-IsConsistent,
}

abbrev pub Conditions : Type 0
Conditions = List (String × Condition)

abbrev pub listed : Setter Conditions
listed = record {
  get = lookup;
  mark = λ s k r m c. insert k (marked s k r m) c;
  remove = delete;
  reconciling =
      λ r m c. insert "Reconciling" (marked is_true "Reconciling" r m) (delete "Stalled" c);
  stalled = λ r m c. insert "Stalled" (marked is_true "Stalled" r m) (delete "Reconciling" c);
}

pub listed-IsSetter : IsSetter listed
listed-IsSetter = record {
  get-mark = λ s k r m j c. lookup-insert k j (marked s k r m) c;
  get-remove = λ k j c. lookup-delete k j c;
  get-reconciling = λ r m j c. rw (lookup-insert, lookup-delete);
  get-stalled = λ r m j c. rw (lookup-insert, lookup-delete);
}

nothing_marked : IsConsistent listed []
unfolding lookup
nothing_marked = record {
  one_state = refl;
  stalled_not_ready = λ z. cc;
  reconciling_not_ready = λ z. refl;
}

abbrev calls : List MarkCall
calls = ready "done" ∷ stalled "RenderFailed" "no such field" ∷ drift_cleared ∷ []

call_marks-IsConsistent_example : IsConsistent listed (call_marks listed calls [])
call_marks-IsConsistent_example =
    call_marks-IsConsistent listed listed-IsSetter calls [] nothing_marked
