-- ===== src/Status/Conditions/Consistent.antt =====
-- The conditions stay consistent under every Mark function, whatever the order of the calls.
use opm_operator.Prelude.{
  String, ◌≡◌, refl, List, [], ◌∷◌, Option, none, some, Bool, true, false, ◌&&◌, str_eq,
}
use opm_operator.Status.Conditions.{
  ConditionStatus, is_true, is_false, is_unknown, Condition, marked, Setter, IsSetter,
  mark_reconciling, mark_stalled, mark_ready_with_reason, mark_ready, mark_suspended,
  mark_managed_externally, mark_self_management_refused, mark_healthy, mark_not_ready,
  mark_reconcile_panic, mark_render_timed_out, mark_drifted, mark_drift_unknown, clear_drifted,
  mark_module_resolved,
}

-- The functions that mark an object.
pub data MarkCall : Type 0 where
  reconciling stalled ready_with_reason not_ready drift_unknown :
      (reason message : String) → MarkCall
  ready self_management_refused reconcile_panic render_timed_out drifted module_resolved :
      (message : String) → MarkCall
  healthy : ConditionStatus → (reason message : String) → MarkCall
  suspended managed_externally drift_cleared : MarkCall

abbrev holds : Option Condition → ConditionStatus → Bool
holds none s = false
holds (some c) s = elim c.status [
  | is_true ↦ elim s [ is_true ↦ true | _ ↦ false ]
  | is_false ↦ elim s [ is_false ↦ true | _ ↦ false ]
  | is_unknown ↦ elim s [ is_unknown ↦ true | _ ↦ false ]
]

module _ {C : Type 0} (set : Setter C) where
  -- Not both Reconciling and Stalled are true, a stalled object has Ready false, and an object that
  -- is reconciling has not Ready true.
  pub record IsConsistent (c : C) : Type 0 where
    pub one_state :
        (holds (set.get "Reconciling" c) is_true && holds (set.get "Stalled" c) is_true) ≡ false
    pub stalled_not_ready :
        holds (set.get "Stalled" c) is_true ≡ true → holds (set.get "Ready" c) is_false ≡ true
    pub reconciling_not_ready :
        holds (set.get "Reconciling" c) is_true ≡ true → holds (set.get "Ready" c) is_true ≡ false

  unfoldable pub call_mark : MarkCall → C → C
  unfolding mark_reconciling mark_stalled mark_ready_with_reason mark_not_ready mark_drift_unknown
      mark_ready mark_self_management_refused mark_reconcile_panic mark_render_timed_out
      mark_drifted mark_module_resolved mark_healthy mark_suspended mark_managed_externally
      clear_drifted
  call_mark (reconciling r m) c = mark_reconciling set r m c
  call_mark (stalled r m) c = mark_stalled set r m c
  call_mark (ready_with_reason r m) c = mark_ready_with_reason set r m c
  call_mark (not_ready r m) c = mark_not_ready set r m c
  call_mark (drift_unknown r m) c = mark_drift_unknown set r m c
  call_mark (ready m) c = mark_ready set m c
  call_mark (self_management_refused m) c = mark_self_management_refused set m c
  call_mark (reconcile_panic m) c = mark_reconcile_panic set m c
  call_mark (render_timed_out m) c = mark_render_timed_out set m c
  call_mark (drifted m) c = mark_drifted set m c
  call_mark (module_resolved m) c = mark_module_resolved set m c
  call_mark (healthy s r m) c = mark_healthy set s r m c
  call_mark suspended c = mark_suspended set c
  call_mark managed_externally c = mark_managed_externally set c
  call_mark drift_cleared c = clear_drifted set c

  -- The calls in their order.
  abbrev pub call_marks : List MarkCall → C → C
  call_marks [] c = c
  call_marks (m ∷ ms) c = call_marks ms (call_mark m c)

  module _ (laws : IsSetter set) where
    -- What the three conditions say of one object.
    record View (ready stalled reconciling : Option Condition) : Type 0 where
      one : (holds reconciling is_true && holds stalled is_true) ≡ false
      blocked : holds stalled is_true ≡ true → holds ready is_false ≡ true
      busy : holds reconciling is_true ≡ true → holds ready is_true ≡ false

    of_view :
        {r s t : Option Condition} (d : C)
        → set.get "Ready" d ≡ r
        → set.get "Stalled" d ≡ s
        → set.get "Reconciling" d ≡ t
        → View r s t
        → IsConsistent d
    of_view d p q e v = record {
      one_state = rw (q, e) v.one;
      stalled_not_ready = rw (p, q) v.blocked;
      reconciling_not_ready = rw (p, e) v.busy;
    }

    View-of_IsConsistent :
        (c : C)
        → IsConsistent c
        → View (set.get "Ready" c) (set.get "Stalled" c) (set.get "Reconciling" c)
    View-of_IsConsistent c h = record {
      one = h.one_state;
      blocked = h.stalled_not_ready;
      busy = h.reconciling_not_ready;
    }

    -- The shapes that the calls leave behind.
    abbrev ready_is : ConditionStatus → String → String → Option Condition
    ready_is s r m = some (marked s "Ready" r m)

    alone :
        (s : ConditionStatus) (r m : String) (d : C)
        → set.get "Ready" d ≡ ready_is s r m
        → set.get "Stalled" d ≡ none
        → set.get "Reconciling" d ≡ none
        → IsConsistent d
    alone s r m d p q e = of_view d p q e (record { one = refl; blocked = λ z. cc; busy = λ z. cc })

    blocked_by :
        (r m : String) (d : C)
        → set.get "Ready" d ≡ ready_is is_false r m
        → set.get "Stalled" d ≡ some (marked is_true "Stalled" r m)
        → set.get "Reconciling" d ≡ none
        → IsConsistent d
    blocked_by r m d p q e =
        of_view d p q e (record { one = refl; blocked = λ z. refl; busy = λ z. cc })

    busy_with :
        (s : ConditionStatus) (r m : String) (d : C)
        → holds (ready_is s r m) is_true ≡ false
        → set.get "Ready" d ≡ ready_is s r m
        → set.get "Stalled" d ≡ none
        → set.get "Reconciling" d ≡ some (marked is_true "Reconciling" r m)
        → IsConsistent d
    busy_with s r m d n p q e =
        of_view d p q e (record { one = refl; blocked = λ z. cc; busy = λ z. n })

    same_as :
        (c d : C)
        → set.get "Ready" d ≡ set.get "Ready" c
        → set.get "Stalled" d ≡ set.get "Stalled" c
        → set.get "Reconciling" d ≡ set.get "Reconciling" c
        → IsConsistent c
        → IsConsistent d
    same_as c d p q e h = of_view d p q e (View-of_IsConsistent c h)

    unready :
        (r m : String) (c d : C)
        → set.get "Ready" d ≡ ready_is is_false r m
        → set.get "Stalled" d ≡ set.get "Stalled" c
        → set.get "Reconciling" d ≡ set.get "Reconciling" c
        → IsConsistent c
        → IsConsistent d
    unready r m c d p q e h =
        of_view d p q e (record { one = h.one_state; blocked = λ z. refl; busy = λ z. refl })

    -- A condition of another kind does not matter.
    mark_aside :
        (s : ConditionStatus) (k r m : String) (c : C)
        → str_eq k "Ready" ≡ false
        → str_eq k "Stalled" ≡ false
        → str_eq k "Reconciling" ≡ false
        → IsConsistent c
        → IsConsistent (set.mark s k r m c)
    mark_aside s k r m c x y z h =
        same_as c _ (rw (laws.get-mark, x)) (rw (laws.get-mark, y)) (rw (laws.get-mark, z)) h

    remove_aside :
        (k : String) (c : C)
        → str_eq k "Ready" ≡ false
        → str_eq k "Stalled" ≡ false
        → str_eq k "Reconciling" ≡ false
        → IsConsistent c
        → IsConsistent (set.remove k c)
    remove_aside k c x y z h =
        same_as c _ (rw (laws.get-remove, x)) (rw (laws.get-remove, y)) (rw (laws.get-remove, z)) h

    -- Ready is marked on an object that is neither stalled nor reconciling.
    mark_idle :
        (s : ConditionStatus) (r m : String) (c : C)
        → set.get "Stalled" c ≡ none
        → set.get "Reconciling" c ≡ none
        → IsConsistent (set.mark s "Ready" r m c)
    mark_idle s r m c p q =
        alone s r m _ (rw laws.get-mark) (rw (laws.get-mark, p)) (rw (laws.get-mark, q))

    -- Ready, not true, is marked on an object that is marked as reconciling.
    mark_busy :
        (s : ConditionStatus) (r m : String) (c : C)
        → holds (ready_is s r m) is_true ≡ false
        → IsConsistent (set.mark s "Ready" r m (set.reconciling r m c))
    mark_busy s r m c n =
        busy_with s r m _ n (rw laws.get-mark) (rw (laws.get-mark, laws.get-reconciling))
          (rw (laws.get-mark, laws.get-reconciling))

    mark_blocked :
        (r m : String) (c : C) → IsConsistent (set.mark is_false "Ready" r m (set.stalled r m c))
    mark_blocked r m c =
        blocked_by r m _ (rw laws.get-mark) (rw (laws.get-mark, laws.get-stalled))
          (rw (laws.get-mark, laws.get-stalled))

    call_mark-IsConsistent : (m : MarkCall) (c : C) → IsConsistent c → IsConsistent (call_mark m c)
    unfolding call_mark
    call_mark-IsConsistent (reconciling r m) c h = mark_busy is_unknown r m c refl
    call_mark-IsConsistent (stalled r m) c h = mark_blocked r m c
    call_mark-IsConsistent (ready_with_reason r m) c h =
        mark_idle is_true r m _ (rw laws.get-remove) (rw (laws.get-remove, laws.get-remove))
    call_mark-IsConsistent (not_ready r m) c h =
        unready r m c _ (rw laws.get-mark) (rw laws.get-mark) (rw laws.get-mark) h
    call_mark-IsConsistent (drift_unknown r m) c h = mark_aside _ _ r m c refl refl refl h
    call_mark-IsConsistent (ready m) c h =
        mark_idle is_true _ m _ (rw laws.get-remove) (rw (laws.get-remove, laws.get-remove))
    call_mark-IsConsistent (self_management_refused m) c h = mark_blocked _ m _
    call_mark-IsConsistent (reconcile_panic m) c h = mark_busy is_false _ m c refl
    call_mark-IsConsistent (render_timed_out m) c h = mark_busy is_false _ m c refl
    call_mark-IsConsistent (drifted m) c h = mark_aside _ _ _ m c refl refl refl h
    call_mark-IsConsistent (module_resolved m) c h = mark_aside _ _ _ m c refl refl refl h
    call_mark-IsConsistent (healthy s r m) c h = mark_aside s _ r m c refl refl refl h
    call_mark-IsConsistent suspended c h =
        mark_idle is_false _ _ _ (rw laws.get-remove) (rw (laws.get-remove, laws.get-remove))
    call_mark-IsConsistent managed_externally c h =
        mark_idle is_unknown _ _ _ (rw (laws.get-remove, laws.get-remove))
          (rw (laws.get-remove, laws.get-remove, laws.get-remove))
    call_mark-IsConsistent drift_cleared c h = remove_aside _ c refl refl refl h

    -- Whatever Mark functions are called, and in whatever order, consistent conditions stay
    -- consistent: Reconciling and Stalled are not both true, a stalled object has Ready false, and
    -- one that is reconciling has not Ready true.
    pub call_marks-IsConsistent :
        (ms : List MarkCall) (c : C) → IsConsistent c → IsConsistent (call_marks ms c)
    call_marks-IsConsistent [] c h = h
    call_marks-IsConsistent (m ∷ ms) c h =
        call_marks-IsConsistent ms _ (call_mark-IsConsistent m c h)
