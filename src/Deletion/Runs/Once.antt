-- ===== src/Deletion/Runs/Once.antt =====
-- No entry is deleted by two plans.
use opm_operator.Prelude.{
  String, ◌≡◌, ◌≢◌, ◌⊎◌, inl, inr, refl, sym, ap, ◌∙◌, Bool, true, false, List, [], ◌∷◌, is_empty,
  Bool-cases, arith, Memᴰ,
}
use opm_operator.Prelude.Memᴰ
use opm_operator.Reconcile.Health.{InventoryEntry}
use opm_operator.Deletion.Runs.{
  StepOutcome, deleted, absent, failed, not_named, skipped, depends_on_identity, StepResult,
  DeletionRun, left_for_next, run_rest, run_deletion,
}

module _ (owner_mismatch adopted_elsewhere : String → Bool) where
  abbrev depends : StepOutcome → Bool
  depends = depends_on_identity owner_mismatch adopted_elsewhere

  -- A step settles its entry unless it skipped it as another instance's or as adopted by another.
  abbrev pub IsSettled : StepOutcome → Type 0
  IsSettled deleted = Unit
  IsSettled absent = Unit
  IsSettled failed = Unit
  IsSettled not_named = Unit
  IsSettled (skipped reason) = (owner_mismatch reason ≡ false) × (adopted_elsewhere reason ≡ false)

  settled-free : (o : StepOutcome) → IsSettled o → depends o ≡ false
  unfolding depends_on_identity
  settled-free deleted h = refl
  settled-free absent h = refl
  settled-free failed h = refl
  settled-free not_named h = refl
  settled-free (skipped reason) h = ground (arith, h)

  -- An entry that a run settled stands in no later run.
  abbrev pub AreApart : List DeletionRun → Type 0
  AreApart [] = Unit
  AreApart (r ∷ rs) =
      ((s : StepResult) (later : DeletionRun) (t : StepResult)
        → Memᴰ s r.steps
        → IsSettled s.outcome
        → Memᴰ later rs
        → Memᴰ t later.steps
        → t.entry ≢ s.entry)
      × AreApart rs

  left_for_next_lem :
      (ss : List StepResult) (e : InventoryEntry)
      → Memᴰ e (left_for_next owner_mismatch adopted_elsewhere ss)
      → (s : StepResult) × Memᴰ s ss × (depends s.outcome ≡ true) × (s.entry ≡ e)
  unfolding left_for_next
  left_for_next_lem [] e m = elim m [ ]
  left_for_next_lem (s ∷ ss) e m = elim (Bool-cases (depends s.outcome)) [
    | inl d ↦ elim (Memᴰ.cases_cons (rw d at m)) [
      | inl p ↦ (s, Memᴰ.head refl, d, sym p)
      | inr k ↦ let (t, i, h, q) = left_for_next_lem ss e k in (t, Memᴰ.tail i, h, q)
    ]
    | inr d ↦ let (t, i, h, q) = left_for_next_lem ss e (rw d at m) in (t, Memᴰ.tail i, h, q)
  ]

module _ (owner_mismatch adopted_elsewhere : String → Bool)
    (run : List InventoryEntry → String → DeletionRun) where
  -- A plan has a step for its entries only, and one for each.
  pub record IsPlanned : Type 0 where
    pub within :
        (es : List InventoryEntry) (i : String) (s : StepResult)
        → Memᴰ s (run es i).steps
        → Memᴰ s.entry es
    pub single :
        (es : List InventoryEntry) (i : String) (s t : StepResult)
        → Memᴰ s (run es i).steps
        → Memᴰ t (run es i).steps
        → s.entry ≡ t.entry
        → s ≡ t

  module _ (planned : IsPlanned) where
    run_rest-cases :
        (i : String) (ids : List String) (es : List InventoryEntry) (r : DeletionRun)
        → Memᴰ r (run_rest owner_mismatch adopted_elsewhere run (i ∷ ids) es)
        → (r ≡ run es i)
          ⊎ Memᴰ r (
              run_rest owner_mismatch adopted_elsewhere run ids
                (left_for_next owner_mismatch adopted_elsewhere (run es i).steps))
    unfolding run_rest
    run_rest-cases i ids es r m = elim (Bool-cases (is_empty es)) [
      | inl e ↦ elim (rw e at m) [ ]
      | inr e ↦ elim (Bool-cases (run es i).refused) [
        | inl f ↦
            let one : run_rest owner_mismatch adopted_elsewhere run (i ∷ ids) es ≡ run es i ∷ [] =
              ground (arith, e, f) in
            inl (Memᴰ.eq_of_singleton (rw one at m))
        | inr f ↦
            let more : run_rest owner_mismatch adopted_elsewhere run (i ∷ ids) es
                ≡ run es i
                  ∷ run_rest owner_mismatch adopted_elsewhere run ids
                      (left_for_next owner_mismatch adopted_elsewhere (run es i).steps) =
              ground (arith, e, f) in
            Memᴰ.cases_cons (rw more at m)
      ]
    ]

    run_deletion-cases :
        (i : String) (ids : List String) (es : List InventoryEntry) (r : DeletionRun)
        → Memᴰ r (run_deletion owner_mismatch adopted_elsewhere run es (i ∷ ids))
        → (r ≡ run es i)
          ⊎ Memᴰ r (
              run_rest owner_mismatch adopted_elsewhere run ids
                (left_for_next owner_mismatch adopted_elsewhere (run es i).steps))
    unfolding run_deletion
    run_deletion-cases i ids es r m = elim (Bool-cases (run es i).refused) [
      | inl f ↦
          let one : run_deletion owner_mismatch adopted_elsewhere run es (i ∷ ids) ≡ run es i ∷ [] =
            ground (arith, f) in
          inl (Memᴰ.eq_of_singleton (rw one at m))
      | inr f ↦
          let more : run_deletion owner_mismatch adopted_elsewhere run es (i ∷ ids)
              ≡ run es i
                ∷ run_rest owner_mismatch adopted_elsewhere run ids
                    (left_for_next owner_mismatch adopted_elsewhere (run es i).steps) =
            ground (arith, f) in
          Memᴰ.cases_cons (rw more at m)
    ]

    run_rest-within :
        (ids : List String) (es : List InventoryEntry) (r : DeletionRun) (s : StepResult)
        → Memᴰ r (run_rest owner_mismatch adopted_elsewhere run ids es)
        → Memᴰ s r.steps
        → Memᴰ s.entry es
    unfolding run_rest
    run_rest-within [] es r s m k = elim m [ ]
    run_rest-within (i ∷ ids) es r s m k = elim (run_rest-cases i ids es r m) [
      | inl e ↦ planned.within es i s (rw e at k)
      | inr l ↦
          let later =
            run_rest-within ids (left_for_next owner_mismatch adopted_elsewhere (run es i).steps) r
              s l k in
          let (u, n, h, q) =
            left_for_next_lem owner_mismatch adopted_elsewhere (run es i).steps s.entry later in
          rw (← q) (planned.within es i u n)
    ]

    -- A plan of a deletion has steps for its entries only.
    pub run_deletion-within :
        (es : List InventoryEntry) (ids : List String) (r : DeletionRun) (s : StepResult)
        → Memᴰ r (run_deletion owner_mismatch adopted_elsewhere run es ids)
        → Memᴰ s r.steps
        → Memᴰ s.entry es
    unfolding run_deletion
    run_deletion-within es [] r s m k = planned.within es "" s (rw (Memᴰ.eq_of_singleton m) at k)
    run_deletion-within es (i ∷ ids) r s m k = elim (run_deletion-cases i ids es r m) [
      | inl e ↦ planned.within es i s (rw e at k)
      | inr l ↦
          let later =
            run_rest-within ids (left_for_next owner_mismatch adopted_elsewhere (run es i).steps) r
              s l k in
          let (u, n, h, q) =
            left_for_next_lem owner_mismatch adopted_elsewhere (run es i).steps s.entry later in
          rw (← q) (planned.within es i u n)
    ]

    settled-apart :
        (ids : List String) (es : List InventoryEntry) (i : String) (s : StepResult)
        (later : DeletionRun) (t : StepResult)
        → Memᴰ s (run es i).steps
        → IsSettled owner_mismatch adopted_elsewhere s.outcome
        → Memᴰ later (
            run_rest owner_mismatch adopted_elsewhere run ids
              (left_for_next owner_mismatch adopted_elsewhere (run es i).steps))
        → Memᴰ t later.steps
        → t.entry ≢ s.entry
    settled-apart ids es i s later t m d l k e =
        let within =
          run_rest-within ids (left_for_next owner_mismatch adopted_elsewhere (run es i).steps)
            later t l k in
        let (u, n, h, q) =
          left_for_next_lem owner_mismatch adopted_elsewhere (run es i).steps t.entry within in
        let same = planned.single es i u s n m (q ∙ e) in
        ground (
          arith,
          h,
          settled-free owner_mismatch adopted_elsewhere s.outcome d,
          ap (λ x. depends owner_mismatch adopted_elsewhere x.outcome) same,
        )

    run_rest-AreApart :
        (ids : List String) (es : List InventoryEntry)
        → AreApart owner_mismatch adopted_elsewhere
            (run_rest owner_mismatch adopted_elsewhere run ids es)
    unfolding run_rest
    run_rest-AreApart [] es = tt
    run_rest-AreApart (i ∷ ids) es =
        let rest =
          run_rest-AreApart ids (left_for_next owner_mismatch adopted_elsewhere (run es i).steps) in
        elim (Bool-cases (is_empty es)) [
          | inl e ↦ rw e tt
          | inr e ↦ elim (Bool-cases (run es i).refused) [
            | inl f ↦ rw (e, f) ((λ s l t m d k. elim k [ ]), tt)
            | inr f ↦ rw (e, f) ((λ s l t m d. settled-apart ids es i s l t m d), rest)
          ]
        ]

    -- Where a plan has steps for its entries only and one for each, no entry is deleted by two plans:
    -- what a plan settles, by deleting it, finding it absent, failing on it, naming no action for it, or
    -- skipping it for another reason than that it is another instance's or adopted by another one,
    -- stands in no later plan.
    pub run_deletion-AreApart :
        (es : List InventoryEntry) (ids : List String)
        → AreApart owner_mismatch adopted_elsewhere
            (run_deletion owner_mismatch adopted_elsewhere run es ids)
    unfolding run_deletion
    run_deletion-AreApart es [] = (λ s l t m d k. elim k [ ], tt)
    run_deletion-AreApart es (i ∷ ids) =
        let rest =
          run_rest-AreApart ids (left_for_next owner_mismatch adopted_elsewhere (run es i).steps) in
        elim (Bool-cases (run es i).refused) [
          | inl f ↦ rw f ((λ s l t m d k. elim k [ ]), tt)
          | inr f ↦ rw f ((λ s l t m d. settled-apart ids es i s l t m d), rest)
        ]
