-- ===== src/Reconcile/Ownership/Held.antt =====
-- What a reconcile may rest on after the guard.
use opm_operator.Prelude.{
  ℕ, String, ◌≡◌, ◌≢◌, All, ◌⊎◌, inl, inr, refl, ap, ◌∙◌, Bool, true, false, List, [], ◌∷◌, map,
  none, some, is_empty, length, select, mem-select, mem-select_of, Memᴰ, arith, Bool-cases,
}
use opm_operator.Prelude.Memᴰ
use opm_operator.Reconcile.Health.{InventoryEntry}
use opm_operator.Reconcile.Restore.{Rendered}
use opm_operator.Apply.Guard.{
  ApplyRules, LiveRead, GuardResult, GuardAnswer, sorted, no_identity, unread, guard, judged_as,
}
use opm_operator.Apply.Guard.Sorted.{
  allows, lets_go, refuses, takes_in, tells, IsFirstUnread, pin_of, judged_of, IsRight,
  guard-IsRight,
}
use opm_operator.Reconcile.Ownership.{
  GuardError, without_identity, unreadable, GuardedApply, unjudged, guarded_by, guard_apply,
  judged_objects,
}

module _ {L V : Type 0} (rules : ApplyRules L V) (inventory : List InventoryEntry)
    (identity : String) (get : Rendered → LiveRead L) (resources : List Rendered) (before : ℕ) where
  -- The guard reached a verdict on every object: each list is by the verdict on the object that was
  -- read, in its order, what is taken in is pinned, and what is let go is counted.
  pub record IsHeld (g : GuardedApply V) : Type 0 where
    pub judged : g.err ≡ none
    pub identified : (is_empty resources ≡ true) ⊎ (identity ≢ "")
    pub told : All (λ r. tells rules inventory identity get resources (get r) ≡ true) resources
    pub allowed : g.allowed ≡ select (allows rules inventory identity get resources) resources
    pub taken_in : g.taken_in ≡ select (takes_in rules inventory identity get resources) resources
    pub pins :
        g.pins
        ≡ map
            (pin_of rules inventory identity get resources)
            (select (takes_in rules inventory identity get resources) resources)
    pub let_go :
        g.let_go
        ≡ map
            (judged_of rules inventory identity get resources)
            (select (lets_go rules inventory identity get resources) resources)
    pub refused :
        g.refused
        ≡ map
            (judged_of rules inventory identity get resources)
            (select (refuses rules inventory identity get resources) resources)
    pub adopted : g.adopted ≡ length g.let_go
    pub each_allowed :
        (r : Rendered)
        → Memᴰ r g.allowed
        → Memᴰ r resources × (allows rules inventory identity get resources r ≡ true)
    pub taken_allowed : (r : Rendered) → Memᴰ r g.taken_in → Memᴰ r g.allowed
    pub complete :
        is_empty g.refused ≡ true
        → (r : Rendered) → Memᴰ r resources
        → Memᴰ r g.allowed ⊎ Memᴰ r (judged_objects g.let_go)

  -- What the error of a guard without a verdict says
  abbrev pub IsCause : GuardError → Type 0
  IsCause without_identity = (is_empty resources ≡ false) × (identity ≡ "")
  IsCause (unreadable obj err) =
      (identity ≢ "") × IsFirstUnread rules inventory identity get resources resources obj err

  -- The guard reached no verdict for the cause that its error says; nothing is taken in, let go or
  -- refused, and the count of adopted objects stays.
  pub record IsUnheld (g : GuardedApply V) : Type 0 where
    pub err : GuardError
    pub failed : g.err ≡ some err
    pub cause : IsCause err
    pub allowed : g.allowed ≡ resources
    pub taken_in : g.taken_in ≡ []
    pub pins : g.pins ≡ []
    pub let_go : g.let_go ≡ []
    pub refused : g.refused ≡ []
    pub adopted : g.adopted ≡ before

  mem_judged :
      (p : Rendered → Bool) (r : Rendered) (rs : List Rendered)
      → Memᴰ r rs
      → p r ≡ true
      → Memᴰ r
          (judged_objects (map (judged_of rules inventory identity get resources) (select p rs)))
  unfolding judged_objects judged_as
  mem_judged p r [] m t = elim m [ ]
  mem_judged p r (x ∷ rs) (Memᴰ.head e) t = elim (Bool-cases (p x)) [
    | inl y ↦ rw y (Memᴰ.head e)
    | inr n ↦ cc (ap p e)
  ]
  mem_judged p r (x ∷ rs) (Memᴰ.tail m) t = elim (Bool-cases (p x)) [
    | inl y ↦ rw y (Memᴰ.tail (mem_judged p r rs m t))
    | inr n ↦ rw n (mem_judged p r rs m t)
  ]

  refuses_none :
      (rs : List Rendered) (r : Rendered)
      → is_empty (
          map
            (judged_of rules inventory identity get resources)
            (select (refuses rules inventory identity get resources) rs))
        ≡ true
      → Memᴰ r rs
      → refuses rules inventory identity get resources r ≡ false
  refuses_none [] r h m = elim m [ ]
  refuses_none (x ∷ rs) r h m =
      elim (Bool-cases (refuses rules inventory identity get resources x)) [
        | inl y ↦ ground (arith, h, y)
        | inr n ↦ elim (Memᴰ.cases_cons m) [
          | inl e ↦ ap (refuses rules inventory identity get resources) e ∙ n
          | inr i ↦ refuses_none rs r (rw n at h) i
        ]
      ]

  held_of :
      (g : GuardResult V)
      → IsRight rules inventory identity get resources (sorted g)
      → IsHeld (record {
        err = none;
        allowed = g.allowed;
        taken_in = g.taken_in;
        pins = g.pins;
        let_go = g.let_go;
        refused = g.refused;
        adopted = length g.let_go;
      })
  held_of g (identified, told, s) = record {
    judged = refl;
    identified = identified;
    told = told;
    allowed = s.allowed;
    taken_in = s.taken_in;
    pins = s.pins;
    let_go = s.let_go;
    refused = s.refused;
    adopted = refl;
    each_allowed = λ r m.
        mem-select (allows rules inventory identity get resources) r resources (rw s.allowed at m);
    taken_allowed = λ r m.
        let (i, t) =
          mem-select (takes_in rules inventory identity get resources) r resources
            (rw s.taken_in at m) in
        rw s.allowed (
          mem-select_of (allows rules inventory identity get resources) r resources i
            (ground (arith, t)));
    complete = λ h r m. elim (Bool-cases (allows rules inventory identity get resources r)) [
      | inl y ↦ inl (
          rw s.allowed
            (mem-select_of (allows rules inventory identity get resources) r resources m y))
      | inr n ↦ inr (
          rw s.let_go (
            mem_judged (lets_go rules inventory identity get resources) r resources m
              (ground (arith, n, refuses_none resources r (rw s.refused at h) m))))
    ];
  }

  unheld : (err : GuardError) → IsCause err → IsUnheld (unjudged (some err) resources before)
  unfolding unjudged
  unheld err cause = record {
    err = err;
    failed = refl;
    cause = cause;
    allowed = refl;
    taken_in = refl;
    pins = refl;
    let_go = refl;
    refused = refl;
    adopted = refl;
  }

  by_answer :
      (a : GuardAnswer V)
      → IsRight rules inventory identity get resources a
      → IsHeld (guarded_by a resources before) ⊎ IsUnheld (guarded_by a resources before)
  unfolding guarded_by
  by_answer (sorted g) s = inl (held_of g s)
  by_answer no_identity s = inr (unheld without_identity s)
  by_answer (unread obj err) s = inr (unheld (unreadable obj err) s)

  -- With a client that applies, the guard either reached a verdict on every object, with an identity
  -- and reads that tell whether each object exists, and then each list is what the verdicts select,
  -- with the pins of what is taken in, and unless an object is refused each is allowed or let go;
  -- or it reached none, for want of an identity or of a read, and then nothing is taken in, pinned,
  -- let go or refused, and the count of adopted objects is the one before.
  pub guard_apply-IsHeld :
      IsHeld (guard_apply rules false get resources inventory identity before)
      ⊎ IsUnheld (guard_apply rules false get resources inventory identity before)
  unfolding guard_apply
  guard_apply-IsHeld =
      by_answer (guard rules inventory identity get resources)
        (guard-IsRight rules inventory identity get resources)
