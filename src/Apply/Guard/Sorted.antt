-- ===== src/Apply/Guard/Sorted.antt =====
-- What the guard's one pass gives: each list of the result by its own description, or the object
-- that could not be read.
use opm_operator.Prelude.{
  String, ◌≡◌, ◌≢◌, All, ◌⊎◌, inl, inr, refl, Bool, true, false, ◌&&◌, not, List, [], ◌∷◌, map,
  Option, none, some, str_eq, eq_iff, is_empty, select, arith, Bool-cases,
}
use opm_operator.Reconcile.Health.{InventoryEntry}
use opm_operator.Reconcile.Restore.{Rendered}
use opm_operator.Apply.Objects.{ObjectKey, object_of, ReadError, pending_crd_kind}
use opm_operator.Apply.Guard.{
  ApplyRules, LiveRead, live, not_found, read_failed, Judged, Pin, GuardResult, GuardAnswer, sorted,
  no_identity, unread, nothing_judged, inventoried, verdict_on, judged_as, sort_in, read_object,
  guard_loop, guard,
}

empty_list : {A : Type 0} (xs : List A) → is_empty xs ≡ true → xs ≡ []
empty_list [] h = refl
empty_list (x ∷ xs) h = cc

module _ {L V : Type 0} (rules : ApplyRules L V) (inventory : List InventoryEntry)
    (identity : String) (get : Rendered → LiveRead L) (resources : List Rendered) where
  abbrev found : LiveRead L → Option L
  found (live l) = some l
  found not_found = none
  found (read_failed err) = none

  -- What the API server answers tells whether the object exists: it is there, it is not, or its kind
  -- is one that the resources themselves define, and is not served yet.
  abbrev pub tells : LiveRead L → Bool
  tells (live l) = true
  tells not_found = true
  tells (read_failed err) = pending_crd_kind err resources

  abbrev pub found_of : Rendered → Option L
  found_of r = found (get r)

  -- The verdict allows the object that was read.
  abbrev pub allows : Rendered → Bool
  allows r = rules.allowed (verdict_on rules inventory identity r (found_of r))

  -- The verdict refuses it because another instance adopted it.
  abbrev pub lets_go : Rendered → Bool
  lets_go r =
      not (allows r) && rules.adopted_elsewhere (verdict_on rules inventory identity r (found_of r))

  -- The verdict refuses it for another reason.
  abbrev pub refuses : Rendered → Bool
  refuses r =
      not (allows r)
      && not (rules.adopted_elsewhere (verdict_on rules inventory identity r (found_of r)))

  abbrev exists : Option L → Bool
  exists none = false
  exists (some l) = true

  -- The verdict allows it, it exists, and the inventory does not have it.
  abbrev pub takes_in : Rendered → Bool
  takes_in r = allows r && exists (found_of r) && not (inventoried (object_of r) inventory)

  abbrev pub judged_of : Rendered → Judged V
  judged_of r = judged_as rules inventory identity r (found_of r)

  abbrev uid_found : Option L → String
  uid_found none = ""
  uid_found (some l) = rules.uid_of l

  abbrev pub pin_of : Rendered → Pin
  pin_of r = record { object = object_of r; uid = uid_found (found_of r) }

  -- Each list of a result is what its verdict selects from the objects `rs`, in their order.
  pub record IsSortedBy (rs : List Rendered) (g : GuardResult V) : Type 0 where
    pub allowed : g.allowed ≡ select allows rs
    pub taken_in : g.taken_in ≡ select takes_in rs
    pub pins : g.pins ≡ map pin_of (select takes_in rs)
    pub let_go : g.let_go ≡ map judged_of (select lets_go rs)
    pub refused : g.refused ≡ map judged_of (select refuses rs)

  -- The object could not be read, and it is not of a kind that the resources define.
  pub record IsUnread (r : Rendered) (err : ReadError) : Type 0 where
    pub failed : get r ≡ read_failed err
    pub not_pending : pending_crd_kind err resources ≡ false

  -- The first object of `rs` whose read does not tell: each one before it does.
  abbrev pub IsFirstUnread : List Rendered → ObjectKey → ReadError → Type 0
  IsFirstUnread [] obj err = ⊥
  IsFirstUnread (r ∷ rs) obj err =
      ((obj ≡ object_of r) × IsUnread r err) ⊎ ((tells (get r) ≡ true) × IsFirstUnread rs obj err)

  abbrev Outcome : List Rendered → GuardAnswer V → Type 0
  Outcome rs (sorted g) = All (λ r. tells (get r) ≡ true) rs × IsSortedBy rs g
  Outcome rs no_identity = ⊥
  Outcome rs (unread obj err) = IsFirstUnread rs obj err

  sort_in-IsSortedBy :
      (r : Rendered) (rs : List Rendered) (g : GuardResult V) (o : Option L)
      → found_of r ≡ o
      → IsSortedBy rs g
      → IsSortedBy (r ∷ rs) (sort_in rules inventory identity r o g)
  unfolding sort_in
  sort_in-IsSortedBy r rs g none e s = record {
    allowed = ground (arith, e, s.allowed);
    taken_in = ground (arith, e, s.taken_in);
    pins = ground (arith, e, s.pins);
    let_go = ground (arith, e, s.let_go);
    refused = ground (arith, e, s.refused);
  }
  sort_in-IsSortedBy r rs g (some l) e s = record {
    allowed = ground (arith, e, s.allowed);
    taken_in = ground (arith, e, s.taken_in);
    pins = ground (arith, e, s.pins);
    let_go = ground (arith, e, s.let_go);
    refused = ground (arith, e, s.refused);
  }

  read_cases :
      (a : LiveRead L)
      → (a ≡ not_found) ⊎ (((l : L) × (a ≡ live l)) ⊎ ((err : ReadError) × (a ≡ read_failed err)))
  read_cases not_found = inl refl
  read_cases (live l) = inr (inl (l, refl))
  read_cases (read_failed err) = inr (inr (err, refl))

  read_object-found :
      (r : Rendered) (o : Option L)
      → read_object rules inventory identity get resources r ≡ inr o
      → (found_of r ≡ o) × (tells (get r) ≡ true)
  unfolding read_object
  read_object-found r o h = elim (read_cases (get r)) [
    | inl e ↦ ground (arith, e, h)
    | inr (inl (l, e)) ↦ ground (arith, e, h)
    | inr (inr (err, e)) ↦ elim (Bool-cases (pending_crd_kind err resources)) [
      | inl t ↦ ground (arith, e, h, t)
      | inr n ↦ ground (arith, e, h, n)
    ]
  ]

  read_object-lem :
      (r : Rendered) (f : GuardAnswer V)
      → read_object rules inventory identity get resources r ≡ inl f
      → (err : ReadError) × (f ≡ unread (object_of r) err) × IsUnread r err
  unfolding read_object
  read_object-lem r f h = elim (read_cases (get r)) [
    | inl e ↦ ground (arith, e, h)
    | inr (inl (l, e)) ↦ ground (arith, e, h)
    | inr (inr (err, e)) ↦ elim (Bool-cases (pending_crd_kind err resources)) [
      | inl t ↦ ground (arith, e, h, t)
      | inr n ↦ (err, ground (arith, e, h, n), record { failed = e; not_pending = n })
    ]
  ]

  abbrev loop : List Rendered → GuardAnswer V
  loop = guard_loop rules inventory identity get resources

  on_rest :
      (r : Rendered) (rs : List Rendered) (o : Option L) (rest : GuardAnswer V)
      → read_object rules inventory identity get resources r ≡ inr o
      → loop rs ≡ rest
      → Outcome rs rest
      → Outcome (r ∷ rs) (loop (r ∷ rs))
  unfolding guard_loop
  on_rest r rs o (sorted g) e q s =
      let here : loop (r ∷ rs) ≡ sorted (sort_in rules inventory identity r o g) =
        ground (arith, e, q) in
      let (same, told) = read_object-found r o e in
      rw here ((told, s.0), sort_in-IsSortedBy r rs g o same s.1)
  on_rest r rs o no_identity e q s = absurd s
  on_rest r rs o (unread obj err) e q s =
      let here : loop (r ∷ rs) ≡ unread obj err = ground (arith, e, q) in
      rw here (inr ((read_object-found r o e).1, s))

  sum_cases :
      (a : GuardAnswer V ⊎ Option L)
      → ((f : GuardAnswer V) × (a ≡ inl f)) ⊎ ((o : Option L) × (a ≡ inr o))
  sum_cases (inl f) = inl (f, refl)
  sum_cases (inr o) = inr (o, refl)

  guard_loop_lem : (rs : List Rendered) → Outcome rs (loop rs)
  unfolding guard_loop
  guard_loop_lem [] =
      (tt, record { allowed = refl; taken_in = refl; pins = refl; let_go = refl; refused = refl })
  guard_loop_lem (r ∷ rs) =
      elim (sum_cases (read_object rules inventory identity get resources r)) [
        | inl (f, e) ↦
            let (err, p, u) = read_object-lem r f e in
            let stops : loop (r ∷ rs) ≡ unread (object_of r) err = ground (arith, e, p) in
            rw stops (inl (refl, u))
        | inr (o, e) ↦ on_rest r rs o (loop rs) e refl (guard_loop_lem rs)
      ]

  abbrev pub IsRight : GuardAnswer V → Type 0
  IsRight (sorted g) =
      ((is_empty resources ≡ true) ⊎ (identity ≢ ""))
      × All (λ r. tells (get r) ≡ true) resources
      × IsSortedBy resources g
  IsRight no_identity = (is_empty resources ≡ false) × (identity ≡ "")
  IsRight (unread obj err) = (identity ≢ "") × IsFirstUnread resources obj err

  -- The guard sorts the objects only when it has an identity or no object, and the read of every
  -- object tells whether it exists: each list is then by the verdict on the object that was read, in
  -- its order, with a pin for each object it takes in. It says that it has no identity only with
  -- objects and an empty identity. It names an object only with an identity, and then it is the first
  -- whose read failed with an error that does not say that the resources define its kind.
  pub guard-IsRight : IsRight (guard rules inventory identity get resources)
  unfolding guard
  guard-IsRight = elim (Bool-cases (is_empty resources)) [
    | inl t ↦ rw t (nothing t)
    | inr f ↦ elim (Bool-cases (str_eq identity "")) [
      | inl n ↦ rw f (rw n (f, (eq_iff identity "").0 n))
      | inr n ↦ rw f (rw n (from_loop (not_empty n) (loop resources) (guard_loop_lem resources)))
    ]
  ]
    where
      nothing : is_empty resources ≡ true → IsRight (sorted nothing_judged)
      nothing t =
          let e : resources ≡ [] = empty_list resources t in
          rw e (
            inl refl,
            tt,
            record { allowed = refl; taken_in = refl; pins = refl; let_go = refl; refused = refl },
          )

      not_empty : str_eq identity "" ≡ false → identity ≢ ""
      not_empty n e = ground (arith, n, (eq_iff identity "").1 e)

      from_loop : identity ≢ "" → (a : GuardAnswer V) → Outcome resources a → IsRight a
      from_loop given (sorted g) s = (inr given, s.0, s.1)
      from_loop given no_identity s = absurd s
      from_loop given (unread obj err) s = (given, s)
