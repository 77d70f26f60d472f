-- ===== src/Platform/Store/Leases.antt =====
-- Every schedule of the store's methods keeps the lease counts equal to the leases held.
use opm_operator.Prelude.{
  ℕ, suc, ◌+◌, ◌-◌, ◌<◌, String, ◌≡◌, ◌≢◌, ◌↔◌, true, false, none, some, List, [], ◌∷◌, ◌++◌, map,
  Memᴰ, arith, if◌then◌else◌,
}
use opm_operator.Prelude.Dicts.{lookup, insert, lookup-insert, lookup-delete, lookup-nil, mem-keys}
use opm_operator.Prelude.SortBy.{mem-sort_by}
use opm_operator.Platform.Identity.{
  PackageIdentity, identity_key, identity_eq, identity_eq_iff, identity_string,
}
use opm_operator.Platform.Store.{
  Generated, Store, Handle, new_store, set_generated, count_of, lease, release, leased, clear,
}

-- The leases of an identity that were handed out and not given back.
abbrev pub held : PackageIdentity → List Handle → ℕ
held id [] = 0
held id (h ∷ hs) =
    let rest = held id hs in
    if h.fired then rest else if identity_eq h.id id then suc rest else rest

held-append :
    (id : PackageIdentity) (xs ys : List Handle) → held id (xs ++ ys) ≡ held id xs + held id ys
held-append id [] ys = omega arith
held-append id (h ∷ xs) ys = ground (arith, held-append id xs ys)

held-middle :
    (id : PackageIdentity) (xs : List Handle) (h : Handle) (ys : List Handle)
    → held id (xs ++ h ∷ ys) ≡ held id xs + held id (h ∷ ys)
held-middle id xs h ys = held-append id xs (h ∷ ys)

held-released :
    (id : PackageIdentity) (h : Handle) (xs ys : List Handle)
    → held id (xs ++ record h { fired = true } ∷ ys)
      ≡ held id (xs ++ h ∷ ys) - (if h.fired then 0 else if identity_eq h.id id then 1 else 0)
held-released id h xs ys =
    ground (arith, held-middle id xs h ys, held-middle id xs (record h { fired = true }) ys)

count-pos :
    (m : List (PackageIdentity × ℕ)) (id : PackageIdentity)
    → lookup id m ≢ some 0
    → (lookup id m ≢ none) ↔ (0 < count_of id m)
count-pos m id p = ground arith

-- The store beside every release function handed out, the latest first.
pub record World (P : Type 0) : Type 0 where
  pub store : Store P
  pub handles : List Handle

module _ {P : Type 0} where
  -- One call of a method, by any goroutine. A release function may be called more than once.
  pub data Step (w : World P) : World P → Type 0 where
    generates : (g : Generated P) → Step w (record w { store = set_generated g w.store })
    clears : Step w (record w { store = clear w.store })
    leases :
        (rec : Generated P) (h : Handle) (s : Store P)
        → lease w.store ≡ (s, some (rec, h))
        → Step w (record { store = s; handles = h ∷ w.handles })
    releases :
        (before : List Handle) (h : Handle) (after : List Handle)
        → w.handles ≡ before ++ h ∷ after
        → Step w (record {
          store = (release h w.store).1;
          handles = before ++ (release h w.store).0 ∷ after;
        })

  pub data Reach : World P → Type 0 where
    start : Reach (record { store = new_store; handles = [] })
    next : {v w : World P} → Reach v → Step v w → Reach w

  -- The map holds exactly the counts of the leases held, and no zero entry.
  pub record Inv (w : World P) : Type 0 where
    pub counts : (id : PackageIdentity) → count_of id w.store.leases ≡ held id w.handles
    pub positive : (id : PackageIdentity) → lookup id w.store.leases ≢ some 0

  lease_lem :
      (s : Store P) (t : Store P) (rec : Generated P) (h : Handle)
      → lease s ≡ (t, some (rec, h))
      → (t.leases ≡ insert rec.identity (count_of rec.identity s.leases + 1) s.leases)
        × (h.id ≡ rec.identity)
        × (h.fired ≡ false)
        × (s.generated ≡ some rec)
  unfolding lease
  lease_lem s t rec h e = ground arith

  release_fired : (h : Handle) (s : Store P) → (release h s).0 ≡ record h { fired = true }
  unfolding release
  release_fired h s = ground arith

  pub count-release :
      (h : Handle) (s : Store P) (id : PackageIdentity)
      → count_of id (release h s).1.leases
        ≡ count_of id s.leases - (if h.fired then 0 else if identity_eq h.id id then 1 else 0)
  unfolding release
  count-release h s id = ground (
    arith,
    lookup-insert h.id id (count_of h.id s.leases - 1) s.leases,
    lookup-delete h.id id s.leases,
    identity_eq_iff h.id id,
  )

  release-positive :
      (h : Handle) (s : Store P) (id : PackageIdentity)
      → lookup id s.leases ≢ some 0
      → lookup id (release h s).1.leases ≢ some 0
  unfolding release
  release-positive h s id p = ground (
    arith,
    lookup-insert h.id id (count_of h.id s.leases - 1) s.leases,
    lookup-delete h.id id s.leases,
    identity_eq_iff h.id id,
  )

  Step-Inv : {v w : World P} → Step v w → Inv v → Inv w
  unfolding set_generated clear
  Step-Inv (generates g) h = record { counts = h.counts; positive = h.positive }
  Step-Inv clears h = record { counts = h.counts; positive = h.positive }
  Step-Inv {v} (leases rec k s e) h = record {
    counts = λ id. ground (
      arith,
      lease_lem v.store s rec k e,
      h.counts id,
      lookup-insert rec.identity id (count_of rec.identity v.store.leases + 1) v.store.leases,
      identity_eq_iff rec.identity id,
    );
    positive = λ id. ground (
      arith,
      lease_lem v.store s rec k e,
      h.positive id,
      lookup-insert rec.identity id (count_of rec.identity v.store.leases + 1) v.store.leases,
    );
  }
  Step-Inv {v} (releases before k after e) h = record {
    counts = λ id. ground (
      arith,
      h.counts id,
      count-release k v.store id,
      held-released id k before after,
      release_fired k v.store,
      e,
    );
    positive = λ id. release-positive k v.store id (h.positive id);
  }

  Reach-Inv : {w : World P} → Reach w → Inv w
  unfolding new_store
  Reach-Inv start = record {
    counts = λ id. ground (arith, lookup-nil {V = ℕ} id);
    positive = λ id. ground (arith, lookup-nil {V = ℕ} id);
  }
  Reach-Inv (next r s) = Step-Inv s (Reach-Inv r)

  -- Leased names exactly the identities on which a lease is still held, after every schedule of
  -- the store's methods, with release functions called again and again.
  pub leased_iff :
      (digest : String → String) (w : World P) (id : PackageIdentity)
      → Reach w
      → Memᴰ id (leased digest w.store) ↔ (0 < held id w.handles)
  unfolding leased
  leased_iff digest w id r =
      let sorted = mem-sort_by (identity_string digest) id (map (λ e. e.0) w.store.leases) in
      let keys = mem-keys id w.store.leases in
      let counted = count-pos w.store.leases id ((Reach-Inv r).positive id) in
      let exact = (Reach-Inv r).counts id in
      (
        λ m. rw (← exact) (counted.0 (keys.0 (sorted.0 m))),
        λ p. sorted.1 (keys.1 (counted.1 (rw exact p))),
      )
