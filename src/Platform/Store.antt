-- ===== src/Platform/Store.antt =====
-- internal/platform/store.go: the single slot of the current platform package, and the leases of
-- the renders that read a package's directory. A method that mutates the store returns the new one;
-- the mutex makes each method one step.
pub mod Leases
pub mod Tests
use opm_operator.Prelude.{
  ℕ, zero, suc, ◌+◌, ◌-◌, String, ◌≡◌, Bool, true, false, Option, none, some, List, [], ◌∷◌, map,
  leb, if◌then◌else◌,
}
use opm_operator.Prelude.Dicts.{lookup, insert, delete}
use opm_operator.Prelude.SortBy.{sort_by}
use opm_operator.Platform.Identity.{PackageIdentity, zero_identity, identity_key, identity_string}

pub data SkewPolicy : Type 0 where
  warn refuse : SkewPolicy

-- `P` is the library's built platform.
pub record Generated (P : Type 0) : Type 0 where
  pub identity : PackageIdentity
  pub dir : String
  pub platform : P
  pub skew : SkewPolicy

pub record Store (P : Type 0) : Type 0 where
  pub generated : Option (Generated P)
  pub identity : PackageIdentity
  pub leases : List (PackageIdentity × ℕ)

-- The release function of one lease: what it was given, and whether its `once` has fired.
pub record Handle : Type 0 where
  pub id : PackageIdentity
  pub fired : Bool

-- The count m[id] of a Go map: 0 for a missing key.
abbrev pub count_of : PackageIdentity → List (PackageIdentity × ℕ) → ℕ
count_of id m = elim (lookup id m) [ none ↦ 0 | some n ↦ n ]

module _ {P : Type 0} where
  -- NewStore
  unfoldable pub new_store : Store P
  new_store = record { generated = none; identity = zero_identity; leases = [] }

  -- SetGenerated
  unfoldable pub set_generated : Generated P → Store P → Store P
  set_generated g s = record s { generated = some g; identity = g.identity }

  -- Lease: the record and its release function, or nothing when no platform is held.
  unfoldable pub lease : Store P → Store P × Option (Generated P × Handle)
  lease s = elim s.generated [
    | none ↦ (s, none)
    | some rec ↦
        let id = rec.identity in
        (
          record s { leases = insert id (count_of id s.leases + 1) s.leases },
          some (rec, record { id = id; fired = false }),
        )
  ]

  -- The release function that Lease returns: the first call gives the lease back, a later one
  -- does nothing.
  unfoldable pub release : Handle → Store P → Handle × Store P
  release h s = if h.fired then (h, s) else (
    record h { fired = true },
    if leb (count_of h.id s.leases) 1
        then record s { leases = delete h.id s.leases }
        else record s { leases = insert h.id (count_of h.id s.leases - 1) s.leases },
  )

  -- Leased: the keys of the map, ordered by their string form.
  unfoldable pub leased : (digest : String → String) → Store P → List PackageIdentity
  leased digest s = sort_by (identity_string digest) (map (λ e. e.0) s.leases)

  -- Clear
  unfoldable pub clear : Store P → Store P
  clear s = record s { generated = none; identity = zero_identity }
