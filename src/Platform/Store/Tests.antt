-- ===== src/Platform/Store/Tests.antt =====
-- A render leases the first_id, and its lease is counted.
use opm_operator.Prelude.{◌<◌, ◌≡◌, ◌↔◌, refl, String, false, some, [], ◌∷◌, Memᴰ}
use opm_operator.Prelude.Int64.{pos}
use opm_operator.Prelude.Dicts.{insert, lookup}
use opm_operator.Platform.Identity.{PackageIdentity}
use opm_operator.Platform.Store.{
  Generated, Store, Handle, SkewPolicy, new_store, set_generated, lease, leased,
}
use opm_operator.Platform.Store.Leases.{
  World, Reach, start, next, generates, leases, held, leased_iff,
}

abbrev pub first_id : PackageIdentity
first_id = record { generation = pos 1; claims = "" }

abbrev pub built : Generated String
built = record { identity = first_id; dir = "gen-1"; platform = "p"; skew = SkewPolicy.warn }

abbrev pub handle : Handle
handle = record { id = first_id; fired = false }

abbrev pub leased_store : Store String
leased_store = record { generated = some built; identity = first_id; leases = (first_id, 1) ∷ [] }

abbrev pub leased_world : World String
leased_world = record { store = leased_store; handles = handle ∷ [] }

lease_run : lease (set_generated built new_store) ≡ (leased_store, some (built, handle))
unfolding lease set_generated new_store insert lookup
lease_run = refl

pub Reach-leased_world : Reach leased_world
Reach-leased_world =
    next (next start (generates built)) (leases built handle leased_store lease_run)

leased_iff_example :
    Memᴰ first_id (leased (λ s. s) leased_store) ↔ (0 < held first_id (handle ∷ []))
leased_iff_example = leased_iff (λ s. s) leased_world first_id Reach-leased_world
