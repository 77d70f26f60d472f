-- ===== src/Platform/Layout/Prune.antt =====
-- What Prune leaves below the root, and that a render's lease keeps the directory it reads.
use opm_operator.Prelude.{
  ◌<◌, String, ◌≡◌, inl, inr, ap, Bool, ◌||◌, List, [], ◌∷◌, map, Option, none, arith, eq_iff,
  if◌then◌else◌, Memᴰ,
}
use opm_operator.Prelude.Memᴰ
use opm_operator.Prelude.Dicts.{lookup, string_eq}
use opm_operator.Prelude.Texts.{contains, contains_of_mem}
use opm_operator.Platform.Identity.{PackageIdentity, identity_string}
use opm_operator.Platform.Store.{leased}
use opm_operator.Platform.Store.Leases.{World, Reach, held, leased_iff}
use opm_operator.Platform.Layout.{Tree, Listing, entries, PruneError, prune_entries, prune}

lookup-prune_entries :
    (refused : String → Bool) (kept : List String) (t : Tree) (name : String)
    → lookup name (prune_entries refused kept t).0
      ≡ (if contains kept name || refused name then lookup name t else none)
unfolding prune_entries lookup
lookup-prune_entries refused kept [] name = ground arith
lookup-prune_entries refused kept ((j, files) ∷ t) name =
    ground (arith, lookup-prune_entries refused kept t name, eq_iff j name)

-- The names below the root after Prune, and the names that it could not remove.
abbrev pub pruned : Listing × Option PruneError → Tree
pruned (entries t, e) = t
pruned (l, e) = []

-- Prune leaves an entry if and only if its name is the string form of an identity it was told to
-- keep or the operating system refuses to remove it; an entry that is left is as it was.
pub lookup-prune :
    (digest : String → String) (refused : String → Bool) (keep : List PackageIdentity) (t : Tree)
    (name : String)
    → lookup name (pruned (prune digest refused keep (entries t))) ≡ (
        if contains (map (identity_string digest) keep) name || refused name
        then lookup name t
        else none)
unfolding prune
lookup-prune digest refused keep t name =
    lookup-prune_entries refused (map (identity_string digest) keep) t name

mem-map_of :
    (f : PackageIdentity → String) (x : PackageIdentity) (xs : List PackageIdentity)
    → Memᴰ x xs
    → Memᴰ (f x) (map f xs)
mem-map_of f x [] m = elim m [ ]
mem-map_of f x (y ∷ xs) m = elim (Memᴰ.cases_cons m) [
  | inl e ↦ Memᴰ.head (ap f e)
  | inr r ↦ Memᴰ.tail (mem-map_of f x xs r)
]

-- After any schedule of the store's methods, a Prune that is told to keep one identity and the
-- leased ones leaves the directory of every identity on which a lease is held as it was.
pub prune-leased :
    {P : Type 0} (digest : String → String) (refused : String → Bool) (w : World P)
    (id current : PackageIdentity) (t : Tree)
    → Reach w
    → 0 < held id w.handles
    → lookup
        (identity_string digest id)
        (pruned (prune digest refused (current ∷ leased digest w.store) (entries t)))
      ≡ lookup (identity_string digest id) t
prune-leased digest refused w id current t r p =
    let keep = current ∷ leased digest w.store in
    let member = Memᴰ.tail ((leased_iff digest w id r).1 p) in
    let named =
      contains_of_mem (map (identity_string digest) keep) (identity_string digest id)
        (mem-map_of (identity_string digest) id keep member) in
    ground (arith, named, lookup-prune digest refused keep t (identity_string digest id))
