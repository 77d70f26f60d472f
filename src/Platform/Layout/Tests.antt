-- ===== src/Platform/Layout/Tests.antt =====
-- A rewrite of a package that another render still reads.
use opm_operator.Prelude.{◌≡◌, refl, String, true, false, [], ◌∷◌, none, arith}
use opm_operator.Prelude.Int64.{pos}
use opm_operator.Prelude.Dicts.{lookup, string_eq}
use opm_operator.Prelude.Decimal.{format_int}
use opm_operator.Platform.Identity.{PackageIdentity, identity_string, identity_eq}
use opm_operator.Platform.Store.{leased}
use opm_operator.Platform.Store.Tests.{first_id, leased_store, leased_world, Reach-leased_world}
use opm_operator.Platform.Layout.{Files, Tree, Faults, names_of, write, prune, entries}
use opm_operator.Platform.Layout.Write.{IsAtomic, write-IsAtomic}
use opm_operator.Platform.Layout.Prune.{pruned, prune-leased}

abbrev digest : String → String
digest s = s

abbrev old_files : Files
old_files = ("module.cue", "old") ∷ []

abbrev new_files : Files
new_files = ("module.cue", "new") ∷ []

abbrev tree : Tree
tree = ("gen-1", old_files) ∷ ("gen-2", old_files) ∷ (".staging-gen-3-x", []) ∷ []

abbrev second_id : PackageIdentity
second_id = record { generation = pos 2; claims = "" }

-- The second rename is refused, after the directory was moved aside.
abbrev refusing : Faults
refusing = record {
  mkdir_root = false;
  random = false;
  mkdir_staging = false;
  write_files = false;
  stat = false;
  rename_aside = false;
  rename_staging = true;
  rename_back = false;
  remove_staging = false;
  remove_aside = false;
}

aside_free : lookup (names_of digest first_id "f").aside tree ≡ none
unfolding names_of identity_string lookup format_int
aside_free = refl

write-IsAtomic_example :
    IsAtomic
      (names_of digest first_id "f")
      new_files
      (lookup (names_of digest first_id "f").dir tree)
      (write "/root" (names_of digest first_id "f") refusing [] new_files tree)
write-IsAtomic_example =
    write-IsAtomic digest first_id "f" "/root" refusing [] new_files tree aside_free

prune-leased_example :
    lookup
      (identity_string digest first_id)
      (pruned (prune digest (λ _. false) (second_id ∷ leased digest leased_store) (entries tree)))
    ≡ lookup (identity_string digest first_id) tree
unfolding identity_eq
prune-leased_example =
    prune-leased digest (λ _. false) leased_world first_id second_id tree Reach-leased_world
      (omega arith)
