-- ===== src/Platform/Layout.antt =====
-- internal/platform/layout.go: the directories of generated platform modules under one root. The
-- file system under the root is a map from a name to the files below it; what the operating system
-- may refuse is an argument, `Faults` for Write and a test on names for RemoveAll in Prune.
pub mod Write
pub mod Prune
mod Tests
use Prim.Native.String.{◌++◌}
use opm_operator.Prelude.{
  String, Bool, true, false, ◌||◌, ◌&&◌, not, List, [], ◌∷◌, ◌++◌ as append, map, Option, none,
  some, str_eq, if◌then◌else◌, select, is_empty,
}
use opm_operator.Prelude.Dicts.{lookup, insert, delete, string_eq}
use opm_operator.Prelude.Texts.{contains}
use opm_operator.Platform.Identity.{PackageIdentity, identity_string}

-- The files of a module: path and content.
abbrev pub Files : Type 0
Files = List (String × String)

-- The directories under the root.
abbrev pub Tree : Type 0
Tree = List (String × Files)

pub record Faults : Type 0 where
  pub mkdir_root : Bool
  pub random : Bool
  pub mkdir_staging : Bool
  pub write_files : Bool
  pub stat : Bool
  pub rename_aside : Bool
  pub rename_staging : Bool
  pub rename_back : Bool
  pub remove_staging : Bool
  pub remove_aside : Bool

-- The step at which Write fails.
pub data WriteError : Type 0 where
  no_root no_files mkdir_root random mkdir_staging write_files rename_aside stat rename_staging :
      WriteError

-- The tree after each call to the operating system, in order, and how Write returned.
pub record Writing : Type 0 where
  pub states : List Tree
  pub last : Tree
  pub error : Option WriteError

pub record Names : Type 0 where
  pub dir : String
  pub staging : String
  pub aside : String

-- Layout.Dir relative to the root, and the two hidden names of one Write.
unfoldable pub names_of : (digest : String → String) → PackageIdentity → String → Names
names_of digest id suffix = record {
  dir = identity_string digest id;
  staging = ".staging-" ++ (identity_string digest id ++ ("-" ++ suffix));
  aside = ".aside-" ++ (identity_string digest id ++ ("-" ++ suffix));
}

-- os.RemoveAll, which the operating system may refuse.
unfoldable pub remove_all : Bool → String → Tree → Tree
remove_all refused name t = if refused then t else delete name t

-- os.Rename of a directory onto a name that is free.
unfoldable pub rename : String → String → Tree → Tree
rename from to t = elim (lookup from t) [ none ↦ t | some files ↦ insert to files (delete from t) ]

abbrev fails : Tree → WriteError → List Tree → Writing
fails t e states = record { states = states; last = t; error = some e }

-- The swap: the staged module takes the directory's place, and the superseded copy goes.
unfoldable pub swap : Names → Faults → Tree → List Tree → Writing
unfolding remove_all rename
swap n f t before =
    if f.rename_staging
    then (let removed = remove_all f.remove_staging n.staging t in
        let back = if f.rename_back then removed else rename n.aside n.dir removed in
        fails back rename_staging (append before (removed ∷ back ∷ [])))
    else (let moved = rename n.staging n.dir t in
        let cleaned = remove_all f.remove_aside n.aside moved in
        record { states = append before (moved ∷ cleaned ∷ []); last = cleaned; error = none })

-- The staged module is complete: an existing directory of the identity is moved aside first.
unfoldable pub place : Names → Faults → Tree → List Tree → Writing
unfolding swap remove_all rename
place n f t before =
    if f.stat
    then (let removed = remove_all f.remove_staging n.staging t in
        fails removed stat (append before (removed ∷ [])))
    else (elim (lookup n.dir t) [
      | none ↦ swap n f t before
      | some _ ↦
          if f.rename_aside
          then (let removed = remove_all f.remove_staging n.staging t in
              fails removed rename_aside (append before (removed ∷ [])))
          else (let moved = rename n.dir n.aside t in swap n f moved (append before (moved ∷ [])))
    ])

-- Layout.Write. `written` is what the staging directory holds if writing the files stops half way.
unfoldable pub write : (root : String) → Names → Faults → (written files : Files) → Tree → Writing
unfolding place remove_all
write root n f written files t =
    if str_eq root ""
    then fails t no_root []
    else if is_empty files
    then fails t no_files []
    else if f.mkdir_root
    then fails t mkdir_root []
    else if f.random
    then fails t random []
    else if f.mkdir_staging
    then fails t mkdir_staging []
    else (let made = insert n.staging [] t in
        if f.write_files
        then (let partial = insert n.staging written made in
            let removed = remove_all f.remove_staging n.staging partial in
            fails removed write_files (made ∷ partial ∷ removed ∷ []))
        else (let staged = insert n.staging files made in place n f staged (made ∷ staged ∷ [])))

-- Reading the root: it may be missing, or not readable.
pub data Listing : Type 0 where
  missing unreadable : Listing
  entries : Tree → Listing

-- How Prune returned: the names it could not remove, or a root it could not read.
pub data PruneError : Type 0 where
  listing : PruneError
  removing : List String → PruneError

-- The loop of Prune: an entry stays if it is kept or if its removal fails.
unfoldable pub prune_entries :
    (refused : String → Bool) → (kept : List String) → Tree → Tree × List String
prune_entries refused kept [] = ([], [])
prune_entries refused kept ((name, files) ∷ t) =
    let (rest, failed) = prune_entries refused kept t in
    if contains kept name
    then ((name, files) ∷ rest, failed)
    else if refused name
    then ((name, files) ∷ rest, name ∷ failed)
    else (rest, failed)

-- Layout.Prune
unfoldable pub prune :
    (digest : String → String)
    → (refused : String → Bool) → List PackageIdentity
    → Listing
    → Listing × Option PruneError
unfolding prune_entries
prune digest refused keep missing = (missing, none)
prune digest refused keep unreadable = (unreadable, some listing)
prune digest refused keep (entries t) =
    let (rest, failed) = prune_entries refused (map (identity_string digest) keep) t in
    (entries rest, if is_empty failed then none else some (removing failed))
