-- ===== src/Platform/Layout/Write.antt =====
-- A write is atomic for a reader of the package directory, wherever it stops.
use Prim.Native.Char.{code}
use Prim.Native.String.append
use Prim.Native.String.{◌++◌}
use opm_operator.Prelude.{
  ℕ, String, ◌≡◌, ◌≢◌, ◌⊎◌, inl, inr, refl, sym, ap, ◌∙◌, Bool, List, [], ◌∷◌, ◌++◌ as append,
  Option, none, some, str_eq, eq_iff, arith, if◌then◌else◌, Bool-cases, Option-cases, All,
}
use opm_operator.Prelude.Dicts.{lookup, insert, delete, string_eq, lookup-insert, lookup-delete}
use opm_operator.Prelude.Decimal.{format_int}
use opm_operator.Platform.Identity.{PackageIdentity, identity_string}
use opm_operator.Platform.Layout.{
  Files, Tree, WriteError, no_root, no_files, mkdir_root, random, mkdir_staging, write_files,
  Faults, Names, names_of, Writing, remove_all, rename, swap, place, write,
}

pub record AreApart (n : Names) : Type 0 where
  pub dir_staging : n.dir ≢ n.staging
  pub dir_aside : n.dir ≢ n.aside
  pub staging_aside : n.staging ≢ n.aside

lookup-remove_all :
    (refused : Bool) (name j : String) (t : Tree)
    → name ≢ j
    → lookup j (remove_all refused name t) ≡ lookup j t
unfolding remove_all
lookup-remove_all refused name j t h = ground (arith, lookup-delete name j t, eq_iff name j)

lookup-rename :
    (from to j : String) (t : Tree)
    → lookup j (rename from to t) ≡ (elim (lookup from t) [
      | none ↦ lookup j t
      | some files ↦ if str_eq to j then some files else if str_eq from j then none else lookup j t
    ])
unfolding rename
lookup-rename from to j t = elim (Option-cases (lookup from t)) [
  | inl e ↦ ground (arith, e)
  | inr (files, e) ↦
      ground (arith, e, lookup-insert to j files (delete from t), lookup-delete from j t)
]

All-append {ℓ} :
    {A : Type 0} (P : A → Type ℓ) (xs ys : List A) → All P xs → All P ys → All P (append xs ys)
All-append P [] ys h k = k
All-append P (x ∷ xs) ys h k = (h.0, All-append P xs ys h.1 k)

module _ (n : Names) (files : Files) (old : Option Files) where
  -- What the package directory holds: what it held, nothing, or the new module, complete.
  abbrev pub IsWhole : Tree → Type 0
  IsWhole t = (lookup n.dir t ≡ old) ⊎ (lookup n.dir t ≡ none) ⊎ (lookup n.dir t ≡ some files)

  -- Every tree of the write shows the package directory whole, and if there is no error the last
  -- one holds the new module there.
  pub record IsAtomic (w : Writing) : Type 0 where
    pub shown : All IsWhole w.states
    pub left : IsWhole w.last
    pub done : w.error ≡ none → lookup n.dir w.last ≡ some files

module _ (n : Names) (apart : AreApart n) (f : Faults) (files : Files) (old : Option Files) where
  abbrev Whole : Tree → Type 0
  Whole = IsWhole n files old

  abbrev Atomic : Writing → Type 0
  Atomic = IsAtomic n files old

  module _ (t : Tree) (staged : lookup n.staging t ≡ some files) where
    swap-removed :
        lookup n.dir t ≡ none → lookup n.dir (remove_all f.remove_staging n.staging t) ≡ none
    swap-removed free =
        lookup-remove_all f.remove_staging n.staging n.dir t (λ e. apart.dir_staging (sym e)) ∙ free

    swap-back :
        lookup n.dir t ≡ none
        → lookup n.aside t ≡ old
        → Whole (rename n.aside n.dir (remove_all f.remove_staging n.staging t))
    swap-back free kept = ground (
      arith,
      lookup-rename n.aside n.dir n.dir (remove_all f.remove_staging n.staging t),
      swap-removed free,
      lookup-remove_all f.remove_staging n.staging n.aside t,
      apart.staging_aside,
      eq_iff n.dir n.dir,
    )

    swap-moved : lookup n.dir (rename n.staging n.dir t) ≡ some files
    swap-moved = ground (arith, lookup-rename n.staging n.dir n.dir t, eq_iff n.dir n.dir)

    swap-cleaned :
        lookup n.dir (remove_all f.remove_aside n.aside (rename n.staging n.dir t)) ≡ some files
    swap-cleaned =
        lookup-remove_all f.remove_aside n.aside n.dir (rename n.staging n.dir t)
          (λ e. apart.dir_aside (sym e))
        ∙ swap-moved

    swap-IsAtomic :
        (before : List Tree)
        → All Whole before
        → lookup n.dir t ≡ none
        → lookup n.aside t ≡ old
        → Atomic (swap n f t before)
    unfolding swap
    swap-IsAtomic before b free kept =
        let removed = swap-removed free in
        let back = swap-back free kept in
        elim (Bool-cases f.rename_staging) [
          | inl e ↦ elim (Bool-cases f.rename_back) [
            | inl k ↦
                rw (e, k)
                  (record {
                    shown =
                        All-append Whole before _ b (inr (inl removed), (inr (inl removed), tt));
                    left = inr (inl removed);
                    done = λ z. ground arith;
                  })
            | inr k ↦
                rw (e, k)
                  (record {
                    shown = All-append Whole before _ b (inr (inl removed), (back, tt));
                    left = back;
                    done = λ z. ground arith;
                  })
          ]
          | inr e ↦ rw e (record {
            shown =
                All-append Whole before _ b (inr (inr swap-moved), (inr (inr swap-cleaned), tt));
            left = inr (inr swap-cleaned);
            done = λ z. swap-cleaned;
          })
        ]

  discarded :
      (t : Tree)
      → lookup n.dir t ≡ old
      → lookup n.dir (remove_all f.remove_staging n.staging t) ≡ old
  discarded t dir =
      lookup-remove_all f.remove_staging n.staging n.dir t (λ e. apart.dir_staging (sym e)) ∙ dir

  moved_staging :
      (t : Tree) (there : Files)
      → lookup n.dir t ≡ some there
      → lookup n.staging t ≡ some files
      → lookup n.staging (rename n.dir n.aside t) ≡ some files
  moved_staging t there held staged = ground (
    arith,
    held,
    staged,
    lookup-rename n.dir n.aside n.staging t,
    eq_iff n.aside n.staging,
    eq_iff n.dir n.staging,
    apart.dir_staging,
    apart.staging_aside,
  )

  moved_dir :
      (t : Tree) (there : Files)
      → lookup n.dir t ≡ some there
      → lookup n.dir (rename n.dir n.aside t) ≡ none
  moved_dir t there held = ground (
    arith,
    held,
    lookup-rename n.dir n.aside n.dir t,
    eq_iff n.aside n.dir,
    eq_iff n.dir n.dir,
    apart.dir_aside,
  )

  moved_aside :
      (t : Tree) (there : Files)
      → lookup n.dir t ≡ some there
      → lookup n.aside (rename n.dir n.aside t) ≡ some there
  moved_aside t there held =
      ground (arith, held, lookup-rename n.dir n.aside n.aside t, eq_iff n.aside n.aside)

  place-IsAtomic :
      (t : Tree) (before : List Tree)
      → All Whole before
      → lookup n.staging t ≡ some files
      → lookup n.dir t ≡ old
      → lookup n.aside t ≡ none
      → Atomic (place n f t before)
  unfolding place
  place-IsAtomic t before b staged dir free = elim (Bool-cases f.stat) [
    | inl e ↦ rw e (record {
      shown = All-append Whole before _ b (inl (discarded t dir), tt);
      left = inl (discarded t dir);
      done = λ z. ground arith;
    })
    | inr e ↦ elim (Option-cases (lookup n.dir t)) [
      | inl none_there ↦
          rw (e, none_there)
            (swap-IsAtomic t staged before b none_there (free ∙ sym none_there ∙ dir))
      | inr (there, held) ↦ elim (Bool-cases f.rename_aside) [
        | inl r ↦
            rw (e, held, r)
              (record {
                shown = All-append Whole before _ b (inl (discarded t dir), tt);
                left = inl (discarded t dir);
                done = λ z. ground arith;
              })
        | inr r ↦
            rw (e, held, r)
              (swap-IsAtomic (rename n.dir n.aside t) (moved_staging t there held staged) _
                (All-append Whole before _ b (inr (inl (moved_dir t there held)), tt))
                (moved_dir t there held) (moved_aside t there held ∙ sym held ∙ dir))
      ]
    ]
  ]

  staged_dir :
      (content : Files) (t : Tree) → lookup n.dir (insert n.staging content t) ≡ lookup n.dir t
  staged_dir content t =
      ground
        (arith, lookup-insert n.staging n.dir content t, eq_iff n.staging n.dir, apart.dir_staging)

  staged_aside :
      (content : Files) (t : Tree) → lookup n.aside (insert n.staging content t) ≡ lookup n.aside t
  staged_aside content t = ground (
    arith,
    lookup-insert n.staging n.aside content t,
    eq_iff n.staging n.aside,
    apart.staging_aside,
  )

  staged_there : (t : Tree) → lookup n.staging (insert n.staging files t) ≡ some files
  staged_there t =
      ground (arith, lookup-insert n.staging n.staging files t, eq_iff n.staging n.staging)

  fails-IsAtomic :
      (e : WriteError) (t : Tree) (states : List Tree)
      → All Whole states
      → Whole t
      → Atomic (record { states = states; last = t; error = some e })
  fails-IsAtomic e t states h k = record { shown = h; left = k; done = λ z. ground arith }

  if-IsAtomic : (b : Bool) (x y : Writing) → Atomic x → Atomic y → Atomic (if b then x else y)
  if-IsAtomic b x y h k = elim (Bool-cases b) [ inl e ↦ rw e h | inr e ↦ rw e k ]

  written-IsAtomic :
      (root : String) (written : Files) (t : Tree)
      → lookup n.dir t ≡ old
      → lookup n.aside t ≡ none
      → Atomic (write root n f written files t)
  unfolding write
  written-IsAtomic root written t dir free =
      let start = insert n.staging [] t in
      let refused = λ (e : WriteError). fails-IsAtomic e t [] tt (inl dir) in
      let made = staged_dir [] t ∙ dir in
      let partial = staged_dir written start ∙ made in
      let staged = staged_dir files start ∙ made in
      let half : List Tree =
        start
        ∷ insert n.staging written start
        ∷ remove_all f.remove_staging n.staging (insert n.staging written start)
        ∷ [] in
      let full : List Tree = start ∷ insert n.staging files start ∷ [] in
      let shown : All Whole half = (inl made, (inl partial, (inl (discarded _ partial), tt))) in
      let ready : All Whole full = (inl made, (inl staged, tt)) in
      let unwritten = fails-IsAtomic write_files _ half shown (inl (discarded _ partial)) in
      let free = staged_aside files start ∙ staged_aside [] t ∙ free in
      let placed = place-IsAtomic _ full ready (staged_there start) staged free in
      if-IsAtomic _ _ _ (refused no_root) (
        if-IsAtomic _ _ _ (refused no_files) (
          if-IsAtomic _ _ _ (refused mkdir_root) (
            if-IsAtomic _ _ _ (refused random)
              (if-IsAtomic _ _ _ (refused mkdir_staging) (if-IsAtomic _ _ _ unwritten placed)))))

identity_string-head :
    (digest : String → String) (id : PackageIdentity)
    → (rest : String) × (identity_string digest id ≡ String.◌∷◌ "g" rest)
unfolding identity_string
identity_string-head digest id = elim (Bool-cases (str_eq id.claims "")) [
  | inl e ↦
      ("en-" ++ format_int id.generation, rw e (append.cons "g" "en-" (format_int id.generation)))
  | inr e ↦ (
    ("en-" ++ format_int id.generation) ++ ("-" ++ digest id.claims),
    rw e (
        cc (
          append.cons "g" "en-" (format_int id.generation),
          append.cons "g" ("en-" ++ format_int id.generation) ("-" ++ digest id.claims),
        )),
  )
]

initial : String → ℕ
initial String.[] = 0
initial (String.◌∷◌ c s) = code c

tail_apart : (x y : String) → String.◌∷◌ "s" x ≢ String.◌∷◌ "a" y
unfolding initial
tail_apart x y e = let same : 115 ≡ 97 = ap initial e in absurd (omega (same, arith))

names_of-AreApart :
    (digest : String → String) (id : PackageIdentity) (suffix : String)
    → AreApart (names_of digest id suffix)
unfolding names_of
names_of-AreApart digest id suffix =
    let name = identity_string digest id in
    let rest : String = name ++ ("-" ++ suffix) in
    let head = identity_string-head digest id in
    let staging = append.cons "." "staging-" rest in
    let aside = append.cons "." "aside-" rest in
    let staging_tail = append.cons "s" "taging-" rest in
    let aside_tail = append.cons "a" "side-" rest in
    record {
      dir_staging = λ e. cc (head.1, staging, e);
      dir_aside = λ e. cc (head.1, aside, e);
      staging_aside = λ e.
          tail_apart ("taging-" ++ rest) ("side-" ++ rest)
            (cc (staging, aside, staging_tail, aside_tail, e));
    }

-- A reader of an identity's directory finds what was there, nothing, or the new module complete,
-- after every single call to the operating system, whichever of them are refused; and a Write that
-- returns no error leaves the new module there. The random suffix is fresh: the moved-aside name it
-- makes is not in use.
pub write-IsAtomic :
    (digest : String → String) (id : PackageIdentity) (suffix root : String) (f : Faults)
    (written files : Files) (t : Tree)
    → lookup (names_of digest id suffix).aside t ≡ none
    → IsAtomic
        (names_of digest id suffix)
        files
        (lookup (names_of digest id suffix).dir t)
        (write root (names_of digest id suffix) f written files t)
write-IsAtomic digest id suffix root f written files t free =
    written-IsAtomic (names_of digest id suffix) (names_of-AreApart digest id suffix) f files
      (lookup (names_of digest id suffix).dir t) root written t refl free
