-- ===== src/Reconcile/Restore/Plan.antt =====
-- A restore creates again what is missing, and never runs a finished Job again.
use opm_operator.Prelude.{
  ◌≡◌, ◌↔◌, ◌⊎◌, inl, inr, refl, true, false, not, List, [], ◌∷◌, ◌++◌, select, mem-select,
  mem-select_of, Bool, ◌&&◌, is_empty, eq_iff, Bool-cases, arith, Memᴰ,
}
use opm_operator.Prelude.Memᴰ
use opm_operator.Reconcile.Restore.{
  Rendered, expires_after_finish, restorable, expired, plan_restore, expired_jobs,
}

restorable_lem :
    (rs : List Rendered) → restorable rs ≡ select (λ r. not (expires_after_finish r)) rs
unfolding restorable
restorable_lem [] = refl
restorable_lem (r ∷ rs) = ground (arith, restorable_lem rs)

expired_lem : (rs : List Rendered) → expired rs ≡ select expires_after_finish rs
unfolding expired
expired_lem [] = refl
expired_lem (r ∷ rs) = ground (arith, expired_lem rs)

mem-append : (x : Rendered) (xs ys : List Rendered) → Memᴰ x (xs ++ ys) → Memᴰ x xs ⊎ Memᴰ x ys
mem-append x [] ys m = inr m
mem-append x (z ∷ xs) ys m = elim (Memᴰ.cases_cons m) [
  | inl e ↦ inl (Memᴰ.head e)
  | inr t ↦ elim (mem-append x xs ys t) [ inl i ↦ inl (Memᴰ.tail i) | inr j ↦ inr j ]
]

mem-append_left : (x : Rendered) (xs ys : List Rendered) → Memᴰ x xs → Memᴰ x (xs ++ ys)
mem-append_left x [] ys m = elim m [ ]
mem-append_left x (z ∷ xs) ys (Memᴰ.head e) = Memᴰ.head e
mem-append_left x (z ∷ xs) ys (Memᴰ.tail m) = Memᴰ.tail (mem-append_left x xs ys m)

mem-append_right : (x : Rendered) (xs ys : List Rendered) → Memᴰ x ys → Memᴰ x (xs ++ ys)
mem-append_right x [] ys m = m
mem-append_right x (z ∷ xs) ys m = Memᴰ.tail (mem-append_right x xs ys m)

member_of : (xs : List Rendered) → is_empty xs ≡ false → (r : Rendered) × Memᴰ r xs
member_of [] h = cc
member_of (x ∷ xs) h = (x, Memᴰ.head refl)

member-filled : (r : Rendered) (xs : List Rendered) → Memᴰ r xs → is_empty xs ≡ false
member-filled r [] m = elim m [ ]
member-filled r (x ∷ xs) m = refl

-- A Job that removes itself some time after it finished, so that its absence is no drift
pub record IsFinishing (r : Rendered) : Type 0 where
  pub batch : r.group ≡ "batch"
  pub job : r.kind ≡ "Job"
  pub ttl : r.has_ttl ≡ true

finishing : (r : Rendered) → expires_after_finish r ≡ true → IsFinishing r
unfolding expires_after_finish
finishing r h = record {
  batch = (eq_iff r.group "batch").0 (ground (arith, h));
  job = (eq_iff r.kind "Job").0 (ground (arith, h));
  ttl = ground (arith, h);
}

not_finishing : (r : Rendered) → expires_after_finish r ≡ false → IsFinishing r → ⊥
unfolding expires_after_finish
not_finishing r h f =
    ground (arith, h, (eq_iff r.group "batch").1 f.batch, (eq_iff r.kind "Job").1 f.job, f.ttl)

module _ (missing taken_in apply_list : List Rendered) where
  -- What a restore writes: a missing object that is no such Job, or an object it takes in
  abbrev pub IsWanted : Rendered → Type 0
  IsWanted r = (Memᴰ r missing × (IsFinishing r → ⊥)) ⊎ Memᴰ r taken_in

  -- What a plan of a restore does: what it applies, whether it is still a no-op, whether it restores
  pub record IsRestored (p : List Rendered × Bool × Bool) : Type 0 where
    pub restores : (p.2 ≡ true) ↔ ((r : Rendered) × IsWanted r)
    pub applies : p.2 ≡ true → (r : Rendered) → Memᴰ r p.0 ↔ IsWanted r
    pub no_op : p.2 ≡ true → p.1 ≡ false
    pub idle : p.2 ≡ false → (p.0 ≡ apply_list) × (p.1 ≡ true)

  restorable-IsWanted : (r : Rendered) → Memᴰ r (restorable missing) → IsWanted r
  restorable-IsWanted r m =
      let lasting = λ (x : Rendered). not (expires_after_finish x) in
      let (i, h) = mem-select lasting r missing (rw restorable_lem at m) in
      inl (i, not_finishing r (ground (arith, h)))

  wanted-restorable :
      (r : Rendered) → Memᴰ r missing → (IsFinishing r → ⊥) → Memᴰ r (restorable missing)
  wanted-restorable r m h =
      let lasting = λ (x : Rendered). not (expires_after_finish x) in
      rw restorable_lem (elim (Bool-cases (expires_after_finish r)) [
        | inl t ↦ absurd (h (finishing r t))
        | inr f ↦ mem-select_of lasting r missing m (ground (arith, f))
      ])

  wanted-filled :
      (r : Rendered) → IsWanted r → (is_empty (restorable missing) && is_empty taken_in) ≡ false
  wanted-filled r (inl (m, h)) =
      ground (arith, member-filled r (restorable missing) (wanted-restorable r m h))
  wanted-filled r (inr m) = ground (arith, member-filled r taken_in m)

  some-IsWanted :
      (is_empty (restorable missing) && is_empty taken_in) ≡ false → (r : Rendered) × IsWanted r
  some-IsWanted h = elim (Bool-cases (is_empty (restorable missing))) [
    | inl t ↦ let (r, m) = member_of taken_in (ground (arith, h, t)) in (r, inr m)
    | inr f ↦ let (r, m) = member_of (restorable missing) f in (r, restorable-IsWanted r m)
  ]

  -- A reconcile with unchanged digests restores exactly when an object is missing that is no Job
  -- with a time to live after it finished, or an object is to be taken in. Then it is no no-op, and
  -- it applies those objects and no other. Otherwise it stays a no-op.
  pub plan_restore-IsRestored : IsRestored (plan_restore true missing taken_in apply_list)
  unfolding plan_restore
  plan_restore-IsRestored = elim (Bool-cases (is_empty (restorable missing) && is_empty taken_in)) [
    | inl t ↦ rw t (record {
      restores = (λ h. cc, λ (r, w). absurd (ground (arith, t, wanted-filled r w)));
      applies = λ h. cc;
      no_op = λ h. cc;
      idle = λ h. (refl, refl);
    })
    | inr f ↦ rw f (record {
      restores = (λ h. some-IsWanted f, λ w. refl);
      applies = λ h r. (
        λ m. elim (mem-append r (restorable missing) taken_in m) [
          | inl i ↦ restorable-IsWanted r i
          | inr j ↦ inr j
        ],
        λ w. elim w [
          | inl (m, n) ↦ mem-append_left r (restorable missing) taken_in (wanted-restorable r m n)
          | inr m ↦ mem-append_right r (restorable missing) taken_in m
        ],
      );
      no_op = λ h. refl;
      idle = λ h. cc;
    })
  ]

-- Every missing object is either restored or counts as an expired Job, never both; with changed
-- digests no Job counts as expired.
pub restorable-expired :
    (missing : List Rendered) (r : Rendered)
    → (Memᴰ r missing ↔ (Memᴰ r (restorable missing) ⊎ Memᴰ r (expired_jobs true missing)))
      × (Memᴰ r (restorable missing) → expires_after_finish r ≡ false)
      × (Memᴰ r (expired_jobs true missing) → expires_after_finish r ≡ true)
      × (expired_jobs false missing ≡ [])
unfolding expired_jobs
restorable-expired missing r =
    let lasting = λ (x : Rendered). not (expires_after_finish x) in
    rw (restorable_lem, expired_lem)
      (
        (
          λ m. elim (Bool-cases (expires_after_finish r)) [
            | inl t ↦ inr (mem-select_of expires_after_finish r missing m t)
            | inr f ↦ inl (mem-select_of lasting r missing m (ground (arith, f)))
          ],
          λ e. elim e [
            | inl i ↦ (mem-select lasting r missing i).0
            | inr j ↦ (mem-select expires_after_finish r missing j).0
          ],
        ),
        λ m. ground (arith, (mem-select lasting r missing m).1),
        λ m. (mem-select expires_after_finish r missing m).1,
        refl,
      )
