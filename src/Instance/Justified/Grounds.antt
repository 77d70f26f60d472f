-- ===== src/Instance/Justified/Grounds.antt =====
-- What a whole reconcile sends, and what each write rests on.
use mathlib.Core.Path.{subst}
use opm_operator.Prelude.{
  ℕ, String, ◌≡◌, ◌⊎◌, inl, inr, refl, sym, ap, ◌∙◌, Bool, true, false, not, List, [], map, Option,
  none, some, is_empty, All, Memᴰ, arith, if-cases,
}
use opm_operator.Reconcile.Health.{InventoryEntry}
use opm_operator.Reconcile.Identity.{IdentityPlan, IdentityFields, plan_identities, store}
use opm_operator.Reconcile.Restore.{Rendered, Inventory, restorable, plan_restore}
use opm_operator.Reconcile.Withhold.{withhold_refused}
use opm_operator.Reconcile.Ownership.{
  GuardError, without_identity, unreadable, GuardedApply, guard_apply, fails_apply,
  refused_to_write, without_objects,
}
use opm_operator.Reconcile.Ownership.Held.{IsHeld, IsUnheld, guard_apply-IsHeld}
use opm_operator.Apply.Guard.Sorted.{allows}
use opm_operator.Shrink.{Decision, refused, decide}
use opm_operator.Instance.State.{
  InstanceStatus, ApplyOptions, Attempt, Write, write_identity, write_apply, write_prune,
}
use opm_operator.Instance.Answers.{Env, RenderResult, ConvertedRender, rendered}
use opm_operator.Instance.Writing.{inventory_entries, fail_apply}
use opm_operator.Instance.Planning.{
  has_error, finish_no_op, write_phase, after_drift, drift_phase, after_guard, guard_phase,
  detect_instance_drift,
}
use opm_operator.Instance.Rendering.{
  extract_instance_uuid, after_withhold, plan_phase, resolve, after_render, start_attempt,
  adopted_at_start, attempt,
}
use opm_operator.Instance.Justified.{AllSent, write_phase-AllSent}
use opm_operator.Instance.Justified.Lists.{
  Within, without_objects-Within, detect_instance_drift-Within, detect_instance_drift-unread,
  plan_restore-Within,
}

module _ {C L V O S : Type 0} (env : Env C L V O S) (s : InstanceStatus C)
    (converted : ConvertedRender) where
  -- What the render's identity means for the recorded ones.
  abbrev pub plan : IdentityPlan
  plan =
      plan_identities s.identity.current s.identity.previous
        (extract_instance_uuid converted.resources) false

  abbrev pub withheld : Option (List Rendered × List Decision)
  withheld = withhold_refused (decide env.read_stored env.instances) refused converted.resources

  -- An apply: the render is not refused, a client was built, and every object was not withheld and
  -- is one that the verdict allows, asked with the identity of the plan.
  pub record IsApply (l : List Rendered) : Type 0 where
    pub apply_list : List Rendered
    pub refused_claims : List Decision
    pub left : withheld ≡ some (apply_list, refused_claims)
    pub settled : plan.refused ≡ false
    pub client : env.impersonation_error ≡ none
    pub judged :
        (r : Rendered)
        → Memᴰ r l
        → Memᴰ r apply_list
          × (allows env.rules
                (inventory_entries s.inventory)
                plan.instance_uuid
                env.get
                apply_list
                r
              ≡ true)

  -- A prune: it is asked for, nothing was withheld, an apply succeeded, and what it deletes is what
  -- the inventory has and the render does not, judged with the plan's identities.
  pub record IsPrune (identities : List String) (stale : List InventoryEntry) : Type 0 where
    pub apply_list : List Rendered
    pub nothing_withheld : withheld ≡ some (apply_list, [])
    pub asked : env.spec.prune ≡ true
    pub applied : List Rendered
    pub options : ApplyOptions
    pub succeeded : env.apply applied options ≡ none
    pub identities_of : identities ≡ plan.prune
    pub stale_of :
        stale ≡ env.stale_set (inventory_entries s.inventory) (map env.entry_of converted.resources)

  -- A write of the identities: they change, to those of a plan that is not refused.
  pub record IsStore (f : IdentityFields) : Type 0 where
    pub settled : plan.refused ≡ false
    pub changed : plan.changed ≡ true
    pub current : f.current ≡ plan.instance_uuid
    pub previous : f.previous ≡ plan.previous_instance_uuid

  abbrev pub IsJustified : Write → Type 0
  IsJustified (write_identity f) = IsStore f
  IsJustified (write_apply l options) = IsApply l
  IsJustified (write_prune identities stale delete_data) = IsPrune identities stale

  module _ (apply_list : List Rendered) (refused_claims : List Decision)
      (left : withheld ≡ some (apply_list, refused_claims)) (settled : plan.refused ≡ false)
      (before : ℕ) where
    abbrev Held : GuardedApply V → Type 0
    Held =
        IsHeld env.rules (inventory_entries s.inventory) plan.instance_uuid env.get apply_list
          before

    abbrev Unheld : GuardedApply V → Type 0
    Unheld =
        IsUnheld env.rules (inventory_entries s.inventory) plan.instance_uuid env.get apply_list
          before

    -- The phases from the first write on, where the guard reached a verdict.
    write-AllSent :
        (g : GuardedApply V) (to_apply expired : List Rendered) (restoring : Bool) (a : Attempt C)
        → a.writes ≡ []
        → a.status.inventory ≡ s.inventory
        → (env.impersonation_error ≡ none → Held g × Within to_apply g.allowed)
        → AllSent env IsJustified (
            write_phase env plan g refused_claims to_apply expired converted.resources restoring
              env.impersonation_error a)
    unfolding store
    write-AllSent g to_apply expired restoring a w i h =
        write_phase-AllSent env IsJustified plan g refused_claims to_apply expired
          converted.resources restoring env.impersonation_error a (rw w tt)
          (λ e c. stored a.status.identity c)
          (λ e.
            let (held, within) = h e in
            record {
              apply_list = apply_list;
              refused_claims = refused_claims;
              left = left;
              settled = settled;
              client = e;
              judged = λ r m. held.each_allowed r (within r m);
            })
          (λ e k n p. record {
            apply_list = apply_list;
            nothing_withheld = left ∙ ap (λ d. some (apply_list, d)) n;
            asked = p;
            applied = to_apply;
            options = _;
            succeeded = k;
            identities_of = refl;
            stale_of = rw i;
          })
      where
        stored :
            (f : IdentityFields) → plan.changed ≡ true → IsStore (store plan f env.patch_identity).0
        stored f c = record {
          settled = settled;
          changed = c;
          current = ground (arith, c);
          previous = ground (arith, c);
        }

    drift-AllSent :
        (g : GuardedApply V) (missing : List Rendered) (unchanged : Bool) (a : Attempt C)
        → a.writes ≡ []
        → a.status.inventory ≡ s.inventory
        → (env.impersonation_error ≡ none
            → (plan_restore unchanged missing g.taken_in g.allowed).1 ≡ false
            → Held g × Within missing g.allowed)
        → AllSent env IsJustified
            (after_drift env plan g refused_claims missing converted.resources unchanged a)
    unfolding after_drift finish_no_op
    drift-AllSent g missing unchanged a w i h =
        if-cases (AllSent env IsJustified) (not (is_empty (refused_to_write g.refused unchanged)))
          (λ t. record { sent = rw w tt })
          (λ f.
            if-cases (AllSent env IsJustified)
              (plan_restore unchanged missing g.taken_in g.allowed).1
              (λ n. record { sent = rw w tt })
              (λ n. write-AllSent g _ _ _ a w i (λ e.
                let (held, within) = h e n in
                (
                  held,
                  plan_restore-Within unchanged missing g.taken_in g.allowed within
                      held.taken_allowed n,
                ))))

    -- A guard that reached no verdict, with unchanged digests, leaves nothing to write.
    nothing_to_restore :
        (g : GuardedApply V) (l : List Rendered) (c : C)
        → Unheld g
        → (plan_restore true (detect_instance_drift env g.err l c).1 g.taken_in g.allowed).1 ≡ true
    unfolding plan_restore restorable
    nothing_to_restore g l c u =
        let m : (detect_instance_drift env g.err l c).1 ≡ [] =
          ap (λ x. (detect_instance_drift env x l c).1) u.failed
          ∙ detect_instance_drift-unread env u.err l c in
        rw (m, u.taken_in)

    detected-AllSent :
        (g : GuardedApply V) (unchanged : Bool) (a : Attempt C)
        → a.writes ≡ []
        → a.status.inventory ≡ s.inventory
        → (env.impersonation_error ≡ none → Held g ⊎ ((unchanged ≡ true) × Unheld g))
        → AllSent env IsJustified
            (drift_phase env plan g refused_claims converted.resources unchanged a)
    unfolding drift_phase
    detected-AllSent g unchanged a w i h = drift-AllSent g _ unchanged _ w i (λ e n. elim (h e) [
      | inl held ↦ (
        held,
        λ r m. without_objects-Within g.allowed g.taken_in r (
            detect_instance_drift-Within env g.err (without_objects g.allowed g.taken_in)
              a.status.conditions r m),
      )
      | inr (u, unheld) ↦
          let restores =
            nothing_to_restore g (without_objects g.allowed g.taken_in) a.status.conditions
              unheld in
          absurd (no_true (sym restores ∙ (rw u at n)))
    ])
      where
        no_true : true ≡ false → ⊥
        no_true p = ground (arith, p)

    unchanged_of :
        (err : GuardError) (unchanged : Bool)
        → fails_apply (some err) unchanged ≡ false
        → unchanged ≡ true
    unfolding fails_apply
    unchanged_of without_identity unchanged h = ground (arith, h)
    unchanged_of (unreadable obj err) unchanged h = ground (arith, h)

    guarded-AllSent :
        (g : GuardedApply V) (unchanged : Bool) (err : Option GuardError) (a : Attempt C)
        → g.err ≡ err
        → a.writes ≡ []
        → a.status.inventory ≡ s.inventory
        → (env.impersonation_error ≡ none → Held g ⊎ Unheld g)
        → AllSent env IsJustified
            (after_guard env plan refused_claims converted.resources unchanged g err a)
    unfolding after_guard fail_apply
    guarded-AllSent g unchanged none a q w i h = detected-AllSent g unchanged a w i (λ e.
        elim (h e) [ inl held ↦ inl held | inr u ↦ absurd (no_error u.err (sym q ∙ u.failed)) ])
      where
        no_error : (err : GuardError) → none ≡ some err → ⊥
        no_error err p = ground (arith, p)
    guarded-AllSent g unchanged (some err) a q w i h =
        if-cases (AllSent env IsJustified) (fails_apply (some err) unchanged)
          (λ t. record { sent = rw w tt })
          (λ f. detected-AllSent g unchanged a w i (λ e. elim (h e) [
            | inl held ↦ inl held
            | inr u ↦ inr (unchanged_of err unchanged f, u)
          ]))

    guard-AllSent :
        (a : Attempt C)
        → a.writes ≡ []
        → a.status.inventory ≡ s.inventory
        → AllSent env IsJustified
            (guard_phase env plan before apply_list refused_claims converted.resources a)
    unfolding guard_phase has_error
    guard-AllSent a w i = guarded-AllSent _ _ _ a refl w i (λ e. judged e)
      where
        asked : Bool → Option Inventory → GuardedApply V
        asked b inventory =
            guard_apply env.rules b env.get apply_list (inventory_entries inventory)
              plan.instance_uuid before

        judged :
            env.impersonation_error ≡ none
            → Held (asked (has_error env.impersonation_error) a.status.inventory)
              ⊎ Unheld (asked (has_error env.impersonation_error) a.status.inventory)
        judged e =
            let q : asked (has_error env.impersonation_error) a.status.inventory
                ≡ asked false s.inventory =
              ap (λ x. asked (has_error x) a.status.inventory) e ∙ ap (λ x. asked false x) i in
            rw q (
              guard_apply-IsHeld env.rules (inventory_entries s.inventory) plan.instance_uuid
                env.get apply_list before)

  withheld-AllSent :
      (settled : plan.refused ≡ false) (before : ℕ) (o : Option (List Rendered × List Decision))
      (a : Attempt C)
      → withheld ≡ o
      → a.writes ≡ []
      → a.status.inventory ≡ s.inventory
      → AllSent env IsJustified (after_withhold env plan before converted.resources o a)
  unfolding after_withhold
  withheld-AllSent settled before none a q w i = record { sent = rw w tt }
  withheld-AllSent settled before (some (l, claims)) a q w i =
      guard-AllSent l claims q settled before a w i

  planned-AllSent :
      (before : ℕ) (result : RenderResult)
      → AllSent env IsJustified
          (plan_phase env before result converted (resolve env (start_attempt env s)))
  unfolding plan_phase resolve start_attempt
  planned-AllSent before result =
      if-cases (AllSent env IsJustified) plan.refused (λ t. record { sent = tt })
        (λ f. withheld-AllSent f before withheld _ refl refl refl)

  rendered-AllSent :
      (before : ℕ) (result : RenderResult)
      → AllSent env IsJustified
          (after_render env before (rendered result converted) (start_attempt env s))
  unfolding after_render
  rendered-AllSent before result = planned-AllSent before result

  -- Everything a reconcile that rendered sends to the cluster is justified. It stores identities
  -- only if they change, to those of a plan that is not refused. It applies only with a client of
  -- the identity that applies, and only objects that were not withheld and that the verdict allows,
  -- asked with the plan's identity. It prunes only if the spec asks for it, nothing was withheld
  -- and an apply succeeded, judging with the plan's identities, and exactly what the library calls
  -- stale of the inventory.
  pub attempt-IsJustified :
      (counted : String → ℕ) (result : RenderResult)
      → env.render ≡ rendered result converted
      → All IsJustified (attempt env counted s).writes
  unfolding attempt
  attempt-IsJustified counted result e =
      (subst
        (λ x.
          AllSent env IsJustified
            (after_render env (adopted_at_start env counted s.conditions) x (start_attempt env s)))
        (sym e) (rendered-AllSent (adopted_at_start env counted s.conditions) result)).sent
