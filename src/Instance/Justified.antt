-- ===== src/Instance/Justified.antt =====
-- Nothing reaches the cluster that was not judged: what each write of a reconcile rests on.
pub mod Lists
pub mod Grounds
use opm_operator.Prelude.{
  ℕ, String, ◌≡◌, ◌⊎◌, inl, inr, refl, sym, ap, ◌∙◌, Bool, true, false, ◌||◌, not, List, [], ◌∷◌,
  ◌++◌, map, Option, none, some, is_empty, All, Memᴰ, arith, Bool-cases, if-cases, Option-cases,
  if◌then◌else◌,
}
use opm_operator.Prelude.Memᴰ
use opm_operator.Status.Conditions.{clear_drifted}
use opm_operator.Reconcile.Health.{InventoryEntry}
use opm_operator.Reconcile.Identity.{IdentityPlan, IdentityFields, store}
use opm_operator.Reconcile.Restore.{Rendered}
use opm_operator.Reconcile.Ownership.{GuardedApply}
use opm_operator.Shrink.{Decision}
use opm_operator.Instance.State.{
  InstanceStatus, ApplyOptions, Attempt, Write, write_identity, write_apply, write_prune,
}
use opm_operator.Instance.Failures.{ClusterError}
use opm_operator.Instance.Answers.{Env, PruneAnswer, prune_failed, pruned}
use opm_operator.Instance.Writing.{
  mark_attempt, fail_apply, fail_prune, finish, after_prune, prune_phase, after_apply, apply_stored,
  apply_instance, apply_phase, inventory_entries,
}
use opm_operator.Instance.Planning.{write_phase}

-- Both parts of a longer list of writes.
pub All-append :
    (Q : Write → Type 0) (xs : List Write) (w : Write) → All Q xs → Q w → All Q (xs ++ (w ∷ []))
All-append Q [] w h q = (q, tt)
All-append Q (x ∷ xs) w h q = (h.0, All-append Q xs w h.1 q)

module _ {C L V O S : Type 0} (env : Env C L V O S) (Q : Write → Type 0) where
  -- Every write of the attempt has the property.
  pub record AllSent (a : Attempt C) : Type 0 where
    pub sent : All Q a.writes

  fail_prune-writes :
      (err : ClusterError) (a : Attempt C) → (fail_prune env err a).writes ≡ a.writes
  unfolding fail_prune
  fail_prune-writes err a = ground arith

  after_prune-AllSent :
      (p : PruneAnswer) (a : Attempt C) → All Q a.writes → AllSent (after_prune env p a)
  unfolding after_prune finish
  after_prune-AllSent (prune_failed err) a h = record { sent = rw fail_prune-writes h }
  after_prune-AllSent (pruned d k) a h = record { sent = h }

  prune_phase-AllSent :
      (plan : IdentityPlan) (stale : List InventoryEntry) (a : Attempt C)
      → All Q a.writes
      → (env.spec.prune ≡ true → Q (write_prune plan.prune stale env.spec.deletes_claims))
      → AllSent (prune_phase env plan stale a)
  unfolding prune_phase finish
  prune_phase-AllSent plan stale a h q =
      if-cases AllSent (not env.spec.prune || is_empty stale) (λ t. record { sent = h })
        (λ f.
          after_prune-AllSent (env.prune plan.prune stale env.spec.deletes_claims) _
            (All-append Q a.writes _ h (q (ground (arith, f)))))

  after_apply-AllSent :
      (plan : IdentityPlan) (refused_claims : List Decision) (restoring : Bool)
      (stale entries : List InventoryEntry) (err : Option ClusterError) (a : Attempt C)
      → All Q a.writes
      → (err ≡ none
          → refused_claims ≡ []
          → env.spec.prune ≡ true
          → Q (write_prune plan.prune stale env.spec.deletes_claims))
      → AllSent (after_apply env plan refused_claims restoring stale entries err a)
  unfolding after_apply fail_apply
  after_apply-AllSent plan refused_claims restoring stale entries (some err) a h q = record {
    sent = h;
  }
  after_apply-AllSent plan [] restoring stale entries none a h q =
      prune_phase-AllSent plan stale
        (record (mark_attempt (λ c. if restoring then c else clear_drifted env.set c) a) {
          new_entries = entries;
        })
        h (q refl refl)
  after_apply-AllSent plan (d ∷ ds) restoring stale entries none a h q = record { sent = h }

  apply_stored-All :
      (l : List Rendered) (opts : ApplyOptions) (err : Option ClusterError) (a : Attempt C)
      → All Q a.writes
      → Q (write_apply l opts)
      → All Q (apply_stored env l opts err a).0.writes
  unfolding apply_stored
  apply_stored-All l opts none a h q = All-append Q a.writes (write_apply l opts) h q
  apply_stored-All l opts (some err) a h q = h

  apply_stored-none :
      (l : List Rendered) (opts : ApplyOptions) (err : Option ClusterError) (a : Attempt C)
      → (apply_stored env l opts err a).1 ≡ none
      → env.apply l opts ≡ none
  unfolding apply_stored
  apply_stored-none l opts none a h = h
  apply_stored-none l opts (some err) a h = cc

  apply_instance-none :
      (plan : IdentityPlan) (l : List Rendered) (opts : ApplyOptions) (a : Attempt C)
      → (apply_instance env plan l opts a).1 ≡ none
      → env.apply l opts ≡ none
  unfolding apply_instance
  apply_instance-none plan l opts a h =
      apply_stored-none l opts (store plan a.status.identity env.patch_identity).1 _ h

  abbrev pub options : GuardedApply V → ApplyOptions
  options g = record {
    force = env.spec.force_conflicts;
    delete_data = env.spec.deletes_claims;
    taken_in = g.pins;
  }

  apply_instance-All :
      (plan : IdentityPlan) (l : List Rendered) (opts : ApplyOptions) (a : Attempt C)
      → All Q a.writes
      → (plan.changed ≡ true
          → Q (write_identity (store plan a.status.identity env.patch_identity).0))
      → Q (write_apply l opts)
      → All Q (apply_instance env plan l opts a).0.writes
  unfolding apply_instance
  apply_instance-All plan l opts a h i q =
      let fields = (store plan a.status.identity env.patch_identity).0 in
      apply_stored-All l opts (store plan a.status.identity env.patch_identity).1 _
        (if-cases (All Q) plan.changed (λ t. All-append Q a.writes (write_identity fields) h (i t))
          (λ f. h))
        q

  -- The writes of the phases from the first write on, for what each of them may rest on.
  pub write_phase-AllSent :
      (plan : IdentityPlan) (g : GuardedApply V) (refused_claims : List Decision)
      (to_apply expired rendered_set : List Rendered) (restoring : Bool) (no_client : Option String)
      (a : Attempt C)
      → All Q a.writes
      → (no_client ≡ none
          → plan.changed ≡ true
          → Q (write_identity (store plan a.status.identity env.patch_identity).0))
      → (no_client ≡ none → Q (write_apply to_apply (options g)))
      → (no_client ≡ none
          → env.apply to_apply (options g) ≡ none
          → refused_claims ≡ []
          → env.spec.prune ≡ true
          → Q (
              write_prune plan.prune
                (env.stale_set
                  (inventory_entries a.status.inventory)
                  (map env.entry_of rendered_set))
                env.spec.deletes_claims))
      → AllSent (
          write_phase env plan g refused_claims to_apply expired rendered_set restoring no_client a)
  unfolding write_phase apply_phase
  write_phase-AllSent plan g refused_claims to_apply expired rendered_set restoring (some err) a h i
        q p =
      record { sent = h }
  write_phase-AllSent plan g refused_claims to_apply expired rendered_set restoring none a h i q p =
      let ran = record a { phases = record a.phases { apply_ran = true } } in
      after_apply-AllSent plan refused_claims restoring _ _
        (apply_instance env plan to_apply (options g) ran).1
        (apply_instance env plan to_apply (options g) ran).0
        (apply_instance-All plan to_apply (options g) ran h (i refl) (q refl))
        (λ e. p refl (apply_instance-none plan to_apply (options g) ran e))
