-- ===== src/Reconcile/Identity/Protocol.antt =====
-- The identity fields of an instance beside the identity labels its objects carry in the cluster,
-- over every sequence of reconciles: applies that stop half way, applies and prunes that succeed,
-- and no-ops.
use opm_operator.Prelude.{
  String, ◌≡◌, ◌≢◌, refl, sym, ◌∙◌, ◌⊎◌, inl, inr, Bool, true, false, none, List, [], ◌∷◌, Memᴰ,
  arith,
}
use opm_operator.Prelude.Memᴰ
use opm_operator.Reconcile.Identity.{
  IdentityPlan, plan_identities, recorded_identities, keeps_no_op, fill_empty, IdentityFields,
  store,
}
use opm_operator.Reconcile.Identity.Plan.{
  IsSettled, IsOwn, plan-IsOwn, plan-IsSettled, mem_of_own, no_op_fill, plan-current,
}

-- The stored fields, and the identity label of each object that the instance holds.
pub record World : Type 0 where
  pub fields : IdentityFields
  pub labels : List String

abbrev pub fresh : World
fresh = record { fields = record { current = ""; previous = "" }; labels = [] }

module _ (fallback : Bool) where
  -- The plan of a render of `rendered` over the stored fields.
  abbrev pub plan_of : World → String → IdentityPlan
  plan_of w rendered = plan_identities w.fields.current w.fields.previous rendered fallback

  -- The fields after `store`, with a commit that succeeded.
  abbrev pub stored : World → String → IdentityFields
  stored w rendered = (store {E = Unit {0}} (plan_of w rendered) w.fields (λ _. none)).0

  -- What one reconcile may do. The environment chooses how far an apply comes: each label after it
  -- is one from before, or the render's.
  pub data Step (w : World) : World → Type 0 where
    -- The commit of the identity succeeded; the apply or the prune after it did not finish.
    interrupted :
        (rendered : String) (labels : List String)
        → (plan_of w rendered).refused ≡ false
        → ((l : String) → Memᴰ l labels → Memᴰ l w.labels ⊎ (l ≡ rendered))
        → Step w (record { fields = stored w rendered; labels = labels })
    -- The apply and the prune succeeded: what the instance holds carries the render's identity,
    -- and the status commit clears the earlier one.
    settled :
        (rendered : String) (labels : List String)
        → (plan_of w rendered).refused ≡ false
        → ((l : String) → Memᴰ l labels → l ≡ rendered)
        → Step w (record {
          fields = record { current = (stored w rendered).current; previous = "" };
          labels = labels;
        })
    -- A no-op writes no object.
    no_op :
        (rendered : String)
        → keeps_no_op (plan_of w rendered) true ≡ true
        → Step w (record {
          fields = record {
            current = fill_empty (plan_of w rendered) w.fields.current;
            previous = w.fields.previous;
          };
          labels = w.labels;
        })

  pub data Reach : World → Type 0 where
    start : Reach fresh
    next : {v w : World} → Reach v → Step v w → Reach w

  pub record Inv (w : World) : Type 0 where
    pub settled_fields : IsSettled w.fields.current w.fields.previous
    pub own : (l : String) → Memᴰ l w.labels → l ≢ "" → IsOwn l w.fields.current w.fields.previous

  stored_lem :
      (w : World) (rendered : String)
      → ((stored w rendered).current ≡ (plan_of w rendered).instance_uuid)
        × ((stored w rendered).previous ≡ (plan_of w rendered).previous_instance_uuid)
  unfolding store plan_identities
  stored_lem w rendered = ground arith

  module _ (v : World) (rendered : String) (h : Inv v) where
    stored-IsSettled : IsSettled (stored v rendered).current (stored v rendered).previous
    stored-IsSettled = ground (
      arith,
      stored_lem v rendered,
      plan-IsSettled v.fields.current v.fields.previous rendered fallback h.settled_fields,
    )

    stored-IsOwn :
        (l : String)
        → l ≢ ""
        → (plan_of v rendered).refused ≡ false
        → Memᴰ l v.labels ⊎ (l ≡ rendered)
        → IsOwn l (stored v rendered).current (stored v rendered).previous
    stored-IsOwn l ne ok (inl m) = ground (
      arith,
      stored_lem v rendered,
      plan-IsOwn v.fields.current v.fields.previous rendered fallback l h.settled_fields
          (inl (h.own l m ne)),
    )
    stored-IsOwn l ne ok (inr e) = ground (
      arith,
      stored_lem v rendered,
      plan-IsOwn v.fields.current v.fields.previous rendered fallback l h.settled_fields
          (inr (e, ne, ok)),
    )

    stored-current :
        (plan_of v rendered).refused ≡ false
        → rendered ≢ ""
        → (stored v rendered).current ≡ rendered
    stored-current ok ne =
        (stored_lem v rendered).0
        ∙ plan-current v.fields.current v.fields.previous rendered fallback ok ne

    no_op-previous : keeps_no_op (plan_of v rendered) true ≡ true → v.fields.previous ≡ ""
    no_op-previous keeps =
        (no_op_fill v.fields.current v.fields.previous rendered fallback h.settled_fields keeps).1

    no_op-current :
        keeps_no_op (plan_of v rendered) true ≡ true
        → v.fields.current ≢ ""
        → fill_empty (plan_of v rendered) v.fields.current ≡ v.fields.current
    no_op-current keeps =
        (no_op_fill v.fields.current v.fields.previous rendered fallback h.settled_fields keeps).0

  Step-Inv : {v w : World} → Step v w → Inv v → Inv w
  Step-Inv {v} (interrupted rendered labels ok each) h = record {
    settled_fields = stored-IsSettled v rendered h;
    own = λ l m ne. stored-IsOwn v rendered h l ne ok (each l m);
  }
  Step-Inv {v} (settled rendered labels ok each) h = record {
    settled_fields = record { named = λ x. absurd (x refl); distinct = λ x. absurd (x refl) };
    own = λ l m ne.
        (ne, inl (each l m ∙ sym (stored-current v rendered h ok (λ e. ne (each l m ∙ e)))));
  }
  Step-Inv {v} (no_op rendered keeps) h = record {
    settled_fields = record {
      named = λ x. absurd (x (no_op-previous v rendered h keeps));
      distinct = λ x. absurd (x (no_op-previous v rendered h keeps));
    };
    own = λ l m ne.
        ground (
          arith,
          h.own l m ne,
          no_op-previous v rendered h keeps,
          no_op-current v rendered h keeps,
        );
  }

  Reach-Inv : {w : World} → Reach w → Inv w
  Reach-Inv start = record {
    settled_fields = record { named = λ x. absurd (x refl); distinct = λ x. absurd (x refl) };
    own = λ l m ne. absurd (Memᴰ.not-nil m);
  }
  Reach-Inv (next r s) = Step-Inv s (Reach-Inv r)

  -- Whatever applies stopped half way, a prune or a deletion cleanup that judges with the recorded
  -- identities judges with the identity of every object the instance holds.
  pub labels_recorded :
      (w : World) (l : String)
      → Reach w
      → Memᴰ l w.labels
      → l ≢ ""
      → Memᴰ l (recorded_identities (w.fields.current ∷ w.fields.previous ∷ []))
  labels_recorded w l r m ne =
      mem_of_own l w.fields.current w.fields.previous ((Reach-Inv r).own l m ne)
