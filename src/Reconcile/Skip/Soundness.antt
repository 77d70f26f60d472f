-- ===== src/Reconcile/Skip/Soundness.antt =====
-- A skipped render would have had the inputs of the latest render.
use opm_operator.Prelude.{
  ℕ, String, ◌≡◌, ◌⊎◌, true, false, if◌then◌else◌, List, [], ◌∷◌, Option, none, some,
}
use opm_operator.Prelude.Int64.{ℤ, pos, leb_ℤ}
use opm_operator.Status.Digests.{RenderInputKey, key_digest}
use opm_operator.Status.Conditions.{Condition}
use opm_operator.Reconcile.Skip.{RenderInputs, record_inputs, no_op_inputs, is_ready}

-- How a reconcile that rendered ended: its status is stored with its inputs, without them, as that of
-- a failure, with its conditions alone, or not at all.
pub data Render : Type 0 where
  recorded_render : RenderInputKey → ℕ → Render
  idle_render failed_render torn_render lost_render : RenderInputKey → Render

-- The latest render that recorded its inputs
abbrev pub last_recorded : List Render → Option (RenderInputKey × ℕ)
last_recorded [] = none
last_recorded (recorded_render key at ∷ log) = some (key, at)
last_recorded (idle_render key ∷ log) = last_recorded log
last_recorded (failed_render key ∷ log) = last_recorded log
last_recorded (torn_render key ∷ log) = last_recorded log
last_recorded (lost_render key ∷ log) = last_recorded log

-- The latest render whose status was stored
abbrev pub latest_stored : List Render → Option Render
latest_stored [] = none
latest_stored (recorded_render key at ∷ log) = some (recorded_render key at)
latest_stored (idle_render key ∷ log) = some (idle_render key)
latest_stored (failed_render key ∷ log) = some (failed_render key)
latest_stored (torn_render key ∷ log) = some (torn_render key)
latest_stored (lost_render key ∷ log) = latest_stored log

module _ (sha256 : String → String) where
  -- The status as it is stored, beside the renders so far, the latest first
  pub record World : Type 0 where
    pub field : Option RenderInputs
    pub conditions : List Condition
    pub renders : List Render

  -- What a reconcile stores. One that applied records its inputs; a no-op records them where the
  -- interval is positive; a failed one records none and is not Ready. Of one whose status
  -- patch fails the conditions may be stored alone, or nothing. Any other write of the conditions, such as a skip or a suspension, makes no
  -- object Ready that was not.
  pub data Step (w : World) : World → Type 0 where
    applies :
        (key : RenderInputKey) (now : ℕ) (conditions : List Condition)
        → Step w (record {
          field = record_inputs sha256 w.field (some key) now;
          conditions = conditions;
          renders = recorded_render key now ∷ w.renders;
        })
    is_idle :
        (interval : ℤ) (key : RenderInputKey) (now : ℕ) (conditions : List Condition)
        → Step w (record {
          field = record_inputs sha256 w.field (no_op_inputs sha256 interval (some key)) now;
          conditions = conditions;
          renders =
              (if leb_ℤ interval (pos 0) then idle_render key else recorded_render key now)
              ∷ w.renders;
        })
    fails :
        (key : RenderInputKey) (conditions : List Condition)
        → is_ready sha256 conditions ≡ false
        → Step w (record {
          field = w.field;
          conditions = conditions;
          renders = failed_render key ∷ w.renders;
        })
    is_torn :
        (key : RenderInputKey) (conditions : List Condition)
        → Step w (record w { conditions = conditions; renders = torn_render key ∷ w.renders })
    is_lost : (key : RenderInputKey) → Step w (record w { renders = lost_render key ∷ w.renders })
    marks :
        (conditions : List Condition)
        → (is_ready sha256 conditions ≡ true → is_ready sha256 w.conditions ≡ true)
        → Step w (record w { conditions = conditions })

  pub data Reach : World → Type 0 where
    start :
        (conditions : List Condition)
        → Reach (record { field = none; conditions = conditions; renders = [] })
    next : {v w : World} → Reach v → Step v w → Reach w

  -- The latest stored render recorded this key at this time, or was a no-op that records nothing, or
  -- one of which the conditions alone were stored.
  abbrev pub IsLatest : RenderInputKey → ℕ → List Render → Type 0
  IsLatest key at log =
      (latest_stored log ≡ some (recorded_render key at))
      ⊎ ((k : RenderInputKey) × (latest_stored log ≡ some (idle_render k)))
      ⊎ ((k : RenderInputKey) × (latest_stored log ≡ some (torn_render k)))

  -- The field is empty or names the latest render that recorded its inputs, and an object that is
  -- Ready did not fail since.
  pub record IsNamed (w : World) : Type 0 where
    pub key : RenderInputKey
    pub at : ℕ
    pub latest : last_recorded w.renders ≡ some (key, at)
    pub field : w.field ≡ some (record { digest = key_digest sha256 key; rendered_at = at })
    pub unfailed : is_ready sha256 w.conditions ≡ true → IsLatest key at w.renders

  abbrev Inv : World → Type 0
  Inv w = (w.field ≡ none) ⊎ IsNamed w
