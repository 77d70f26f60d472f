-- ===== src/Status/Digests.antt =====
-- internal/status/digests.go: the digests that decide whether a reconcile has anything to do, and
-- the key of the inputs a render is a function of. A character of a text stands for a byte.
pub mod Encoding
use Prim.Native.String.{◌++◌}
use opm_operator.Prelude.{
  ℕ, suc, String, Bool, true, false, not, ◌&&◌, ◌||◌, List, [], ◌∷◌, str_eq, if◌then◌else◌,
}
use opm_operator.Prelude.Decimal.{decimal}
use opm_operator.Prelude.Texts.{contains}

pub record DigestSet : Type 0 where
  pub source : String
  pub config : String
  pub render : String
  pub inventory : String

-- ModuleSourceDigest; `sha256` is the "sha256:<hex>" form of the hash.
unfoldable pub module_source_digest : (sha256 : String → String) → (path version : String) → String
module_source_digest sha256 path version = sha256 (path ++ ("@" ++ version))

-- IsNoOp
unfoldable pub is_no_op : (current last_applied : DigestSet) → Bool
is_no_op current last =
    if str_eq last.source ""
      || str_eq last.config ""
      || str_eq last.render ""
      || str_eq last.inventory ""
    then false
    else (str_eq current.source last.source
        && str_eq current.config last.config
        && str_eq current.render last.render
        && str_eq current.inventory last.inventory)

pub record RenderInputKey : Type 0 where
  pub source : String
  pub config : String
  pub package_identity : String
  pub skew_policy : String
  pub controller_version : String
  pub library_version : String

-- The parts of a key in their encoding order.
unfoldable pub parts : RenderInputKey → List String
parts k =
    k.source ∷ k.config ∷ k.package_identity ∷ k.skew_policy ∷ k.controller_version
    ∷ k.library_version ∷ []

-- Complete
unfoldable pub complete : RenderInputKey → Bool
unfolding parts
complete k = not (contains (parts k) "")

-- len(s): the bytes of a string.
unfoldable pub len : String → ℕ
len String.[] = 0
len (String.◌∷◌ c s) = suc (len s)

-- What Digest writes for one part.
unfoldable pub write_part : String → String
unfolding len
write_part s = decimal (len s) ++ (":" ++ s)

unfoldable pub write_parts : List String → String
unfolding write_part
write_parts [] = ""
write_parts (p ∷ ps) = write_part p ++ write_parts ps

abbrev pub render_inputs_encoding : String
render_inputs_encoding = "opm-render-inputs/v1"

-- What Digest hashes.
unfoldable pub encode_key : RenderInputKey → String
unfolding write_parts parts
encode_key k = write_parts (render_inputs_encoding ∷ parts k)

-- Digest
unfoldable pub key_digest : (sha256 : String → String) → RenderInputKey → String
unfolding encode_key
key_digest sha256 k = sha256 (encode_key k)
