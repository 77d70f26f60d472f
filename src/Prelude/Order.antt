-- ===== src/Prelude/Order.antt =====
-- Go's order of strings: byte by byte, which on UTF-8 is the order of the code points.
use Prim.Native.Char.{code}
use Prim.Native.String.{String}
use mathlib.Core.Path.{◌≡◌, refl, ap₂}
use mathlib.Core.Bool.{Bool, true, false}
use native.Mathlib.Omega.{arith}
use text.Mathlib.TextEquality.{Char-path}
use opm_operator.Prelude.Tests.{ltb, ◌==◌, if◌then◌else◌}

-- s < t
unfoldable pub text_ltb : String → String → Bool
text_ltb String.[] String.[] = false
text_ltb String.[] (String.◌∷◌ d t) = true
text_ltb (String.◌∷◌ c s) String.[] = false
text_ltb (String.◌∷◌ c s) (String.◌∷◌ d t) =
    let rest = text_ltb s t in
    if ltb (code c) (code d) then true else if code c == code d then rest else false

pub text_ltb_irrefl : (s : String) → text_ltb s s ≡ false
unfolding text_ltb
text_ltb_irrefl String.[] = refl
text_ltb_irrefl (String.◌∷◌ c s) = ground (arith, text_ltb_irrefl s)

pub text_ltb_trans :
    (s t u : String) → text_ltb s t ≡ true → text_ltb t u ≡ true → text_ltb s u ≡ true
unfolding text_ltb
text_ltb_trans String.[] String.[] u h k = cc
text_ltb_trans String.[] (String.◌∷◌ d t) String.[] h k = cc
text_ltb_trans String.[] (String.◌∷◌ d t) (String.◌∷◌ e u) h k = refl
text_ltb_trans (String.◌∷◌ c s) String.[] u h k = cc
text_ltb_trans (String.◌∷◌ c s) (String.◌∷◌ d t) String.[] h k = cc
text_ltb_trans (String.◌∷◌ c s) (String.◌∷◌ d t) (String.◌∷◌ e u) h k =
    ground (arith, text_ltb_trans s t u)

-- Two texts of which neither is smaller are equal.
pub text_ltb_connex : (s t : String) → text_ltb s t ≡ false → text_ltb t s ≡ false → s ≡ t
unfolding text_ltb
text_ltb_connex String.[] String.[] h k = refl
text_ltb_connex String.[] (String.◌∷◌ d t) h k = cc
text_ltb_connex (String.◌∷◌ c s) String.[] h k = cc
text_ltb_connex (String.◌∷◌ c s) (String.◌∷◌ d t) h k =
    ap₂ String.◌∷◌ (Char-path c d (ground arith))
      (text_ltb_connex s t (ground arith) (ground arith))

pub text_ltb_asymm : (s t : String) → text_ltb s t ≡ true → text_ltb t s ≡ false
text_ltb_asymm s t h = ground (arith, text_ltb_trans s t s, text_ltb_irrefl s)
