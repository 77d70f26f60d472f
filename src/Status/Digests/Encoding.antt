-- ===== src/Status/Digests/Encoding.antt =====
-- No two keys are encoded alike.
use Prim.Native.Char.{code}
use Prim.Native.String.append
use Prim.Native.String.{◌++◌}
use opm_operator.Prelude.{
  String, ◌≡◌, ◌≢◌, ◌↔◌, refl, sym, ap, ◌∙◌, true, List, [], ◌∷◌, arith, eq_iff, length,
}
use opm_operator.Prelude.Decimal.{decimal, decimal_injective, no_colon, decimal-no_colon}
use opm_operator.Status.Digests.{
  DigestSet, is_no_op, RenderInputKey, parts, len, write_part, write_parts, render_inputs_encoding,
  encode_key,
}

abbrev pub empty : String
empty = ""

-- Two texts of one length in front of two texts: what the concatenations fix.
append_injective : (x y r s : String) → len x ≡ len y → x ++ r ≡ y ++ s → (x ≡ y) × (r ≡ s)
unfolding len
append_injective String.[] String.[] r s l e = (refl, cc (append.nil r, append.nil s, e))
append_injective String.[] (String.◌∷◌ d y) r s l e = absurd (omega (l, arith))
append_injective (String.◌∷◌ c x) String.[] r s l e = absurd (omega (l, arith))
append_injective (String.◌∷◌ c x) (String.◌∷◌ d y) r s l e =
    let rest : x ++ r ≡ y ++ s = cc (append.cons c x r, append.cons d y s, e) in
    let head : c ≡ d = cc (append.cons c x r, append.cons d y s, e) in
    let (t, u) = append_injective x y r s (omega (l, arith)) rest in (cc (head, t), u)

colon_injective :
    (x y r s : String)
    → no_colon x ≡ true
    → no_colon y ≡ true
    → x ++ String.◌∷◌ ":" r ≡ y ++ String.◌∷◌ ":" s
    → (x ≡ y) × (r ≡ s)
colon_injective String.[] String.[] r s h k e =
    (refl, cc (append.nil (String.◌∷◌ ":" r), append.nil (String.◌∷◌ ":" s), e))
colon_injective String.[] (String.◌∷◌ d y) r s h k e =
    let head : ":" ≡ d =
      cc (append.nil (String.◌∷◌ ":" r), append.cons d y (String.◌∷◌ ":" s), e) in
    absurd (ground (arith, k, ap code head))
colon_injective (String.◌∷◌ c x) String.[] r s h k e =
    let head : c ≡ ":" =
      cc (append.nil (String.◌∷◌ ":" s), append.cons c x (String.◌∷◌ ":" r), e) in
    absurd (ground (arith, h, ap code head))
colon_injective (String.◌∷◌ c x) (String.◌∷◌ d y) r s h k e =
    let head : c ≡ d =
      cc (append.cons c x (String.◌∷◌ ":" r), append.cons d y (String.◌∷◌ ":" s), e) in
    let rest : x ++ String.◌∷◌ ":" r ≡ y ++ String.◌∷◌ ":" s =
      cc (append.cons c x (String.◌∷◌ ":" r), append.cons d y (String.◌∷◌ ":" s), e) in
    let (t, u) = colon_injective x y r s (ground (arith, h)) (ground (arith, k)) rest in
    (cc (head, t), u)

append_assoc : (x y z : String) → (x ++ y) ++ z ≡ x ++ (y ++ z)
append_assoc String.[] y z = cc (append.nil y, append.nil (y ++ z))
append_assoc (String.◌∷◌ c x) y z =
    cc (append.cons c x y, append.cons c (x ++ y) z, append.cons c x (y ++ z), append_assoc x y z)

write_part-append :
    (p rest : String) → write_part p ++ rest ≡ decimal (len p) ++ String.◌∷◌ ":" (p ++ rest)
unfolding write_part
write_part-append p rest = cc (
  append_assoc (decimal (len p)) (":" ++ p) rest,
  append.cons ":" "" p,
  append.nil p,
  append.cons ":" p rest,
)

write_part_injective :
    (p q r s : String) → write_part p ++ r ≡ write_part q ++ s → (p ≡ q) × (r ≡ s)
write_part_injective p q r s e =
    let (same, rest) =
      colon_injective (decimal (len p)) (decimal (len q)) (p ++ r) (q ++ s)
        (decimal-no_colon (len p)) (decimal-no_colon (len q))
        (sym (write_part-append p r) ∙ e ∙ write_part-append q s) in
    append_injective p q r s (decimal_injective (len p) (len q) same) rest

write_parts_injective :
    (ps qs : List String) → length ps ≡ length qs → write_parts ps ≡ write_parts qs → ps ≡ qs
unfolding write_parts
write_parts_injective [] [] l e = refl
write_parts_injective [] (q ∷ qs) l e = absurd (omega (l, arith))
write_parts_injective (p ∷ ps) [] l e = absurd (omega (l, arith))
write_parts_injective (p ∷ ps) (q ∷ qs) l e =
    let (same, rest) = write_part_injective p q (write_parts ps) (write_parts qs) e in
    cc (same, write_parts_injective ps qs (omega (l, arith)) rest)

-- The encoding that a key's digest hashes is unambiguous: two keys with the same encoding are the
-- same key, part for part.
pub encode_key_injective : (j k : RenderInputKey) → encode_key j ≡ encode_key k → j ≡ k
unfolding encode_key parts
encode_key_injective j k e = ground (
  arith,
  write_parts_injective (render_inputs_encoding ∷ parts j) (render_inputs_encoding ∷ parts k)
      (omega arith) e,
)

-- A reconcile is a no-op exactly when every digest was applied before and is unchanged: a digest
-- that is missing on either side never counts as unchanged.
pub is_no_op_iff :
    (current last : DigestSet)
    → (is_no_op current last ≡ true) ↔ (
        (current ≡ last)
        × (last.source ≢ empty)
        × (last.config ≢ empty)
        × (last.render ≢ empty)
        × (last.inventory ≢ empty))
unfolding is_no_op
is_no_op_iff current last = ground (
  arith,
  eq_iff last.source "",
  eq_iff last.config "",
  eq_iff last.render "",
  eq_iff last.inventory "",
  eq_iff current.source last.source,
  eq_iff current.config last.config,
  eq_iff current.render last.render,
  eq_iff current.inventory last.inventory,
)
