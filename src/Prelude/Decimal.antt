-- ===== src/Prelude/Decimal.antt =====
-- strconv: the decimal form of an int64, and fmt's %d.
use Prim.Native.Char.{code}
use Prim.Native.Nat.{ℕ, zero, suc, ◌/◌, ◌%◌, ◌+◌, ◌-◌, ◌*◌, ◌<◌, ◌≤◌}
use Prim.Native.String.append
use Prim.Native.String.{String, ◌++◌}
use mathlib.Core.Path.{◌≡◌, refl, sym, ap, ◌∙◌}
use mathlib.Core.Logic.{inl, inr}
use mathlib.Core.Bool.{Bool, true, false}
use native.Mathlib.Omega.{arith}
use opm_operator.Prelude.Tests.{ltb, ◌==◌, if◌then◌else◌, Bool-cases, ltb→lt}
use opm_operator.Prelude.Int64.{ℤ, pos, negsuc}

digit : ℕ → String
digit d =
    if d == 0
    then "0"
    else if d == 1
    then "1"
    else if d == 2
    then "2"
    else if d == 3
    then "3"
    else if d == 4
    then "4"
    else if d == 5
    then "5"
    else if d == 6
    then "6"
    else if d == 7
    then "7"
    else if d == 8
    then "8"
    else "9"

-- The digits of `n`, on fuel for one round per digit; `n + 1` rounds are enough.
decimal_from : ℕ → ℕ → String
unfolding digit
decimal_from zero n = ""
decimal_from (suc f) n =
    let rest = decimal_from f (n / 10) in if ltb n 10 then digit n else rest ++ digit (n % 10)

unfoldable pub decimal : ℕ → String
unfolding decimal_from
decimal n = decimal_from (suc n) n

-- strconv.FormatInt(i, 10)
unfoldable pub format_int : ℤ → String
unfolding decimal
format_int (pos n) = decimal n
format_int (negsuc n) = "-" ++ decimal (n + 1)

-- Reading digits, after those that made `acc`.
abbrev pub parse : (acc : ℕ) → String → ℕ
parse acc String.[] = acc
parse acc (String.◌∷◌ c s) = parse (acc * 10 + (code c - 48)) s

parse-append : (acc : ℕ) (x y : String) → parse acc (x ++ y) ≡ parse (parse acc x) y
parse-append acc String.[] y = ap (parse acc) (append.nil y)
parse-append acc (String.◌∷◌ c x) y =
    ap (parse acc) (append.cons c x y) ∙ parse-append (acc * 10 + (code c - 48)) x y

parse-digit : (acc d : ℕ) → d < 10 → parse acc (digit d) ≡ acc * 10 + d
unfolding digit
parse-digit acc zero h = omega arith
parse-digit acc (suc zero) h = omega arith
parse-digit acc (suc (suc zero)) h = omega arith
parse-digit acc (suc (suc (suc zero))) h = omega arith
parse-digit acc (suc (suc (suc (suc zero)))) h = omega arith
parse-digit acc (suc (suc (suc (suc (suc zero))))) h = omega arith
parse-digit acc (suc (suc (suc (suc (suc (suc zero)))))) h = omega arith
parse-digit acc (suc (suc (suc (suc (suc (suc (suc zero))))))) h = omega arith
parse-digit acc (suc (suc (suc (suc (suc (suc (suc (suc zero)))))))) h = omega arith
parse-digit acc (suc (suc (suc (suc (suc (suc (suc (suc (suc zero))))))))) h = omega arith
parse-digit acc (suc (suc (suc (suc (suc (suc (suc (suc (suc (suc d)))))))))) h =
    absurd (omega (h, arith))

ge : (n : ℕ) → ltb n 10 ≡ false → 10 ≤ n
ge n e = ground arith

shorter : (f n : ℕ) → 10 ≤ n → n < suc f → n / 10 < f
shorter f n g h = omega arith

parse-decimal_from : (f n : ℕ) → n < f → parse 0 (decimal_from f n) ≡ n
unfolding decimal_from
parse-decimal_from zero n h = absurd (omega (h, arith))
parse-decimal_from (suc f) n h = elim (Bool-cases (ltb n 10)) [
  | inl t ↦ rw (t, parse-digit 0 n (ltb→lt n 10 t)) (omega arith)
  | inr e ↦
      rw
        (
          e,
          parse-append,
          parse-decimal_from f (n / 10) (shorter f n (ge n e) h),
          parse-digit (n / 10) (n % 10) (omega arith),
        )
        (omega arith)
]

-- The decimal form of a number is read back as that number.
pub parse-decimal : (n : ℕ) → parse 0 (decimal n) ≡ n
unfolding decimal
parse-decimal n = parse-decimal_from (suc n) n (omega arith)

pub decimal_injective : (m n : ℕ) → decimal m ≡ decimal n → m ≡ n
decimal_injective m n e = sym (parse-decimal m) ∙ ap (parse 0) e ∙ parse-decimal n

abbrev pub no_colon : String → Bool
no_colon String.[] = true
no_colon (String.◌∷◌ c s) = if code c == 58 then false else no_colon s

no_colon-append : (x y : String) → no_colon x ≡ true → no_colon y ≡ true → no_colon (x ++ y) ≡ true
no_colon-append String.[] y h k = rw append.nil k
no_colon-append (String.◌∷◌ c x) y h k = rw append.cons (ground (arith, no_colon-append x y))

digit-no_colon : (d : ℕ) → d < 10 → no_colon (digit d) ≡ true
unfolding digit
digit-no_colon zero h = refl
digit-no_colon (suc zero) h = refl
digit-no_colon (suc (suc zero)) h = refl
digit-no_colon (suc (suc (suc zero))) h = refl
digit-no_colon (suc (suc (suc (suc zero)))) h = refl
digit-no_colon (suc (suc (suc (suc (suc zero))))) h = refl
digit-no_colon (suc (suc (suc (suc (suc (suc zero)))))) h = refl
digit-no_colon (suc (suc (suc (suc (suc (suc (suc zero))))))) h = refl
digit-no_colon (suc (suc (suc (suc (suc (suc (suc (suc zero)))))))) h = refl
digit-no_colon (suc (suc (suc (suc (suc (suc (suc (suc (suc zero))))))))) h = refl
digit-no_colon (suc (suc (suc (suc (suc (suc (suc (suc (suc (suc d)))))))))) h =
    absurd (omega (h, arith))

decimal_from-no_colon : (f n : ℕ) → no_colon (decimal_from f n) ≡ true
unfolding decimal_from
decimal_from-no_colon zero n = refl
decimal_from-no_colon (suc f) n = elim (Bool-cases (ltb n 10)) [
  | inl t ↦ rw t (digit-no_colon n (ltb→lt n 10 t))
  | inr e ↦ rw e (
      no_colon-append (decimal_from f (n / 10)) (digit (n % 10)) (decimal_from-no_colon f (n / 10))
        (digit-no_colon (n % 10) (omega arith)))
]

pub decimal-no_colon : (n : ℕ) → no_colon (decimal n) ≡ true
unfolding decimal
decimal-no_colon n = decimal_from-no_colon (suc n) n
