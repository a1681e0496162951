-- ===== src/Common/Decimal.antt =====
-- `n.toString(10)` of a bigint, and `BigInt(text)` on the texts that the source's patterns accept.
use Prim.Native.Nat.{ℕ, zero, suc, ◌+◌, ◌-◌, ◌*◌, ◌/◌, ◌%◌, ◌<◌}
use mathlib.Core.Path.{◌≡◌, refl, ap, ◌∙◌}
use mathlib.Core.Bool.{Bool, true, false, ◌&&◌}
use mathlib.Core.List.{[], ◌∷◌}
use native.Mathlib.Omega.{arith}
use x402_xec.Common.Tests.{ltb, leb, if◌then◌else◌, all, Bool-cases}
use x402_xec.Common.Strings.{Text}
use mathlib.Core.Logic.{inl, inr}

abbrev pub is_digit : ℕ → Bool
is_digit c = leb b'0' c && leb c b'9'

-- The digits of `n`, in front of `out`. Fuel above `n` is enough.
digits_onto : ℕ → ℕ → Text → Text
digits_onto zero n out = out
digits_onto (suc f) n out =
    let more = digits_onto f (n / 10) ((b'0' + n % 10) ∷ out) in
    if ltb n 10 then (b'0' + n) ∷ out else more

unfoldable pub to_decimal : ℕ → Text
unfolding digits_onto
to_decimal n = digits_onto (suc n) n []

-- The value of a text of digits, read onto `acc`.
unfoldable pub value_onto : ℕ → Text → ℕ
value_onto acc [] = acc
value_onto acc (c ∷ s) = value_onto (acc * 10 + (c - b'0')) s

unfoldable pub of_decimal : Text → ℕ
unfolding value_onto
of_decimal s = value_onto 0 s

-- `/^[1-9][0-9]*$/`
unfoldable pub is_positive_decimal : Text → Bool
is_positive_decimal [] = false
is_positive_decimal (c ∷ s) = leb b'1' c && leb c b'9' && all is_digit s

value_onto-digits_onto :
    (f n : ℕ) (out : Text) → n < f → value_onto 0 (digits_onto f n out) ≡ value_onto n out
unfolding digits_onto value_onto
value_onto-digits_onto zero n out h = elim h [ ]
value_onto-digits_onto (suc f) n out h = elim (Bool-cases (ltb n 10)) [
  | inl small ↦ rw small (ap (λ (m : ℕ). value_onto m out) (omega arith))
  | inr large ↦ rw large (
      value_onto-digits_onto f (n / 10) ((b'0' + n % 10) ∷ out) (ground arith)
      ∙ ap (λ (m : ℕ). value_onto m out) (omega arith))
]

-- A number that is printed is read back.
pub of_decimal-to_decimal : (n : ℕ) → of_decimal (to_decimal n) ≡ n
unfolding of_decimal to_decimal value_onto
of_decimal-to_decimal n = value_onto-digits_onto (suc n) n [] (omega arith)

digits_onto_head :
    (f n : ℕ) (out : Text)
    → n < f
    → 0 < n
    → all is_digit out ≡ true
    → is_positive_decimal (digits_onto f n out) ≡ true
unfolding digits_onto is_positive_decimal
digits_onto_head zero n out h p q = elim h [ ]
digits_onto_head (suc f) n out h p q = elim (Bool-cases (ltb n 10)) [
  | inl small ↦ rw small (ground arith)
  | inr large ↦ rw large (
      digits_onto_head f (n / 10) ((b'0' + n % 10) ∷ out) (ground arith) (ground arith)
        (ground arith))
]

-- A positive number is printed with no leading zero.
pub to_decimal-is_positive : (n : ℕ) → 0 < n → is_positive_decimal (to_decimal n) ≡ true
unfolding to_decimal
to_decimal-is_positive n h = digits_onto_head (suc n) n [] (omega arith) h refl
