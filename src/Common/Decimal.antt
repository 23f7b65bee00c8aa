-- ===== src/Common/Decimal.antt =====
-- The verb `%d` for a number that is not negative, and its reading by `strconv.Atoi`.
use Prim.Native.Nat.{ℕ, zero, suc, ◌+◌, ◌-◌, ◌*◌, ◌/◌, ◌%◌, ◌<◌}
use mathlib.Core.Path.{◌≡◌, refl, ap, ◌∙◌}
use mathlib.Core.Logic.{inl, inr}
use mathlib.Core.Bool.{true, false}
use mathlib.Core.Option.{Option, none, some}
use mathlib.Core.List.{[], ◌∷◌, ◌++◌}
use native.Mathlib.Omega.{arith}
use route_prism.Common.Tests.{ltb, if◌then◌else◌, Bool-cases}
use route_prism.Common.Lists.{All}
use route_prism.Common.Strings.{Str, is_empty}
use route_prism.Common.Atoi.{is_digit, digits_value, in_int_range, atoi_unsigned}

-- The digits of a number, where the fuel is above it.
pub decimal_with : ℕ → ℕ → Str
decimal_with zero n = []
decimal_with (suc f) n =
    let more = decimal_with f (n / 10) ++ (b'0' + n % 10) ∷ [] in
    if ltb n 10 then (b'0' + n) ∷ [] else more

unfoldable pub decimal : ℕ → Str
unfolding decimal_with
decimal n = decimal_with (suc n) n

abbrev then_value : Option ℕ → Str → Option ℕ
then_value none t = none
then_value (some acc) t = digits_value acc t

digits_value-append :
    (acc : ℕ) (s t : Str) → digits_value acc (s ++ t) ≡ then_value (digits_value acc s) t
unfolding digits_value
digits_value-append acc [] t = refl
digits_value-append acc (c ∷ s) t = elim (Bool-cases (is_digit c)) [
  | inl e ↦ rw e (digits_value-append (acc * 10 + (c - b'0')) s t)
  | inr e ↦ rw e refl
]

digits_value-decimal : (f n : ℕ) → n < f → digits_value 0 (decimal_with f n) ≡ some n
unfolding digits_value decimal_with
digits_value-decimal zero n h = elim h [ ]
digits_value-decimal (suc f) n h = elim (Bool-cases (ltb n 10)) [
  | inl e ↦ rw e (ground arith)
  | inr e ↦ rw e (
      digits_value-append 0 (decimal_with f (n / 10)) _
      ∙ ap (λ o. then_value o ((b'0' + n % 10) ∷ []))
          (digits_value-decimal f (n / 10) (ground arith))
      ∙ ground arith)
]

All-append : (P : ℕ → Type 0) (xs ys : Str) → All P xs → All P ys → All P (xs ++ ys)
All-append P [] ys h k = k
All-append P (x ∷ xs) ys (p, h) k = (p, All-append P xs ys h k)

decimal_with-digits : (f n : ℕ) → All (λ c. is_digit c ≡ true) (decimal_with f n)
unfolding decimal_with
decimal_with-digits zero n = tt
decimal_with-digits (suc f) n = elim (Bool-cases (ltb n 10)) [
  | inl e ↦ rw e (ground arith)
  | inr e ↦
      rw e
        (All-append _ (decimal_with f (n / 10)) _ (decimal_with-digits f (n / 10)) (ground arith))
]

pub decimal-digits : (n : ℕ) → All (λ c. is_digit c ≡ true) (decimal n)
unfolding decimal
decimal-digits n = decimal_with-digits (suc n) n

snoc_nonempty : (s : Str) (c : ℕ) → is_empty (s ++ c ∷ []) ≡ false
snoc_nonempty [] c = refl
snoc_nonempty (d ∷ s) c = refl

pub decimal_nonempty : (n : ℕ) → is_empty (decimal n) ≡ false
unfolding decimal decimal_with
decimal_nonempty n = elim (Bool-cases (ltb n 10)) [
  | inl e ↦ rw e refl
  | inr e ↦ rw e (snoc_nonempty (decimal_with n (n / 10)) _)
]

decimal-read : (n : ℕ) → digits_value 0 (decimal n) ≡ some n
unfolding decimal
decimal-read n = digits_value-decimal (suc n) n (omega arith)

-- An `int` that is printed is read back.
pub atoi_unsigned-decimal : (n : ℕ) → n < 9223372036854775808 → atoi_unsigned (decimal n) ≡ some n
unfolding atoi_unsigned
atoi_unsigned-decimal n h =
    let fits : in_int_range (some n) ≡ some n = ground arith in
    rw (decimal_nonempty n) (ap in_int_range (decimal-read n) ∙ fits)
