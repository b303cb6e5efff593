-- ===== src/Base/Decimal.antt =====
-- `${n}`: the decimal spelling of a number.
use Prim.Native.Nat.{ℕ, zero, suc, ◌+◌, ◌-◌, ◌*◌, ◌/◌, ◌%◌, ◌<◌}
use mathlib.Core.Path.{◌≡◌, ap, ◌∙◌}
use mathlib.Core.Logic.{◌≢◌, inl, inr}
use mathlib.Core.Bool.{true}
use mathlib.Core.List.{[], ◌∷◌}
use native.Mathlib.Omega.{arith}
use gitglasses.Base.Tests.{ltb, ltb→le, if◌then◌else◌, Bool-cases}
use gitglasses.Base.Lists.{All}
use gitglasses.Base.Texts.{Text, is_digit}

pub digits_of : ℕ → ℕ → Text → Text
digits_of zero n acc = acc
digits_of (suc fuel) n acc =
    let more = digits_of fuel (n / 10) ((n % 10 + b'0') ∷ acc) in
    if ltb n 10 then (n + b'0') ∷ acc else more

unfoldable pub decimal : ℕ → Text
unfolding digits_of
decimal n = digits_of (suc n) n []

-- `Number(digits)`, for a text of digits.
abbrev pub number_of : ℕ → Text → ℕ
number_of n [] = n
number_of n (c ∷ s) = number_of (n * 10 + (c - b'0')) s

abbrev pub AreDigits : Text → Type 0
AreDigits = All (λ c. is_digit c ≡ true)

digits_of-AreDigits :
    (fuel n : ℕ) (acc : Text) → n < fuel → AreDigits acc → AreDigits (digits_of fuel n acc)
unfolding digits_of
digits_of-AreDigits zero n acc h d = elim h [ ]
digits_of-AreDigits (suc fuel) n acc h d = elim (Bool-cases (ltb n 10)) [
  | inl small ↦ rw small (ground arith, d)
  | inr big ↦
      rw big
        (digits_of-AreDigits fuel (n / 10) _ (omega (arith, ltb→le n 10 big)) (ground arith, d))
]

number_of-digits_of :
    (fuel n : ℕ) (acc : Text) → n < fuel → number_of 0 (digits_of fuel n acc) ≡ number_of n acc
unfolding digits_of
number_of-digits_of zero n acc h = elim h [ ]
number_of-digits_of (suc fuel) n acc h = elim (Bool-cases (ltb n 10)) [
  | inl small ↦ rw small (ap (λ k. number_of k acc) (omega arith))
  | inr big ↦ rw big (
      number_of-digits_of fuel (n / 10) _ (omega (arith, ltb→le n 10 big))
      ∙ ap (λ k. number_of k acc) (omega arith))
]

digits_of-ne-nil : (fuel n : ℕ) (acc : Text) → n < fuel → digits_of fuel n acc ≢ []
unfolding digits_of
digits_of-ne-nil zero n acc h = elim h [ ]
digits_of-ne-nil (suc fuel) n acc h =
    ground (arith, digits_of-ne-nil fuel (n / 10) ((n % 10 + b'0') ∷ acc))

pub decimal-AreDigits : (n : ℕ) → AreDigits (decimal n)
unfolding decimal
decimal-AreDigits n = digits_of-AreDigits (suc n) n [] (omega arith) tt

-- Reading the decimal spelling of a number gives the number.
pub number_of-decimal : (n : ℕ) → number_of 0 (decimal n) ≡ n
unfolding decimal
number_of-decimal n = number_of-digits_of (suc n) n [] (omega arith)

pub decimal-ne-nil : (n : ℕ) → decimal n ≢ []
unfolding decimal
decimal-ne-nil n = digits_of-ne-nil (suc n) n [] (omega arith)
