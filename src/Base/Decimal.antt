-- ===== src/Base/Decimal.antt =====
-- Decimal numbers: what `{}` prints, `parse` reads back.
use agora_protocol.Base.Tests.{ltb, Bool-cases}
use agora_protocol.Base.Strings.{Text, decimal, decimal_go, is_digit}
use agora_protocol.Base.Lists.{All, is_empty}
use Prim.Native.Nat.{ℕ, zero, suc, ◌+◌, ◌-◌, ◌*◌, ◌/◌, ◌%◌, ◌<◌}
use mathlib.Core.Path.{◌≡◌, refl, sym, ap, ◌∙◌}
use mathlib.Core.Logic.{inl, inr}
use mathlib.Core.List.{[], ◌∷◌}
use mathlib.Core.Bool.{true, false}
use native.Mathlib.Omega.{arith}

unfoldable pub digits_value : ℕ → Text → ℕ
digits_value a [] = a
digits_value a (c ∷ s) = digits_value (a * 10 + (c - b'0')) s

digits_value-decimal_go :
    (f n : ℕ) (acc : Text) → n < f → digits_value 0 (decimal_go f n acc) ≡ digits_value n acc
unfolding digits_value decimal_go
digits_value-decimal_go zero n acc h = absurd (omega arith)
digits_value-decimal_go (suc f) n acc h = elim (Bool-cases (ltb n 10)) [
  | inl e ↦ rw e (ap (λ t. digits_value t acc) (omega arith))
  | inr e ↦ rw e (
      digits_value-decimal_go f (n / 10) ((b'0' + n % 10) ∷ acc) (ground arith)
      ∙ ap (λ t. digits_value t acc) (omega arith))
]

pub digits_value-decimal : (n : ℕ) → digits_value 0 (decimal n) ≡ n
unfolding decimal
digits_value-decimal n =
    digits_value-decimal_go (suc n) n [] (omega arith) ∙ (unfold digits_value in refl)

-- Different numbers are printed differently.
pub decimal_injective : (m n : ℕ) → decimal m ≡ decimal n → m ≡ n
decimal_injective m n e =
    sym (digits_value-decimal m) ∙ ap (digits_value 0) e ∙ digits_value-decimal n

decimal_go-digits :
    (f n : ℕ) (acc : Text)
    → All (λ c. is_digit c ≡ true) acc
    → All (λ c. is_digit c ≡ true) (decimal_go f n acc)
unfolding decimal_go
decimal_go-digits zero n acc h = h
decimal_go-digits (suc f) n acc h = elim (Bool-cases (ltb n 10)) [
  | inl e ↦ rw e (ground arith, h)
  | inr e ↦ rw e (decimal_go-digits f (n / 10) ((b'0' + n % 10) ∷ acc) (ground arith, h))
]

pub decimal-digits : (n : ℕ) → All (λ c. is_digit c ≡ true) (decimal n)
unfolding decimal
decimal-digits n = decimal_go-digits (suc n) n [] tt

decimal_go-nonempty :
    (f n : ℕ) (acc : Text) → is_empty acc ≡ false → is_empty (decimal_go f n acc) ≡ false
unfolding decimal_go
decimal_go-nonempty zero n acc h = h
decimal_go-nonempty (suc f) n acc h = elim (Bool-cases (ltb n 10)) [
  | inl e ↦ rw e refl
  | inr e ↦ rw e (decimal_go-nonempty f (n / 10) ((b'0' + n % 10) ∷ acc) refl)
]

pub decimal-nonempty : (n : ℕ) → is_empty (decimal n) ≡ false
unfolding decimal decimal_go
decimal-nonempty n = elim (Bool-cases (ltb n 10)) [
  | inl e ↦ rw e refl
  | inr e ↦ rw e (decimal_go-nonempty n (n / 10) ((b'0' + n % 10) ∷ []) refl)
]
