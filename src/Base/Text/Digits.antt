-- ===== src/Base/Text/Digits.antt =====
-- Decimal digits: what `decimal` writes of a number is read back as this number.
use Prim.Native.Nat.{ℕ, zero, suc, ◌+◌, ◌-◌, ◌*◌, ◌/◌, ◌%◌, ◌≤◌}
use mathlib.Core.Path.{◌≡◌, refl, ap, ◌∙◌}
use mathlib.Core.Bool.{true, ◌&&◌}
use mathlib.Core.List.{[], ◌∷◌}
use native.Mathlib.Omega.{arith}
use arda_wed_gateway.Base.Tests.{◌==◌, ==_iff, leb, if◌then◌else◌, if_cases}
use arda_wed_gateway.Base.Lists.{All}
use arda_wed_gateway.Base.Text.{Text, digits_of, decimal}
use arda_wed_gateway.Base.Word.{pos}

abbrev pub IsDigit : ℕ → Type 0
IsDigit c = (leb 48 c && leb c 57) ≡ true

-- Digits, and at least one.
abbrev pub IsNumber : Text → Type 0
IsNumber [] = ⊥
IsNumber (c ∷ cs) = IsDigit c × All IsDigit cs

-- The number of a text of digits, behind those read.
unfoldable pub number : ℕ → Text → ℕ
number n [] = n
number n (c ∷ cs) = number (n * 10 + (c - 48)) cs

-- One round.
digits_step :
    (fuel n : ℕ) (out : Text)
    → digits_of (suc fuel) n out
      ≡ (if n / 10 == 0 then (n % 10 + 48) ∷ out else digits_of fuel (n / 10) ((n % 10 + 48) ∷ out))
unfolding digits_of
digits_step fuel n out = refl

last-IsDigit : (n : ℕ) → IsDigit (n % 10 + 48)
last-IsDigit n = ground arith

digits_of-IsNumber :
    (fuel n : ℕ) (out : Text) → All IsDigit out → IsNumber (digits_of (suc fuel) n out)
digits_of-IsNumber zero n out h =
    unfold digits_of in
    if_cases IsNumber (n / 10 == 0) (λ e. (last-IsDigit n, h)) (λ e. (last-IsDigit n, h))
digits_of-IsNumber (suc fuel) n out h = rw (digits_step (suc fuel) n out) (
    if_cases IsNumber (n / 10 == 0) (λ e. (last-IsDigit n, h))
      (λ e. digits_of-IsNumber fuel (n / 10) ((n % 10 + 48) ∷ out) (last-IsDigit n, h)))

number_step :
    (k n : ℕ) (out : Text) → k * 10 + n % 10 ≡ n → number k ((n % 10 + 48) ∷ out) ≡ number n out
unfolding number
number_step k n out e = ap (λ (m : ℕ). number m out) (omega arith)

digits_of-number :
    (fuel n : ℕ) (out : Text) → n ≤ fuel → number 0 (digits_of (suc fuel) n out) ≡ number n out
digits_of-number zero n out h =
    unfold digits_of in
    if_cases (λ (t : Text). number 0 t ≡ number n out) (n / 10 == 0)
      (λ e. number_step 0 n out (omega arith)) (λ e. number_step 0 n out (omega arith))
digits_of-number (suc fuel) n out h = rw (digits_step (suc fuel) n out) (
    if_cases (λ (t : Text). number 0 t ≡ number n out) (n / 10 == 0)
      (λ e. number_step 0 n out (ground (arith, ==_iff (n / 10) 0)))
      (λ e.
        digits_of-number fuel (n / 10) ((n % 10 + 48) ∷ out) (ground (arith, ==_iff (n / 10) 0))
        ∙ number_step (n / 10) n out (omega arith)))

pub decimal-IsNumber : (n : ℕ) → IsNumber (decimal (pos n))
unfolding decimal
decimal-IsNumber n = digits_of-IsNumber n n [] tt

pub number-decimal : (n : ℕ) → number 0 (decimal (pos n)) ≡ n
unfolding decimal
number-decimal n = digits_of-number n n [] (omega arith) ∙ unfold number in refl
