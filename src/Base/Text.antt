-- ===== src/Base/Text.antt =====
-- Go strings as lists of code points, with what the backend calls of the packages strings and utf8.
pub mod Utf8
pub mod Order
pub mod Space
pub mod Search
pub mod Digits
pub mod Trim
use Prim.Native.Nat.{ℕ, zero, suc, ◌+◌, ◌-◌, ◌/◌, ◌%◌}
use Prim.Native.Char.{code}
use Prim.Native.String.{String}
use Prim.Native.String
use mathlib.Core.Path.{◌≡◌, refl, ap}
use mathlib.Core.Logic.{◌↔◌}
use mathlib.Core.Bool.{Bool, true, false, ◌&&◌, ◌||◌}
use mathlib.Core.List.{List, [], ◌∷◌, ◌++◌}
use native.Mathlib.Omega.{arith}
use arda_wed_gateway.Base.Tests.{◌==◌, if◌then◌else◌}
use arda_wed_gateway.Base.Lists.{length}
use arda_wed_gateway.Base.Word.{ℤ, pos, negsuc}

abbrev pub Text : Type 0
Text = List ℕ

-- The code points of a literal.
abbrev pub codes : String → Text
codes String.[] = []
codes (String.◌∷◌ c s) = code c ∷ codes s

-- Equality of strings.
unfoldable pub text_eq : Text → Text → Bool
text_eq [] [] = true
text_eq [] (y ∷ ys) = false
text_eq (x ∷ xs) [] = false
text_eq (x ∷ xs) (y ∷ ys) = x == y && text_eq xs ys

pub text_eq_refl : (s : Text) → text_eq s s ≡ true
unfolding text_eq
text_eq_refl [] = refl
text_eq_refl (x ∷ xs) = ground (arith, text_eq_refl xs)

pub text_eq→eq : (s t : Text) → text_eq s t ≡ true → s ≡ t
unfolding text_eq
text_eq→eq [] [] h = refl
text_eq→eq [] (y ∷ ys) h = cc
text_eq→eq (x ∷ xs) [] h = cc
text_eq→eq (x ∷ xs) (y ∷ ys) h = ground (arith, text_eq→eq xs ys)

-- strings.HasPrefix
unfoldable pub has_prefix : Text → Text → Bool
has_prefix s [] = true
has_prefix [] (p ∷ ps) = false
has_prefix (c ∷ cs) (p ∷ ps) = c == p && has_prefix cs ps

-- strings.ContainsRune
unfoldable pub contains_rune : Text → ℕ → Bool
contains_rune [] r = false
contains_rune (c ∷ cs) r = c == r || contains_rune cs r

-- strings.ReplaceAll for a non-empty `old`; `skip` counts the characters of a match still to pass.
unfoldable pub replace_from : ℕ → Text → Text → Text → Text
replace_from skip old new [] = []
replace_from (suc skip) old new (c ∷ cs) = replace_from skip old new cs
replace_from zero old new (c ∷ cs) = elim (has_prefix (c ∷ cs) old) [
  | true ↦ new ++ replace_from (length old - 1) old new cs
  | false ↦ c ∷ replace_from 0 old new cs
]

unfoldable pub replace_all : Text → Text → Text → Text
unfolding replace_from has_prefix
replace_all s old new = replace_from 0 old new s

-- The decimal digits of a number; one more round than the number has value is enough.
digits_of : ℕ → ℕ → Text → Text
digits_of zero n out = out
digits_of (suc fuel) n out =
    let rest = digits_of fuel (n / 10) ((n % 10 + 48) ∷ out) in
    if n / 10 == 0 then (n % 10 + 48) ∷ out else rest

-- `%d` of fmt.Sprintf
unfoldable pub decimal : ℤ → Text
unfolding digits_of
decimal (pos n) = digits_of (suc n) n []
decimal (negsuc n) = b'-' ∷ digits_of (suc (suc n)) (suc n) []
