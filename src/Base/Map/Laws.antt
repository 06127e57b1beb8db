-- ===== src/Base/Map/Laws.antt =====
-- Reading a map after a write.
use arda_wed_gateway.Base.Tests.{if◌then◌else◌}
use arda_wed_gateway.Base.Text.{Text, text_eq, text_eq→eq}
use arda_wed_gateway.Base.Map.{Map, lookup, insert, delete}
use mathlib.Core.Path.{◌≡◌, refl}
use mathlib.Core.Bool.{true}
use mathlib.Core.Option.{none, some}
use mathlib.Core.List.{[], ◌∷◌}
use native.Mathlib.Omega.{arith}

-- Equal keys cannot be told apart by a third.
pub text_eq_other : (i j k : Text) → text_eq i k ≡ true → text_eq i j ≡ text_eq k j
text_eq_other i j k h = cc (text_eq→eq i k h)

text_eq_third : (i k j : Text) → text_eq k j ≡ true → text_eq i k ≡ text_eq i j
text_eq_third i k j h = cc (text_eq→eq k j h)

module _ {ℓ} {V : Type ℓ} where
  pub lookup-insert :
      (k j : Text) (v : V) (m : Map V)
      → lookup j (insert k v m) ≡ (if text_eq k j then some v else lookup j m)
  unfolding lookup insert
  lookup-insert k j v [] = refl
  lookup-insert k j v ((i, w) ∷ m) =
      ground (arith, text_eq_other i j k, text_eq_third i k j, lookup-insert k j v m)

  pub lookup-delete :
      (k j : Text) (m : Map V) → lookup j (delete k m) ≡ (if text_eq k j then none else lookup j m)
  unfolding lookup delete
  lookup-delete k j [] = ground arith
  lookup-delete k j ((i, w) ∷ m) =
      ground (arith, text_eq_other i j k, text_eq_third i k j, lookup-delete k j m)
