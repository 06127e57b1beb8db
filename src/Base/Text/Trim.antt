-- ===== src/Base/Text/Trim.antt =====
-- Trimming twice is trimming once.
use mathlib.Core.Path.{◌≡◌, refl, ap, ◌∙◌}
use mathlib.Core.Bool.{false, ◌&&◌}
use mathlib.Core.Logic.{inl, inr}
use mathlib.Core.List.{[], ◌∷◌}
use arda_wed_gateway.Base.Tests.{Bool-cases}
use arda_wed_gateway.Base.Text.{Text, text_eq}
use arda_wed_gateway.Base.Text.Space.{is_space, trim_left, trim_right, trim_space}

-- A text that is empty or starts with no white space.
abbrev IsFlush : Text → Type 0
IsFlush [] = Unit {0}
IsFlush (c ∷ cs) = is_space c ≡ false

trim_left-IsFlush : (s : Text) → IsFlush (trim_left s)
unfolding trim_left
trim_left-IsFlush [] = tt
trim_left-IsFlush (c ∷ cs) = elim (Bool-cases (is_space c)) [
  | inl e ↦ rw e (trim_left-IsFlush cs)
  | inr e ↦ rw e e
]

trim_right-IsFlush : (s : Text) → IsFlush s → IsFlush (trim_right s)
unfolding trim_right
trim_right-IsFlush [] h = tt
trim_right-IsFlush (c ∷ cs) h = rw h h

trim_left-flush : (s : Text) → IsFlush s → trim_left s ≡ s
unfolding trim_left
trim_left-flush [] h = refl
trim_left-flush (c ∷ cs) h = rw h refl

trim_right-trim_right : (s : Text) → trim_right (trim_right s) ≡ trim_right s
unfolding trim_right
trim_right-trim_right [] = refl
trim_right-trim_right (c ∷ cs) = elim (Bool-cases (is_space c && text_eq (trim_right cs) [])) [
  | inl e ↦ rw e refl
  | inr e ↦ rw (e, trim_right-trim_right cs, e) refl
]

pub trim_space-trim_space : (s : Text) → trim_space (trim_space s) ≡ trim_space s
unfolding trim_space
trim_space-trim_space s =
    ap trim_right (trim_left-flush _ (trim_right-IsFlush (trim_left s) (trim_left-IsFlush s)))
    ∙ trim_right-trim_right (trim_left s)
