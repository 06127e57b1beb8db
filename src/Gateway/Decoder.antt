-- ===== src/Gateway/Decoder.antt =====
-- backend/internal/gateway/decoder.go: CP1251 to text, and the repair of a misplaced capital letter.
pub mod Repair
use arda_wed_gateway.Base.{
  ℕ, Bool, true, false, not, ◌&&◌, ◌||◌, Option, none, some, List, [], ◌∷◌, ◌==◌, leb,
  if◌then◌else◌,
}
use arda_wed_gateway.Base.Text.{Text, text_eq, contains_rune, replace_all, codes}
use arda_wed_gateway.Base.Text.Utf8.{rune_error, of_bytes}

-- The letters Я and я.
abbrev pub upper_ya : ℕ
upper_ya = 0x42F

abbrev pub lower_ya : ℕ
lower_ya = 0x44F

abbrev pub is_lower_cyrillic : ℕ → Bool
is_lower_cyrillic r =
    if r == 0 || r == rune_error
    then false
    else (if r == 0x451 then true else leb 0x430 r && leb r 0x44F)

-- One rune behind `prev`, which is 0 at the start of the text.
abbrev pub fix_rune : ℕ → ℕ → ℕ
fix_rune prev r = if r == upper_ya && is_lower_cyrillic prev then lower_ya else r

-- The loop over the runes and whether it changed one. The rune before is read as already written.
pub fix_runes : ℕ → Text → Text × Bool
fix_runes prev [] = ([], false)
fix_runes prev (r ∷ rs) =
    let rest = fix_runes (fix_rune prev r) rs in
    (fix_rune prev r ∷ rest.0, (r == upper_ya && is_lower_cyrillic prev) || rest.1)

pub fix_smaug_ya_artifact : Text → Text
unfolding contains_rune fix_runes text_eq
fix_smaug_ya_artifact text =
    if text_eq text [] || not (contains_rune text upper_ya)
    then text
    else (if (fix_runes 0 text).1 then (fix_runes 0 text).0 else text)

-- `windows1251` is the decoder of golang.org/x/text, `none` where it returns an error.
unfoldable pub decode : (List ℕ → Option Text) → List ℕ → Text
unfolding fix_smaug_ya_artifact replace_all
decode windows1251 [] = []
decode windows1251 (b ∷ bs) = elim (windows1251 (b ∷ bs)) [
  | none ↦ of_bytes (b ∷ bs)
  | some text ↦ fix_smaug_ya_artifact (replace_all text (13 ∷ 10 ∷ []) (10 ∷ []))
]
