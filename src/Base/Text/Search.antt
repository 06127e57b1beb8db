-- ===== src/Base/Text/Search.antt =====
-- Searching and splitting: strings.Contains, Index, Split and HasSuffix.
use Prim.Native.Nat.{ℕ}
use mathlib.Core.Bool.{Bool, false, ◌||◌}
use mathlib.Core.Option.{Option, none, some}
use mathlib.Core.List.{List, [], ◌∷◌}
use arda_wed_gateway.Base.Tests.{◌==◌, if◌then◌else◌}
use arda_wed_gateway.Base.Lists.{length, drop}
use arda_wed_gateway.Base.Text.{Text, has_prefix}

-- strings.Contains
unfoldable pub contains : Text → Text → Bool
unfolding has_prefix
contains [] sub = has_prefix [] sub
contains (c ∷ cs) sub = has_prefix (c ∷ cs) sub || contains cs sub

-- strings.HasSuffix for a suffix of one character.
unfoldable pub ends_with : Text → ℕ → Bool
ends_with [] r = false
ends_with (c ∷ []) r = c == r
ends_with (c ∷ d ∷ cs) r = ends_with (d ∷ cs) r

abbrev pub behind : ℕ → Option (Text × Text) → Option (Text × Text)
behind c none = none
behind c (some (before, after)) = some (c ∷ before, after)

-- The text before and behind the first place where `sub` stands: strings.Index with the two slices.
unfoldable pub cut : Text → Text → Option (Text × Text)
cut [] sub = if has_prefix [] sub then some ([], []) else none
cut (c ∷ cs) sub =
    let later = cut cs sub in
    if has_prefix (c ∷ cs) sub then some ([], drop (length sub) (c ∷ cs)) else behind c later

abbrev pub extend_first : ℕ → List Text → List Text
extend_first c [] = (c ∷ []) ∷ []
extend_first c (l ∷ ls) = (c ∷ l) ∷ ls

-- strings.Split at one character
unfoldable pub split_on : ℕ → Text → List Text
split_on sep [] = [] ∷ []
split_on sep (c ∷ cs) =
    let rest = split_on sep cs in if c == sep then [] ∷ rest else extend_first c rest
