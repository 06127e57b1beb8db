-- ===== src/State/Parser/Location.antt =====
-- parser.go: parseLocation. `lower` is strings.ToLower.
use arda_wed_gateway.Base.{Bool, not, ◌&&◌, ◌||◌, List, [], ◌∷◌, ltb, length, if◌then◌else◌}
use arda_wed_gateway.Base.Text.{Text, codes, text_eq, has_prefix, contains_rune}
use arda_wed_gateway.Base.Text.Search.{contains, ends_with, split_on}
use arda_wed_gateway.Base.Text.Space.{trim_space}
use arda_wed_gateway.Base.Text.Utf8.{to_bytes}
use arda_wed_gateway.State.{is_nil}
use arda_wed_gateway.State.Parser.Scan.{find_all, prompt_regex}

-- isLikelyLocation; its bounds are in bytes.
unfoldable pub is_likely_location : (Text → Text) → Text → Bool
unfolding to_bytes ends_with contains contains_rune
is_likely_location lower line =
    not (ltb (length (to_bytes line)) 3 || ltb 120 (length (to_bytes line)))
    && not (ends_with line b'.')
    && not (contains (lower line) (codes "урон") || contains (lower line) (codes "аукцион"))
    && not (contains_rune line b'/' || contains_rune line b'|')

-- Whether the loop of parseLocation returns this line, which is trimmed.
unfoldable pub is_location : (Text → Text) → Text → Bool
unfolding is_likely_location has_prefix find_all contains_rune
is_location lower line =
    not (text_eq line [])
    && not (has_prefix line (b'#' ∷ []))
    && is_nil (find_all prompt_regex 0 line)
    && not (has_prefix line (b'(' ∷ []) && contains_rune line b')')
    && not (contains_rune line b':')
    && is_likely_location lower line

unfoldable pub first_location : (Text → Text) → List Text → Text
unfolding is_location trim_space
first_location lower [] = []
first_location lower (l ∷ ls) =
    let later = first_location lower ls in
    if is_location lower (trim_space l) then trim_space l else later

unfoldable pub parse_location : (Text → Text) → Text → Text
unfolding first_location split_on
parse_location lower text = first_location lower (split_on 10 text)
