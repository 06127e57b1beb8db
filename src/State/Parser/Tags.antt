-- ===== src/State/Parser/Tags.antt =====
-- parser.go: parseStatusTags. `lower` is strings.ToLower.
use arda_wed_gateway.Base.{Bool, false, ◌||◌, Option, none, some, List, [], ◌∷◌, if◌then◌else◌}
use arda_wed_gateway.Base.Map.{Map, lookup}
use arda_wed_gateway.Base.Text.{Text, codes, text_eq}
use arda_wed_gateway.Base.Text.Order.{sort_texts}
use arda_wed_gateway.Base.Text.Space.{trim_space}
use arda_wed_gateway.State.Parser.Scan.{find_tags}

-- knownStatusTags, with the letter case of the source.
abbrev pub known_status_tags : Map Text
known_status_tags =
    (codes "белая аура", codes "Белая Аура")
    ∷ (codes "серая аура", codes "СераЯ Аура")
    ∷ (codes "красная аура", codes "Красная Аура")
    ∷ (codes "в полете", codes "В полете")
    ∷ (codes "плавает", codes "Плавает")
    ∷ (codes "светится", codes "Светится")
    ∷ (codes "волшебное", codes "Волшебное")
    ∷ []

unfoldable pub holds : Text → List Text → Bool
holds t [] = false
holds t (s ∷ ss) = text_eq s t || holds t ss

-- The canonical name of a match, if it has one.
unfoldable pub canonical : (Text → Text) → Text → Option Text
unfolding lookup trim_space
canonical lower inside = lookup (lower (trim_space inside)) known_status_tags

abbrev pub add_tag : Option Text → List Text → List Text
add_tag none tags = tags
add_tag (some tag) tags = if holds tag tags then tags else tag ∷ tags

-- The tags of the matches, each once; sorting makes their order irrelevant.
unfoldable pub collect : (Text → Text) → List Text → List Text
unfolding canonical holds
collect lower [] = []
collect lower (m ∷ ms) = add_tag (canonical lower m) (collect lower ms)

-- A nil list is the empty one.
unfoldable pub parse_status_tags : (Text → Text) → Text → List Text
unfolding collect find_tags sort_texts
parse_status_tags lower text = sort_texts (collect lower (find_tags 0 text))
