-- ===== src/Suggestions/Lines.antt =====
-- service.go: how a text becomes lines.
use arda_wed_gateway.Base.{
  List, [], ◌∷◌, ◌++◌, if◌then◌else◌, ◌≡◌, refl, append-nil, append_assoc, arith,
}
use arda_wed_gateway.Base.Text.{Text, text_eq, replace_all}
use arda_wed_gateway.Base.Text.Space.{trim_space}
use arda_wed_gateway.Base.Text.Search.{split_on}

-- strings.Split at newlines
abbrev pub split_lines : Text → List Text
split_lines = split_on 10

-- The loop over the parts.
unfoldable pub append_parts : List Text → List Text → List Text
append_parts existing [] = existing
append_parts existing (part ∷ parts) =
    append_parts
      (if text_eq (trim_space part) [] then existing else existing ++ (trim_space part ∷ [])) parts

-- The text with CR LF, and then CR, made LF.
unfoldable pub unix_text : Text → Text
unix_text text = replace_all (replace_all text (13 ∷ 10 ∷ []) (10 ∷ [])) (13 ∷ []) (10 ∷ [])

unfoldable pub append_log_lines : List Text → Text → List Text
unfolding append_parts unix_text
append_log_lines existing text = append_parts existing (split_lines (unix_text text))

-- The parts that are kept.
pub kept_parts : List Text → List Text
kept_parts [] = []
kept_parts (part ∷ parts) =
    let rest = kept_parts parts in
    if text_eq (trim_space part) [] then rest else trim_space part ∷ rest

pub append_parts-kept : (xs parts : List Text) → append_parts xs parts ≡ xs ++ kept_parts parts
unfolding append_parts kept_parts
append_parts-kept xs [] = rw (append-nil xs) refl
append_parts-kept xs (p ∷ ps) = ground (
  arith,
  append_parts-kept xs ps,
  append_parts-kept (xs ++ (trim_space p ∷ [])) ps,
  append_assoc xs (trim_space p ∷ []) (kept_parts ps),
)
