-- ===== src/Suggestions/Answer.antt =====
-- service.go: parseSuggestionJSON and normalizeSuggestionJSON, around the decoder of encoding/json.
pub mod Accepted
pub mod Fenced
use arda_wed_gateway.Base.{
  ℕ, zero, suc, Bool, true, false, not, ◌&&◌, ◌||◌, Option, none, some, List, [], ◌∷◌, ◌++◌,
  if◌then◌else◌,
}
use arda_wed_gateway.Base.Text.{Text, codes, text_eq}
use arda_wed_gateway.Base.Text.Search.{cut}
use arda_wed_gateway.Base.Text.Space.{trim_space, is_blank}
use arda_wed_gateway.Suggestions.{Suggestion}

-- Three back quotes.
abbrev pub fence : Text
fence = codes "```"

abbrev pub block_or : Text → Option (Text × Text) → Text
block_or raw none = raw
block_or raw (some (body, rest)) = if text_eq (trim_space body) [] then raw else trim_space body

-- The text behind the line of the opening fence, up to the next fence.
unfoldable pub inside_fence : Text → Option (Text × Text) → Text
unfolding cut trim_space
inside_fence raw none = raw
inside_fence raw (some (lang, body)) = block_or raw (cut body fence)

unfoldable pub behind_fence : Text → Option (Text × Text) → Text
unfolding inside_fence
behind_fence raw none = raw
behind_fence raw (some (before, behind)) = inside_fence raw (cut behind (10 ∷ []))

unfoldable pub strip_fence : Text → Text
unfolding behind_fence
strip_fence raw = behind_fence raw (cut raw fence)

-- normalizeSuggestionJSON
unfoldable pub normalize_suggestion_json : Text → Text
unfolding strip_fence
normalize_suggestion_json raw = strip_fence (trim_space raw)

-- What the strict decoder makes of a text: its error, an object with more behind it, or one alone.
pub data Json : Type 0 where
  undecoded : Text → Json
  trailing : Json
  decoded : Suggestion → Json

pub data ParseError : Type 0 where
  decode_error : Text → ParseError
  not_single no_commands no_reason no_outcome : ParseError
  empty_command : ℕ → ParseError

pub data Parsed : Type 0 where
  refused : ParseError → Parsed
  accepted : Suggestion → Parsed

-- The loop over the commands: the index of the first empty one, or all of them trimmed.
pub data Trimmed : Type 0 where
  empty_at : ℕ → Trimmed
  trimmed : List Text → Trimmed

abbrev pub in_front : Text → Trimmed → Trimmed
in_front c (empty_at i) = empty_at i
in_front c (trimmed cs) = trimmed (c ∷ cs)

unfoldable pub trim_commands : ℕ → List Text → Trimmed
unfolding trim_space
trim_commands i [] = trimmed []
trim_commands i (c ∷ cs) =
    let rest = in_front (trim_space c) (trim_commands (suc i) cs) in
    if is_blank c then empty_at i else rest

abbrev pub finish : Suggestion → Trimmed → Parsed
finish s (empty_at i) = refused (empty_command i)
finish s (trimmed cs) = accepted (record s { commands = cs })

abbrev pub has_none : List Text → Bool
has_none [] = true
has_none (c ∷ cs) = false

unfoldable pub check_suggestion : Json → Parsed
unfolding trim_commands
check_suggestion (undecoded message) = refused (decode_error message)
check_suggestion trailing = refused not_single
check_suggestion (decoded s) =
    if has_none s.commands
    then refused no_commands
    else (if is_blank s.reason
        then refused no_reason
        else (if is_blank s.expected_outcome
            then refused no_outcome
            else finish s (trim_commands 0 s.commands)))

-- parseSuggestionJSON
unfoldable pub parse_suggestion_json : (Text → Json) → Text → Parsed
unfolding normalize_suggestion_json check_suggestion
parse_suggestion_json decode raw = check_suggestion (decode (normalize_suggestion_json raw))
