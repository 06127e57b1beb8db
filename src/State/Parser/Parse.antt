-- ===== src/State/Parser/Parse.antt =====
-- parser.go: Parse and normalizeText; service.go: Ingest and Snapshot over a store.
use arda_wed_gateway.Base.{Bool, true, none, List, [], ◌∷◌, if◌then◌else◌}
use arda_wed_gateway.Base.Map.{Map}
use arda_wed_gateway.Base.Text.{Text, replace_all}
use arda_wed_gateway.Base.Text.Space.{is_blank}
use arda_wed_gateway.State.{Delta, is_empty}
use arda_wed_gateway.State.Parser.Scan.{strip_ansi}
use arda_wed_gateway.State.Parser.Prompt.{parse_prompt}
use arda_wed_gateway.State.Parser.Tags.{parse_status_tags}
use arda_wed_gateway.State.Parser.Equipment.{parse_equipment}
use arda_wed_gateway.State.Parser.Location.{parse_location}

unfoldable pub normalize_text : Text → Text
unfolding strip_ansi replace_all
normalize_text text = replace_all (strip_ansi 0 text) (13 ∷ 10 ∷ []) (10 ∷ [])

abbrev pub no_delta : Delta
no_delta = record { location = []; prompt = none; status_tags = []; equipment = [] }

unfoldable pub parse : (Text → Text) → Map (List Text) → Text → Delta
unfolding normalize_text parse_prompt parse_status_tags parse_equipment parse_location
parse lower aliases text =
    let cleaned = normalize_text text in
    if is_blank cleaned then no_delta else record {
      location = parse_location lower cleaned;
      prompt = parse_prompt cleaned;
      status_tags = parse_status_tags lower cleaned;
      equipment = parse_equipment lower aliases cleaned;
    }

-- Ingest over a store with this UpsertDelta, which returns the store and whether it had no error.
unfoldable pub ingest {ℓ} :
    {S : Type ℓ}
    → (Text → Delta → S → S × Bool)
    → (Text → Text)
    → Map (List Text)
    → Text
    → Text
    → S
    → S × Bool
unfolding parse is_empty
ingest upsert lower aliases id text s =
    let delta = parse lower aliases text in if is_empty delta then (s, true) else upsert id delta s
