-- ===== src/State/Parser/Equipment.antt =====
-- parser.go: parseEquipment. `lower` is strings.ToLower, `aliases` the map equipmentAliases in the
-- order in which Go happens to range over it.
use arda_wed_gateway.Base.{
  ◌+◌, Bool, true, false, ◌&&◌, ◌||◌, Option, none, some, List, [], ◌∷◌, ◌==◌, if◌then◌else◌,
}
use arda_wed_gateway.Base.Map.{Map, insert}
use arda_wed_gateway.Base.Text.{Text, codes, text_eq}
use arda_wed_gateway.Base.Text.Search.{contains, cut, split_on}
use arda_wed_gateway.Base.Text.Space.{trim_space}

abbrev pub equipment_aliases : Map (List Text)
equipment_aliases =
    (codes "head", codes "head" ∷ codes "голова" ∷ codes "на голове" ∷ [])
    ∷ (codes "neck", codes "neck" ∷ codes "шея" ∷ codes "на шее" ∷ [])
    ∷ (codes "body", codes "body" ∷ codes "тело" ∷ codes "туловище" ∷ codes "на теле" ∷ [])
    ∷ (
      codes "fingers",
      codes "fingers" ∷ codes "finger" ∷ codes "палец" ∷ codes "пальцы" ∷ codes "на пальце" ∷ [],
    )
    ∷ (
      codes "arms",
      codes "arms" ∷ codes "arm" ∷ codes "рука" ∷ codes "руки" ∷ codes "на руках" ∷ [],
    )
    ∷ (
      codes "shoulders",
      codes "shoulders" ∷ codes "плечо" ∷ codes "плечи" ∷ codes "на плечах" ∷ [],
    )
    ∷ (codes "legs", codes "legs" ∷ codes "нога" ∷ codes "ноги" ∷ codes "на ногах" ∷ [])
    ∷ (
      codes "wrist",
      codes "wrist" ∷ codes "запястье" ∷ codes "запястьях" ∷ codes "на запястье" ∷ [],
    )
    ∷ (codes "shield", codes "shield" ∷ codes "щит" ∷ codes "щите" ∷ [])
    ∷ (
      codes "wield",
      codes "wield"
          ∷ codes "wielded"
          ∷ codes "оружие"
          ∷ codes "в правой руке"
          ∷ codes "в левой руке"
          ∷ [],
    )
    ∷ (codes "held", codes "held" ∷ codes "держит" ∷ codes "в руках" ∷ [])
    ∷ []

-- strings.EqualFold with a text of small ASCII letters other than k and s, which have no other folding.
unfoldable pub equal_fold : Text → Text → Bool
equal_fold [] [] = true
equal_fold [] (d ∷ ds) = false
equal_fold (c ∷ cs) [] = false
equal_fold (c ∷ cs) (d ∷ ds) = (c == d || c + 32 == d) && equal_fold cs ds

abbrev pub label_and_item : Option (Text × Text) → Option (Text × Text)
label_and_item none = none
label_and_item (some (label, item)) =
    if text_eq (trim_space label) [] || text_eq (trim_space item) []
    then none
    else some (trim_space label, trim_space item)

abbrev pub bracketed : Option (Text × Text) → Option (Text × Text)
bracketed none = none
bracketed (some (label, item)) =
    if text_eq label [] then none else some (trim_space label, trim_space item)

abbrev pub prefer_bracketed : Option (Text × Text) → Option (Text × Text) → Option (Text × Text)
prefer_bracketed none o = o
prefer_bracketed (some r) o = some r

-- parseEquipmentLine of a line that is trimmed already.
unfoldable pub trimmed_line : Text → Option (Text × Text)
unfolding cut trim_space
trimmed_line [] = none
trimmed_line (c ∷ cs) =
    if c == b'#'
    then none
    else prefer_bracketed (if c == b'[' then bracketed (cut cs (codes "]")) else none)
        (label_and_item (cut (c ∷ cs) (codes ":")))

unfoldable pub parse_equipment_line : Text → Option (Text × Text)
unfolding trimmed_line
parse_equipment_line line = trimmed_line (trim_space line)

unfoldable pub has_alias : Text → List Text → Bool
unfolding contains
has_alias value [] = false
has_alias value (a ∷ as_) = contains value a || has_alias value as_

unfoldable pub slot_in : Text → Map (List Text) → Text
unfolding has_alias
slot_in value [] = []
slot_in value ((slot, names) ∷ rest) =
    let later = slot_in value rest in if has_alias value names then slot else later

-- normalizeEquipmentSlot
unfoldable pub normalize_equipment_slot : (Text → Text) → Map (List Text) → Text → Text
unfolding slot_in trim_space
normalize_equipment_slot lower aliases label = slot_in (lower (trim_space label)) aliases

unfoldable pub is_no_item : (Text → Text) → Text → Bool
unfolding equal_fold contains
is_no_item lower item =
    text_eq item []
    || equal_fold item (codes "none")
    || equal_fold item (codes "nothing")
    || contains (lower item) (codes "ничего")

unfoldable pub put_line :
    (Text → Text) → Map (List Text) → Option (Text × Text) → Map Text → Map Text
unfolding normalize_equipment_slot is_no_item
put_line lower aliases none m = m
put_line lower aliases (some (label, item)) m =
    let slot = normalize_equipment_slot lower aliases label in
    if text_eq slot [] || is_no_item lower item then m else insert slot item m

unfoldable pub put_lines : (Text → Text) → Map (List Text) → List Text → Map Text → Map Text
unfolding put_line parse_equipment_line
put_lines lower aliases [] m = m
put_lines lower aliases (l ∷ ls) m =
    put_lines lower aliases ls (put_line lower aliases (parse_equipment_line l) m)

unfoldable pub parse_equipment : (Text → Text) → Map (List Text) → Text → Map Text
unfolding put_lines split_on
parse_equipment lower aliases text = put_lines lower aliases (split_on 10 text) []
