-- ===== src/Suggestions/Prompt.antt =====
-- service.go: buildPrompt, from the recent lines of a session and what the snapshot provider returns.
use arda_wed_gateway.Base.{◌≡◌, refl, Option, none, some, List, [], ◌∷◌, ◌++◌, if◌then◌else◌}
use arda_wed_gateway.Base.Map.{Map, lookup}
use arda_wed_gateway.Base.Map.Sorted.{keys, sorted_lines, sorted_lines-perm}
use arda_wed_gateway.Base.Text.{Text, codes, decimal, text_eq}
use arda_wed_gateway.State.{PromptTuple, Snapshot, is_nil, Loaded, load_error, not_found, found}
use mathlib.Core.List.{Perm}

-- A line with its end.
abbrev pub line : Text → Text
line s = s ++ (10 ∷ [])

-- strings.Join(tags, ", ")
unfoldable pub join_tags : List Text → Text
join_tags [] = []
join_tags (t ∷ []) = t
join_tags (t ∷ u ∷ ts) = t ++ (codes ", " ++ join_tags (u ∷ ts))

abbrev pub location_line : Text → Text
location_line location = if text_eq location [] then [] else line (codes "- location: " ++ location)

abbrev pub prompt_line : Option PromptTuple → Text
prompt_line none = []
prompt_line (some p) = line (
    codes "- prompt: HP "
    ++ (decimal p.hp_current
        ++ (codes "/"
            ++ (decimal p.hp_max
                ++ (codes ", MA "
                    ++ (decimal p.ma_current
                        ++ (codes "/"
                            ++ (decimal p.ma_max
                                ++ (codes ", MV "
                                    ++ (decimal p.mv_current
                                        ++ (codes "/"
                                            ++ (decimal p.mv_max
                                                ++ (codes ", EXP " ++ decimal p.exp)))))))))))))

unfoldable pub tags_line : List Text → Text
unfolding join_tags
tags_line tags = if is_nil tags then [] else line (codes "- status_tags: " ++ join_tags tags)

-- A missing slot reads as the empty text.
abbrev pub item_or_nil : Option Text → Text
item_or_nil none = []
item_or_nil (some item) = item

unfoldable pub item_line : Text → Option Text → Text
item_line slot item = line (codes "  - " ++ (slot ++ (codes ": " ++ item_or_nil item)))

unfoldable pub equipment_lines : Map Text → Text
unfolding item_line sorted_lines
equipment_lines equipment =
    if is_nil equipment then [] else line (codes "- equipment:") ++ sorted_lines item_line equipment

abbrev pub updated_line : Text → Text
updated_line stamp =
    if text_eq stamp [] then [] else line (codes "- snapshot_updated_at: " ++ stamp)

unfoldable pub state_lines : Snapshot → Text
unfolding tags_line equipment_lines
state_lines s =
    line (codes "Current parser state:")
    ++ (location_line s.location
        ++ (prompt_line s.prompt
            ++ (tags_line s.status_tags
                ++ (equipment_lines s.equipment ++ (updated_line s.updated_at ++ (10 ∷ []))))))

unfoldable pub log_lines : List Text → Text
log_lines [] = []
log_lines (l ∷ ls) = line l ++ log_lines ls

unfoldable pub recent_lines : List Text → Text
unfolding log_lines
recent_lines [] = line (codes "(no recent terminal lines)")
recent_lines (l ∷ ls) = log_lines (l ∷ ls)

abbrev pub instructions : Text
instructions =
    line (
      codes
        "You are assisting a MUD player. Return strict JSON only with keys commands, reason, expected_outcome.")
    ++ (line (codes "commands must be an array of short executable in-game commands.")
        ++ (line (codes "Do not use markdown or extra keys.") ++ (10 ∷ [])))

abbrev pub with_state : Text → List Text → Text
with_state shown recent =
    instructions
    ++ (shown ++ (line (codes "Recent terminal log (newest at bottom):") ++ recent_lines recent))

-- buildPrompt; `none` is the provider's error.
unfoldable pub build_prompt : List Text → Loaded → Option Text
unfolding state_lines recent_lines
build_prompt recent load_error = none
build_prompt recent not_found = some (with_state [] recent)
build_prompt recent (found s) = some (with_state (state_lines s) recent)

-- The prompt does not depend on the order in which the equipment is held: two snapshots that agree but
-- for the order of the slots, each under the same item, give the same prompt.
pub build_prompt-perm :
    (recent : List Text) (s : Snapshot) (p q : Map Text)
    → is_nil p ≡ is_nil q
    → Perm (keys p) (keys q)
    → ((slot : Text) → lookup slot p ≡ lookup slot q)
    → build_prompt recent (found (record s { equipment = p }))
      ≡ build_prompt recent (found (record s { equipment = q }))
unfolding build_prompt state_lines equipment_lines
build_prompt-perm recent s p q n same e = rw (n, sorted_lines-perm item_line p q same e) refl
