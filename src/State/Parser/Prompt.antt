-- ===== src/State/Parser/Prompt.antt =====
-- parser.go: parsePrompt.
use arda_wed_gateway.Base.{ℕ, Option, none, some, List, [], ◌∷◌, ltb, if◌then◌else◌}
use arda_wed_gateway.Base.Text.{Text}
use arda_wed_gateway.Base.Text.Digits.{number}
use arda_wed_gateway.Base.Word.{pos}
use arda_wed_gateway.State.{PromptTuple}
use arda_wed_gateway.State.Parser.Scan.{find_all, prompt_regex}

-- strconv.Atoi of a text of digits: an error for what an int does not hold.
unfoldable pub atoi : Text → Option ℕ
unfolding number
atoi s = if ltb (number 0 s) 0x8000000000000000 then some (number 0 s) else none

abbrev pub push : Option ℕ → Option (List ℕ) → Option (List ℕ)
push none o = none
push (some n) none = none
push (some n) (some ns) = some (n ∷ ns)

unfoldable pub atoi_all : List Text → Option (List ℕ)
unfolding atoi
atoi_all [] = some []
atoi_all (g ∷ gs) = push (atoi g) (atoi_all gs)

unfoldable pub prompt_from : Option (List ℕ) → Option PromptTuple
prompt_from (some (a ∷ b ∷ c ∷ d ∷ e ∷ f ∷ g ∷ [])) = some (record {
  hp_current = pos a;
  hp_max = pos b;
  ma_current = pos c;
  ma_max = pos d;
  mv_current = pos e;
  mv_max = pos f;
  exp = pos g;
})
prompt_from o = none

unfoldable pub last : List (List Text) → Option (List Text)
last [] = none
last (m ∷ []) = some m
last (m ∷ n ∷ ms) = last (n ∷ ms)

abbrev pub tuple_of : Option (List Text) → Option PromptTuple
tuple_of none = none
tuple_of (some groups) = prompt_from (atoi_all groups)

unfoldable pub parse_prompt : Text → Option PromptTuple
unfolding last find_all atoi_all prompt_from
parse_prompt text = tuple_of (last (find_all prompt_regex 0 text))
