-- ===== src/Suggestions/Answer/Accepted.antt =====
-- Which answers of the model become suggestions, and with which commands.
use arda_wed_gateway.Base.{
  ℕ, suc, ◌≡◌, refl, ap, Bool, true, false, not, ◌&&◌, Option, none, some, List, [], ◌∷◌, map,
  arith, All, if◌then◌else◌, Bool-cases, inl, inr,
}
use arda_wed_gateway.Base.Text.{Text, text_eq}
use arda_wed_gateway.Base.Text.Space.{trim_space, is_blank}
use arda_wed_gateway.Base.Text.Trim.{trim_space-trim_space}
use arda_wed_gateway.Suggestions.{Suggestion}
use arda_wed_gateway.Suggestions.Answer.{
  Json, undecoded, trailing, decoded, Parsed, refused, accepted, Trimmed, empty_at, trimmed,
  in_front, trim_commands, finish, has_none, check_suggestion, normalize_suggestion_json,
  parse_suggestion_json,
}

abbrev pub no_blank : List Text → Bool
no_blank [] = true
no_blank (c ∷ cs) = not (is_blank c) && no_blank cs

-- Commands, none of them blank, a reason and an expected outcome, in one object.
abbrev pub is_usable : Json → Bool
is_usable (undecoded message) = false
is_usable trailing = false
is_usable (decoded s) =
    not (has_none s.commands)
    && not (is_blank s.reason)
    && not (is_blank s.expected_outcome)
    && no_blank s.commands

abbrev pub trimmed_suggestion : Json → Option Suggestion
trimmed_suggestion (undecoded message) = none
trimmed_suggestion trailing = none
trimmed_suggestion (decoded s) = some (record s { commands = map trim_space s.commands })

abbrev pub suggestion_of : Parsed → Option Suggestion
suggestion_of (refused e) = none
suggestion_of (accepted s) = some s

-- A command as it can be sent: trimmed, and not empty.
abbrev pub IsCommand : Text → Type 0
IsCommand c = (trim_space c ≡ c) × (text_eq c [] ≡ false)

abbrev pub commands_of : Option Suggestion → List Text
commands_of none = []
commands_of (some s) = s.commands

trimmed_list :
    (i : ℕ) (cs : List Text) → no_blank cs ≡ true → trim_commands i cs ≡ trimmed (map trim_space cs)
unfolding trim_commands
trimmed_list i [] h = refl
trimmed_list i (c ∷ cs) h = elim (Bool-cases (is_blank c)) [
  | inl e ↦ absurd (ground arith)
  | inr e ↦ rw e (ap (in_front (trim_space c)) (trimmed_list (suc i) cs (ground arith)))
]

abbrev is_empty_at : Trimmed → Bool
is_empty_at (empty_at i) = true
is_empty_at (trimmed cs) = false

in_front-empty : (c : Text) (t : Trimmed) → is_empty_at t ≡ true → is_empty_at (in_front c t) ≡ true
in_front-empty c (empty_at i) h = refl
in_front-empty c (trimmed cs) h = cc

blank_found :
    (i : ℕ) (cs : List Text) → no_blank cs ≡ false → is_empty_at (trim_commands i cs) ≡ true
unfolding trim_commands
blank_found i [] h = cc
blank_found i (c ∷ cs) h = elim (Bool-cases (is_blank c)) [
  | inl e ↦ rw e refl
  | inr e ↦ rw e (in_front-empty (trim_space c) _ (blank_found (suc i) cs (ground arith)))
]

finish_refuses :
    (s : Suggestion) (t : Trimmed) → is_empty_at t ≡ true → suggestion_of (finish s t) ≡ none
finish_refuses s (empty_at i) h = refl
finish_refuses s (trimmed cs) h = cc

pub check-usable :
    (j : Json)
    → suggestion_of (check_suggestion j) ≡ (if is_usable j then trimmed_suggestion j else none)
unfolding check_suggestion
check-usable (undecoded message) = refl
check-usable trailing = refl
check-usable (decoded s) = elim (Bool-cases (no_blank s.commands)) [
  | inl e ↦ ground (arith, trimmed_list 0 s.commands e)
  | inr e ↦
      ground (arith, finish_refuses s (trim_commands 0 s.commands) (blank_found 0 s.commands e))
]

pub All-commands : (cs : List Text) → no_blank cs ≡ true → All IsCommand (map trim_space cs)
All-commands [] h = tt
All-commands (c ∷ cs) h = ((trim_space-trim_space c, ground arith), All-commands cs (ground arith))

usable_commands :
    (j : Json) → All IsCommand (commands_of (if is_usable j then trimmed_suggestion j else none))
usable_commands (undecoded message) = tt
usable_commands trailing = tt
usable_commands (decoded s) = elim (Bool-cases (is_usable (decoded s))) [
  | inl e ↦ rw e (All-commands s.commands (ground arith))
  | inr e ↦ rw e tt
]

-- Whatever the model answers: it becomes a suggestion exactly if what the strict decoder makes of its
-- JSON is one object that has commands, none of them blank, a reason and an expected outcome that are
-- not blank; the suggestion is then this object with its commands trimmed, and no command of it is
-- empty or has white space at its ends.
pub parse_suggestion_json-usable :
    (decode : Text → Json) (raw : Text)
    → let read = decode (normalize_suggestion_json raw) in
      let result = suggestion_of (parse_suggestion_json decode raw) in
      (result ≡ (if is_usable read then trimmed_suggestion read else none))
      × All IsCommand (commands_of result)
unfolding parse_suggestion_json
parse_suggestion_json-usable decode raw =
    let read : Json = decode (normalize_suggestion_json raw) in
    (check-usable read, rw (check-usable read) (usable_commands read))
