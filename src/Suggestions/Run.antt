-- ===== src/Suggestions/Run.antt =====
-- service.go: runJob, from the prompt to the suggestion that Latest returns.
pub mod Shown
use arda_wed_gateway.Base.{
  ℕ, Bool, true, false, Option, none, some, List, [], ◌∷◌, ◌++◌, if◌then◌else◌,
}
use arda_wed_gateway.Base.Text.{Text, codes, decimal}
use arda_wed_gateway.Base.Word.{pos}
use arda_wed_gateway.State.{Loaded}
use arda_wed_gateway.Suggestions.{
  Service, Outcome, fails_with, suggests, recent_of, ingest_terminal, mark_in_flight,
  set_last_error, complete,
}
use arda_wed_gateway.Suggestions.OpenRouter.{Answer, content, error, error_text}
use arda_wed_gateway.Suggestions.Prompt.{build_prompt}
use arda_wed_gateway.Suggestions.Answer.{
  Json, ParseError, decode_error, not_single, no_commands, no_reason, no_outcome, empty_command,
  Parsed, refused, accepted, parse_suggestion_json,
}

-- The message of an error of parseSuggestionJSON.
unfoldable pub parse_error_text : ParseError → Text
parse_error_text (decode_error message) = codes "decode strict suggestion json: " ++ message
parse_error_text not_single = codes "suggestion json must contain a single object"
parse_error_text no_commands = codes "commands must contain at least one command"
parse_error_text no_reason = codes "reason is required"
parse_error_text no_outcome = codes "expected_outcome is required"
parse_error_text (empty_command i) = codes "commands[" ++ (decimal (pos i) ++ codes "] is empty")

unfoldable pub outcome_of_parsed : Parsed → Outcome
unfolding parse_error_text
outcome_of_parsed (refused err) =
    fails_with (codes "invalid suggestion json: " ++ parse_error_text err)
outcome_of_parsed (accepted s) = suggests s

-- What runJob makes of what RequestSuggestion returned.
unfoldable pub outcome_of : (Text → Json) → Answer → Outcome
unfolding outcome_of_parsed parse_suggestion_json error_text
outcome_of decode (error e) = fails_with (error_text e)
outcome_of decode (content c) = outcome_of_parsed (parse_suggestion_json decode c)

-- The start of runJob; `reason` is the message of the provider's error. It returns the prompt, if the
-- request is made.
unfoldable pub begin_with : Option Text → Text → Text → ℕ → ℕ → Service → Service × Option Text
unfolding set_last_error mark_in_flight
begin_with none reason id seq now s =
    (set_last_error (codes "build suggestion prompt failed: " ++ reason) now s, none)
begin_with (some prompt) reason id seq now s = (mark_in_flight id seq s, some prompt)

unfoldable pub begin_job : Loaded → Text → Text → ℕ → ℕ → Service → Service × Option Text
unfolding begin_with build_prompt recent_of
begin_job loaded reason id seq now s =
    begin_with (build_prompt (recent_of id s) loaded) reason id seq now s

-- The rest of runJob.
unfoldable pub end_job : (Text → Json) → Answer → Text → ℕ → ℕ → Text → Service → Service
unfolding outcome_of complete
end_job decode answer id seq now stamp s = complete id seq (outcome_of decode answer) now stamp s
