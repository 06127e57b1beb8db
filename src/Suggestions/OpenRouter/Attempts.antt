-- ===== src/Suggestions/OpenRouter/Attempts.antt =====
-- openrouter.go: the loop of RequestSuggestion.
use arda_wed_gateway.Base.{ℕ, suc, Bool, false, not, ◌&&◌, List, [], ◌∷◌, ◌++◌, ◌==◌, if◌then◌else◌}
use arda_wed_gateway.Base.Text.Space.{is_blank}
use arda_wed_gateway.Suggestions.OpenRouter.{
  Answer, content, error, OpenRouterClient, Decoded, request_once, is_retryable_timeout,
  key_missing, no_choices,
}
use arda_wed_gateway.Suggestions.OpenRouter.Transcript.{Attempt, Transcript, write_transcript}

-- Whether the loop goes on behind an attempt of this number.
unfoldable pub tries_again : ℕ → Answer → Bool
unfolding is_retryable_timeout
tries_again attempt (content c) = false
tries_again attempt (error e) = is_retryable_timeout e && not (attempt == 1)

-- The loop of RequestSuggestion from this attempt on; `answer` is the last one.
unfoldable pub attempts :
    (List ℕ → Decoded)
    → ℕ
    → Answer
    → List Attempt
    → OpenRouterClient
    → OpenRouterClient × (List Transcript × Answer)
unfolding request_once write_transcript tries_again
attempts unmarshal attempt answer [] c = (c, ([], answer))
attempts unmarshal attempt answer (a ∷ rest) c =
    let next = request_once unmarshal a.exchange in
    let (c1, files) = write_transcript a next c in
    let (c2, (more, last)) = attempts unmarshal (suc attempt) next rest c1 in
    if tries_again attempt next then (c2, (files ++ more, last)) else (c1, (files, next))

-- RequestSuggestion; the attempts are those that it would make if it never stopped.
unfoldable pub request_suggestion :
    (List ℕ → Decoded)
    → List Attempt
    → OpenRouterClient
    → OpenRouterClient × (List Transcript × Answer)
unfolding attempts
request_suggestion unmarshal tries c =
    if is_blank c.api_key
    then (c, ([], error key_missing))
    else attempts unmarshal 0 (error no_choices) tries c
