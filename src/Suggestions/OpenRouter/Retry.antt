-- ===== src/Suggestions/OpenRouter/Retry.antt =====
-- How many attempts a request makes, and which answer it returns.
use arda_wed_gateway.Base.{
  ℕ, ◌≡◌, refl, Bool, false, ◌||◌, Option, none, some, List, [], ◌∷◌, ◌++◌, arith, leb,
  if◌then◌else◌,
}
use arda_wed_gateway.Base.Text.Space.{is_blank}
use arda_wed_gateway.Suggestions.OpenRouter.{
  Answer, content, error, Cause, Decoded, undecoded, choices, Exchange, marshal_fails, create_fails,
  send_fails, read_fails, responds, OpenRouterClient, first_choice, request_once,
  is_retryable_timeout,
}
use arda_wed_gateway.Suggestions.OpenRouter.Transcript.{Attempt, write_transcript}
use arda_wed_gateway.Suggestions.OpenRouter.Attempts.{tries_again, attempts, request_suggestion}

-- The error of another package that ends an exchange: of the call that failed, or of the decoding of a
-- payload whose status is below 400.
abbrev pub cause_of : (List ℕ → Decoded) → Exchange → Option Cause
cause_of unmarshal (marshal_fails cause) = some cause
cause_of unmarshal (create_fails cause) = some cause
cause_of unmarshal (send_fails cause) = some cause
cause_of unmarshal (read_fails cause) = some cause
cause_of unmarshal (responds status payload) =
    if leb 400 status
    then none
    else elim (unmarshal payload) [ undecoded cause ↦ some cause | choices contents ↦ none ]

-- The deadline of a context passed, or the network timed out.
abbrev pub ran_out : Option Cause → Bool
ran_out none = false
ran_out (some cause) = cause.deadline_exceeded || cause.net_timeout

tries_again_choice :
    (d : Decoded)
    → tries_again 0 (first_choice d)
      ≡ ran_out (elim d [ undecoded cause ↦ some cause | choices contents ↦ none ])
unfolding tries_again first_choice is_retryable_timeout
tries_again_choice (undecoded cause) = ground arith
tries_again_choice (choices []) = refl
tries_again_choice (choices (c ∷ cs)) = ground arith

tries_first :
    (unmarshal : List ℕ → Decoded) (e : Exchange)
    → tries_again 0 (request_once unmarshal e) ≡ ran_out (cause_of unmarshal e)
unfolding tries_again request_once is_retryable_timeout
tries_first unmarshal (marshal_fails cause) = ground arith
tries_first unmarshal (create_fails cause) = ground arith
tries_first unmarshal (send_fails cause) = ground arith
tries_first unmarshal (read_fails cause) = ground arith
tries_first unmarshal (responds status payload) =
    ground (arith, tries_again_choice (unmarshal payload))

tries_second : (a : Answer) → tries_again 1 a ≡ false
unfolding tries_again
tries_second (content c) = refl
tries_second (error e) = ground arith

-- With a key that is not blank, a request makes a second attempt exactly if the first one ends in an
-- error of another package that is a passed deadline or a timeout of the network, and then returns
-- what the second gives, whatever it is; else, a bad status included, it returns what the first gives.
-- It never makes a third, and leaves the transcripts of the attempts that it makes.
pub request_suggestion-retry :
    (unmarshal : List ℕ → Decoded) (a b : Attempt) (rest : List Attempt) (c : OpenRouterClient)
    → is_blank c.api_key ≡ false
    → let first = request_once unmarshal a.exchange in
      let second = request_once unmarshal b.exchange in
      let (c1, files1) = write_transcript a first c in
      let (c2, files2) = write_transcript b second c1 in
      request_suggestion unmarshal (a ∷ b ∷ rest) c ≡ (
        if ran_out (cause_of unmarshal a.exchange)
        then (c2, (files1 ++ files2, second))
        else (c1, (files1, first)))
unfolding request_suggestion attempts
request_suggestion-retry unmarshal a b rest c k =
    rw (k, tries_first unmarshal a.exchange, tries_second (request_once unmarshal b.exchange)) refl
