-- ===== src/Suggestions/OpenRouter.antt =====
-- backend/internal/suggestions/openrouter.go: the client of the language model. What encoding/json and
-- net/http return for an attempt is an argument; the sleep between attempts is left out.
pub mod Transcript
pub mod Attempts
pub mod Retry
use arda_wed_gateway.Base.{
  ℕ, zero, suc, ◌+◌, ◌-◌, Bool, true, false, not, ◌&&◌, ◌||◌, Option, none, some, List, [], ◌∷◌,
  ◌++◌, ◌==◌, leb, length, if◌then◌else◌,
}
use arda_wed_gateway.Base.Text.{Text, codes, decimal, text_eq}
use arda_wed_gateway.Base.Text.Space.{trim_space, is_blank}
use arda_wed_gateway.Base.Text.Utf8.{of_bytes, to_bytes}
use arda_wed_gateway.Base.Word.{ℤ, pos, negsuc, add64}

-- An error of another package that the client wraps: its message, whether it is
-- context.DeadlineExceeded, and whether it is a net.Error that timed out.
pub record Cause : Type 0 where
  pub message : Text
  pub deadline_exceeded : Bool
  pub net_timeout : Bool

pub data RequestError : Type 0 where
  key_missing : RequestError
  marshal_error create_error send_error read_error : Cause → RequestError
  bad_status : ℕ → Text → RequestError
  decode_error : Cause → RequestError
  no_choices content_empty : RequestError

-- What RequestSuggestion returns.
pub data Answer : Type 0 where
  content : Text → Answer
  error : RequestError → Answer

-- OpenRouterClient; `timeout` is that of its http.Client.
pub record OpenRouterClient : Type 0 where
  pub base_url : Text
  pub model : Text
  pub api_key : Text
  pub timeout : ℤ
  pub transcript_dir : Text
  pub transcript_seq : ℕ

abbrev pub default_transcript_dir : Text
default_transcript_dir = codes "logs"

-- strings.TrimRight(s, "/")
unfoldable pub trim_slashes : Text → Text
trim_slashes [] = []
trim_slashes (c ∷ cs) =
    let rest = trim_slashes cs in if c == b'/' && text_eq rest [] then [] else c ∷ rest

-- The timeout in nanoseconds, 120 seconds where it is not positive.
abbrev pub timeout_or : ℤ → ℤ
timeout_or (pos zero) = pos 120000000000
timeout_or (pos (suc n)) = pos (suc n)
timeout_or (negsuc n) = pos 120000000000

unfoldable pub new_open_router_client : Text → Text → Text → ℤ → OpenRouterClient
unfolding trim_slashes trim_space
new_open_router_client base_url model api_key timeout = record {
  base_url =
      trim_slashes (if is_blank base_url then codes "https://openrouter.ai/api/v1" else base_url);
  model = if is_blank model then codes "openai/gpt-4o-mini" else model;
  api_key = api_key;
  timeout = timeout_or timeout;
  transcript_dir = default_transcript_dir;
  transcript_seq = 0;
}

-- How the calls of one attempt end: json.Marshal, NewRequestWithContext, Do or ReadAll returns an
-- error, or there is a status with a payload.
pub data Exchange : Type 0 where
  marshal_fails create_fails send_fails read_fails : Cause → Exchange
  responds : ℕ → List ℕ → Exchange

-- json.Unmarshal of the payload: its error, or the content of every choice.
pub data Decoded : Type 0 where
  undecoded : Cause → Decoded
  choices : List Text → Decoded

unfoldable pub first_choice : Decoded → Answer
unfolding trim_space
first_choice (undecoded cause) = error (decode_error cause)
first_choice (choices []) = error no_choices
first_choice (choices (c ∷ cs)) =
    if text_eq (trim_space c) [] then error content_empty else content (trim_space c)

-- requestOnce, but for its transcript.
unfoldable pub request_once : (List ℕ → Decoded) → Exchange → Answer
unfolding first_choice of_bytes
request_once unmarshal (marshal_fails cause) = error (marshal_error cause)
request_once unmarshal (create_fails cause) = error (create_error cause)
request_once unmarshal (send_fails cause) = error (send_error cause)
request_once unmarshal (read_fails cause) = error (read_error cause)
request_once unmarshal (responds status payload) =
    if leb 400 status
    then error (bad_status status (trim_space (of_bytes payload)))
    else first_choice (unmarshal payload)

abbrev pub timed_out : Cause → Bool
timed_out cause = cause.deadline_exceeded || cause.net_timeout

-- isRetryableTimeout; the errors are wrapped by %w, so that errors.Is and errors.As see the cause.
unfoldable pub is_retryable_timeout : RequestError → Bool
is_retryable_timeout (marshal_error cause) = timed_out cause
is_retryable_timeout (create_error cause) = timed_out cause
is_retryable_timeout (send_error cause) = timed_out cause
is_retryable_timeout (read_error cause) = timed_out cause
is_retryable_timeout (decode_error cause) = timed_out cause
is_retryable_timeout (bad_status status text) = false
is_retryable_timeout key_missing = false
is_retryable_timeout no_choices = false
is_retryable_timeout content_empty = false

-- The error's message.
unfoldable pub error_text : RequestError → Text
error_text key_missing = codes "openrouter api key is not configured"
error_text (marshal_error cause) = codes "marshal openrouter request: " ++ cause.message
error_text (create_error cause) = codes "create openrouter request: " ++ cause.message
error_text (send_error cause) = codes "openrouter request failed: " ++ cause.message
error_text (read_error cause) = codes "read openrouter response: " ++ cause.message
error_text (bad_status status text) =
    codes "openrouter status " ++ (decimal (pos status) ++ (codes ": " ++ text))
error_text (decode_error cause) = codes "decode openrouter response: " ++ cause.message
error_text no_choices = codes "openrouter response has no choices"
error_text content_empty = codes "openrouter response content is empty"
