-- ===== src/Tests/Model.antt =====
-- The client of the language model and the parsing of its answers at concrete inputs.
use arda_wed_gateway.Base.{ℕ, ◌≡◌, refl, true, false, List, [], ◌∷◌, ◌++◌, if◌then◌else◌}
use arda_wed_gateway.Base.Text.{codes, text_eq}
use arda_wed_gateway.Base.Text.Space.{is_blank, trim_space, trim_left, trim_right}
use arda_wed_gateway.Base.Word.{pos}
use arda_wed_gateway.Suggestions.OpenRouter.{
  Cause, OpenRouterClient, send_fails, responds, Decoded, choices, request_once,
}
use arda_wed_gateway.Suggestions.OpenRouter.Transcript.{Attempt, file_complete, write_transcript}
use arda_wed_gateway.Suggestions.OpenRouter.Attempts.{request_suggestion}
use arda_wed_gateway.Suggestions.OpenRouter.Retry.{cause_of, ran_out, request_suggestion-retry}

abbrev one_choice : List ℕ → Decoded
one_choice payload = choices (payload ∷ [])

abbrev slow : Cause
slow = record { message = codes "timeout"; deadline_exceeded = false; net_timeout = true }

abbrev timed_out_attempt : Attempt
timed_out_attempt = record {
  exchange = send_fails slow;
  file_stamp = codes "t1";
  started_at = codes "t1";
  dir_made = true;
  request_json = codes "{}";
  file_write = file_complete;
}

abbrev answered_attempt : Attempt
answered_attempt = record {
  exchange = responds 200 (codes "look");
  file_stamp = codes "t2";
  started_at = codes "t2";
  dir_made = true;
  request_json = codes "{}";
  file_write = file_complete;
}

abbrev some_client : OpenRouterClient
some_client = record {
  base_url = codes "http://h";
  model = codes "m";
  api_key = codes "k";
  timeout = pos 1000;
  transcript_dir = codes "logs";
  transcript_seq = 0;
}

some_client_key : is_blank some_client.api_key ≡ false
unfolding trim_space trim_left trim_right text_eq
some_client_key = refl

request_suggestion-retry_example :
    let first = request_once one_choice timed_out_attempt.exchange in
    let second = request_once one_choice answered_attempt.exchange in
    let (c1, files1) = write_transcript timed_out_attempt first some_client in
    let (c2, files2) = write_transcript answered_attempt second c1 in
    request_suggestion one_choice (timed_out_attempt ∷ answered_attempt ∷ []) some_client ≡ (
      if ran_out (cause_of one_choice timed_out_attempt.exchange)
      then (c2, (files1 ++ files2, second))
      else (c1, (files1, first)))
request_suggestion-retry_example =
    request_suggestion-retry one_choice timed_out_attempt answered_attempt [] some_client
      some_client_key
