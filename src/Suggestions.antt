-- ===== src/Suggestions.antt =====
-- backend/internal/suggestions/service.go: the recent lines of each session, and the jobs that ask for
-- a suggestion. What a request returns is an argument, parsed already; `now` and `stamp` are the time.
pub mod Lines
pub mod Recent
pub mod Jobs
pub mod OpenRouter
pub mod Prompt
pub mod Answer
pub mod Run
pub mod Timers
pub mod Joined
use arda_wed_gateway.Base.{
  ℕ, zero, suc, ◌+◌, ◌-◌, Bool, true, false, not, ◌&&◌, ◌||◌, Option, none, some, List, [], ◌∷◌,
  ◌++◌, ltb, leb, ◌==◌, length, drop, if◌then◌else◌,
}
use arda_wed_gateway.Base.Map.{Map, lookup, insert}
use arda_wed_gateway.Base.Text.Space.{trim_space}
use arda_wed_gateway.Base.Text.{Text, text_eq}
use arda_wed_gateway.Base.Word.{add64}
use arda_wed_gateway.Suggestions.Lines.{append_log_lines}

pub record Suggestion : Type 0 where
  pub commands : List Text
  pub reason : Text
  pub expected_outcome : Text
  pub generated_at : Text

-- `active` holds the session and the number of every request under way, `latest` the suggestion that
-- was found last. A time of 0 is Go's zero time.
pub record Service : Type 0 where
  pub recent_lines_max : ℕ
  pub recent_by_session : Map (List Text)
  pub job_seq_by_session : Map ℕ
  pub active : List (Text × ℕ)
  pub in_flight : ℕ
  pub last_error : Text
  pub last_error_at : ℕ
  pub latest : Option Suggestion

abbrev pub default_recent_lines : ℕ
default_recent_lines = 80

unfoldable pub new_service : ℕ → Service
new_service recent_lines_max = record {
  recent_lines_max = if recent_lines_max == 0 then default_recent_lines else recent_lines_max;
  recent_by_session = [];
  job_seq_by_session = [];
  active = [];
  in_flight = 0;
  last_error = [];
  last_error_at = 0;
  latest = none;
}

-- A missing key reads as the zero value.
abbrev pub lines_or_nil : Option (List Text) → List Text
lines_or_nil none = []
lines_or_nil (some l) = l

abbrev pub number_or_zero : Option ℕ → ℕ
number_or_zero none = 0
number_or_zero (some n) = n

unfoldable pub trim_recent : List Text → ℕ → List Text
trim_recent lines max =
    if max == 0 || leb (length lines) max then lines else drop (length lines - max) lines

unfoldable pub recent_of : Text → Service → List Text
recent_of id s = lines_or_nil (lookup id s.recent_by_session)

unfoldable pub job_seq_of : Text → Service → ℕ
job_seq_of id s = number_or_zero (lookup id s.job_seq_by_session)

-- IngestTerminal, but for the timer, which starts the job of the new number after the delay.
unfoldable pub ingest_terminal : Text → Text → Service → Service
unfolding recent_of job_seq_of
ingest_terminal id text s = if text_eq (trim_space text) [] then s else record s {
  recent_by_session =
      insert id (trim_recent (append_log_lines (recent_of id s) text) s.recent_lines_max)
        s.recent_by_session;
  job_seq_by_session = insert id (add64 (job_seq_of id s) 1) s.job_seq_by_session;
}

abbrev pub same_job : Text → ℕ → Text × ℕ → Bool
same_job id seq (other, n) = text_eq other id && n == seq

unfoldable pub is_active : Text → ℕ → List (Text × ℕ) → Bool
is_active id seq [] = false
is_active id seq (j ∷ js) = same_job id seq j || is_active id seq js

unfoldable pub forget : Text → ℕ → List (Text × ℕ) → List (Text × ℕ)
forget id seq [] = []
forget id seq (j ∷ js) = let rest = forget id seq js in if same_job id seq j then rest else j ∷ rest

unfoldable pub mark_in_flight : Text → ℕ → Service → Service
unfolding forget
mark_in_flight id seq s = record s {
  active = (id, seq) ∷ forget id seq s.active;
  in_flight = s.in_flight + 1;
}

unfoldable pub mark_completed : Text → ℕ → Service → Service
unfolding is_active forget
mark_completed id seq s =
    if is_active id seq s.active
    then record s {
      active = forget id seq s.active;
      in_flight = if ltb 0 s.in_flight then s.in_flight - 1 else s.in_flight;
    }
    else s

unfoldable pub set_last_error : Text → ℕ → Service → Service
set_last_error message now s =
    if text_eq (trim_space message) []
    then s
    else record s { last_error = trim_space message; last_error_at = now }

-- What the request and the parsing of its answer come to.
pub data Outcome : Type 0 where
  fails_with : Text → Outcome
  suggests : Suggestion → Outcome

-- The rest of runJob behind the request, before the deferred markCompleted.
unfoldable pub settle : Text → ℕ → Outcome → ℕ → Text → Service → Service
unfolding set_last_error job_seq_of
settle id seq (fails_with message) now stamp s = set_last_error message now s
settle id seq (suggests parsed) now stamp s =
    if job_seq_of id s == seq
    then record s {
      latest = some (record parsed { generated_at = stamp });
      last_error = [];
      last_error_at = 0;
    }
    else s

unfoldable pub complete : Text → ℕ → Outcome → ℕ → Text → Service → Service
unfolding settle mark_completed
complete id seq outcome now stamp s = mark_completed id seq (settle id seq outcome now stamp s)

-- The InProgress of Status, and whether CancelInFlight finds a request to cancel.
unfoldable pub in_progress : Service → Bool
in_progress s = ltb 0 s.in_flight

abbrev pub has_jobs : List (Text × ℕ) → Bool
has_jobs [] = false
has_jobs (j ∷ js) = true

unfoldable pub cancel_in_flight : Service → Bool
cancel_in_flight s = has_jobs s.active
