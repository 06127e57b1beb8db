-- ===== src/Suggestions/Run/Shown.antt =====
-- The suggestion that is shown, in every interleaving of texts, jobs and answers.
use arda_wed_gateway.Base.{
  ℕ, ◌≡◌, refl, ◌∙◌, false, ◌==◌, Option, none, some, List, [], ◌∷◌, map, arith, All, if◌then◌else◌,
  Bool-cases, inl, inr, if_cases,
}
use arda_wed_gateway.Base.Text.{Text}
use arda_wed_gateway.Base.Text.Space.{trim_space, is_blank}
use arda_wed_gateway.State.{Loaded}
use arda_wed_gateway.Suggestions.{
  Suggestion, Service, new_service, Outcome, fails_with, suggests, ingest_terminal, mark_in_flight,
  settle, complete, job_seq_of,
}
use arda_wed_gateway.Suggestions.Jobs.{mark_completed-latest, set_last_error-latest, ingest-latest}
use arda_wed_gateway.Suggestions.OpenRouter.{Answer, content, error}
use arda_wed_gateway.Suggestions.Prompt.{build_prompt}
use arda_wed_gateway.Suggestions.Answer.{
  Json, undecoded, trailing, decoded, Parsed, refused, accepted, has_none,
  normalize_suggestion_json, parse_suggestion_json,
}
use arda_wed_gateway.Suggestions.Answer.Accepted.{
  is_usable, trimmed_suggestion, suggestion_of, IsCommand, All-commands, check-usable,
}
use arda_wed_gateway.Suggestions.Run.{begin_with, begin_job, outcome_of, outcome_of_parsed, end_job}

-- At least one command, none of them empty and none with white space at its ends; a reason, and an
-- expected outcome.
pub record IsShowable (s : Suggestion) : Type 0 where
  pub some_command : has_none s.commands ≡ false
  pub sendable : All IsCommand s.commands
  pub reasoned : is_blank s.reason ≡ false
  pub expected : is_blank s.expected_outcome ≡ false

abbrev pub IsShown : Option Suggestion → Type 0
IsShown none = Unit {0}
IsShown (some s) = IsShowable s

-- A text arrives, a job builds its prompt and starts its request if it can, or the model's answer, or
-- the request's error, comes to a job.
pub data Step (decode : Text → Json) (s : Service) : Service → Type 0 where
  ingests : (id text : Text) → Step decode s (ingest_terminal id text s)
  begins :
      (loaded : Loaded) (reason id : Text) (seq now : ℕ)
      → Step decode s (begin_job loaded reason id seq now s).0
  ends :
      (answer : Answer) (id : Text) (seq now : ℕ) (stamp : Text)
      → Step decode s (end_job decode answer id seq now stamp s)

pub data Reach (decode : Text → Json) (max : ℕ) : Service → Type 0 where
  here : Reach decode max (new_service max)
  next : {s t : Service} → Reach decode max s → Step decode s t → Reach decode max t

has_none-map : (cs : List Text) → has_none (map trim_space cs) ≡ has_none cs
has_none-map [] = refl
has_none-map (c ∷ cs) = refl

usable-IsShown : (j : Json) → IsShown (if is_usable j then trimmed_suggestion j else none)
usable-IsShown (undecoded message) = tt
usable-IsShown trailing = tt
usable-IsShown (decoded s) = elim (Bool-cases (is_usable (decoded s))) [
  | inl e ↦ rw e (record {
    some_command = has_none-map s.commands ∙ ground arith;
    sendable = All-commands s.commands (ground arith);
    reasoned = ground arith;
    expected = ground arith;
  })
  | inr e ↦ rw e tt
]

parsed-IsShown :
    (decode : Text → Json) (c : Text) → IsShown (suggestion_of (parse_suggestion_json decode c))
parsed-IsShown decode c =
    unfold parse_suggestion_json in
    (rw (check-usable (decode (normalize_suggestion_json c)))
      (usable-IsShown (decode (normalize_suggestion_json c))))

abbrev suggested : Outcome → Option Suggestion
suggested (fails_with message) = none
suggested (suggests s) = some s

outcome-IsShown :
    (p : Parsed) → IsShown (suggestion_of p) → IsShown (suggested (outcome_of_parsed p))
unfolding outcome_of_parsed
outcome-IsShown (refused e) h = tt
outcome-IsShown (accepted s) h = h

answer-IsShown : (decode : Text → Json) (a : Answer) → IsShown (suggested (outcome_of decode a))
unfolding outcome_of
answer-IsShown decode (error e) = tt
answer-IsShown decode (content c) =
    outcome-IsShown (parse_suggestion_json decode c) (parsed-IsShown decode c)

settle-IsShown :
    (id : Text) (seq : ℕ) (o : Outcome) (now : ℕ) (stamp : Text) (s : Service)
    → IsShown (suggested o)
    → IsShown s.latest
    → IsShown (settle id seq o now stamp s).latest
unfolding settle
settle-IsShown id seq (fails_with message) now stamp s h v =
    rw (set_last_error-latest message now s) v
settle-IsShown id seq (suggests t) now stamp s h v =
    if_cases (λ (u : Service). IsShown u.latest) (job_seq_of id s == seq)
      (λ e. record {
        some_command = h.some_command;
        sendable = h.sendable;
        reasoned = h.reasoned;
        expected = h.expected;
      })
      (λ e. v)

begin-latest :
    (o : Option Text) (reason id : Text) (seq now : ℕ) (s : Service)
    → (begin_with o reason id seq now s).0.latest ≡ s.latest
unfolding begin_with mark_in_flight
begin-latest none reason id seq now s = set_last_error-latest _ now s
begin-latest (some p) reason id seq now s = refl

pub Step-IsShown :
    {decode : Text → Json} {s t : Service} → Step decode s t → IsShown s.latest → IsShown t.latest
Step-IsShown {decode} {s} (ingests id text) v = rw (ingest-latest id text s) v
Step-IsShown {decode} {s} (begins loaded reason id seq now) v =
    unfold begin_job in rw (begin-latest (build_prompt _ loaded) reason id seq now s) v
Step-IsShown {decode} {s} (ends answer id seq now stamp) v =
    unfold end_job complete in
    rw (mark_completed-latest id seq (settle id seq (outcome_of decode answer) now stamp s)) (
      settle-IsShown id seq (outcome_of decode answer) now stamp s (answer-IsShown decode answer) v)

-- Whatever texts arrive and whatever the model answers, in every interleaving of jobs: the suggestion
-- that Latest returns, if there is one, has at least one command, no command that is empty or has white
-- space at its ends, and a reason and an expected outcome that are not blank.
Reach-IsShown :
    {decode : Text → Json} {max : ℕ} {s : Service} → Reach decode max s → IsShown s.latest
unfolding new_service
Reach-IsShown here = tt
Reach-IsShown (next r st) = Step-IsShown st (Reach-IsShown r)
