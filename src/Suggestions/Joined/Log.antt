-- ===== src/Suggestions/Joined/Log.antt =====
-- The steps of a job leave the lines and the numbers of the sessions as they are.
use arda_wed_gateway.Base.{ℕ, ◌≡◌, refl, ◌∙◌, Option, none, some, arith}
use arda_wed_gateway.Base.Text.{Text}
use arda_wed_gateway.State.{Loaded}
use arda_wed_gateway.Suggestions.{
  Service, Outcome, fails_with, suggests, set_last_error, mark_in_flight, mark_completed, settle,
  complete,
}
use arda_wed_gateway.Suggestions.Answer.{Json}
use arda_wed_gateway.Suggestions.OpenRouter.{Answer}
use arda_wed_gateway.Suggestions.Prompt.{build_prompt}
use arda_wed_gateway.Suggestions.Run.{begin_with, begin_job, end_job, outcome_of}

pub record SameLog (s t : Service) : Type 0 where
  pub lines : t.recent_by_session ≡ s.recent_by_session
  pub numbers : t.job_seq_by_session ≡ s.job_seq_by_session
  pub limit : t.recent_lines_max ≡ s.recent_lines_max

join : {s t u : Service} → SameLog s t → SameLog t u → SameLog s u
join p q = record {
  lines = q.lines ∙ p.lines;
  numbers = q.numbers ∙ p.numbers;
  limit = q.limit ∙ p.limit;
}

set_last_error-SameLog :
    (message : Text) (now : ℕ) (s : Service) → SameLog s (set_last_error message now s)
unfolding set_last_error
set_last_error-SameLog message now s = ground arith

mark_completed-SameLog : (id : Text) (seq : ℕ) (s : Service) → SameLog s (mark_completed id seq s)
unfolding mark_completed
mark_completed-SameLog id seq s = ground arith

settle-SameLog :
    (id : Text) (seq : ℕ) (o : Outcome) (now : ℕ) (stamp : Text) (s : Service)
    → SameLog s (settle id seq o now stamp s)
unfolding settle
settle-SameLog id seq (fails_with message) now stamp s = set_last_error-SameLog message now s
settle-SameLog id seq (suggests parsed) now stamp s = ground arith

begin_with-SameLog :
    (o : Option Text) (reason id : Text) (seq now : ℕ) (s : Service)
    → SameLog s (begin_with o reason id seq now s).0
unfolding begin_with mark_in_flight
begin_with-SameLog none reason id seq now s = set_last_error-SameLog _ now s
begin_with-SameLog (some p) reason id seq now s = record {
  lines = refl;
  numbers = refl;
  limit = refl;
}

pub begin-SameLog :
    (loaded : Loaded) (reason id : Text) (seq now : ℕ) (s : Service)
    → SameLog s (begin_job loaded reason id seq now s).0
unfolding begin_job
begin-SameLog loaded reason id seq now s =
    begin_with-SameLog (build_prompt _ loaded) reason id seq now s

pub end-SameLog :
    (decode : Text → Json) (answer : Answer) (id : Text) (seq now : ℕ) (stamp : Text) (s : Service)
    → SameLog s (end_job decode answer id seq now stamp s)
unfolding end_job complete
end-SameLog decode answer id seq now stamp s =
    join (settle-SameLog id seq (outcome_of decode answer) now stamp s)
      (mark_completed-SameLog id seq _)
