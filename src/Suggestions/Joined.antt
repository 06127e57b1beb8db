-- ===== src/Suggestions/Joined.antt =====
-- service.go: the whole suggestion service, its timers, jobs and lines together.
pub mod Log
use arda_wed_gateway.Base.{
  ℕ, ◌≡◌, refl, ap, sym, subst, Bool, true, false, Option, none, some, List, [], ◌∷◌, if_cases,
  arith, ◌||◌, ◌∙◌,
}
use arda_wed_gateway.Base.Map.{lookup}
use arda_wed_gateway.Base.Text.{Text, codes, text_eq}
use arda_wed_gateway.Base.Text.Space.{trim_space}
use arda_wed_gateway.Base.Word.{ℤ}
use arda_wed_gateway.State.{Loaded}
use arda_wed_gateway.Suggestions.{
  Service, new_service, is_active, ingest_terminal, job_seq_of, number_or_zero, set_last_error,
  mark_in_flight, mark_completed, settle, complete, Outcome, fails_with, suggests,
}
use arda_wed_gateway.Suggestions.Answer.{Json}
use arda_wed_gateway.Suggestions.Jobs
use arda_wed_gateway.Suggestions.Jobs.{IsTallied, Step-IsTallied, Reach-IsTallied, is_active-forget}
use arda_wed_gateway.Suggestions.OpenRouter.{Answer}
use arda_wed_gateway.Suggestions.Prompt.{build_prompt}
use arda_wed_gateway.Suggestions.Run.{begin_with, begin_job, end_job, outcome_of}
use arda_wed_gateway.Suggestions.Run.Shown
use arda_wed_gateway.Suggestions.Run.Shown.{IsShown, Step-IsShown}
use arda_wed_gateway.Suggestions.Timers.{
  Timer, Debouncer, new_debouncer, take_text, fire, fire_timer, IsCurrent, take-IsCurrent,
  fire-IsCurrent,
}
use arda_wed_gateway.Suggestions.Joined.Log.{SameLog, begin-SameLog, end-SameLog}

-- A service in which every job under way began.
pub record IsJoined (begun : List (Text × ℕ)) (d : Debouncer) : Type 0 where
  pub tallied : IsTallied d.service
  pub shown : IsShown d.service.latest
  pub current : (id : Text) → IsCurrent id (job_seq_of id d.service) d.started (lookup id d.timers)
  pub known :
      (id : Text) (seq : ℕ)
      → is_active id seq begun ≡ false
      → is_active id seq d.service.active ≡ false

-- The service of a debouncer that went on to another with the same numbers.
abbrev pub with_service : Service → Debouncer → Debouncer
with_service s d = record d { service = s }

numbers_kept :
    (s : Service) (d : Debouncer)
    → SameLog d.service s
    → ((id : Text) → IsCurrent id (job_seq_of id d.service) d.started (lookup id d.timers))
    → (id : Text) → IsCurrent id (job_seq_of id s) d.started (lookup id d.timers)
unfolding job_seq_of
numbers_kept s d e h id =
    subst (λ n. IsCurrent id n d.started (lookup id d.timers))
      (ap (λ m. number_or_zero (lookup id m)) (sym e.numbers)) (h id)

-- No job is under way but those that began.
abbrev pub IsKnown : List (Text × ℕ) → Service → Type 0
IsKnown begun s =
    (id : Text) (seq : ℕ) → is_active id seq begun ≡ false → is_active id seq s.active ≡ false

same_active :
    (begun : List (Text × ℕ)) (s t : Service)
    → t.active ≡ s.active
    → IsKnown begun s
    → IsKnown begun t
same_active begun s t e h id seq a = ap (is_active id seq) e ∙ h id seq a

pub new-IsJoined : (debounce : ℤ) (max : ℕ) → IsJoined [] (new_debouncer debounce max)
unfolding new_debouncer new_service job_seq_of lookup is_active
new-IsJoined debounce max = record {
  tallied = Reach-IsTallied {max = max} Jobs.here;
  shown = tt;
  current = λ id. refl;
  known = λ id seq h. refl;
}

ingest-active : (id text : Text) (s : Service) → (ingest_terminal id text s).active ≡ s.active
unfolding ingest_terminal
ingest-active id text s = ground arith

pub taken-service :
    (id text : Text) (d : Debouncer)
    → (take_text id text d).service ≡ ingest_terminal id text d.service
unfolding take_text ingest_terminal
taken-service id text d = ground arith

pub take-IsJoined :
    (decode : Text → Json) (begun : List (Text × ℕ)) (id text : Text) (d : Debouncer)
    → IsJoined begun d
    → IsJoined begun (take_text id text d)
take-IsJoined decode begun id text d v = record {
  tallied = rw (taken-service id text d) (Step-IsTallied (Jobs.ingests id text) v.tallied);
  shown =
      rw (taken-service id text d) (Step-IsShown {decode = decode} (Shown.ingests id text) v.shown);
  current = λ i. take-IsCurrent i id text d (v.current i);
  known = rw (taken-service id text d) (
      same_active begun d.service (ingest_terminal id text d.service)
        (ingest-active id text d.service) v.known);
}

pub fired-service : (id : Text) (d : Debouncer) → (fire id d).service ≡ d.service
unfolding fire
fired-service id d = go (lookup id d.timers)
  where
    go : (o : Option Timer) → (fire_timer id o d).service ≡ d.service
    go none = unfold fire_timer in refl
    go (some t) = unfold fire_timer in ground arith

pub fire-IsJoined :
    (begun : List (Text × ℕ)) (id : Text) (d : Debouncer)
    → IsJoined begun d
    → IsJoined begun (fire id d)
fire-IsJoined begun id d v = record {
  tallied = rw (fired-service id d) v.tallied;
  shown = rw (fired-service id d) v.shown;
  current = λ i. fire-IsCurrent i id d (v.current i);
  known = rw (fired-service id d) v.known;
}

begin_with-Tallied :
    (o : Option Text) (reason id : Text) (seq now : ℕ) (s : Service)
    → is_active id seq s.active ≡ false
    → IsTallied s
    → IsTallied (begin_with o reason id seq now s).0
unfolding begin_with
begin_with-Tallied none reason id seq now s a v = Step-IsTallied (Jobs.prompt_fails _ now) v
begin_with-Tallied (some p) reason id seq now s a v = Step-IsTallied (Jobs.starts id seq a) v

set_last_error-active :
    (message : Text) (now : ℕ) (s : Service) → (set_last_error message now s).active ≡ s.active
unfolding set_last_error
set_last_error-active message now s = ground arith

weaken : (b c : Bool) → (b || c) ≡ false → c ≡ false
weaken b c h = ground arith

begin_with-IsKnown :
    (o : Option Text) (reason id : Text) (seq now : ℕ) (begun : List (Text × ℕ)) (s : Service)
    → IsKnown begun s
    → IsKnown ((id, seq) ∷ begun) (begin_with o reason id seq now s).0
unfolding begin_with mark_in_flight is_active
begin_with-IsKnown none reason id seq now begun s h k n a =
    ap (is_active k n) (set_last_error-active _ now s) ∙ h k n (weaken _ _ a)
begin_with-IsKnown (some p) reason id seq now begun s h k n a =
    ground (arith, is_active-forget id k seq n s.active, h k n)

settle-active :
    (id : Text) (seq : ℕ) (o : Outcome) (now : ℕ) (stamp : Text) (s : Service)
    → (settle id seq o now stamp s).active ≡ s.active
unfolding settle
settle-active id seq (fails_with message) now stamp s = set_last_error-active message now s
settle-active id seq (suggests parsed) now stamp s = ground arith

mark_completed-IsKnown :
    (id : Text) (seq : ℕ) (begun : List (Text × ℕ)) (s : Service)
    → IsKnown begun s
    → IsKnown begun (mark_completed id seq s)
unfolding mark_completed
mark_completed-IsKnown id seq begun s h k n a =
    ground (arith, is_active-forget id k seq n s.active, h k n a)

pub begin-IsJoined :
    (decode : Text → Json) (begun : List (Text × ℕ)) (loaded : Loaded) (reason id : Text)
    (seq now : ℕ) (d : Debouncer)
    → is_active id seq begun ≡ false
    → IsJoined begun d
    → IsJoined ((id, seq) ∷ begun) (with_service (begin_job loaded reason id seq now d.service).0 d)
begin-IsJoined decode begun loaded reason id seq now d a v = record {
  tallied =
      unfold begin_job in
      begin_with-Tallied _ reason id seq now d.service (v.known id seq a) v.tallied;
  shown = Step-IsShown {decode = decode} (Shown.begins loaded reason id seq now) v.shown;
  current = numbers_kept _ d (begin-SameLog loaded reason id seq now d.service) v.current;
  known = unfold begin_job in begin_with-IsKnown _ reason id seq now begun d.service v.known;
}

pub end-IsJoined :
    (decode : Text → Json) (begun : List (Text × ℕ)) (answer : Answer) (id : Text) (seq now : ℕ)
    (stamp : Text) (d : Debouncer)
    → IsJoined begun d
    → IsJoined begun (with_service (end_job decode answer id seq now stamp d.service) d)
end-IsJoined decode begun answer id seq now stamp d v = record {
  tallied =
      unfold end_job in
      Step-IsTallied (Jobs.completes id seq (outcome_of decode answer) now stamp) v.tallied;
  shown = Step-IsShown (Shown.ends answer id seq now stamp) v.shown;
  current = numbers_kept _ d (end-SameLog decode answer id seq now stamp d.service) v.current;
  known =
      unfold end_job complete in
      mark_completed-IsKnown id seq begun
        (settle id seq (outcome_of decode answer) now stamp d.service)
        (same_active begun d.service (settle id seq (outcome_of decode answer) now stamp d.service)
          (settle-active id seq (outcome_of decode answer) now stamp d.service) v.known);
}
