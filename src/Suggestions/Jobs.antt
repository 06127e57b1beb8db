-- ===== src/Suggestions/Jobs.antt =====
-- The requests under way, in every interleaving of texts, starts and answers.
use arda_wed_gateway.Base.{
  ℕ, suc, ◌+◌, ◌%◌, ◌≤◌, ◌<◌, ◌≡◌, refl, ap, ◌∙◌, true, false, List, [], ◌∷◌, ltb, ◌==◌, ==_iff,
  Bool-cases, inl, inr, length, arith,
}
use arda_wed_gateway.Base.Map.{lookup}
use arda_wed_gateway.Base.Map.Laws.{lookup-insert}
use arda_wed_gateway.Base.Text.Space.{trim_space}
use arda_wed_gateway.Base.Text.{Text, text_eq, text_eq→eq, text_eq_refl}
use arda_wed_gateway.Base.Word.{word64}
use arda_wed_gateway.Suggestions.{
  Service, new_service, number_or_zero, job_seq_of, ingest_terminal, same_job, is_active, forget,
  mark_in_flight, mark_completed, set_last_error, Outcome, fails_with, suggests, settle, complete,
  in_progress, has_jobs, cancel_in_flight,
}

-- One step: a text arrives, a prompt cannot be built, a job starts its request, or ends it. A timer
-- fires once, so that no job starts while one of its session and number is under way.
pub data Step (s : Service) : Service → Type 0 where
  ingests : (id text : Text) → Step s (ingest_terminal id text s)
  prompt_fails : (message : Text) (now : ℕ) → Step s (set_last_error message now s)
  starts :
      (id : Text) (seq : ℕ) → is_active id seq s.active ≡ false → Step s (mark_in_flight id seq s)
  completes :
      (id : Text) (seq : ℕ) (outcome : Outcome) (now : ℕ) (stamp : Text)
      → Step s (complete id seq outcome now stamp s)

pub data Reach (max : ℕ) : Service → Type 0 where
  here : Reach max (new_service max)
  next : {s t : Service} → Reach max s → Step s t → Reach max t

-- No job is listed twice.
pub IsOnce : List (Text × ℕ) → Type 0
IsOnce [] = Unit {0}
IsOnce ((id, seq) ∷ js) = (is_active id seq js ≡ false) × IsOnce js

pub record IsTallied (s : Service) : Type 0 where
  pub once : IsOnce s.active
  pub tally : s.in_flight ≡ length s.active

forget-absent :
    (id : Text) (seq : ℕ) (js : List (Text × ℕ))
    → is_active id seq js ≡ false
    → forget id seq js ≡ js
unfolding is_active forget
forget-absent id seq [] h = refl
forget-absent id seq (j ∷ js) h = ground (arith, forget-absent id seq js)

pub is_active-forget :
    (id k : Text) (seq n : ℕ) (js : List (Text × ℕ))
    → is_active k n js ≡ false
    → is_active k n (forget id seq js) ≡ false
unfolding is_active forget
is_active-forget id k seq n [] h = refl
is_active-forget id k seq n (j ∷ js) h = ground (arith, is_active-forget id k seq n js)

forget-IsOnce : (id : Text) (seq : ℕ) (js : List (Text × ℕ)) → IsOnce js → IsOnce (forget id seq js)
unfolding forget IsOnce
forget-IsOnce id seq [] h = tt
forget-IsOnce id seq ((k, n) ∷ js) h =
    ground (arith, forget-IsOnce id seq js, is_active-forget id k seq n js)

-- One job under two names.
is_active-same :
    (id k : Text) (seq n : ℕ) (js : List (Text × ℕ))
    → same_job id seq (k, n) ≡ true
    → is_active id seq js ≡ is_active k n js
is_active-same id k seq n js h =
    let names : k ≡ id = text_eq→eq k id (ground arith) in
    let numbers : n ≡ seq = ground (arith, ==_iff n seq) in cc

length-forget :
    (id : Text) (seq : ℕ) (js : List (Text × ℕ))
    → IsOnce js
    → is_active id seq js ≡ true
    → suc (length (forget id seq js)) ≡ length js
unfolding is_active forget IsOnce
length-forget id seq [] h a = cc
length-forget id seq ((k, n) ∷ js) h a = elim (Bool-cases (same_job id seq (k, n))) [
  | inl e ↦
      let gone : forget id seq js ≡ js =
        forget-absent id seq js (is_active-same id k seq n js e ∙ h.0) in
      rw (e, gone)
  | inr e ↦ rw e (ap suc (length-forget id seq js h.1 (rw e at a)))
]

set_last_error-IsTallied :
    (message : Text) (now : ℕ) (s : Service)
    → IsTallied s
    → IsTallied (set_last_error message now s)
unfolding set_last_error
set_last_error-IsTallied message now s v = ground arith

ingest-IsTallied :
    (id text : Text) (s : Service) → IsTallied s → IsTallied (ingest_terminal id text s)
unfolding ingest_terminal
ingest-IsTallied id text s v = ground arith

start-IsTallied :
    (id : Text) (seq : ℕ) (s : Service)
    → is_active id seq s.active ≡ false
    → IsTallied s
    → IsTallied (mark_in_flight id seq s)
unfolding mark_in_flight IsOnce
start-IsTallied id seq s a v =
    let same : forget id seq s.active ≡ s.active = forget-absent id seq s.active a in
    record {
      once = (is_active-forget id id seq seq s.active a, forget-IsOnce id seq s.active v.once);
      tally = omega (arith, v.tally, ap length same);
    }

settle-IsTallied :
    (id : Text) (seq : ℕ) (outcome : Outcome) (now : ℕ) (stamp : Text) (s : Service)
    → IsTallied s
    → IsTallied (settle id seq outcome now stamp s)
unfolding settle
settle-IsTallied id seq (fails_with message) now stamp s v =
    set_last_error-IsTallied message now s v
settle-IsTallied id seq (suggests parsed) now stamp s v = ground arith

completed-IsTallied :
    (id : Text) (seq : ℕ) (s : Service) → IsTallied s → IsTallied (mark_completed id seq s)
unfolding mark_completed
completed-IsTallied id seq s v =
    ground (arith, forget-IsOnce id seq s.active v.once, length-forget id seq s.active v.once)

pub Step-IsTallied : {s t : Service} → Step s t → IsTallied s → IsTallied t
unfolding complete
Step-IsTallied {s} (ingests id text) v = ingest-IsTallied id text s v
Step-IsTallied {s} (prompt_fails message now) v = set_last_error-IsTallied message now s v
Step-IsTallied {s} (starts id seq a) v = start-IsTallied id seq s a v
Step-IsTallied {s} (completes id seq outcome now stamp) v =
    completed-IsTallied id seq _ (settle-IsTallied id seq outcome now stamp s v)

pub Reach-IsTallied : {max : ℕ} {s : Service} → Reach max s → IsTallied s
unfolding new_service IsOnce
Reach-IsTallied here = record { once = tt; tally = refl }
Reach-IsTallied (next r st) = Step-IsTallied st (Reach-IsTallied r)

-- In every interleaving of texts, starts and answers the number of requests in flight is the number
-- of jobs under way, so that the status says that a request is in progress exactly while there is
-- one that CancelInFlight would cancel.
in_progress-cancel :
    {max : ℕ} {s : Service}
    → Reach max s
    → (s.in_flight ≡ length s.active) × (in_progress s ≡ cancel_in_flight s)
unfolding in_progress cancel_in_flight
in_progress-cancel {max} {s} r =
    let v : IsTallied s = Reach-IsTallied r in (v.tally, positive s.active s.in_flight v.tally)
  where
    positive : (js : List (Text × ℕ)) (n : ℕ) → n ≡ length js → ltb 0 n ≡ has_jobs js
    positive [] n e = ground arith
    positive (j ∷ js) n e = ground arith

pub mark_completed-latest :
    (id : Text) (seq : ℕ) (s : Service) → (mark_completed id seq s).latest ≡ s.latest
unfolding mark_completed
mark_completed-latest id seq s = ground arith

pub set_last_error-latest :
    (message : Text) (now : ℕ) (s : Service) → (set_last_error message now s).latest ≡ s.latest
unfolding set_last_error
set_last_error-latest message now s = ground arith

settle-latest :
    (id : Text) (seq : ℕ) (outcome : Outcome) (now : ℕ) (stamp : Text) (s : Service)
    → (job_seq_of id s == seq) ≡ false
    → (settle id seq outcome now stamp s).latest ≡ s.latest
unfolding settle
settle-latest id seq (fails_with message) now stamp s h = set_last_error-latest message now s
settle-latest id seq (suggests parsed) now stamp s h = ground arith

pub ingest-latest : (id text : Text) (s : Service) → (ingest_terminal id text s).latest ≡ s.latest
unfolding ingest_terminal
ingest-latest id text s = ground arith

-- A text with something in it counts the session's number up.
job_seq_of-ingest :
    (id text : Text) (s : Service)
    → text_eq (trim_space text) [] ≡ false
    → job_seq_of id (ingest_terminal id text s) ≡ (job_seq_of id s + 1) % word64
unfolding ingest_terminal job_seq_of
job_seq_of-ingest id text s h = ground (
  arith,
  lookup-insert id id ((number_or_zero (lookup id s.job_seq_by_session) + 1) % word64)
      s.job_seq_by_session,
  text_eq_refl id,
)

-- A job that was numbered before a text with something in it arrived for its session leaves the
-- latest suggestion as it is, whatever its request comes to, while the numbers fit in 64 bits.
pub complete-stale :
    (id text : Text) (seq : ℕ) (outcome : Outcome) (now : ℕ) (stamp : Text) (s : Service)
    → text_eq (trim_space text) [] ≡ false
    → seq ≤ job_seq_of id s
    → suc (job_seq_of id s) < word64
    → (complete id seq outcome now stamp (ingest_terminal id text s)).latest ≡ s.latest
unfolding complete
complete-stale id text seq outcome now stamp s b q w =
    let numbered : (job_seq_of id (ingest_terminal id text s) == seq) ≡ false =
      ground (arith, job_seq_of-ingest id text s b) in
    mark_completed-latest id seq (settle id seq outcome now stamp (ingest_terminal id text s))
    ∙ settle-latest id seq outcome now stamp (ingest_terminal id text s) numbered
    ∙ ingest-latest id text s
