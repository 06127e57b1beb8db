-- ===== src/Suggestions/Timers.antt =====
-- service.go: the timers of the debounce. A timer that is replaced is stopped and never fires; one that
-- fires starts the goroutine of its job, which may run at any later time.
use arda_wed_gateway.Base.{
  ℕ, ◌*◌, ◌≡◌, refl, sym, ap, ◌∙◌, Bool, true, false, not, ◌||◌, Option, none, some, List, [], ◌∷◌,
  ==_iff, subst, arith, if◌then◌else◌, if_cases, Bool-cases, Option-cases, inl, inr,
}
use arda_wed_gateway.Base.Map.{Map, lookup, insert}
use arda_wed_gateway.Base.Map.Laws.{lookup-insert}
use arda_wed_gateway.Base.Text.{Text, text_eq, text_eq→eq, text_eq_refl}
use arda_wed_gateway.Base.Text.Space.{trim_space}
use arda_wed_gateway.Base.Word.{ℤ, pos, add64}
use arda_wed_gateway.Config.{positive_or, millisecond}
use arda_wed_gateway.Suggestions.{
  Service, new_service, number_or_zero, job_seq_of, is_active, ingest_terminal,
}

-- The timer that timerBySess holds of a session: the number of its job, and whether it fired.
pub record Timer : Type 0 where
  pub seq : ℕ
  pub fired : Bool

-- A service with its timers; `started` are the jobs whose goroutine was started.
pub record Debouncer : Type 0 where
  pub debounce : ℤ
  pub service : Service
  pub timers : Map Timer
  pub started : List (Text × ℕ)

-- NewService
unfoldable pub new_debouncer : ℤ → ℕ → Debouncer
unfolding new_service positive_or
new_debouncer debounce recent_lines_max = record {
  debounce = positive_or (pos (700 * millisecond)) (some debounce);
  service = new_service recent_lines_max;
  timers = [];
  started = [];
}

-- IngestTerminal with its timer.
unfoldable pub take_text : Text → Text → Debouncer → Debouncer
unfolding ingest_terminal job_seq_of trim_space
take_text id text d = if text_eq (trim_space text) [] then d else record d {
  service = ingest_terminal id text d.service;
  timers = insert id (record { seq = add64 (job_seq_of id d.service) 1; fired = false }) d.timers;
}

unfoldable pub fire_timer : Text → Option Timer → Debouncer → Debouncer
fire_timer id none d = d
fire_timer id (some t) d = if t.fired then d else record d {
  timers = insert id (record t { fired = true }) d.timers;
  started = (id, t.seq) ∷ d.started;
}

-- The debounce is over for the timer of a session, if it has one that did not fire.
unfoldable pub fire : Text → Debouncer → Debouncer
unfolding fire_timer
fire id d = fire_timer id (lookup id d.timers) d

-- A text arrives, or the debounce of a session is over.
pub data Step (d : Debouncer) : Debouncer → Type 0 where
  takes : (id text : Text) → Step d (take_text id text d)
  fires : (id : Text) → Step d (fire id d)

pub data Reach (debounce : ℤ) (max : ℕ) : Debouncer → Type 0 where
  here : Reach debounce max (new_debouncer debounce max)
  next : {d e : Debouncer} → Reach debounce max d → Step d e → Reach debounce max e

-- The timer of a session that has this number, where these jobs were started.
abbrev pub IsCurrent : Text → ℕ → List (Text × ℕ) → Option Timer → Type 0
IsCurrent id n started none = n ≡ 0
IsCurrent id n started (some t) = (t.seq ≡ n) × ((not t.fired || is_active id n started) ≡ true)

-- The number of a session behind a text with something in it.
job_seq_of-take :
    (i id text : Text) (s : Service)
    → text_eq (trim_space text) [] ≡ false
    → job_seq_of i (ingest_terminal id text s)
      ≡ (if text_eq id i then add64 (job_seq_of id s) 1 else job_seq_of i s)
unfolding ingest_terminal job_seq_of
job_seq_of-take i id text s h = ground (
  arith,
  lookup-insert id i (add64 (number_or_zero (lookup id s.job_seq_by_session)) 1)
      s.job_seq_by_session,
)

-- The state behind such a text.
taken : Text → Text → Debouncer → Debouncer
taken id text d = record d {
  service = ingest_terminal id text d.service;
  timers = insert id (record { seq = add64 (job_seq_of id d.service) 1; fired = false }) d.timers;
}

taken-IsCurrent :
    (i id text : Text) (d : Debouncer)
    → text_eq (trim_space text) [] ≡ false
    → IsCurrent i (job_seq_of i d.service) d.started (lookup i d.timers)
    → IsCurrent i
        (job_seq_of i (taken id text d).service)
        (taken id text d).started
        (lookup i (taken id text d).timers)
unfolding taken
taken-IsCurrent i id text d h v =
    rw
      (
        job_seq_of-take i id text d.service h,
        lookup-insert id i (record { seq = add64 (job_seq_of id d.service) 1; fired = false })
            d.timers,
      )
      (elim (Bool-cases (text_eq id i)) [ inl e ↦ rw e (refl, refl) | inr e ↦ rw e v ])

pub take-IsCurrent :
    (i id text : Text) (d : Debouncer)
    → IsCurrent i (job_seq_of i d.service) d.started (lookup i d.timers)
    → IsCurrent i
        (job_seq_of i (take_text id text d).service)
        (take_text id text d).started
        (lookup i (take_text id text d).timers)
unfolding take_text taken
take-IsCurrent i id text d v =
    if_cases (λ (e : Debouncer). IsCurrent i (job_seq_of i e.service) e.started (lookup i e.timers))
      (text_eq (trim_space text) []) (λ h. v) (λ h. taken-IsCurrent i id text d h v)

-- A job that is started is not forgotten.
started_stays :
    (i k : Text) (n m : ℕ) (js : List (Text × ℕ)) (b : Bool)
    → (b || is_active i n js) ≡ true
    → (b || is_active i n ((k, m) ∷ js)) ≡ true
unfolding is_active
started_stays i k n m js b h = ground arith

IsCurrent-more :
    (i k : Text) (n m : ℕ) (js : List (Text × ℕ)) (o : Option Timer)
    → IsCurrent i n js o
    → IsCurrent i n ((k, m) ∷ js) o
IsCurrent-more i k n m js none v = v
IsCurrent-more i k n m js (some t) v = (v.0, started_stays i k n m js (not t.fired) v.1)

just_started :
    (id : Text) (t : Timer) (n : ℕ) (js : List (Text × ℕ))
    → t.seq ≡ n
    → is_active id n ((id, t.seq) ∷ js) ≡ true
unfolding is_active
just_started id t n js e = ground (arith, text_eq_refl id, ==_iff t.seq n)

fired-IsCurrent :
    (i id : Text) (t : Timer) (d : Debouncer)
    → lookup id d.timers ≡ some t
    → IsCurrent i (job_seq_of i d.service) d.started (lookup i d.timers)
    → IsCurrent i
        (job_seq_of i d.service)
        ((id, t.seq) ∷ d.started)
        (lookup i (insert id (record t { fired = true }) d.timers))
fired-IsCurrent i id t d q v =
    rw (lookup-insert id i (record t { fired = true }) d.timers) (elim (Bool-cases (text_eq id i)) [
      | inl e ↦
          let same : id ≡ i = text_eq→eq id i e in
          let here : lookup i d.timers ≡ some t =
            ap (λ (k : Text). lookup k d.timers) (sym same) ∙ q in
          let w : IsCurrent i (job_seq_of i d.service) d.started (some t) =
            subst (IsCurrent i (job_seq_of i d.service) d.started) here v in
          rw (e, same) (w.0, just_started i t (job_seq_of i d.service) d.started w.0)
      | inr e ↦
          rw e (IsCurrent-more i id (job_seq_of i d.service) t.seq d.started (lookup i d.timers) v)
    ])

pub fire-IsCurrent :
    (i id : Text) (d : Debouncer)
    → IsCurrent i (job_seq_of i d.service) d.started (lookup i d.timers)
    → IsCurrent i
        (job_seq_of i (fire id d).service)
        (fire id d).started
        (lookup i (fire id d).timers)
unfolding fire fire_timer
fire-IsCurrent i id d v = elim (Option-cases (lookup id d.timers)) [
  | inl q ↦ rw q v
  | inr (t, q) ↦ rw q (
      if_cases
        (λ (e : Debouncer). IsCurrent i (job_seq_of i e.service) e.started (lookup i e.timers))
        t.fired (λ h. v) (λ h. fired-IsCurrent i id t d q v))
]

-- In every order of texts and of ends of the debounce: a session has no timer only while its job number
-- is 0; else its timer is that of the job with its present number, never of an older one, and once this
-- timer fired, that job was started, so that the job of the latest text is not lost.
Reach-IsCurrent :
    {debounce : ℤ} {max : ℕ} {d : Debouncer} (id : Text)
    → Reach debounce max d
    → IsCurrent id (job_seq_of id d.service) d.started (lookup id d.timers)
unfolding new_debouncer new_service job_seq_of lookup
Reach-IsCurrent id here = refl
Reach-IsCurrent id (next {d} r (takes i text)) = take-IsCurrent id i text d (Reach-IsCurrent id r)
Reach-IsCurrent id (next {d} r (fires i)) = fire-IsCurrent id i d (Reach-IsCurrent id r)
