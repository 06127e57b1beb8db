-- ===== src/App/Pipeline.antt =====
-- From the bytes of the game to the store, the lines and the prompts, over all interleavings.
use arda_wed_gateway.Base.{
  ℕ, ◌≡◌, ◌<◌, refl, ◌∙◌, ap, Option, none, some, arith, ◌==◌, if◌then◌else◌,
}
use arda_wed_gateway.Base.Text.{Text}
use arda_wed_gateway.Config.{Config}
use arda_wed_gateway.State.Service.{StateService}
use arda_wed_gateway.Suggestions.{Service, new_service, recent_of, default_recent_lines}
use arda_wed_gateway.Suggestions.Joined.{fired-service}
use arda_wed_gateway.Suggestions.Joined.Log.{SameLog, begin-SameLog, end-SameLog}
use arda_wed_gateway.Suggestions.Prompt.{build_prompt}
use arda_wed_gateway.Suggestions.Recent.{last_lines, all_lines, new-last_lines}
use arda_wed_gateway.Suggestions.Run.{begin_job, begin_with}
use arda_wed_gateway.Suggestions.Timers.{new_debouncer}
use arda_wed_gateway.Gateway.Manager.{Clock, new_manager}
use arda_wed_gateway.Gateway.Manager.Texts.{texts, tick-texts}
use arda_wed_gateway.Http.Router.{new_router, size_of}
use arda_wed_gateway.Http.Terminal.{close_terminal}
use arda_wed_gateway.App.{Platform, App, Request, serve}
use arda_wed_gateway.App.Served.{handle-IsServed}
use arda_wed_gateway.App.Fed.{IsIngested, none_yet, IsFed, moves, read_by-IsFed}
use arda_wed_gateway.App.Steps.{
  new_app, reader_at, tick, leave, pump, fire_in, begin_in, end_in, Step, serves, ticks, leaves,
  pumps, fires, begins, Reach, here, next,
}
use arda_wed_gateway.App.Steps

-- How many lines the suggestion service keeps under a configuration.
pub lines_kept : Config → ℕ
lines_kept cfg =
    let n = size_of cfg.suggest_recent_lines in if n == 0 then default_recent_lines else n

lines_kept_pos : (cfg : Config) → 0 < lines_kept cfg
unfolding lines_kept
lines_kept_pos cfg = ground arith

same : (s : Service) → SameLog s s
same s = record { lines = refl; numbers = refl; limit = refl }

same_at : (s t : Service) → t ≡ s → SameLog s t
same_at s t e = record {
  lines = ap (λ (u : Service). u.recent_by_session) e;
  numbers = ap (λ (u : Service). u.job_seq_by_session) e;
  limit = ap (λ (u : Service). u.recent_lines_max) e;
}

module _ {ℓ κ} {S : Type ℓ} {M : Type κ} (service : StateService S M) (p : Platform) where
  start-IsFed :
      (cfg : Config) (state : S) → IsFed service p (lines_kept cfg) state (new_router cfg state)
  unfolding new_router new_manager new_debouncer new_service lines_kept texts
  start-IsFed cfg state = record {
    stored = none_yet;
    logged = record {
      limit = refl;
      recent = new-last_lines (size_of cfg.suggest_recent_lines) (lines_kept cfg);
    };
  }

  serve-IsFed :
      (max : ℕ) (state : S) (id_stamp : Text) (clock : Clock) (request : Request M) (a : App S)
      → IsFed service p max state a.router
      → IsFed service p max state (serve service p id_stamp clock request a).0.router
  unfolding serve
  serve-IsFed max state id_stamp clock request a v =
      let s = handle-IsServed service p _ clock request (record a.router { counter = _ }) in
      moves service p max state a.router _ s.follows.texts_stay s.state_stays
        (same_at a.router.suggestions.service _ (ap (λ d. d.service) s.suggestions_stay)) v

  Step-IsFed :
      {a b : App S} (max : ℕ) (state : S)
      → 0 < max
      → Step service p a b
      → IsFed service p max state a.router
      → IsFed service p max state b.router
  unfolding tick leave close_terminal pump fire_in begin_in end_in
  Step-IsFed {a} max state h (serves id_stamp clock request) v =
      serve-IsFed max state id_stamp clock request a v
  Step-IsFed {a} max state h (Steps.reads n round clock now) v =
      read_by-IsFed service p max state (reader_at n a.readers) n round clock now a h v
  Step-IsFed {a} max state h (ticks outcome elapsed clock) v =
      moves service p max state a.router _
        (tick-texts p.charset.encoder outcome elapsed clock a.router.manager) refl
        (same a.router.suggestions.service) v
  Step-IsFed {a} max state h (leaves i) v =
      moves service p max state a.router _ refl refl (same a.router.suggestions.service) v
  Step-IsFed {a} max state h (pumps i) v =
      moves service p max state a.router _ refl refl (same a.router.suggestions.service) v
  Step-IsFed {a} max state h (fires id) v =
      moves service p max state a.router _ refl refl
        (same_at a.router.suggestions.service _ (fired-service id a.router.suggestions)) v
  Step-IsFed {a} max state h (begins now reason id seq time started fresh) v =
      moves service p max state a.router _ refl refl
        (begin-SameLog (service.load now a.router.state) reason id seq time
          a.router.suggestions.service)
        v
  Step-IsFed {a} max state h (Steps.ends answer id seq time stamp active) v =
      moves service p max state a.router _ refl refl
        (end-SameLog p.decode answer id seq time stamp a.router.suggestions.service) v

  Reach-IsFed :
      {cfg : Config} {state : S} {a : App S}
      → Reach service p cfg state a
      → IsFed service p (lines_kept cfg) state a.router
  unfolding new_app
  Reach-IsFed {cfg} {state} here = start-IsFed cfg state
  Reach-IsFed {cfg} {state} (next r st) =
      Step-IsFed (lines_kept cfg) state (lines_kept_pos cfg) st (Reach-IsFed r)

  begin_prompt :
      (o : Option Text) (reason id : Text) (seq time : ℕ) (s : Service)
      → (begin_with o reason id seq time s).1 ≡ o
  unfolding begin_with
  begin_prompt none reason id seq time s = refl
  begin_prompt (some t) reason id seq time s = refl

  -- In every state that the gateway reaches, whatever requests, commands and jobs came in between:
  -- the store is the first one after Ingest of exactly the texts that the readers passed on, in their
  -- order and whatever the database did at each; the service holds of each session the last lines of
  -- these texts, as many as the configuration says; and a job that begins then asks the model with
  -- the prompt of these lines and of the snapshot that the store gives.
  pub Reach-prompt :
      {cfg : Config} {state : S} {a : App S} (now : M) (reason id : Text) (seq time : ℕ)
      → Reach service p cfg state a
      → let shown = texts a.router.manager.effects in
        let lines = last_lines (lines_kept cfg) (all_lines id shown) in
        let loaded = service.load now a.router.state in
        IsIngested service p state shown a.router.state
        × (recent_of id a.router.suggestions.service ≡ lines)
        × ((begin_job loaded reason id seq time a.router.suggestions.service).1
            ≡ build_prompt lines loaded)
  Reach-prompt {cfg} {state} {a} now reason id seq time r =
      let v = Reach-IsFed r in
      let lines = v.logged.recent id in
      (
        v.stored,
        lines,
        unfold begin_job in
            (begin_prompt _ reason id seq time a.router.suggestions.service
              ∙ ap (λ l. build_prompt l (service.load now a.router.state)) lines),
      )
