-- ===== src/App/Steps.antt =====
-- router.go, manager.go, service.go: the steps of the goroutines on the state that they share. Each
-- runs to its end before the next one; a round of a reader ends with the calls of `onTerminal`.
use arda_wed_gateway.Base.{ℕ, zero, suc, ◌≡◌, true, false, Option, none, some, List, [], ◌∷◌, ◌++◌}
use arda_wed_gateway.Base.Text.{Text}
use arda_wed_gateway.Base.Word.{ℤ}
use arda_wed_gateway.Config.{Config}
use arda_wed_gateway.State.Service.{StateService}
use arda_wed_gateway.Suggestions.{Service, is_active}
use arda_wed_gateway.Suggestions.OpenRouter
use arda_wed_gateway.Suggestions.Run.{begin_job, end_job}
use arda_wed_gateway.Suggestions.Timers.{Debouncer, fire}
use arda_wed_gateway.Gateway.Hub.{take_event}
use arda_wed_gateway.Gateway.Manager.{Clock, Manager}
use arda_wed_gateway.Gateway.Manager.Commands.{WriteOutcome, worker_tick}
use arda_wed_gateway.Gateway.Manager.Rounds.{read_round}
use arda_wed_gateway.Gateway.Manager.Upstream.{Round}
use arda_wed_gateway.Gateway.Telnet.{TelnetFilter}
use arda_wed_gateway.Http.Router.{Router, new_router, take_effects}
use arda_wed_gateway.Http.Terminal.{close_terminal}
use arda_wed_gateway.App.{Platform, Request, Reader, App, serve}

unfoldable pub new_app {ℓ} : {S : Type ℓ} → Config → S → App S
unfolding new_router
new_app cfg state = record { router = new_router cfg state; readers = []; begun = [] }

unfoldable pub reader_at : ℕ → List Reader → Option Reader
reader_at n [] = none
reader_at zero (rd ∷ rs) = some rd
reader_at (suc n) (rd ∷ rs) = reader_at n rs

abbrev pub go_on : Option TelnetFilter → Reader → List Reader
go_on none rd = []
go_on (some f) rd = record rd { filter = f } ∷ []

-- The reader at a place, as a round leaves it.
unfoldable pub leave_reader : ℕ → Option TelnetFilter → List Reader → List Reader
leave_reader n left [] = []
leave_reader zero left (rd ∷ rs) = go_on left rd ++ rs
leave_reader (suc n) left (rd ∷ rs) = rd ∷ leave_reader n left rs

abbrev quiet : Manager → Manager
quiet m = record m { effects = [] }

module _ {ℓ κ} {S : Type ℓ} {M : Type κ} (service : StateService S M) (p : Platform) where
  abbrev with_manager : Manager → Router S → Router S
  with_manager m r = record r { manager = m }

  -- A manager that did this, behind what it did before; its calls of `onTerminal` are made.
  unfoldable pub pass_on : M → Manager → Router S → Router S
  unfolding take_effects
  pass_on now m r =
      take_effects (service.upsert now) p.lower p.aliases m.effects
        (with_manager (record m { effects = m.effects ++ r.manager.effects }) r)

  -- One round of a reader.
  unfoldable pub read_by : Option Reader → ℕ → Round → Clock → M → App S → App S
  unfolding read_round pass_on leave_reader
  read_by none n round clock now a = a
  read_by (some rd) n round clock now a =
      let (left, m) =
        read_round p.charset.decoder rd.session_id clock round rd.filter (quiet a.router.manager) in
      record a { router = pass_on now m a.router; readers = leave_reader n left a.readers }

  unfoldable pub tick : WriteOutcome → ℤ → Clock → App S → App S
  unfolding worker_tick
  tick outcome elapsed clock a = record a {
    router =
        with_manager (worker_tick p.charset.encoder outcome elapsed clock a.router.manager)
          a.router;
  }

  -- The handler of a WebSocket returns, and the pump of a client takes an event.
  unfoldable pub leave : ℕ → App S → App S
  unfolding close_terminal
  leave i a = record a { router = with_manager (close_terminal i a.router.manager) a.router }

  unfoldable pub pump : ℕ → App S → App S
  unfolding take_event
  pump i a = record a {
    router =
        with_manager (record a.router.manager { hub = take_event i a.router.manager.hub }) a.router;
  }

  abbrev with_suggestions : Debouncer → Router S → Router S
  with_suggestions d r = record r { suggestions = d }

  abbrev with_service : Service → Router S → Router S
  with_service s r = record r { suggestions = record r.suggestions { service = s } }

  -- The debounce of a session is over; a job begins; its request is answered.
  unfoldable pub fire_in : Text → App S → App S
  unfolding fire
  fire_in id a = record a { router = with_suggestions (fire id a.router.suggestions) a.router }

  unfoldable pub begin_in : M → Text → Text → ℕ → ℕ → App S → App S
  unfolding begin_job
  begin_in now reason id seq time a = record a {
    router =
        with_service
          (begin_job (service.load now a.router.state) reason id seq time
            a.router.suggestions.service).0
          a.router;
    begun = (id, seq) ∷ a.begun;
  }

  unfoldable pub end_in : OpenRouter.Answer → Text → ℕ → ℕ → Text → App S → App S
  unfolding end_job
  end_in answer id seq time stamp a = record a {
    router =
        with_service (end_job p.decode answer id seq time stamp a.router.suggestions.service)
          a.router;
  }

  -- A job begins once, and after its timer fired; an answer comes to a job that is under way.
  pub data Step (a : App S) : App S → Type (ℓ ⊔ κ) where
    serves :
        (id_stamp : Text) (clock : Clock) (request : Request M)
        → Step a (serve service p id_stamp clock request a).0
    reads :
        (n : ℕ) (round : Round) (clock : Clock) (now : M)
        → Step a (read_by (reader_at n a.readers) n round clock now a)
    ticks :
        (outcome : WriteOutcome) (elapsed : ℤ) (clock : Clock)
        → Step a (tick outcome elapsed clock a)
    leaves : (i : ℕ) → Step a (leave i a)
    pumps : (i : ℕ) → Step a (pump i a)
    fires : (id : Text) → Step a (fire_in id a)
    begins :
        (now : M) (reason id : Text) (seq time : ℕ)
        → is_active id seq a.router.suggestions.started ≡ true
        → is_active id seq a.begun ≡ false
        → Step a (begin_in now reason id seq time a)
    ends :
        (answer : OpenRouter.Answer) (id : Text) (seq time : ℕ) (stamp : Text)
        → is_active id seq a.router.suggestions.service.active ≡ true
        → Step a (end_in answer id seq time stamp a)

  pub data Reach (cfg : Config) (state : S) : App S → Type (ℓ ⊔ κ) where
    here : Reach cfg state (new_app cfg state)
    next : {a b : App S} → Reach cfg state a → Step a b → Reach cfg state b
