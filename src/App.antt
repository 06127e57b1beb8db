-- ===== src/App.antt =====
-- The whole gateway: what each endpoint of router.go does to the state that the components share, and
-- the steps by which the goroutines change it. `Http/Router.antt` puts the components together.
pub mod Steps
pub mod Served
pub mod Sound
pub mod Fed
pub mod Pipeline
pub mod Shows
pub mod Logged
pub mod Routes
pub mod Contract
pub mod Fits
pub mod Conforms
use arda_wed_gateway.Base.{
  ℕ, ◌+◌, Bool, Option, none, some, List, [], ◌∷◌, ◌++◌, ◌||◌, if◌then◌else◌,
}
use arda_wed_gateway.Base.Map.{Map}
use arda_wed_gateway.Base.Text.{Text}
use arda_wed_gateway.Base.Text.Space.{is_blank}
use arda_wed_gateway.State.Service.{StateService}
use arda_wed_gateway.Suggestions.Answer.{Json}
use arda_wed_gateway.Suggestions.Timers.{Debouncer}
use arda_wed_gateway.Gateway.Manager.{Clock, Status, GatewayError, Manager, connect}
use arda_wed_gateway.Gateway.Manager.History.{Charset}
use arda_wed_gateway.Gateway.Telnet.{TelnetFilter, state_data}
use arda_wed_gateway.Http.Response.{Reply}
use arda_wed_gateway.Http.Session.{
  SessionConnectRequest, not_positive, handle_session_connect, handle_session_disconnect,
  handle_session_status, handle_enqueue_command, handle_health,
}
use arda_wed_gateway.Http.Views.{
  handle_state_snapshot, handle_suggestions_latest, handle_suggestions_cancel,
}
use arda_wed_gateway.Http.Page.{handle_metrics}
use arda_wed_gateway.Http.Terminal.{
  nobody, UpgradeRequest, Hijacking, Handshake, answered, aborted, attached, open_terminal,
}
use arda_wed_gateway.Http.Recorder.{next_request_id}
use arda_wed_gateway.Http.Router.{Router, take_effects}

-- The code that the gateway runs on: the codec of the game, strings.ToLower, equipmentAliases in the
-- order of its range, time.Format, %q and %f of fmt, and the decoder of the model's answers.
pub record Platform : Type 0 where
  pub charset : Charset
  pub lower : Text → Text
  pub aliases : Map (List Text)
  pub format_time : ℕ → Text
  pub quote : Text → Text
  pub seconds : ℕ → Text
  pub decode : Text → Json

-- The registered endpoints, each with its decoded request and with what its handler meets outside:
-- the database, the dial, the taking over of the connection.
pub data Request {κ} (M : Type κ) : Type κ where
  get_health get_session_status get_suggestions_latest post_suggestions_cancel : Request M
  post_session_disconnect get_metrics : Request M
  get_state_snapshot : M → Request M
  post_session_connect : Option SessionConnectRequest → Option ℕ → Request M
  post_commands_enqueue : Option Text → Request M
  get_terminal_websocket : UpgradeRequest → Hijacking → Request M

-- What the client gets: JSON, the metrics page, nothing, or a WebSocket with this client of the hub.
pub data Answer : Type 0 where
  json : Reply → Answer
  page : ℕ × Text → Answer
  gave_up : Answer
  opened : ℕ → Answer

abbrev pub answer_of : Handshake → Answer
answer_of (answered r) = json r
answer_of aborted = gave_up
answer_of (attached i) = opened i

module _ {ℓ} {S : Type ℓ} where
  abbrev pub answers_json : Router S → Manager × Reply → Router S × Answer
  answers_json r (m, reply) = (record r { manager = m }, json reply)

  abbrev shakes : Router S → Manager × Handshake → Router S × Answer
  shakes r (m, shake) = (record r { manager = m }, answer_of shake)

  -- The handler of an endpoint, for a request of this identity.
  unfoldable pub handle {κ} :
      {M : Type κ}
      → StateService S M
      → Platform
      → Text
      → Clock
      → Request M
      → Router S
      → Router S × Answer
  unfolding handle_session_connect handle_session_disconnect handle_session_status
      handle_enqueue_command handle_health handle_state_snapshot handle_suggestions_latest
      handle_suggestions_cancel handle_metrics open_terminal
  handle service p id clock get_health r = (r, json (handle_health id clock.stamp r.cfg))
  handle service p id clock get_session_status r =
      answers_json r (handle_session_status p.format_time id clock r.manager)
  handle service p id clock (get_state_snapshot now) r =
      (r, json (handle_state_snapshot id clock.stamp (service.load now r.state)))
  handle service p id clock get_suggestions_latest r =
      (r, json (handle_suggestions_latest p.format_time id clock.stamp r.suggestions.service))
  handle service p id clock post_suggestions_cancel r =
      (r, json (handle_suggestions_cancel id clock.stamp r.suggestions.service))
  handle service p id clock (post_session_connect body dialed) r =
      answers_json r (handle_session_connect p.format_time id body dialed clock r.manager)
  handle service p id clock post_session_disconnect r =
      answers_json r (handle_session_disconnect p.format_time id clock r.manager)
  handle service p id clock (post_commands_enqueue body) r =
      answers_json r (handle_enqueue_command id body clock r.manager)
  handle service p id clock (get_terminal_websocket req outcome) r =
      shakes r (open_terminal nobody p.lower id req outcome clock r.manager)
  handle service p id clock get_metrics r =
      (r, page (handle_metrics p.quote p.seconds r.manager.metrics))

-- The goroutine that reads a connection.
pub record Reader : Type 0 where
  pub session_id : Text
  pub filter : TelnetFilter

-- A Connect without an error starts a reader for the status that it returns.
unfoldable pub start_reader : Status × Option GatewayError → List Reader → List Reader
start_reader (st, none) rs =
    record { session_id = st.session_id; filter = record { state = state_data } } ∷ rs
start_reader (st, some err) rs = rs

unfoldable pub start_readers {κ} :
    {M : Type κ} → Request M → Clock → Manager → List Reader → List Reader
unfolding start_reader connect
start_readers (post_session_connect (some req) dialed) clock m rs =
    if is_blank req.host || not_positive req.port
    then rs
    else start_reader (connect dialed req.host req.port clock m).1 rs
start_readers request clock m rs = rs

-- The routed program: the router, the readers that run, and the jobs whose goroutine began.
pub record App {ℓ} (S : Type ℓ) : Type ℓ where
  pub router : Router S
  pub readers : List Reader
  pub begun : List (Text × ℕ)

-- A request from its number to its answer; `id_stamp` is the time in its identity.
unfoldable pub serve {ℓ κ} :
    {S : Type ℓ} {M : Type κ}
    → StateService S M
    → Platform
    → Text
    → Clock
    → Request M
    → App S
    → App S × Answer
unfolding next_request_id handle start_readers
serve service p id_stamp clock request a =
    let (counter, id) = next_request_id id_stamp a.router.counter in
    let (r, answer) = handle service p id clock request (record a.router { counter = counter }) in
    (
      record a { router = r; readers = start_readers request clock a.router.manager a.readers },
      answer,
    )
