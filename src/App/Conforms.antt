-- ===== src/App/Conforms.antt =====
-- The answers of the handlers against the API description.
use arda_wed_gateway.Base.{ℕ, refl, ap, ◌||◌, not, Option, none, some, [], ◌∷◌, if_cases}
use arda_wed_gateway.Base.Text.{Text, text_eq}
use arda_wed_gateway.Base.Text.Space.{is_blank}
use arda_wed_gateway.State.{Loaded, load_error, not_found, found}
use arda_wed_gateway.State.Service.{StateService}
use arda_wed_gateway.Suggestions.{Service}
use arda_wed_gateway.Gateway.Manager
use arda_wed_gateway.Gateway.Manager.{
  Clock, Status, Manager, GatewayError, session_already_connected,
}
use arda_wed_gateway.Gateway.Manager.Commands.{enqueue}
use arda_wed_gateway.Gateway.Manager.Disconnect.{manual_disconnect}
use arda_wed_gateway.Http.Response
use arda_wed_gateway.Http.Response.{
  Value, text, texts, number, flag, Fields, Payload, session_status, enqueued, health, snapshot,
  fields, Body, success, error, Reply, write_success,
}
use arda_wed_gateway.Http.Session.{
  SessionConnectRequest, to_session_status_payload, not_positive, invalid_request, internal_error,
  connect_reply, handle_session_connect, disconnect_reply, handle_session_disconnect,
  handle_session_status, enqueue_reply, handle_enqueue_command, handle_health,
}
use arda_wed_gateway.Http.Views.{
  status, handle_state_snapshot, handle_suggestions_latest, handle_suggestions_cancel,
}
use arda_wed_gateway.Http.Page.{handle_metrics}
use arda_wed_gateway.Http.Terminal.{
  Others, nobody, UpgradeRequest, Hijacking, Handshake, unsupported, hijack_fails, upgrade_fails,
  upgraded, asks_upgrade, take_over, open_terminal,
}
use arda_wed_gateway.Http.Router.{Router}
use arda_wed_gateway.App.{
  Platform, Request, get_health, get_session_status, get_suggestions_latest,
  post_suggestions_cancel, post_session_disconnect, get_metrics, get_state_snapshot,
  post_session_connect, post_commands_enqueue, get_terminal_websocket, json, answer_of, handle,
}
use arda_wed_gateway.App.Contract.{
  enqueue_payload, state_snapshot_or_empty, suggestion_latest, responds, upgrades, contract_of,
  has_schema, is_empty_object, is_documented, body_fits, is_error, Conforms,
}
use arda_wed_gateway.Http.Encoded.{snapshot_properties, properties_of}
use arda_wed_gateway.App.Fits.{session_status-fits, snapshot-fits, fits_nothing, latest-fits}

connect_reply-Conforms :
    (f : ℕ → Text) (id stamp : Text) (req : SessionConnectRequest) (st : Status)
    (err : Option GatewayError)
    → Conforms id
        (contract_of {M = ℕ} (post_session_connect none none))
        (json (connect_reply f id stamp req st err))
unfolding contract_of is_documented body_fits has_schema properties_of connect_reply write_success
    Response.write_error internal_error text_eq
connect_reply-Conforms f id stamp req st none =
    (refl, session_status-fits (to_session_status_payload f st), refl)
connect_reply-Conforms f id stamp req st (some session_already_connected) = (refl, refl, refl)
connect_reply-Conforms f id stamp req st (some _) = (refl, refl, refl)

-- A router of every state, and every request with every outcome outside the program.
connect-Conforms :
    (f : ℕ → Text) (id : Text) (body : Option SessionConnectRequest) (dialed : Option ℕ)
    (clock : Clock) (m : Manager)
    → Conforms id
        (contract_of {M = ℕ} (post_session_connect body dialed))
        (json (handle_session_connect f id body dialed clock m).1)
unfolding contract_of handle_session_connect
connect-Conforms f id none dialed clock m =
    unfold contract_of is_documented body_fits invalid_request Response.write_error text_eq in
    (refl, refl, refl)
connect-Conforms f id (some req) dialed clock m =
    if_cases
      (λ (r : Manager × Reply).
        Conforms id (contract_of {M = ℕ} (post_session_connect none none)) (json r.1))
      (is_blank req.host || not_positive req.port)
      (λ e.
        unfold contract_of is_documented body_fits invalid_request Response.write_error text_eq in
        (refl, refl, refl))
      (λ e. connect_reply-Conforms f id clock.stamp req _ _)

disconnect_reply-Conforms :
    (f : ℕ → Text) (id stamp : Text) (st : Status) (err : Option GatewayError)
    → Conforms id
        (contract_of {M = ℕ} post_session_disconnect)
        (json (disconnect_reply f id stamp st err))
unfolding contract_of is_documented body_fits has_schema properties_of disconnect_reply
    write_success Response.write_error internal_error text_eq
disconnect_reply-Conforms f id stamp st none =
    (refl, session_status-fits (to_session_status_payload f st), refl)
disconnect_reply-Conforms f id stamp st (some session_already_connected) = (refl, refl, refl)
disconnect_reply-Conforms f id stamp st (some _) = (refl, refl, refl)

enqueue_reply-Conforms :
    (id stamp : Text) (st : Status) (err : Option GatewayError)
    → Conforms id (responds enqueue_payload none) (json (enqueue_reply id stamp st err))
unfolding is_documented body_fits enqueue_reply write_success Response.write_error internal_error
    text_eq
enqueue_reply-Conforms id stamp st none = (refl, refl, refl)
enqueue_reply-Conforms id stamp st (some session_already_connected) = (refl, refl, refl)
enqueue_reply-Conforms id stamp st (some _) = (refl, refl, refl)

enqueue-Conforms :
    (id : Text) (body : Option Text) (clock : Clock) (m : Manager)
    → Conforms id (responds enqueue_payload none) (json (handle_enqueue_command id body clock m).1)
unfolding handle_enqueue_command
enqueue-Conforms id none clock m =
    unfold is_documented body_fits invalid_request Response.write_error text_eq in
    (refl, refl, refl)
enqueue-Conforms id (some command) clock m =
    let r = (enqueue command clock m).1 in enqueue_reply-Conforms id clock.stamp r.0 r.1

snapshot-Conforms :
    (id stamp : Text) (l : Loaded)
    → Conforms id
        (responds state_snapshot_or_empty (some (500 ∷ [])))
        (json (handle_state_snapshot id stamp l))
unfolding is_documented body_fits is_empty_object handle_state_snapshot write_success internal_error
    Response.write_error text_eq
snapshot-Conforms id stamp load_error = (refl, refl, refl)
snapshot-Conforms id stamp not_found = (refl, refl, refl)
snapshot-Conforms id stamp (found s) = (
  refl,
  unfold has_schema properties_of in
      rw (snapshot-fits s) (ap not (fits_nothing (snapshot_properties s))),
  refl,
)

latest-Conforms :
    (f : ℕ → Text) (id stamp : Text) (s : Service)
    → Conforms id
        (responds suggestion_latest (some []))
        (json (handle_suggestions_latest f id stamp s))
unfolding is_documented body_fits handle_suggestions_latest write_success text_eq
latest-Conforms f id stamp s =
    (refl, unfold has_schema properties_of in latest-fits (status f s) s.latest, refl)

abbrev IsUpgraded : Text → Manager × Handshake → Type 0
IsUpgraded id r = Conforms id upgrades (answer_of r.1)

take_over-Conforms :
    (others : Others) (id : Text) (outcome : Hijacking) (clock : Clock) (m : Manager)
    → IsUpgraded id (take_over others id outcome clock m)
unfolding take_over is_error internal_error Response.write_error text_eq
take_over-Conforms others id unsupported clock m = (refl, refl)
take_over-Conforms others id hijack_fails clock m = tt
take_over-Conforms others id upgrade_fails clock m = tt
take_over-Conforms others id upgraded clock m = tt

open-Conforms :
    (others : Others) (lower : Text → Text) (id : Text) (req : UpgradeRequest) (outcome : Hijacking)
    (clock : Clock) (m : Manager)
    → IsUpgraded id (open_terminal others lower id req outcome clock m)
unfolding open_terminal
open-Conforms others lower id req outcome clock m =
    if_cases (IsUpgraded id) (not (asks_upgrade lower req))
      (λ e. unfold is_error invalid_request Response.write_error text_eq in (refl, refl))
      (λ e.
        if_cases (IsUpgraded id) (is_blank req.key)
          (λ e. unfold is_error invalid_request Response.write_error text_eq in (refl, refl))
          (λ e. take_over-Conforms others id outcome clock m))

-- Whatever a request asks, in every state of the gateway and whatever the dial, the database and the
-- taking over of the connection come to, the answer carries the identity of its request and is one
-- that the API description has for the endpoint: with status 200 every property that its schema
-- requires, and none but those it names, each with a value of the kind it gives, or else an error of a
-- listed status with one of the listed codes. The one exception is the state: an object without
-- properties, and no other answer, fails its schema, which is exactly one of two that both accept it.
-- The WebSocket endpoint upgrades, gives the connection up, or answers with an error; the metrics
-- page, which the description leaves out, has status 200.
pub handle-Conforms {ℓ κ} :
    {S : Type ℓ} {M : Type κ} (service : StateService S M) (p : Platform) (id : Text)
    (clock : Clock) (request : Request M) (r : Router S)
    → Conforms id (contract_of request) (handle service p id clock request r).1
unfolding handle contract_of
handle-Conforms service p id clock get_health r =
    unfold is_documented body_fits handle_health write_success text_eq in (refl, refl, refl)
handle-Conforms service p id clock get_session_status r =
    unfold is_documented body_fits has_schema properties_of handle_session_status write_success in
    (
      refl,
      session_status-fits
          (to_session_status_payload p.format_time (Manager.status clock r.manager).1),
      refl,
    )
handle-Conforms service p id clock get_suggestions_latest r =
    latest-Conforms p.format_time id clock.stamp r.suggestions.service
handle-Conforms service p id clock post_suggestions_cancel r =
    unfold is_documented body_fits handle_suggestions_cancel write_success text_eq in
    (refl, refl, refl)
handle-Conforms service p id clock post_session_disconnect r =
    let result = (manual_disconnect clock r.manager).1 in
    unfold handle_session_disconnect in
    disconnect_reply-Conforms p.format_time id clock.stamp result.0 result.2
handle-Conforms service p id clock get_metrics r = unfold handle_metrics in refl
handle-Conforms service p id clock (get_state_snapshot now) r =
    snapshot-Conforms id clock.stamp (service.load now r.state)
handle-Conforms service p id clock (post_session_connect body dialed) r =
    connect-Conforms p.format_time id body dialed clock r.manager
handle-Conforms service p id clock (post_commands_enqueue body) r =
    enqueue-Conforms id body clock r.manager
handle-Conforms service p id clock (get_terminal_websocket req outcome) r =
    open-Conforms nobody p.lower id req outcome clock r.manager
