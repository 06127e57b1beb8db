-- ===== src/Http/Session.antt =====
-- session.go, health.go: the handlers of the session and of the queue. A body that encoding/json
-- decodes is an argument, `none` where it returns an error; `format_time` is time.Format.
use arda_wed_gateway.Base.{
  ℕ, zero, suc, Bool, true, false, ◌||◌, Option, none, some, [], ◌∷◌, ◌==◌, if◌then◌else◌,
}
use arda_wed_gateway.Base.Text.{Text, codes}
use arda_wed_gateway.Base.Text.Space.{is_blank}
use arda_wed_gateway.Base.Word.{ℤ, pos, negsuc}
use arda_wed_gateway.Config.{Config}
use arda_wed_gateway.Gateway.Manager.{
  GatewayError, session_already_connected, session_not_connected, upstream_unavailable, queue_full,
  Clock, Status, Manager, connect,
}
use arda_wed_gateway.Gateway.Manager
use arda_wed_gateway.Gateway.Manager.Disconnect.{manual_disconnect}
use arda_wed_gateway.Gateway.Manager.Commands.{enqueue}
use arda_wed_gateway.Http.Response.{
  text, number, Fields, session_status, enqueued, health, SessionStatusPayload, Reply,
  write_success, write_error,
}

pub record SessionConnectRequest : Type 0 where
  pub host : Text
  pub port : ℤ
  pub credential_alias : Text

-- A last activity of 0 is Go's zero time.
unfoldable pub to_session_status_payload : (ℕ → Text) → Status → SessionStatusPayload
to_session_status_payload format_time st = record {
  session_id = st.session_id;
  connected = st.connected;
  queue_depth = st.queue_depth;
  queue_max = st.queue_max;
  last_activity_at = if st.last_activity == 0 then [] else format_time st.last_activity;
}

abbrev pub not_positive : ℤ → Bool
not_positive (pos zero) = true
not_positive (pos (suc n)) = false
not_positive (negsuc n) = true

abbrev pub session_details : Status → Fields
session_details st = (codes "session_id", text st.session_id) ∷ []

unfoldable pub invalid_request : Text → Text → Text → Reply
unfolding write_error
invalid_request id stamp message = write_error id stamp 400 (codes "INVALID_REQUEST") message []

unfoldable pub internal_error : Text → Text → Text → Reply
unfolding write_error
internal_error id stamp message = write_error id stamp 500 (codes "INTERNAL_ERROR") message []

-- The reply for what Connect returned.
unfoldable pub connect_reply :
    (ℕ → Text) → Text → Text → SessionConnectRequest → Status → Option GatewayError → Reply
unfolding write_error write_success internal_error to_session_status_payload
connect_reply format_time id stamp req st none =
    write_success id stamp 200 (session_status (to_session_status_payload format_time st))
connect_reply format_time id stamp req st (some session_already_connected) =
    write_error id stamp 409 (codes "SESSION_ALREADY_CONNECTED")
      (codes "session is already connected") (session_details st)
connect_reply format_time id stamp req st (some upstream_unavailable) =
    write_error id stamp 502 (codes "UPSTREAM_UNAVAILABLE") (codes "failed to reach upstream host")
      ((codes "host", text req.host) ∷ (codes "port", number req.port) ∷ [])
connect_reply format_time id stamp req st (some err) =
    internal_error id stamp (codes "failed to connect session")

-- `dialed` is what the dial returns, if it comes to it.
unfoldable pub handle_session_connect :
    (ℕ → Text) → Text → Option SessionConnectRequest → Option ℕ → Clock → Manager → Manager × Reply
unfolding connect_reply invalid_request
handle_session_connect format_time id none dialed clock m =
    (m, invalid_request id clock.stamp (codes "invalid JSON body"))
handle_session_connect format_time id (some req) dialed clock m =
    if is_blank req.host || not_positive req.port
    then (m, invalid_request id clock.stamp (codes "host and port are required"))
    else (let (m1, (st, err)) = connect dialed req.host req.port clock m in
        (m1, connect_reply format_time id clock.stamp req st err))

unfoldable pub disconnect_reply : (ℕ → Text) → Text → Text → Status → Option GatewayError → Reply
unfolding write_error write_success internal_error to_session_status_payload
disconnect_reply format_time id stamp st none =
    write_success id stamp 200 (session_status (to_session_status_payload format_time st))
disconnect_reply format_time id stamp st (some session_not_connected) =
    write_error id stamp 409 (codes "SESSION_NOT_CONNECTED") (codes "session is not connected")
      (session_details st)
disconnect_reply format_time id stamp st (some err) =
    internal_error id stamp (codes "failed to disconnect session")

unfoldable pub handle_session_disconnect : (ℕ → Text) → Text → Clock → Manager → Manager × Reply
unfolding disconnect_reply
handle_session_disconnect format_time id clock m =
    let (m1, (st, dropped, err)) = manual_disconnect clock m in
    (m1, disconnect_reply format_time id clock.stamp st err)

unfoldable pub handle_session_status : (ℕ → Text) → Text → Clock → Manager → Manager × Reply
unfolding write_success to_session_status_payload
handle_session_status format_time id clock m =
    let (m1, st) = Manager.status clock m in
    (
      m1,
      write_success id clock.stamp 200 (session_status (to_session_status_payload format_time st)),
    )

unfoldable pub enqueue_reply : Text → Text → Status → Option GatewayError → Reply
unfolding write_error write_success internal_error
enqueue_reply id stamp st none =
    write_success id stamp 200 (
      enqueued (record { accepted = true; queue_depth = st.queue_depth; queue_max = st.queue_max }))
enqueue_reply id stamp st (some session_not_connected) =
    write_error id stamp 409 (codes "SESSION_NOT_CONNECTED") (codes "session is not connected")
      (session_details st)
enqueue_reply id stamp st (some queue_full) =
    write_error id stamp 429 (codes "QUEUE_FULL") (codes "command queue is full") (
      (codes "session_id", text st.session_id)
      ∷ (codes "queue_depth", number (pos st.queue_depth))
      ∷ (codes "queue_max", number (pos st.queue_max))
      ∷ [])
enqueue_reply id stamp st (some err) = internal_error id stamp (codes "failed to enqueue command")

-- The decoded request is its command.
unfoldable pub handle_enqueue_command : Text → Option Text → Clock → Manager → Manager × Reply
unfolding enqueue_reply invalid_request
handle_enqueue_command id none clock m =
    (m, invalid_request id clock.stamp (codes "invalid JSON body"))
handle_enqueue_command id (some command) clock m =
    let (m1, (st, err)) = enqueue command clock m in (m1, enqueue_reply id clock.stamp st err)

unfoldable pub handle_health : Text → Text → Config → Reply
unfolding write_success
handle_health id stamp cfg = write_success id stamp 200 (
    health (record { status = codes "ok"; version = cfg.build_version; commit = cfg.build_commit }))
