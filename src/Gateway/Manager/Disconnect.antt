-- ===== src/Gateway/Manager/Disconnect.antt =====
-- manager.go: disconnect, in its two halves, and the calls that lead to it.
use arda_wed_gateway.Base.{
  ℕ, Bool, true, false, not, ◌&&◌, Option, none, some, List, [], ◌∷◌, ◌++◌, if◌then◌else◌,
}
use arda_wed_gateway.Base.Text.{Text, codes, decimal, text_eq}
use arda_wed_gateway.Base.Word.{pos}
use arda_wed_gateway.Gateway.Event.{TerminalEvent}
use arda_wed_gateway.Gateway.Queue.{stop_and_drop}
use arda_wed_gateway.Gateway.Manager.{
  GatewayError, session_not_connected, Clock, Status, Session, Manager, Effect, closes, broadcast,
  status_of, ensure_session,
}

-- What the locked half of disconnect decides: return now, with an error or without; or go on to close
-- this connection and stop the queue, and report this status.
pub data Verdict : Type 0 where
  returns : Status → Option GatewayError → Verdict
  proceeds : Status → Option ℕ → Verdict

-- The locked half. `expected` is the session that the caller means, empty for any.
unfoldable pub disconnect_begin : Text → Bool → Clock → Manager → Manager × Verdict
unfolding ensure_session status_of
disconnect_begin expected fail_if_not_connected clock m =
    let (s, m1) = ensure_session clock.now m in
    if not s.connected
    then (
      m1,
      returns (status_of s) (if fail_if_not_connected then some session_not_connected else none),
    )
    else (if not (text_eq expected []) && not (text_eq s.id expected)
        then (m1, returns (status_of s) none)
        else (let s1 : Session = record s {
          conn = none;
          connected = false;
          last_activity = clock.now;
        } in
            (record m1 { session = some s1 }, proceeds (status_of s1) s.conn)))

unfoldable pub close_conn : Option ℕ → List Effect → List Effect
close_conn none l = l
close_conn (some c) l = closes c ∷ l

-- `queue.StopAndDrop()`: the session is never replaced, so it still holds the queue.
unfoldable pub stop_session : Option Session → Manager → Manager × ℕ
unfolding stop_and_drop
stop_session none m = (m, 0)
stop_session (some s) m =
    let (metrics, queue, dropped) = stop_and_drop m.metrics s.queue in
    (record m { session = some (record s { queue = queue }); metrics = metrics }, dropped)

unfoldable pub disconnected_event : Text → Status → ℕ → Text → TerminalEvent
disconnected_event reason st dropped stamp = record {
  event = codes "session.disconnected";
  session_id = st.session_id;
  connected = false;
  text = reason ++ (codes ", dropped_unsent=" ++ decimal (pos dropped));
  queue_depth = 0;
  queue_max = st.queue_max;
  queue_reject_code = [];
  timestamp = stamp;
}

-- The half behind the lock.
unfoldable pub disconnect_finish :
    Text → Status → Option ℕ → Clock → Manager → Manager × (Status × ℕ)
unfolding stop_session close_conn disconnected_event
disconnect_finish reason st conn clock m =
    let (m1, dropped) = stop_session m.session (record m { effects = close_conn conn m.effects }) in
    (
      broadcast (disconnected_event reason st dropped clock.stamp) m1,
      (record st { queue_depth = 0 }, dropped),
    )

-- What follows the locked half.
unfoldable pub disconnect_rest :
    Text → Clock → Manager × Verdict → Manager × (Status × ℕ × Option GatewayError)
unfolding disconnect_finish
disconnect_rest reason clock (m, returns st err) = (m, (st, 0, err))
disconnect_rest reason clock (m, proceeds st conn) =
    let (m1, (st1, dropped)) = disconnect_finish reason st conn clock m in
    (m1, (st1, dropped, none))

-- disconnect, with nothing between its halves.
unfoldable pub disconnect :
    Text → Text → Bool → Clock → Manager → Manager × (Status × ℕ × Option GatewayError)
unfolding disconnect_begin disconnect_rest
disconnect expected reason fail_if_not_connected clock m =
    disconnect_rest reason clock (disconnect_begin expected fail_if_not_connected clock m)

-- Disconnect
unfoldable pub manual_disconnect : Clock → Manager → Manager × (Status × ℕ × Option GatewayError)
unfolding disconnect
manual_disconnect clock m = disconnect [] (codes "manual disconnect") true clock m

-- The error of a read that ended the connection: io.EOF, or another with its message.
pub data ReadFailure : Type 0 where
  eof : ReadFailure
  failure : Text → ReadFailure

pub disconnect_reason : ReadFailure → Text
disconnect_reason eof = codes "upstream disconnected"
disconnect_reason (failure message) = codes "upstream disconnected: " ++ message

unfoldable pub handle_upstream_disconnect : Text → ReadFailure → Clock → Manager → Manager
unfolding disconnect disconnect_reason
handle_upstream_disconnect session_id err clock m =
    (disconnect session_id (disconnect_reason err) false clock m).0
